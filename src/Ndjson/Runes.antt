-- ===== src/Ndjson/Runes.antt =====
-- What the reader makes of the escape of a byte and of the bytes of a rune.
use tamarackdb.Prelude.{
  ℕ, ◌+◌, ◌-◌, ◌*◌, ◌≤◌, ◌<◌, ◌≡◌, refl, ap, Bool, true, false, ◌&&◌, ◌||◌, [], ◌∷◌, Option, none,
  some, arith, eqb, take, All, if◌then◌else◌,
}
use tamarackdb.Prelude.Eq.{Bytes, bytes_beq, bytes_beq_iff}
use tamarackdb.Names.Rules.{tried, tried_at}
use tamarackdb.Ndjson.{
  rune_error, line_separator, paragraph_separator, between, invalid_rune, two_bytes, three_bytes,
  four_bytes, is_plain, escape,
}
use tamarackdb.Ndjson.Reader.{Reading, in_text, after_backslash, after_digits, move, run_moves}

-- Bytes within a string that stand for one byte.
abbrev is_meant : ℕ → Option (Reading × Bytes) → Bool
is_meant b (some (in_text, m)) = bytes_beq m (b ∷ [])
is_meant b _ = false

-- The escape of an ASCII byte, tried at each of them.
escape_known : ℕ → Bool
escape_known b = is_plain b || is_meant b (run_moves in_text (escape b))

escape_table : tried escape_known 128 ≡ true
unfolding tried escape_known is_plain escape run_moves move bytes_beq
escape_table = refl

meant-eq : (b : ℕ) (o : Option (Reading × Bytes)) → is_meant b o ≡ true → o ≡ some (in_text, b ∷ [])
meant-eq b none h = absurd (ground (arith, h))
meant-eq b (some (in_text, m)) h = ap (λ x. some (in_text, x)) ((bytes_beq_iff m (b ∷ [])).0 h)
meant-eq b (some (after_backslash, m)) h = absurd (ground (arith, h))
meant-eq b (some (after_digits n c, m)) h = absurd (ground (arith, h))

pub escape_read_back :
    (b : ℕ) → b < 128 → is_plain b ≡ false → run_moves in_text (escape b) ≡ some (in_text, b ∷ [])
escape_read_back b small special =
    meant-eq b (run_moves in_text (escape b))
      (known (tried_at escape_known 128 b small escape_table))
  where
    known : escape_known b ≡ true → is_meant b (run_moves in_text (escape b)) ≡ true
    known h = unfold escape_known in ground (arith, h, special)

pub plain_read_back :
    (b : ℕ) → is_plain b ≡ true → run_moves in_text (b ∷ []) ≡ some (in_text, b ∷ [])
unfolding is_plain run_moves move
plain_read_back b h = ground (arith, h)

-- Bytes above ASCII stand for themselves.
pub high_read_back :
    (xs : Bytes) → All (λ b. 0x80 ≤ b) xs → run_moves in_text xs ≡ some (in_text, xs)
unfolding run_moves move
high_read_back [] h = refl
high_read_back (b ∷ xs) (here, rest) = ground (arith, here, high_read_back xs rest)

-- A rune that is not an error: its bytes are above ASCII, and the separators have their three bytes.
pub record GoodRune (b : ℕ) (rest : Bytes) (r : ℕ × ℕ) : Type 0 where
  pub high : All (λ x. 0x80 ≤ x) (take r.1 (b ∷ rest))
  pub positive : 1 ≤ r.1
  pub line : r.0 ≡ line_separator → take r.1 (b ∷ rest) ≡ 0xe2 ∷ 0x80 ∷ 0xa8 ∷ []
  pub paragraph : r.0 ≡ paragraph_separator → take r.1 (b ∷ rest) ≡ 0xe2 ∷ 0x80 ∷ 0xa9 ∷ []

abbrev pub is_error : ℕ × ℕ → Bool
is_error r = eqb r.0 rune_error && eqb r.1 1

pub two_bytes-GoodRune :
    (b : ℕ) (rest : Bytes)
    → between 0xc2 0xdf b ≡ true
    → is_error (two_bytes b rest) ≡ false
    → GoodRune b rest (two_bytes b rest)
two_bytes-GoodRune b [] h e = absurd (ground (arith, e))
two_bytes-GoodRune b (b1 ∷ rest) h e = by_range (between 0x80 0xbf b1) refl e
  where
    by_range :
        (x : Bool)
        → between 0x80 0xbf b1 ≡ x
        → is_error (if x then ((b - 0xc0) * 64 + (b1 - 0x80), 2) else invalid_rune) ≡ false
        → GoodRune b (b1 ∷ rest) (if x then ((b - 0xc0) * 64 + (b1 - 0x80), 2) else invalid_rune)
    by_range true inside e = record {
      high = (ground (arith, h), (ground (arith, inside), tt));
      positive = omega arith;
      line = λ k. absurd (ground (arith, h, inside, k));
      paragraph = λ k. absurd (ground (arith, h, inside, k));
    }
    by_range false outside e = absurd (ground (arith, e))

-- The bytes of a rune of three bytes are those of its code point.
three_of :
    (b b1 b2 n : ℕ)
    → between 0xe0 0xef b ≡ true
    → 0x80 ≤ b1
    → b1 ≤ 0xbf
    → 0x80 ≤ b2
    → b2 ≤ 0xbf
    → (b - 0xe0) * 4096 + (b1 - 0x80) * 64 + (b2 - 0x80) ≡ 0x2028 + n
    → n < 2
    → (b ≡ 0xe2) × (b1 ≡ 0x80) × (b2 ≡ 0xa8 + n)
three_of b b1 b2 n h l1 u1 l2 u2 k small =
    let first : b ≡ 0xe2 = ground (arith, h, l1, u1, l2, u2, k, small) in
    let second : b1 ≡ 0x80 = omega (arith, first, l1, u1, l2, u2, k, small) in
    (first, second, omega (arith, first, second, l2, k))

pub three_bytes-GoodRune :
    (b : ℕ) (rest : Bytes)
    → between 0xe0 0xef b ≡ true
    → is_error (three_bytes b rest) ≡ false
    → GoodRune b rest (three_bytes b rest)
three_bytes-GoodRune b [] h e = absurd (ground (arith, e))
three_bytes-GoodRune b (b1 ∷ []) h e = absurd (ground (arith, e))
three_bytes-GoodRune b (b1 ∷ b2 ∷ rest) h e = by_range in_range refl e
  where
    in_range : Bool
    in_range =
        between (if eqb b 0xe0 then 0xa0 else 0x80) (if eqb b 0xed then 0x9f else 0xbf) b1
        && between 0x80 0xbf b2

    c : ℕ
    c = (b - 0xe0) * 4096 + (b1 - 0x80) * 64 + (b2 - 0x80)

    by_range :
        (x : Bool)
        → in_range ≡ x
        → is_error (if x then (c, 3) else invalid_rune) ≡ false
        → GoodRune b (b1 ∷ b2 ∷ rest) (if x then (c, 3) else invalid_rune)
    by_range true inside e =
        let l1 : 0x80 ≤ b1 = ground (arith, inside) in
        let u1 : b1 ≤ 0xbf = ground (arith, inside) in
        let l2 : 0x80 ≤ b2 = ground (arith, inside) in
        let u2 : b2 ≤ 0xbf = ground (arith, inside) in
        record {
          high = (ground (arith, h), (l1, (l2, tt)));
          positive = omega arith;
          line = λ k.
              let (p, q, r) = three_of b b1 b2 0 h l1 u1 l2 u2 (omega (arith, k)) (omega arith) in
              ground (arith, p, q, r);
          paragraph = λ k.
              let (p, q, r) = three_of b b1 b2 1 h l1 u1 l2 u2 (omega (arith, k)) (omega arith) in
              ground (arith, p, q, r);
        }
    by_range false outside e = absurd (ground (arith, e))

pub four_bytes-GoodRune :
    (b : ℕ) (rest : Bytes)
    → between 0xf0 0xf4 b ≡ true
    → is_error (four_bytes b rest) ≡ false
    → GoodRune b rest (four_bytes b rest)
four_bytes-GoodRune b [] h e = absurd (ground (arith, e))
four_bytes-GoodRune b (b1 ∷ []) h e = absurd (ground (arith, e))
four_bytes-GoodRune b (b1 ∷ b2 ∷ []) h e = absurd (ground (arith, e))
four_bytes-GoodRune b (b1 ∷ b2 ∷ b3 ∷ rest) h e = by_range in_range refl e
  where
    in_range : Bool
    in_range =
        between (if eqb b 0xf0 then 0x90 else 0x80) (if eqb b 0xf4 then 0x8f else 0xbf) b1
        && (between 0x80 0xbf b2 && between 0x80 0xbf b3)

    c : ℕ
    c = (b - 0xf0) * 262144 + (b1 - 0x80) * 4096 + (b2 - 0x80) * 64 + (b3 - 0x80)

    above : in_range ≡ true → 0x10000 ≤ c
    above inside = ground (arith, h, inside)

    by_range :
        (x : Bool)
        → in_range ≡ x
        → is_error (if x then (c, 4) else invalid_rune) ≡ false
        → GoodRune b (b1 ∷ b2 ∷ b3 ∷ rest) (if x then (c, 4) else invalid_rune)
    by_range true inside e = record {
      high = (
        ground (arith, h),
        (ground (arith, inside), (ground (arith, inside), (ground (arith, inside), tt))),
      );
      positive = omega arith;
      line = λ k. absurd (omega (arith, k, above inside));
      paragraph = λ k. absurd (omega (arith, k, above inside));
    }
    by_range false outside e = absurd (ground (arith, e))
