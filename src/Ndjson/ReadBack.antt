-- ===== src/Ndjson/ReadBack.antt =====
-- What is read of a string that AppendString wrote.
use mathlib.Core.List.{append_assoc}
use tamarackdb.Prelude.{
  ℕ, zero, suc, ◌%◌, ◌≤◌, ◌≡◌, refl, sym, ap, subst, ◌∙◌, Bool, true, false, ◌||◌, [], ◌∷◌, ◌++◌,
  some, arith, ltb, eqb, length, length-drop_le, take, drop, Bool-cases, inl, inr, if◌then◌else◌,
}
use tamarackdb.Prelude.Eq.{Bytes, bytes}
use tamarackdb.Ndjson.{
  rune_self, line_separator, paragraph_separator, between, invalid_rune, two_bytes, three_bytes,
  four_bytes, decode_rune, hex_digit, is_plain, escape, append_string,
}
use tamarackdb.Ndjson.Pieces.{piece, pieces, rune_piece, append_string-pieces}
use tamarackdb.Ndjson.Reader.{
  in_text, read_text, read_string, run_moves, move, prepend, read_text-append,
}
use tamarackdb.Ndjson.Runes.{
  escape_read_back, plain_read_back, high_read_back, GoodRune, is_error, two_bytes-GoodRune,
  three_bytes-GoodRune, four_bytes-GoodRune,
}

-- A string with U+FFFD for each byte that is part of no valid rune.
pub data Sanitized : Bytes → Bytes → Type 0 where
  nothing_left : Sanitized [] []
  ascii : (b : ℕ) (s v : Bytes) → ltb b rune_self ≡ true → Sanitized s v → Sanitized (b ∷ s) (b ∷ v)
  replaced :
      (b : ℕ) (s v : Bytes)
      → ltb b rune_self ≡ false
      → decode_rune b s ≡ invalid_rune
      → Sanitized s v
      → Sanitized (b ∷ s) (0xef ∷ 0xbf ∷ 0xbd ∷ v)
  valid_rune :
      (b : ℕ) (s v : Bytes)
      → ltb b rune_self ≡ false
      → is_error (decode_rune b s) ≡ false
      → Sanitized (drop (decode_rune b s).1 (b ∷ s)) v
      → Sanitized (b ∷ s) (take (decode_rune b s).1 (b ∷ s) ++ v)

decode_rune-GoodRune :
    (b : ℕ) (rest : Bytes)
    → ltb b rune_self ≡ false
    → is_error (decode_rune b rest) ≡ false
    → GoodRune b rest (decode_rune b rest)
unfolding decode_rune
decode_rune-GoodRune b rest h e =
    by_first (ltb b rune_self) (between 0xc2 0xdf b) (between 0xe0 0xef b) (between 0xf0 0xf4 b) h
      refl refl refl e
  where
    chosen : Bool → Bool → Bool → Bool → ℕ × ℕ
    chosen w x y z =
        if w
        then (b, 1)
        else if x
        then two_bytes b rest
        else if y
        then three_bytes b rest
        else if z
        then four_bytes b rest
        else invalid_rune

    by_first :
        (w x y z : Bool)
        → w ≡ false
        → between 0xc2 0xdf b ≡ x
        → between 0xe0 0xef b ≡ y
        → between 0xf0 0xf4 b ≡ z
        → is_error (chosen w x y z) ≡ false
        → GoodRune b rest (chosen w x y z)
    by_first true x y z w p q r e = absurd (ground (arith, w))
    by_first false true y z w p q r e = two_bytes-GoodRune b rest p e
    by_first false false true z w p q r e = three_bytes-GoodRune b rest q e
    by_first false false false true w p q r e = four_bytes-GoodRune b rest r e
    by_first false false false false w p q r e = absurd (ground (arith, e))

-- A text that reads as what a string becomes, up to the closing quote.
abbrev ReadsAs : Bytes → Bytes → Bytes → Type 0
ReadsAs tail s text =
    (v : Bytes) × Sanitized s v × (read_text in_text (text ++ 0x22 ∷ tail) ≡ some (v, tail))

step :
    (fuel : ℕ) (tail s p left m : Bytes)
    → run_moves in_text p ≡ some (in_text, m)
    → ((v : Bytes) → Sanitized left v → Sanitized s (m ++ v))
    → ReadsAs tail left (pieces fuel left)
    → ReadsAs tail s (p ++ pieces fuel left)
step fuel tail s p left m runs grows (v, clean, reads) = (
  m ++ v,
  grows v clean,
  ap (read_text in_text) (append_assoc p (pieces fuel left) (0x22 ∷ tail))
      ∙ read_text-append in_text in_text p m (pieces fuel left ++ 0x22 ∷ tail) runs
      ∙ ap (prepend m) reads,
)

drop_shorter : (n : ℕ) (b : ℕ) (rest : Bytes) → 1 ≤ n → length (drop n (b ∷ rest)) ≤ length rest
drop_shorter zero b rest h = absurd (omega (arith, h))
drop_shorter (suc n) b rest h = length-drop_le n rest

closes : (tail : Bytes) → ReadsAs tail [] []
unfolding read_text move
closes tail = ([], nothing_left, refl)

replacement_read_back :
    run_moves in_text (bytes "\\ufffd") ≡ some (in_text, 0xef ∷ 0xbf ∷ 0xbd ∷ [])
unfolding run_moves move
replacement_read_back = refl

line_read_back :
    run_moves in_text (bytes "\\u202" ++ hex_digit (line_separator % 16) ∷ [])
    ≡ some (in_text, 0xe2 ∷ 0x80 ∷ 0xa8 ∷ [])
unfolding run_moves move
line_read_back = refl

paragraph_read_back :
    run_moves in_text (bytes "\\u202" ++ hex_digit (paragraph_separator % 16) ∷ [])
    ≡ some (in_text, 0xe2 ∷ 0x80 ∷ 0xa9 ∷ [])
unfolding run_moves move
paragraph_read_back = refl

separator_read_back :
    (b : ℕ) (rest : Bytes) (r : ℕ × ℕ)
    → GoodRune b rest r
    → (eqb r.0 line_separator || eqb r.0 paragraph_separator) ≡ true
    → run_moves in_text (bytes "\\u202" ++ hex_digit (r.0 % 16) ∷ [])
      ≡ some (in_text, take r.1 (b ∷ rest))
separator_read_back b rest r good h = elim (Bool-cases (eqb r.0 line_separator)) [
  | inl is_line ↦
      let k : r.0 ≡ line_separator = ground (arith, is_line) in
      ap (λ c. run_moves in_text (bytes "\\u202" ++ hex_digit (c % 16) ∷ [])) k
      ∙ line_read_back
      ∙ ap (λ m. some (in_text, m)) (sym (good.line k))
  | inr other ↦
      let k : r.0 ≡ paragraph_separator = ground (arith, h, other) in
      ap (λ c. run_moves in_text (bytes "\\u202" ++ hex_digit (c % 16) ∷ [])) k
      ∙ paragraph_read_back
      ∙ ap (λ m. some (in_text, m)) (sym (good.paragraph k))
]

module _ (fuel : ℕ) (tail : Bytes) (b : ℕ) (rest : Bytes) (high : ltb b rune_self ≡ false)
    (again : (s : Bytes) → length s ≤ length rest → ReadsAs tail s (pieces fuel s)) where
  rune_reads :
      (r : ℕ × ℕ)
      → decode_rune b rest ≡ r
      → ReadsAs tail (b ∷ rest) ((rune_piece b rest r).0 ++ pieces fuel (rune_piece b rest r).1)
  rune_reads (c, size) decoded =
      by_error (is_error (c, size)) (eqb c line_separator || eqb c paragraph_separator) refl refl
    where
      left : Bytes
      left = drop size (b ∷ rest)

      chosen : Bool → Bool → Bytes × Bytes
      chosen x y =
          if x
          then (bytes "\\ufffd", left)
          else if y
          then (bytes "\\u202" ++ hex_digit (c % 16) ∷ [], left)
          else (take size (b ∷ rest), left)

      good : is_error (c, size) ≡ false → GoodRune b rest (c, size)
      good e =
          subst (GoodRune b rest) decoded
            (decode_rune-GoodRune b rest high (ap is_error decoded ∙ e))

      grows :
          is_error (c, size) ≡ false
          → (v : Bytes) → Sanitized left v
          → Sanitized (b ∷ rest) (take size (b ∷ rest) ++ v)
      grows e v clean =
          subst (λ n. Sanitized (b ∷ rest) (take n (b ∷ rest) ++ v)) (ap (λ r. r.1) decoded)
            (valid_rune b rest v high (ap is_error decoded ∙ e)
              (subst (λ n. Sanitized (drop n (b ∷ rest)) v) (sym (ap (λ r. r.1) decoded)) clean))

      by_error :
          (x y : Bool)
          → is_error (c, size) ≡ x
          → (eqb c line_separator || eqb c paragraph_separator) ≡ y
          → ReadsAs tail (b ∷ rest) ((chosen x y).0 ++ pieces fuel (chosen x y).1)
      by_error true y e k =
          let one : size ≡ 1 = ground (arith, e) in
          let bad : decode_rune b rest ≡ invalid_rune = ground (arith, e, decoded) in
          step fuel tail (b ∷ rest) (bytes "\\ufffd") left (0xef ∷ 0xbf ∷ 0xbd ∷ [])
            replacement_read_back
            (λ v clean.
              replaced b rest v high bad (subst (λ n. Sanitized (drop n (b ∷ rest)) v) one clean))
            (again left (drop_shorter size b rest (omega (arith, one))))
      by_error false true e k =
          step fuel tail (b ∷ rest) (bytes "\\u202" ++ hex_digit (c % 16) ∷ []) left
            (take size (b ∷ rest)) (separator_read_back b rest (c, size) (good e) k) (grows e)
            (again left (drop_shorter size b rest (good e).positive))
      by_error false false e k =
          step fuel tail (b ∷ rest) (take size (b ∷ rest)) left (take size (b ∷ rest))
            (high_read_back (take size (b ∷ rest)) (good e).high) (grows e)
            (again left (drop_shorter size b rest (good e).positive))

piece_reads :
    (fuel : ℕ) (tail : Bytes) (b : ℕ) (rest : Bytes)
    → ((s : Bytes) → length s ≤ length rest → ReadsAs tail s (pieces fuel s))
    → ReadsAs tail (b ∷ rest) ((piece b rest).0 ++ pieces fuel (piece b rest).1)
unfolding piece
piece_reads fuel tail b rest again = by_byte (ltb b rune_self) (is_plain b) refl refl
  where
    chosen : Bool → Bool → Bytes × Bytes
    chosen x y =
        if x
        then if y then (b ∷ [], rest) else (escape b, rest)
        else rune_piece b rest (decode_rune b rest)

    by_byte :
        (x y : Bool)
        → ltb b rune_self ≡ x
        → is_plain b ≡ y
        → ReadsAs tail (b ∷ rest) ((chosen x y).0 ++ pieces fuel (chosen x y).1)
    by_byte true true small plain =
        step fuel tail (b ∷ rest) (b ∷ []) rest (b ∷ []) (plain_read_back b plain)
          (λ v clean. ascii b rest v small clean) (again rest (omega arith))
    by_byte true false small special =
        step fuel tail (b ∷ rest) (escape b) rest (b ∷ [])
          (escape_read_back b (ground (arith, small)) special)
          (λ v clean. ascii b rest v small clean) (again rest (omega arith))
    by_byte false y high plain = rune_reads fuel tail b rest high again (decode_rune b rest) refl

pieces_read : (fuel : ℕ) (tail s : Bytes) → length s ≤ fuel → ReadsAs tail s (pieces fuel s)
unfolding pieces
pieces_read zero tail [] h = closes tail
pieces_read zero tail (b ∷ rest) h = absurd (omega (arith, h))
pieces_read (suc fuel) tail [] h = closes tail
pieces_read (suc fuel) tail (b ∷ rest) h =
    piece_reads fuel tail b rest (λ s shorter. pieces_read fuel tail s (omega (arith, shorter, h)))

-- A reader of JSON strings reads what AppendString wrote of a string, whatever follows it, as that string
-- with U+FFFD for each byte that is part of no valid rune, and goes on with what follows.
pub read_string-append_string :
    (s tail : Bytes)
    → (v : Bytes) × Sanitized s v × (read_string (append_string [] s ++ tail) ≡ some (v, tail))
unfolding read_string
read_string-append_string s tail =
    let written = pieces (length s) s in
    let (v, clean, reads) = pieces_read (length s) tail s (omega arith) in
    (
      v,
      clean,
      ap (λ x. read_string (x ++ tail)) (append_string-pieces [] s)
          ∙ ap (read_text in_text) (append_assoc written (0x22 ∷ []) tail)
          ∙ reads,
    )
