-- ===== src/Ndjson/Pieces.antt =====
-- What is written for each rune of a string, whether it is copied at once or later.
use mathlib.Core.List.{append-nil, append_assoc}
use tamarackdb.Prelude.{
  ℕ, zero, suc, ◌%◌, ◌≡◌, refl, sym, ap, ◌∙◌, Bool, true, false, ◌&&◌, ◌||◌, [], ◌∷◌, ◌++◌, ltb,
  eqb, length, take, drop, if◌then◌else◌,
}
use tamarackdb.Prelude.Eq.{Bytes, bytes}
use tamarackdb.Ndjson.{
  rune_self, rune_error, line_separator, paragraph_separator, decode_rune, hex_digit, is_plain,
  escape, Encoding, flush, keep, encode_rune, encode_byte, encode_bytes, append_string,
}

abbrev pub rune_piece : ℕ → Bytes → ℕ × ℕ → Bytes × Bytes
rune_piece b rest (c, size) =
    if eqb c rune_error && eqb size 1
    then (bytes "\\ufffd", drop size (b ∷ rest))
    else if eqb c line_separator || eqb c paragraph_separator
    then (bytes "\\u202" ++ hex_digit (c % 16) ∷ [], drop size (b ∷ rest))
    else (take size (b ∷ rest), drop size (b ∷ rest))

-- What a round writes in the end, and what is left after it.
unfoldable pub piece : ℕ → Bytes → Bytes × Bytes
unfolding decode_rune is_plain escape
piece b rest =
    if ltb b rune_self
    then if is_plain b then (b ∷ [], rest) else (escape b, rest)
    else rune_piece b rest (decode_rune b rest)

unfoldable pub pieces : ℕ → Bytes → Bytes
unfolding piece
pieces zero s = []
pieces (suc fuel) [] = []
pieces (suc fuel) (b ∷ rest) = (piece b rest).0 ++ pieces fuel (piece b rest).1

-- The bytes that stand for what has been passed.
abbrev passed : Encoding → Bytes
passed e = e.out ++ e.pending

abbrev Passes : Encoding → Encoding → Bytes × Bytes → Type 0
Passes e e' (written, rest) = (passed e' ≡ passed e ++ written) × (e'.rest ≡ rest)

flush-Passes : (e : Encoding) (w r : Bytes) → Passes e (flush w r e) (w, r)
flush-Passes e w r =
    (append-nil (e.out ++ (e.pending ++ w)) ∙ sym (append_assoc e.out e.pending w), refl)

keep-Passes : (e : Encoding) (w r : Bytes) → Passes e (keep w r e) (w, r)
keep-Passes e w r = (sym (append_assoc e.out e.pending w), refl)

encode_rune-Passes :
    (e : Encoding) (b : ℕ) (rest : Bytes) (r : ℕ × ℕ)
    → Passes e (encode_rune b rest r e) (rune_piece b rest r)
encode_rune-Passes e b rest (c, size) =
    by_error (eqb c rune_error && eqb size 1) (eqb c line_separator || eqb c paragraph_separator)
  where
    left : Bytes
    left = drop size (b ∷ rest)

    by_error :
        (x y : Bool)
        → Passes e
            (if x
              then flush (bytes "\\ufffd") left e
              else if y
              then flush (bytes "\\u202" ++ hex_digit (c % 16) ∷ []) left e
              else keep (take size (b ∷ rest)) left e)
            (if x
              then (bytes "\\ufffd", left)
              else if y
              then (bytes "\\u202" ++ hex_digit (c % 16) ∷ [], left)
              else (take size (b ∷ rest), left))
    by_error true y = flush-Passes e (bytes "\\ufffd") left
    by_error false true = flush-Passes e (bytes "\\u202" ++ hex_digit (c % 16) ∷ []) left
    by_error false false = keep-Passes e (take size (b ∷ rest)) left

encode_byte-Passes :
    (e : Encoding) (b : ℕ) (rest : Bytes) → Passes e (encode_byte b rest e) (piece b rest)
unfolding encode_byte piece
encode_byte-Passes e b rest = by_byte (ltb b rune_self) (is_plain b)
  where
    by_byte :
        (x y : Bool)
        → Passes e
            (if x
              then if y then keep (b ∷ []) rest e else flush (escape b) rest e
              else encode_rune b rest (decode_rune b rest) e)
            (if x
              then if y then (b ∷ [], rest) else (escape b, rest)
              else rune_piece b rest (decode_rune b rest))
    by_byte true true = keep-Passes e (b ∷ []) rest
    by_byte true false = flush-Passes e (escape b) rest
    by_byte false y = encode_rune-Passes e b rest (decode_rune b rest)

encode_bytes-pieces :
    (fuel : ℕ) (e : Encoding) → passed (encode_bytes fuel e) ≡ passed e ++ pieces fuel e.rest
unfolding encode_bytes pieces
encode_bytes-pieces zero e = sym (append-nil (passed e))
encode_bytes-pieces (suc fuel) e = by_rest e.rest (encode_bytes-pieces fuel)
  where
    by_rest :
        (rest : Bytes)
        → ((x : Encoding) → passed (encode_bytes fuel x) ≡ passed x ++ pieces fuel x.rest)
        → passed (elim rest [ [] ↦ e | b ∷ more ↦ encode_bytes fuel (encode_byte b more e) ])
          ≡ passed e ++ pieces (suc fuel) rest
    by_rest [] again = sym (append-nil (passed e))
    by_rest (b ∷ more) again =
        let (written, left) = encode_byte-Passes e b more in
        again (encode_byte b more e)
        ∙ ap (λ x. passed (encode_byte b more e) ++ pieces fuel x) left
        ∙ ap (λ x. x ++ pieces fuel (piece b more).1) written
        ∙ append_assoc (passed e) (piece b more).0 (pieces fuel (piece b more).1)

-- A string is written as its pieces between quotes.
pub append_string-pieces :
    (dst s : Bytes) → append_string dst s ≡ ((dst ++ 0x22 ∷ []) ++ pieces (length s) s) ++ 0x22 ∷ []
unfolding append_string
append_string-pieces dst s =
    ap (λ x. x ++ 0x22 ∷ [])
      (encode_bytes-pieces (length s) (record { out = dst ++ 0x22 ∷ []; pending = []; rest = s })
        ∙ ap (λ x. x ++ pieces (length s) s) (append-nil (dst ++ 0x22 ∷ [])))
