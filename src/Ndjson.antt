-- ===== src/Ndjson.antt =====
-- internal/ndjson/encoder.go: `AppendString`. Runes are decoded as unicode/utf8 documents it.
pub mod Pieces
pub mod Reader
pub mod Runes
pub mod ReadBack
mod Examples
use tamarackdb.Prelude.{
  ℕ, zero, suc, ◌+◌, ◌-◌, ◌*◌, ◌/◌, ◌%◌, Bool, true, false, ◌&&◌, ◌||◌, not, List, [], ◌∷◌, ◌++◌,
  ltb, leb, eqb, length, take, drop, if◌then◌else◌,
}
use tamarackdb.Prelude.Eq.{Bytes, bytes}

abbrev pub rune_self : ℕ
rune_self = 0x80

abbrev pub rune_error : ℕ
rune_error = 0xfffd

abbrev pub line_separator : ℕ
line_separator = 0x2028

abbrev pub paragraph_separator : ℕ
paragraph_separator = 0x2029

abbrev pub between : ℕ → ℕ → ℕ → Bool
between low high b = leb low b && leb b high

-- A rune and its size in bytes: a byte that begins no valid rune is `rune_error` of size 1.
abbrev pub invalid_rune : ℕ × ℕ
invalid_rune = (rune_error, 1)

abbrev pub two_bytes : ℕ → Bytes → ℕ × ℕ
two_bytes b [] = invalid_rune
two_bytes b (b1 ∷ _) =
    if between 0x80 0xbf b1 then ((b - 0xc0) * 64 + (b1 - 0x80), 2) else invalid_rune

abbrev pub three_bytes : ℕ → Bytes → ℕ × ℕ
three_bytes b [] = invalid_rune
three_bytes b (b1 ∷ []) = invalid_rune
three_bytes b (b1 ∷ b2 ∷ _) =
    if between (if eqb b 0xe0 then 0xa0 else 0x80) (if eqb b 0xed then 0x9f else 0xbf) b1
      && between 0x80 0xbf b2
    then ((b - 0xe0) * 4096 + (b1 - 0x80) * 64 + (b2 - 0x80), 3)
    else invalid_rune

abbrev pub four_bytes : ℕ → Bytes → ℕ × ℕ
four_bytes b [] = invalid_rune
four_bytes b (b1 ∷ []) = invalid_rune
four_bytes b (b1 ∷ b2 ∷ []) = invalid_rune
four_bytes b (b1 ∷ b2 ∷ b3 ∷ _) =
    if between (if eqb b 0xf0 then 0x90 else 0x80) (if eqb b 0xf4 then 0x8f else 0xbf) b1
      && (between 0x80 0xbf b2 && between 0x80 0xbf b3)
    then ((b - 0xf0) * 262144 + (b1 - 0x80) * 4096 + (b2 - 0x80) * 64 + (b3 - 0x80), 4)
    else invalid_rune

-- `utf8.DecodeRuneInString` of a byte and those after it.
unfoldable pub decode_rune : ℕ → Bytes → ℕ × ℕ
decode_rune b rest =
    if ltb b rune_self
    then (b, 1)
    else if between 0xc2 0xdf b
    then two_bytes b rest
    else if between 0xe0 0xef b
    then three_bytes b rest
    else if between 0xf0 0xf4 b
    then four_bytes b rest
    else invalid_rune

abbrev pub hex_digit : ℕ → ℕ
hex_digit n = if ltb n 10 then b'0' + n else b'a' + (n - 10)

-- A byte that is copied as it is.
unfoldable pub is_plain : ℕ → Bool
is_plain b =
    leb 0x20 b
    && (not (eqb b 0x22)
        && (not (eqb b 0x5c) && (not (eqb b 0x3c) && (not (eqb b 0x3e) && not (eqb b 0x26)))))

-- The switch over the other bytes.
unfoldable pub escape : ℕ → Bytes
escape b =
    if eqb b 0x5c || eqb b 0x22
    then 0x5c ∷ b ∷ []
    else if eqb b 0x08
    then bytes "\\b"
    else if eqb b 0x0c
    then bytes "\\f"
    else if eqb b 0x0a
    then bytes "\\n"
    else if eqb b 0x0d
    then bytes "\\r"
    else if eqb b 0x09
    then bytes "\\t"
    else bytes "\\u00" ++ hex_digit (b / 16) ∷ hex_digit (b % 16) ∷ []

-- The loop: `out` is `dst`, `pending` is `s[start:i]`, `rest` is `s[i:]`.
pub record Encoding : Type 0 where
  pub out : Bytes
  pub pending : Bytes
  pub rest : Bytes

abbrev pub flush : Bytes → Bytes → Encoding → Encoding
flush written rest e = record { out = e.out ++ (e.pending ++ written); pending = []; rest = rest }

abbrev pub keep : Bytes → Bytes → Encoding → Encoding
keep copied rest e = record e { pending = e.pending ++ copied; rest = rest }

abbrev pub encode_rune : ℕ → Bytes → ℕ × ℕ → Encoding → Encoding
encode_rune b rest (c, size) e =
    if eqb c rune_error && eqb size 1
    then flush (bytes "\\ufffd") (drop size (b ∷ rest)) e
    else if eqb c line_separator || eqb c paragraph_separator
    then flush (bytes "\\u202" ++ hex_digit (c % 16) ∷ []) (drop size (b ∷ rest)) e
    else keep (take size (b ∷ rest)) (drop size (b ∷ rest)) e

-- One round, at the byte `b`.
unfoldable pub encode_byte : ℕ → Bytes → Encoding → Encoding
unfolding is_plain escape decode_rune
encode_byte b rest e =
    if ltb b rune_self
    then if is_plain b then keep (b ∷ []) rest e else flush (escape b) rest e
    else encode_rune b rest (decode_rune b rest) e

-- Each round passes at least one byte: as many rounds as there are bytes are enough.
abbrev pub encode_next : (Encoding → Encoding) → Encoding → Encoding
encode_next again e = elim e.rest [ [] ↦ e | b ∷ rest ↦ again (encode_byte b rest e) ]

unfoldable pub encode_bytes : ℕ → Encoding → Encoding
unfolding encode_byte
encode_bytes zero e = e
encode_bytes (suc fuel) e = encode_next (encode_bytes fuel) e

abbrev pub quote : Bytes
quote = 0x22 ∷ []

unfoldable pub append_string : Bytes → Bytes → Bytes
unfolding encode_bytes
append_string dst s =
    let e = encode_bytes (length s) (record { out = dst ++ quote; pending = []; rest = s }) in
    (e.out ++ e.pending) ++ quote
