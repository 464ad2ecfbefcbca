-- ===== src/Names.antt =====
-- internal/names/names.go: the rules for names and values, over the bytes of a string.
pub mod Rules
mod Examples
use tamarackdb.Prelude.{
  ℕ, zero, suc, ◌≤◌, ◌<◌, ◌≡◌, ◌↔◌, Bool, true, false, ◌&&◌, ◌||◌, not, List, [], ◌∷◌, arith, ltb,
  leb, eqb, length, All, all, all-All, if◌then◌else◌,
}
use tamarackdb.Prelude.Eq.{Bytes}

abbrev pub max_name_length : ℕ
max_name_length = 128

abbrev pub max_value_length : ℕ
max_value_length = 255

-- The two non-default cases of the switch of `ValidName`.
unfoldable pub name_byte : ℕ → Bool
name_byte c =
    (leb b'a' c && leb c b'z' || leb b'A' c && leb c b'Z' || leb b'0' c && leb c b'9')
    || (eqb c b'-' || eqb c b'_' || eqb c b'.' || eqb c b':' || eqb c b'@' || eqb c b'/')

unfoldable pub value_byte : ℕ → Bool
value_byte c = not (ltb c 0x20 || eqb c 0x7f)

unfoldable pub valid_name : Bytes → Bool
unfolding all
valid_name s = if eqb (length s) 0 || ltb max_name_length (length s) then false else all name_byte s

unfoldable pub valid_value : Bytes → Bool
unfolding all
valid_value s =
    if eqb (length s) 0 || ltb max_value_length (length s) then false else all value_byte s
