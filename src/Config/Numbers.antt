-- ===== src/Config/Numbers.antt =====
-- What the settings use of strconv: Atoi, ParseBool, and ParseUint in base 8.
use tamarackdb.Prelude.{
  ℕ, ◌+◌, ◌-◌, ◌*◌, ◌^◌, Bool, true, false, ◌&&◌, [], ◌∷◌, Option, none, some, ltb, leb, eqb,
  if◌then◌else◌,
}
use tamarackdb.Prelude.Eq.{Bytes, bytes, bytes_eq, contains}
use tamarackdb.Prelude.Int.{ℤ, pos, negsuc}

-- The digits of a base of at most ten, after those already read.
unfoldable pub digits : ℕ → ℕ → Bytes → Option ℕ
digits base acc [] = some acc
digits base acc (c ∷ rest) =
    let more = digits base (acc * base + (c - 48)) rest in
    if leb 48 c && ltb c (48 + base) then more else none

unfoldable pub parse_digits : ℕ → Bytes → Option ℕ
unfolding digits
parse_digits base [] = none
parse_digits base (c ∷ rest) = digits base 0 (c ∷ rest)

-- A magnitude with its sign, if it fits in 64 bits.
abbrev pub signed : Bool → Option ℕ → Option ℤ
signed negative none = none
signed true (some n) =
    if ltb (2 ^ 63) n then none else if eqb n 0 then some (pos 0) else some (negsuc (n - 1))
signed false (some n) = if ltb (2 ^ 63 - 1) n then none else some (pos n)

unfoldable pub atoi : Bytes → Option ℤ
unfolding parse_digits
atoi [] = none
atoi (c ∷ rest) =
    if eqb c 45
    then signed true (parse_digits 10 rest)
    else if eqb c 43
    then signed false (parse_digits 10 rest)
    else signed false (parse_digits 10 (c ∷ rest))

unfoldable pub parse_bool : Bytes → Option Bool
unfolding contains
parse_bool s =
    if contains
      (bytes "1" ∷ bytes "t" ∷ bytes "T" ∷ bytes "true" ∷ bytes "TRUE" ∷ bytes "True" ∷ []) s
    then some true
    else if contains
        (bytes "0" ∷ bytes "f" ∷ bytes "F" ∷ bytes "false" ∷ bytes "FALSE" ∷ bytes "False" ∷ []) s
    then some false
    else none

abbrev pub in_32_bits : Option ℕ → Option ℕ
in_32_bits none = none
in_32_bits (some n) = if ltb n (2 ^ 32) then some n else none

unfoldable pub parse_octal : Bytes → Option ℕ
unfolding parse_digits
parse_octal s = in_32_bits (parse_digits 8 s)
