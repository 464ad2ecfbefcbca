-- ===== src/Ndjson/Reader.antt =====
-- A reader of JSON strings, written from their grammar.
use mathlib.Core.List.{append_assoc}
use tamarackdb.Prelude.{
  ℕ, ◌+◌, ◌-◌, ◌*◌, ◌/◌, ◌%◌, ◌≡◌, refl, sym, ap, ◌∙◌, ◌||◌, [], ◌∷◌, ◌++◌, Option, none, some,
  arith, ltb, eqb, if◌then◌else◌,
}
use tamarackdb.Prelude.Eq.{Bytes}
use tamarackdb.Ndjson.{between}

-- Within a string, after a backslash, or after some hexadecimal digits of a \u escape.
pub data Reading : Type 0 where
  in_text after_backslash : Reading
  after_digits : ℕ → ℕ → Reading

-- A byte goes on with what it stands for, ends the string, or is none of a string.
pub data Move : Type 0 where
  goes_on : Reading → Bytes → Move
  ends : Move
  refused : Move

-- The UTF-8 form of a code point below 2^16. A surrogate stands for none.
abbrev utf8 : ℕ → Bytes
utf8 c =
    if ltb c 0x80
    then c ∷ []
    else if ltb c 0x800
    then (0xc0 + c / 64) ∷ (0x80 + c % 64) ∷ []
    else if between 0xd800 0xdfff c
    then 0xef ∷ 0xbf ∷ 0xbd ∷ []
    else (0xe0 + c / 4096) ∷ (0x80 + c / 64 % 64) ∷ (0x80 + c % 64) ∷ []

abbrev hex_value : ℕ → Option ℕ
hex_value d =
    if between b'0' b'9' d
    then some (d - b'0')
    else if between b'a' b'f' d
    then some (d - b'a' + 10)
    else if between b'A' b'F' d
    then some (d - b'A' + 10)
    else none

abbrev digit_read : ℕ → ℕ → Option ℕ → Move
digit_read n c none = refused
digit_read n c (some d) =
    if eqb n 3
    then goes_on in_text (utf8 (c * 16 + d))
    else goes_on (after_digits (n + 1) (c * 16 + d)) []

abbrev text_read : ℕ → Move
text_read b =
    if eqb b 0x22
    then ends
    else if eqb b 0x5c
    then goes_on after_backslash []
    else if ltb b 0x20
    then refused
    else goes_on in_text (b ∷ [])

abbrev escape_read : ℕ → Move
escape_read b =
    if eqb b 0x22 || (eqb b 0x5c || eqb b 0x2f)
    then goes_on in_text (b ∷ [])
    else if eqb b b'b'
    then goes_on in_text (0x08 ∷ [])
    else if eqb b b'f'
    then goes_on in_text (0x0c ∷ [])
    else if eqb b b'n'
    then goes_on in_text (0x0a ∷ [])
    else if eqb b b'r'
    then goes_on in_text (0x0d ∷ [])
    else if eqb b b't'
    then goes_on in_text (0x09 ∷ [])
    else if eqb b b'u'
    then goes_on (after_digits 0 0) []
    else refused

unfoldable pub move : Reading → ℕ → Move
move in_text b = text_read b
move after_backslash b = escape_read b
move (after_digits n c) b = digit_read n c (hex_value b)

abbrev pub prepend : Bytes → Option (Bytes × Bytes) → Option (Bytes × Bytes)
prepend xs none = none
prepend xs (some (text, rest)) = some (xs ++ text, rest)

abbrev follow : Move → (Reading → Option (Bytes × Bytes)) → Bytes → Option (Bytes × Bytes)
follow (goes_on r xs) again rest = prepend xs (again r)
follow ends again rest = some ([], rest)
follow refused again rest = none

-- The text up to the closing quote, and what follows it.
unfoldable pub read_text : Reading → Bytes → Option (Bytes × Bytes)
unfolding move
read_text r [] = none
read_text r (b ∷ rest) = follow (move r b) (λ r'. read_text r' rest) rest

abbrev opening : Bytes → Option Bytes
opening [] = none
opening (b ∷ rest) = if eqb b 0x22 then some rest else none

abbrev closed : Option Bytes → Option (Bytes × Bytes)
closed none = none
closed (some rest) = read_text in_text rest

-- A JSON string at the start of a text, and what follows it.
unfoldable pub read_string : Bytes → Option (Bytes × Bytes)
unfolding read_text
read_string s = closed (opening s)

-- What some bytes within a string stand for.
abbrev moves_on : Bytes → Option (Reading × Bytes) → Option (Reading × Bytes)
moves_on xs none = none
moves_on xs (some (r, ys)) = some (r, xs ++ ys)

abbrev then_moves : Move → (Reading → Option (Reading × Bytes)) → Option (Reading × Bytes)
then_moves (goes_on r xs) again = moves_on xs (again r)
then_moves ends again = none
then_moves refused again = none

unfoldable pub run_moves : Reading → Bytes → Option (Reading × Bytes)
unfolding move
run_moves r [] = some (r, [])
run_moves r (b ∷ rest) = then_moves (move r b) (λ r'. run_moves r' rest)

prepend_twice :
    (xs ys : Bytes) (o : Option (Bytes × Bytes)) → prepend xs (prepend ys o) ≡ prepend (xs ++ ys) o
prepend_twice xs ys none = refl
prepend_twice xs ys (some (text, rest)) = ap (λ x. some (x, rest)) (sym (append_assoc xs ys text))

prepend-nil : (o : Option (Bytes × Bytes)) → prepend [] o ≡ o
prepend-nil none = refl
prepend-nil (some (text, rest)) = refl

reading_of :
    (r r' : Reading) (m m' : Bytes)
    → ◌≡◌ {A = Option (Reading × Bytes)} (some (r, m)) (some (r', m'))
    → r ≡ r'
reading_of r r' m m' h = ground (arith, h)

meaning_of :
    (r r' : Reading) (m m' : Bytes)
    → ◌≡◌ {A = Option (Reading × Bytes)} (some (r, m)) (some (r', m'))
    → m ≡ m'
meaning_of r r' m m' h = ground (arith, h)

pub read_text-append :
    (r r' : Reading) (p m ys : Bytes)
    → run_moves r p ≡ some (r', m)
    → read_text r (p ++ ys) ≡ prepend m (read_text r' ys)
unfolding read_text run_moves
read_text-append r r' [] m ys h =
    sym (prepend-nil (read_text r ys))
    ∙ ap (λ x. prepend [] (read_text x ys)) (reading_of r r' [] m h)
    ∙ ap (λ x. prepend x (read_text r' ys)) (meaning_of r r' [] m h)
read_text-append r r' (b ∷ p) m ys h =
    by_move (move r b) (λ s n k. read_text-append s r' p n ys k) h
  where
    by_move :
        (x : Move)
        → ((s : Reading) (n : Bytes)
            → run_moves s p ≡ some (r', n)
            → read_text s (p ++ ys) ≡ prepend n (read_text r' ys))
        → then_moves x (λ s. run_moves s p) ≡ some (r', m)
        → follow x (λ s. read_text s (p ++ ys)) (p ++ ys) ≡ prepend m (read_text r' ys)
    by_move ends again h = absurd (ground (arith, h))
    by_move refused again h = absurd (ground (arith, h))
    by_move (goes_on s xs) again h = by_run (run_moves s p) (again s) h
      where
        by_run :
            (o : Option (Reading × Bytes))
            → ((n : Bytes) → o ≡ some (r', n) → read_text s (p ++ ys) ≡ prepend n (read_text r' ys))
            → moves_on xs o ≡ some (r', m)
            → prepend xs (read_text s (p ++ ys)) ≡ prepend m (read_text r' ys)
        by_run none next k = absurd (ground (arith, k))
        by_run (some (q, n)) next k =
            ap (prepend xs) (next n (ap (λ x. some (x, n)) (reading_of q r' (xs ++ n) m k)))
            ∙ prepend_twice xs n (read_text r' ys)
            ∙ ap (λ x. prepend x (read_text r' ys)) (meaning_of q r' (xs ++ n) m k)
