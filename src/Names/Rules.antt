-- ===== src/Names/Rules.antt =====
-- The rules of internal/names against their description: lengths and alphabets.
use tamarackdb.Prelude.{
  ℕ, zero, suc, ◌≤◌, ◌<◌, ◌≡◌, ◌≢◌, refl, ◌↔◌, inl, inr, Bool, true, false, ◌&&◌, ◌||◌, not, [],
  ◌∷◌, arith, ltb, leb, length, All, All-mono, all, all-All, Bool-cases, sym, ◌∙◌, leb→le,
}
use tamarackdb.Prelude.Eq.{Bytes, bytes, contains, nat_eq}
use tamarackdb.Names.{name_byte, value_byte, valid_name, valid_value}

-- A test of a byte, tried at every number below a bound.
unfoldable pub tried : (ℕ → Bool) → ℕ → Bool
tried test zero = true
tried test (suc bound) = tried test bound && test bound

pub tried_at : (test : ℕ → Bool) (bound c : ℕ) → c < bound → tried test bound ≡ true → test c ≡ true
unfolding tried
tried_at test zero c below all_hold = absurd (omega arith)
tried_at test (suc bound) c below all_hold = ground (arith, tried_at test bound c)

-- The characters that the message of `NameRule` lists.
abbrev pub name_alphabet : Bytes
name_alphabet = bytes "abcdefghijklmnopqrstuvwxyzABCDEFGHIJKLMNOPQRSTUVWXYZ0123456789-_.:@/"

same : Bool → Bool → Bool
same a b = (a && b) || (not a && not b)

same-eq : (a b : Bool) → same a b ≡ true → a ≡ b
unfolding same
same-eq a b h = ground arith

name_table : tried (λ c. same (name_byte c) (contains name_alphabet c)) 128 ≡ true
unfolding tried same name_byte contains
name_table = refl

contains_above :
    (xs : Bytes) (c : ℕ) → all (λ x. ltb x 128) xs ≡ true → 128 ≤ c → contains xs c ≡ false
unfolding all contains
contains_above [] c h le = refl
contains_above (x ∷ xs) c h le = ground (arith, contains_above xs c)

alphabet_below : all (λ x. ltb x 128) name_alphabet ≡ true
unfolding all
alphabet_below = refl

name_byte_above : (c : ℕ) → 128 ≤ c → name_byte c ≡ false
unfolding name_byte
name_byte_above c h = ground arith

name_byte-eq-contains : (c : ℕ) → name_byte c ≡ contains name_alphabet c
name_byte-eq-contains c = elim (Bool-cases (leb 128 c)) [
  | inl h ↦
      name_byte_above c (leb→le 128 c h)
      ∙ sym (contains_above name_alphabet c alphabet_below (leb→le 128 c h))
  | inr h ↦ same-eq _ _ (tried_at _ 128 c (ground arith) name_table)
]

abbrev pub IsName : Bytes → Type 0
IsName s = (1 ≤ length s) × (length s ≤ 128) × All (λ c. contains name_alphabet c ≡ true) s

abbrev pub IsValue : Bytes → Type 0
IsValue s = (1 ≤ length s) × (length s ≤ 255) × All (λ c. (32 ≤ c) × (c ≢ 127)) s

value_byte_iff : (c : ℕ) → (value_byte c ≡ true) ↔ ((32 ≤ c) × (c ≢ 127))
unfolding value_byte
value_byte_iff c = ground arith

-- `ValidName` accepts exactly the strings of 1 to 128 bytes over the alphabet of `NameRule`.
pub valid_name_iff : (s : Bytes) → (valid_name s ≡ true) ↔ IsName s
unfolding valid_name
valid_name_iff s = (
  (λ h. (
    ground arith,
    ground arith,
    All-mono _ _ s (λ c p. sym (name_byte-eq-contains c) ∙ p) ((all-All _ s).0 (ground arith)),
  )),
  (λ h. ground (
    arith,
    h.0,
    h.1,
    (all-All name_byte s).1 (All-mono _ _ s (λ c p. name_byte-eq-contains c ∙ p) h.2),
  )),
)

-- `ValidValue` accepts exactly the strings of 1 to 255 bytes with no control character.
pub valid_value_iff : (s : Bytes) → (valid_value s ≡ true) ↔ IsValue s
unfolding valid_value
valid_value_iff s = (
  (λ h. (
    ground arith,
    ground arith,
    All-mono _ _ s (λ c p. (value_byte_iff c).0 p) ((all-All _ s).0 (ground arith)),
  )),
  (λ h. ground (
    arith,
    h.0,
    h.1,
    (all-All value_byte s).1 (All-mono _ _ s (λ c p. (value_byte_iff c).1 p) h.2),
  )),
)

name_byte-value_byte : (c : ℕ) → name_byte c ≡ true → value_byte c ≡ true
unfolding name_byte value_byte
name_byte-value_byte c h = ground arith

-- Every valid name is a valid value.
valid_name-valid_value : (s : Bytes) → valid_name s ≡ true → valid_value s ≡ true
unfolding valid_name valid_value
valid_name-valid_value s h = ground (
  arith,
  (all-All value_byte s).1
      (All-mono _ _ s name_byte-value_byte ((all-All name_byte s).0 (ground arith))),
)
