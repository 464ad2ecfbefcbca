-- ===== src/Projection/Rules.antt =====
-- What the `Validate` methods of projection writes accept.
use tamarackdb.Prelude.{◌≡◌, ◌≢◌, refl, ◌↔◌, false, [], ◌∷◌, Option, none, arith}
use tamarackdb.Prelude.Eq.{Bytes, bytes_beq, bytes_beq_iff}
use tamarackdb.Names.Rules.{IsName, IsValue, valid_name_iff, valid_value_iff}
use tamarackdb.Dcb.Event.{first_error}
use tamarackdb.Projection.{
  Key, Create, Replace, Delete, validate_key, validate_version, validate_payload, validate_create,
  validate_replace, validate_delete,
}

abbrev pub IsKey : Key → Type 0
IsKey k = IsName k.typ × IsValue k.id

name_nonempty : (s : Bytes) → IsName s → bytes_beq s [] ≡ false
unfolding bytes_beq
name_nonempty [] h = absurd (omega arith)
name_nonempty (x ∷ xs) h = refl

value_nonempty : (s : Bytes) → IsValue s → bytes_beq s [] ≡ false
unfolding bytes_beq
value_nonempty [] h = absurd (omega arith)
value_nonempty (x ∷ xs) h = refl

pub validate_key_iff : (k : Key) → (validate_key k ≡ none) ↔ IsKey k
unfolding validate_key
validate_key_iff k = (
  (λ h. ((valid_name_iff k.typ).0 (ground arith), (valid_value_iff k.id).0 (ground arith))),
  (λ h. ground (
    arith,
    name_nonempty k.typ h.0,
    value_nonempty k.id h.1,
    (valid_name_iff k.typ).1 h.0,
    (valid_value_iff k.id).1 h.1,
  )),
)

validate_version_iff : (v : Bytes) → (validate_version v ≡ none) ↔ (v ≢ [])
unfolding validate_version
validate_version_iff v = ground (arith, bytes_beq_iff v [])

validate_payload_iff : (p : Option Bytes) → (validate_payload p ≡ none) ↔ (p ≢ none)
unfolding validate_payload
validate_payload_iff p = ground arith

module _ {ℓ} {E : Type ℓ} {P Q : Type 0} where
  parts :
      (a b : Option E) → ((a ≡ none) ↔ P) → ((b ≡ none) ↔ Q) → (first_error a b ≡ none) ↔ (P × Q)
  parts a b p q =
      ((λ h. (p.0 (ground arith), q.0 (ground arith))), (λ h. ground (arith, p.1 h.0, q.1 h.1)))

  triple :
      {R : Type 0} (a b c : Option E)
      → ((a ≡ none) ↔ P)
      → ((b ≡ none) ↔ Q)
      → ((c ≡ none) ↔ R)
      → (first_error a (first_error b c) ≡ none) ↔ (P × Q × R)
  triple a b c p q r = (
    (λ h. (p.0 (ground arith), q.0 (ground arith), r.0 (ground arith))),
    (λ h. ground (arith, p.1 h.0, q.1 h.1, r.1 h.2)),
  )

-- A create passes exactly with a valid key and a payload; a replace also needs a version; a delete
-- needs a valid key and a version.
pub validate_writes_iff :
    (c : Create) (r : Replace) (d : Delete)
    → ((validate_create c ≡ none) ↔ (IsKey c.key × (c.payload ≢ none)))
      × ((validate_replace r ≡ none) ↔ (IsKey r.key × (r.version ≢ []) × (r.payload ≢ none)))
      × ((validate_delete d ≡ none) ↔ (IsKey d.key × (d.version ≢ [])))
validate_writes_iff c r d = (
  (unfold validate_create in parts _ _ (validate_key_iff c.key) (validate_payload_iff c.payload)),
  (unfold validate_replace in
      triple _ _ _ (validate_key_iff r.key) (validate_version_iff r.version)
        (validate_payload_iff r.payload)),
  unfold validate_delete in parts _ _ (validate_key_iff d.key) (validate_version_iff d.version),
)
