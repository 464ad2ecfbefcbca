-- ===== src/Dcb/Event/Rules.antt =====
-- What `Validate` accepts, and what it bounds.
use tamarackdb.Prelude.{
  ◌++◌, length-append, ◌<◌, ℕ, ◌+◌, ◌*◌, ◌≤◌, ◌≡◌, refl, ◌↔◌, true, false, List, [], ◌∷◌, Option,
  none, some, arith, length, All,
}
use tamarackdb.Prelude.Eq.{Eq, Bytes, bytes_beq, contains}
use tamarackdb.Names.{valid_name}
use tamarackdb.Names.Rules.{IsName, IsValue, valid_name_iff, valid_value_iff}
use tamarackdb.Dcb.Event.{
  Identifier, Metadata, identifier_eq, metadata_eq, EventData, EventInput, first_error,
  validate_tag, validate_identifiers, validate_metadata, duplicate_after, duplicate_exists,
  validate, validate_input, input_data, size, identifiers_size, metadata_size, require_payload,
}

module _ {ℓ} {A : Type ℓ} ⦃e : Eq A⦄ where
  -- Each element differs from those after it.
  abbrev pub Distinct : List A → Type 0
  Distinct [] = Unit {0}
  Distinct (x ∷ xs) = (contains xs x ≡ false) × Distinct xs

  abbrev Avoids : List A → List A → Type 0
  Avoids seen xs = All (λ x. contains seen x ≡ false) xs

  Avoids-cons :
      (x : A) (seen xs : List A) → Avoids (x ∷ seen) xs ↔ ((contains xs x ≡ false) × Avoids seen xs)
  unfolding contains
  Avoids-cons x seen [] = ((λ _. (refl, tt)), (λ _. tt))
  Avoids-cons x seen (y ∷ ys) = (
    (λ h. (
      ground (arith, e.beq_iff x y, e.beq_iff y x, (Avoids-cons x seen ys).0 h.1, h.0),
      (ground (arith, h.0), ((Avoids-cons x seen ys).0 h.1).1),
    )),
    (λ h. (
      ground (arith, e.beq_iff x y, e.beq_iff y x, h.0, h.1.0),
      (Avoids-cons x seen ys).1 (ground (arith, h.0), h.1.1),
    )),
  )

  duplicate_after_iff :
      (seen xs : List A) → (duplicate_after seen xs ≡ false) ↔ (Avoids seen xs × Distinct xs)
  unfolding duplicate_after
  duplicate_after_iff seen [] = ((λ _. (tt, tt)), (λ _. refl))
  duplicate_after_iff seen (x ∷ xs) = (
    (λ h.
        let ih = (duplicate_after_iff (x ∷ seen) xs).0 (ground arith) in
        let split = (Avoids-cons x seen xs).0 ih.0 in ((ground arith, split.1), (split.0, ih.1))),
    (λ h. ground (
      arith,
      h.0.0,
      (duplicate_after_iff (x ∷ seen) xs).1 ((Avoids-cons x seen xs).1 (h.1.0, h.0.1), h.1.1),
    )),
  )

  Avoids-nil : (xs : List A) → Avoids [] xs
  unfolding contains
  Avoids-nil [] = tt
  Avoids-nil (x ∷ xs) = (refl, Avoids-nil xs)

  pub duplicate_exists_iff : (xs : List A) → (duplicate_exists xs ≡ false) ↔ Distinct xs
  unfolding duplicate_exists
  duplicate_exists_iff xs = (
    (λ h. ((duplicate_after_iff [] xs).0 h).1),
    (λ d. (duplicate_after_iff [] xs).1 (Avoids-nil xs, d)),
  )

abbrev pub IsTag : Bytes → Bytes → Type 0
IsTag name value = IsName name × IsValue value

-- The domain rules of an event, as the comment of `Validate` lists them.
pub record IsValid (e : EventData) : Type 0 where
  pub typ_name : IsName e.typ
  pub identifier_tags : All (λ i. IsTag i.name i.value) e.identifiers
  pub metadata_tags : All (λ m. IsTag m.name m.value) e.metadata
  pub few_identifiers : length e.identifiers ≤ 20
  pub distinct_identifiers : Distinct e.identifiers
  pub few_metadata : length e.metadata ≤ 20
  pub distinct_metadata : Distinct e.metadata

validate_tag_iff : (name value : Bytes) → (validate_tag name value ≡ none) ↔ IsTag name value
unfolding validate_tag
validate_tag_iff name value = (
  (λ h. ((valid_name_iff name).0 (ground arith), (valid_value_iff value).0 (ground arith))),
  (λ h. ground (arith, (valid_name_iff name).1 h.0, (valid_value_iff value).1 h.1)),
)

first_error_iff {ℓ} :
    {E : Type ℓ} (a b : Option E) → (first_error a b ≡ none) ↔ ((a ≡ none) × (b ≡ none))
first_error_iff a b = ground arith

validate_identifiers_iff :
    (xs : List Identifier) → (validate_identifiers xs ≡ none) ↔ All (λ i. IsTag i.name i.value) xs
unfolding validate_identifiers
validate_identifiers_iff [] = ((λ _. tt), (λ _. refl))
validate_identifiers_iff (x ∷ xs) = (
  (λ h.
      let both = (first_error_iff _ _).0 h in
      ((validate_tag_iff x.name x.value).0 both.0, (validate_identifiers_iff xs).0 both.1)),
  (λ h.
      (first_error_iff _ _).1
        ((validate_tag_iff x.name x.value).1 h.0, (validate_identifiers_iff xs).1 h.1)),
)

validate_metadata_iff :
    (xs : List Metadata) → (validate_metadata xs ≡ none) ↔ All (λ m. IsTag m.name m.value) xs
unfolding validate_metadata
validate_metadata_iff [] = ((λ _. tt), (λ _. refl))
validate_metadata_iff (x ∷ xs) = (
  (λ h.
      let both = (first_error_iff _ _).0 h in
      ((validate_tag_iff x.name x.value).0 both.0, (validate_metadata_iff xs).0 both.1)),
  (λ h.
      (first_error_iff _ _).1
        ((validate_tag_iff x.name x.value).1 h.0, (validate_metadata_iff xs).1 h.1)),
)

-- What a nil error of `Validate` says of each of its tests.
record Passes (e : EventData) : Type 0 where
  nonempty : bytes_beq e.typ [] ≡ false
  named : valid_name e.typ ≡ true
  identifiers : validate_identifiers e.identifiers ≡ none
  metadata : validate_metadata e.metadata ≡ none
  few_identifiers : length e.identifiers ≤ 20
  distinct_identifiers : duplicate_exists e.identifiers ≡ false
  few_metadata : length e.metadata ≤ 20
  distinct_metadata : duplicate_exists e.metadata ≡ false

validate-Passes : (e : EventData) → validate e ≡ none → Passes e
validate-Passes e h = unfold validate in ground arith

Passes-validate : (e : EventData) → Passes e → validate e ≡ none
Passes-validate e p = unfold validate in ground arith

name_nonempty : (s : Bytes) → IsName s → bytes_beq s [] ≡ false
unfolding bytes_beq
name_nonempty [] h = absurd (omega arith)
name_nonempty (x ∷ xs) h = refl

-- `Validate` returns no error exactly for the events that meet the domain rules.
pub validate_iff : (e : EventData) → (validate e ≡ none) ↔ IsValid e
validate_iff e = (
  (λ h.
      let p = validate-Passes e h in
      record {
        typ_name = (valid_name_iff e.typ).0 p.named;
        identifier_tags = (validate_identifiers_iff e.identifiers).0 p.identifiers;
        metadata_tags = (validate_metadata_iff e.metadata).0 p.metadata;
        few_identifiers = p.few_identifiers;
        distinct_identifiers = (duplicate_exists_iff e.identifiers).0 p.distinct_identifiers;
        few_metadata = p.few_metadata;
        distinct_metadata = (duplicate_exists_iff e.metadata).0 p.distinct_metadata;
      }),
  (λ v. Passes-validate e (record {
    nonempty = name_nonempty e.typ v.typ_name;
    named = (valid_name_iff e.typ).1 v.typ_name;
    identifiers = (validate_identifiers_iff e.identifiers).1 v.identifier_tags;
    metadata = (validate_metadata_iff e.metadata).1 v.metadata_tags;
    few_identifiers = v.few_identifiers;
    distinct_identifiers = (duplicate_exists_iff e.identifiers).1 v.distinct_identifiers;
    few_metadata = v.few_metadata;
    distinct_metadata = (duplicate_exists_iff e.metadata).1 v.distinct_metadata;
  })),
)

identifiers_size_le :
    (n : ℕ) (xs : List Identifier)
    → All (λ i. IsTag i.name i.value) xs
    → identifiers_size n xs ≤ n + 383 * length xs
unfolding identifiers_size
identifiers_size_le n [] h = omega arith
identifiers_size_le n (x ∷ xs) h =
    omega (arith, identifiers_size_le (n + (length x.name + length x.value)) xs h.1, h.0)

metadata_size_le :
    (n : ℕ) (xs : List Metadata)
    → All (λ m. IsTag m.name m.value) xs
    → metadata_size n xs ≤ n + 383 * length xs
unfolding metadata_size
metadata_size_le n [] h = omega arith
metadata_size_le n (x ∷ xs) h =
    omega (arith, metadata_size_le (n + (length x.name + length x.value)) xs h.1, h.0)

-- The bytes of an event: its type, its payload, and the names and values of its tags.
pub identifiers_text : List Identifier → Bytes
identifiers_text [] = []
identifiers_text (i ∷ rest) = i.name ++ (i.value ++ identifiers_text rest)

pub metadata_text : List Metadata → Bytes
metadata_text [] = []
metadata_text (m ∷ rest) = m.name ++ (m.value ++ metadata_text rest)

abbrev pub event_text : EventData → Bytes
event_text e = e.typ ++ (e.payload ++ (identifiers_text e.identifiers ++ metadata_text e.metadata))

identifiers_size-length :
    (n : ℕ) (xs : List Identifier) → identifiers_size n xs ≡ n + length (identifiers_text xs)
unfolding identifiers_size identifiers_text
identifiers_size-length n [] = omega arith
identifiers_size-length n (i ∷ rest) = omega (
  arith,
  identifiers_size-length (n + (length i.name + length i.value)) rest,
  length-append i.name (i.value ++ identifiers_text rest),
  length-append i.value (identifiers_text rest),
)

metadata_size-length :
    (n : ℕ) (xs : List Metadata) → metadata_size n xs ≡ n + length (metadata_text xs)
unfolding metadata_size metadata_text
metadata_size-length n [] = omega arith
metadata_size-length n (m ∷ rest) = omega (
  arith,
  metadata_size-length (n + (length m.name + length m.value)) rest,
  length-append m.name (m.value ++ metadata_text rest),
  length-append m.value (metadata_text rest),
)

size-length : (e : EventData) → size e ≡ length (event_text e)
unfolding size
size-length e =
    let ids = identifiers_text e.identifiers in
    let mds = metadata_text e.metadata in
    omega (
      arith,
      identifiers_size-length (length e.typ + length e.payload) e.identifiers,
      metadata_size-length (identifiers_size (length e.typ + length e.payload) e.identifiers)
          e.metadata,
      length-append e.typ (e.payload ++ (ids ++ mds)),
      length-append e.payload (ids ++ mds),
      length-append ids mds,
    )

-- The size of an event that `Validate` accepts is the number of bytes of its type, its payload and
-- the names and values of its tags: more than the payload's, and at most 15448 bytes more.
pub size-validate :
    (e : EventData)
    → validate e ≡ none
    → (size e ≡ length (event_text e))
      × (length e.payload < size e)
      × (size e ≤ length e.payload + 15448)
size-validate e h =
    let v = (validate_iff e).0 h in
    let n = length e.typ + length e.payload in
    let low = identifiers_size-length n e.identifiers in
    let high = metadata_size-length (identifiers_size n e.identifiers) e.metadata in
    (
      size-length e,
      (unfold size in omega (arith, v.typ_name.0, low, high)),
      unfold size in
          omega (
            arith,
            v.typ_name.1,
            v.few_identifiers,
            v.few_metadata,
            identifiers_size_le n e.identifiers v.identifier_tags,
            metadata_size_le (identifiers_size n e.identifiers) e.metadata v.metadata_tags,
          ),
    )

validate_input_parts :
    (e : EventInput)
    → (validate_input e ≡ none)
      ↔ ((validate (input_data e) ≡ none) × (require_payload e.payload ≡ none))
validate_input_parts e = unfold validate_input in first_error_iff _ _

-- A request's event passes exactly when it carries a payload and its event meets the rules.
pub validate_input_iff :
    (e : EventInput)
    → (validate_input e ≡ none) ↔ (((p : Bytes) × (e.payload ≡ some p)) × IsValid (input_data e))
validate_input_iff e = (
  (λ h.
      let both = (validate_input_parts e).0 h in
      (payload_present e.payload both.1, (validate_iff (input_data e)).0 both.0)),
  (λ h.
      (validate_input_parts e).1
        ((validate_iff (input_data e)).1 h.1, payload_required e.payload h.0)),
)
  where
    payload_present : (o : Option Bytes) → require_payload o ≡ none → (p : Bytes) × (o ≡ some p)
    payload_present none h = absurd (ground arith)
    payload_present (some p) h = (p, refl)

    payload_required : (o : Option Bytes) → (p : Bytes) × (o ≡ some p) → require_payload o ≡ none
    payload_required none h = ground (arith, h.1)
    payload_required (some p) h = refl
