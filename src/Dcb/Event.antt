-- ===== src/Dcb/Event.antt =====
-- internal/dcb/event.go: the data of an event, its size, and its validation. A sentinel error of
-- the package stands for the `ValidationError` that wraps it; messages are left out.
pub mod Rules
mod Examples
use tamarackdb.Prelude.{
  ℕ, ◌+◌, ◌≡◌, ◌↔◌, Bool, true, false, ◌&&◌, not, List, [], ◌∷◌, map, Option, none, some, arith,
  ltb, eqb, length, if◌then◌else◌,
}
use tamarackdb.Prelude.Eq.{Eq, ◌==◌, Bytes, bytes_eq, bytes_beq, bytes_beq_iff, contains}
use tamarackdb.Names.{valid_name, valid_value}

abbrev pub max_identifiers : ℕ
max_identifiers = 20

abbrev pub max_metadata : ℕ
max_metadata = 20

pub record Identifier : Type 0 where
  pub name : Bytes
  pub value : Bytes

pub record Metadata : Type 0 where
  pub name : Bytes
  pub value : Bytes

abbrev pub identifier_beq : Identifier → Identifier → Bool
identifier_beq a b = bytes_beq a.name b.name && bytes_beq a.value b.value

pub identifier_beq_iff : (a b : Identifier) → (identifier_beq a b ≡ true) ↔ (a ≡ b)
identifier_beq_iff a b = ground (arith, bytes_beq_iff a.name b.name, bytes_beq_iff a.value b.value)

instance abbrev pub identifier_eq : Eq Identifier
identifier_eq = record { beq = identifier_beq; beq_iff = identifier_beq_iff }

abbrev pub metadata_beq : Metadata → Metadata → Bool
metadata_beq a b = bytes_beq a.name b.name && bytes_beq a.value b.value

pub metadata_beq_iff : (a b : Metadata) → (metadata_beq a b ≡ true) ↔ (a ≡ b)
metadata_beq_iff a b = ground (arith, bytes_beq_iff a.name b.name, bytes_beq_iff a.value b.value)

instance abbrev pub metadata_eq : Eq Metadata
metadata_eq = record { beq = metadata_beq; beq_iff = metadata_beq_iff }

pub record EventData : Type 0 where
  pub typ : Bytes
  pub identifiers : List Identifier
  pub metadata : List Metadata
  pub payload : Bytes

-- The loops of `Size`.
pub identifiers_size : ℕ → List Identifier → ℕ
identifiers_size n [] = n
identifiers_size n (i ∷ rest) = identifiers_size (n + (length i.name + length i.value)) rest

pub metadata_size : ℕ → List Metadata → ℕ
metadata_size n [] = n
metadata_size n (m ∷ rest) = metadata_size (n + (length m.name + length m.value)) rest

unfoldable pub size : EventData → ℕ
unfolding identifiers_size metadata_size
size e = metadata_size (identifiers_size (length e.typ + length e.payload) e.identifiers) e.metadata

pub data ValidationError : Type 0 where
  missing_type invalid_type invalid_tag_name invalid_tag_value missing_payload : ValidationError
  too_many_identifiers too_many_metadata duplicate_identifier duplicate_metadata : ValidationError

-- `if err := a; err != nil { return err }`, then `rest`.
abbrev pub first_error {ℓ} : {E : Type ℓ} → Option E → Option E → Option E
first_error (some e) rest = some e
first_error none rest = rest

unfoldable pub validate_tag : Bytes → Bytes → Option ValidationError
validate_tag name value =
    if not (valid_name name)
    then some invalid_tag_name
    else if not (valid_value value)
    then some invalid_tag_value
    else none

-- The loops of `Validate`.
pub validate_identifiers : List Identifier → Option ValidationError
unfolding validate_tag
validate_identifiers [] = none
validate_identifiers (i ∷ rest) =
    first_error (validate_tag i.name i.value) (validate_identifiers rest)

pub validate_metadata : List Metadata → Option ValidationError
unfolding validate_tag
validate_metadata [] = none
validate_metadata (m ∷ rest) = first_error (validate_tag m.name m.value) (validate_metadata rest)

module _ {ℓ} {A : Type ℓ} ⦃e : Eq A⦄ where
  -- `seen` holds the items that the loop has passed.
  pub duplicate_after : List A → List A → Bool
  unfolding contains
  duplicate_after seen [] = false
  duplicate_after seen (x ∷ xs) =
      let rest = duplicate_after (x ∷ seen) xs in if contains seen x then true else rest

  pub duplicate_exists : List A → Bool
  unfolding duplicate_after
  duplicate_exists xs = duplicate_after [] xs

unfoldable pub validate : EventData → Option ValidationError
unfolding validate_identifiers validate_metadata duplicate_exists
validate e =
    if bytes_beq e.typ []
    then some missing_type
    else if not (valid_name e.typ)
    then some invalid_type
    else first_error (validate_identifiers e.identifiers) (
        first_error (validate_metadata e.metadata) (
          if ltb max_identifiers (length e.identifiers)
          then some too_many_identifiers
          else if duplicate_exists e.identifiers
          then some duplicate_identifier
          else if ltb max_metadata (length e.metadata)
          then some too_many_metadata
          else if duplicate_exists e.metadata
          then some duplicate_metadata
          else none))

-- A nil `Payload` is `none`.
pub record EventInput : Type 0 where
  pub typ : Bytes
  pub identifiers : List Identifier
  pub metadata : List Metadata
  pub payload : Option Bytes

abbrev pub or_empty : Option Bytes → Bytes
or_empty none = []
or_empty (some p) = p

unfoldable pub input_data : EventInput → EventData
input_data e = record {
  typ = e.typ;
  identifiers = e.identifiers;
  metadata = e.metadata;
  payload = or_empty e.payload;
}

abbrev pub require_payload : Option Bytes → Option ValidationError
require_payload none = some missing_payload
require_payload (some p) = none

unfoldable pub validate_input : EventInput → Option ValidationError
unfolding validate input_data
validate_input e = first_error (validate (input_data e)) (require_payload e.payload)

-- Times are counted in nanoseconds from the zero time of Go, which is 0.
pub record Event : Type 0 where
  pub sequence : ℕ
  pub time : ℕ
  pub event_data : EventData

pub record PendingEvent : Type 0 where
  pub time : ℕ
  pub event_data : EventData

unfoldable pub new_pending_events : List EventData → ℕ → List PendingEvent
new_pending_events [] t = []
new_pending_events (e ∷ rest) t = record { time = t; event_data = e } ∷ new_pending_events rest t
