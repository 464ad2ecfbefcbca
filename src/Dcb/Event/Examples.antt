-- ===== src/Dcb/Event/Examples.antt =====
-- Instances of the theorems of Dcb/Event/Rules.antt.
use tamarackdb.Prelude.{◌<◌, ◌+◌, ◌≤◌, ◌≡◌, refl, ◌↔◌, [], ◌∷◌, none, some, length}
use tamarackdb.Prelude.Eq.{Bytes, bytes, bytes_beq}
use tamarackdb.Names.{name_byte, value_byte, valid_name, valid_value}
use tamarackdb.Dcb.Event.{
  Identifier, EventData, EventInput, validate, validate_input, input_data, size,
  duplicate_identifier,
}
use tamarackdb.Dcb.Event.Rules.{
  IsValid, event_text, validate_iff, size-validate, validate_input_iff,
}

abbrev student : Identifier
student = record { name = bytes "studentId"; value = bytes "42" }

abbrev enrolled : EventData
enrolled = record {
  typ = bytes "StudentEnrolled";
  identifiers = student ∷ [];
  metadata = record { name = bytes "user"; value = bytes "ann" } ∷ [];
  payload = bytes "{}";
}

enrolled_valid : validate enrolled ≡ none
unfolding validate valid_name valid_value name_byte value_byte bytes_beq
enrolled_valid = refl

enrolled_twice :
    validate (record enrolled { identifiers = student ∷ student ∷ [] }) ≡ some duplicate_identifier
unfolding validate valid_name valid_value name_byte value_byte bytes_beq
enrolled_twice = refl

validate_iff_example : (validate enrolled ≡ none) ↔ IsValid enrolled
validate_iff_example = validate_iff enrolled

size-validate_example :
    (size enrolled ≡ length (event_text enrolled))
    × (length enrolled.payload < size enrolled)
    × (size enrolled ≤ length enrolled.payload + 15448)
size-validate_example = size-validate enrolled enrolled_valid

abbrev request : EventInput
request = record {
  typ = bytes "StudentEnrolled";
  identifiers = student ∷ [];
  metadata = [];
  payload = none;
}

validate_input_iff_example :
    (validate_input request ≡ none)
    ↔ (((p : Bytes) × (request.payload ≡ some p)) × IsValid (input_data request))
validate_input_iff_example = validate_input_iff request
