-- ===== src/Names/Examples.antt =====
-- Instances of the theorems of Names/Rules.antt.
use tamarackdb.Prelude.{◌≡◌, refl, ◌↔◌, true}
use tamarackdb.Prelude.Eq.{Bytes, bytes}
use tamarackdb.Names.{valid_name, valid_value, name_byte}
use tamarackdb.Names.Rules.{IsName, IsValue, valid_name_iff, valid_value_iff}

abbrev course : Bytes
course = bytes "course:enrolled@v1"

course_valid : valid_name course ≡ true
unfolding valid_name name_byte
course_valid = refl

valid_name_iff_example : (valid_name course ≡ true) ↔ IsName course
valid_name_iff_example = valid_name_iff course

valid_value_iff_example : (valid_value (bytes "a b") ≡ true) ↔ IsValue (bytes "a b")
valid_value_iff_example = valid_value_iff (bytes "a b")
