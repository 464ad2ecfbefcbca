-- ===== src/Dcb/Query/Examples.antt =====
-- Instances of the theorems of Dcb/Query.
use tamarackdb.Prelude.{◌≡◌, refl, true, [], ◌∷◌, none, some, any}
use tamarackdb.Prelude.Eq.{bytes, bytes_beq}
use tamarackdb.Dcb.Event.{Identifier, EventData}
use tamarackdb.Dcb.Query.{
  QueryItem, query_item_key, dedupe_query_items, new_query, item_matches, matches, validate,
  validate_item, empty_query_item_array,
}
use tamarackdb.Dcb.Query.Keys.{key_eq}
use tamarackdb.Dcb.Query.Dedupe.{
  matches-new_query, new_query-NoneAlike, NoneAlike, empty_types_unnoticed, with_no_types,
}

abbrev student : Identifier
student = record { name = bytes "s"; value = bytes "1" }

abbrev course : Identifier
course = record { name = bytes "c"; value = bytes "2" }

abbrev both : QueryItem
both = record { types = none; identifiers = some (student ∷ course ∷ []); metadata = none }

abbrev swapped : QueryItem
swapped = record { types = none; identifiers = some (course ∷ student ∷ []); metadata = none }

abbrev enrolled : EventData
enrolled = record {
  typ = bytes "E";
  identifiers = course ∷ student ∷ [];
  metadata = [];
  payload = [];
}

collapsed : dedupe_query_items (both ∷ swapped ∷ []) ≡ both ∷ []
unfolding dedupe_query_items query_item_key bytes_beq
collapsed = refl

passes : validate (new_query (both ∷ swapped ∷ [])) ≡ none
unfolding dedupe_query_items query_item_key bytes_beq validate
passes = refl

selects : matches (new_query (both ∷ [])) enrolled ≡ true
unfolding dedupe_query_items matches bytes_beq
selects = refl

matches-new_query_example :
    matches (new_query (both ∷ swapped ∷ [])) enrolled
    ≡ any (λ i. item_matches i enrolled) (both ∷ swapped ∷ [])
matches-new_query_example = matches-new_query (both ∷ swapped ∷ []) enrolled passes

new_query-NoneAlike_example : NoneAlike (new_query (both ∷ swapped ∷ [])).items
new_query-NoneAlike_example = new_query-NoneAlike (both ∷ swapped ∷ [])

both_valid : validate_item both ≡ none
unfolding validate_item
both_valid = refl

empty_types_unnoticed_example :
    (validate_item (with_no_types both) ≡ some empty_query_item_array)
    × (validate (new_query (both ∷ with_no_types both ∷ [])) ≡ none)
empty_types_unnoticed_example = empty_types_unnoticed both refl both_valid
