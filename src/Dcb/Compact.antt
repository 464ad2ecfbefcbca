-- ===== src/Dcb/Compact.antt =====
-- internal/dcb/event.go: the compact shape of the tags of an event. A value of `Compact` is the JSON
-- object that `marshalCompact` writes and `unmarshalCompact` reads; its text is encoding/json's.
pub mod RoundTrip
mod Examples
use tamarackdb.Prelude.{List, [], ◌∷◌, ◌++◌, map, if◌then◌else◌}
use tamarackdb.Prelude.Eq.{Bytes, bytes_eq}
use tamarackdb.Prelude.Assoc.{Assoc, lookup, insert}
use tamarackdb.Prelude.Exec.{Result, ok, err, and_then}
use tamarackdb.Dcb.Event.{Identifier, Metadata}
use tamarackdb.Dcb.Query.{sort, bytes_ltb, elements, is_nil}

-- A value under a name: a string, or an array of strings.
pub data CompactValue : Type 0 where
  single : Bytes → CompactValue
  several : List Bytes → CompactValue

abbrev pub Compact : Type 0
Compact = List (Bytes × CompactValue)

abbrev pub Pair : Type 0
Pair = Bytes × Bytes

-- The first loop: the values of each name, and the names in the order first met.
unfoldable pub group :
    Assoc Bytes (List Bytes) → List Bytes → List Pair → Assoc Bytes (List Bytes) × List Bytes
unfolding lookup insert
group groups order [] = (groups, order)
group groups order ((name, value) ∷ rest) =
    group (insert name (elements (lookup name groups) ++ value ∷ []) groups)
      (if is_nil (lookup name groups) then order ++ name ∷ [] else order) rest

abbrev pub compact_value : List Bytes → CompactValue
compact_value (v ∷ []) = single v
compact_value vs = several vs

unfoldable pub marshal_compact : List Pair → Compact
unfolding group sort bytes_ltb
marshal_compact items =
    let (groups, order) = group [] [] items in
    map (λ name. (name, compact_value (elements (lookup name groups)))) (sort bytes_ltb order)

-- The one error that is left once the input has the shape of `Compact`: an empty array.
pub data CompactError : Type 0 where
  empty_array : Bytes → CompactError

unfoldable pub unmarshal_compact : Compact → Result CompactError (List Pair)
unmarshal_compact [] = ok []
unmarshal_compact ((name, single v) ∷ rest) =
    and_then (unmarshal_compact rest) (λ out. ok ((name, v) ∷ out))
unmarshal_compact ((name, several []) ∷ rest) = err (empty_array name)
unmarshal_compact ((name, several vs) ∷ rest) =
    and_then (unmarshal_compact rest) (λ out. ok (map (λ v. (name, v)) vs ++ out))

-- The `MarshalJSON` methods of the two sets.
abbrev pub identifier_pair : Identifier → Pair
identifier_pair i = (i.name, i.value)

abbrev pub metadata_pair : Metadata → Pair
metadata_pair m = (m.name, m.value)

unfoldable pub marshal_identifiers : List Identifier → Compact
unfolding marshal_compact
marshal_identifiers s = marshal_compact (map identifier_pair s)

unfoldable pub marshal_metadata : List Metadata → Compact
unfolding marshal_compact
marshal_metadata s = marshal_compact (map metadata_pair s)
