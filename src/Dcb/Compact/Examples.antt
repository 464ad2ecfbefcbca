-- ===== src/Dcb/Compact/Examples.antt =====
-- Tags with a name that comes twice, and an instance of the theorem of Dcb/Compact/RoundTrip.antt.
use tamarackdb.Prelude.{◌≡◌, refl, List, [], ◌∷◌}
use tamarackdb.Prelude.Eq.{Bytes, bytes, bytes_beq}
use tamarackdb.Prelude.Assoc.{lookup, insert}
use tamarackdb.Prelude.Exec.{ok}
use tamarackdb.Dcb.Compact.{Pair, single, several, marshal_compact, unmarshal_compact}
use tamarackdb.Dcb.Compact.RoundTrip.{values, unmarshal_compact-marshal_compact}

abbrev tags : List Pair
tags = (bytes "s", bytes "2") ∷ (bytes "c", bytes "9") ∷ (bytes "s", bytes "1") ∷ []

compact_tags :
    marshal_compact tags
    ≡ (bytes "c", single (bytes "9")) ∷ (bytes "s", several (bytes "2" ∷ bytes "1" ∷ [])) ∷ []
unfolding marshal_compact bytes_beq lookup insert
compact_tags = refl

unmarshal_compact-marshal_compact_example :
    (out : List Pair) × (unmarshal_compact (marshal_compact tags) ≡ ok out)
    × ((n : Bytes) → values n out ≡ values n tags)
unmarshal_compact-marshal_compact_example = unmarshal_compact-marshal_compact tags
