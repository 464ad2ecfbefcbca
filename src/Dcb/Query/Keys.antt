-- ===== src/Dcb/Query/Keys.antt =====
-- `queryItemKey` determines an item up to order and up to nil against empty.
use tamarackdb.Prelude.{
  ◌≡◌, ◌≢◌, refl, ◌∙◌, sym, ap, ◌↔◌, Bool, true, ◌&&◌, List, [], ◌∷◌, ◌++◌, map, Option, none, some,
  arith, any, all,
}
use tamarackdb.Prelude.Eq.{Eq, Bytes, bytes_eq, contains}
use tamarackdb.Dcb.Event.{Identifier, Metadata, identifier_eq, metadata_eq, EventData}
use tamarackdb.Dcb.Query.{
  QueryItem, KeyLine, type_line, identifier_line, metadata_line, key_line_beq_iff, query_item_key,
  keys_beq, elements, sort, bytes_ltb, identifier_before, metadata_before, item_matches,
  type_allowed, validate_item,
}
use tamarackdb.Dcb.Query.Sorting.{all-sort, any-sort, contains-any}

pub keys_beq_iff : (xs ys : List KeyLine) → (keys_beq xs ys ≡ true) ↔ (xs ≡ ys)
unfolding keys_beq
keys_beq_iff [] [] = ((λ _. refl), (λ _. refl))
keys_beq_iff [] (y ∷ ys) = ((λ h. cc), (λ h. cc))
keys_beq_iff (x ∷ xs) [] = ((λ h. cc), (λ h. cc))
keys_beq_iff (x ∷ xs) (y ∷ ys) = ground (arith, key_line_beq_iff x y, keys_beq_iff xs ys)

instance abbrev pub key_eq : Eq (List KeyLine)
key_eq = record { beq = keys_beq; beq_iff = keys_beq_iff }

types_in : List KeyLine → List Bytes
types_in [] = []
types_in (type_line t ∷ r) = t ∷ types_in r
types_in (_ ∷ r) = types_in r

identifiers_in : List KeyLine → List Identifier
identifiers_in [] = []
identifiers_in (identifier_line n v ∷ r) = record { name = n; value = v } ∷ identifiers_in r
identifiers_in (_ ∷ r) = identifiers_in r

metadata_in : List KeyLine → List Metadata
metadata_in [] = []
metadata_in (metadata_line n v ∷ r) = record { name = n; value = v } ∷ metadata_in r
metadata_in (_ ∷ r) = metadata_in r

abbrev of_identifier : Identifier → KeyLine
of_identifier i = identifier_line i.name i.value

abbrev of_metadata : Metadata → KeyLine
of_metadata m = metadata_line m.name m.value

types_in-parts :
    (ts : List Bytes) (is : List Identifier) (ms : List Metadata)
    → types_in (map type_line ts ++ (map of_identifier is ++ map of_metadata ms)) ≡ ts
unfolding types_in
types_in-parts [] [] [] = refl
types_in-parts [] [] (m ∷ ms) = types_in-parts [] [] ms
types_in-parts [] (i ∷ is) ms = types_in-parts [] is ms
types_in-parts (t ∷ ts) is ms = ap (◌∷◌ t) (types_in-parts ts is ms)

identifiers_in-parts :
    (ts : List Bytes) (is : List Identifier) (ms : List Metadata)
    → identifiers_in (map type_line ts ++ (map of_identifier is ++ map of_metadata ms)) ≡ is
unfolding identifiers_in
identifiers_in-parts [] [] [] = refl
identifiers_in-parts [] [] (m ∷ ms) = identifiers_in-parts [] [] ms
identifiers_in-parts [] (i ∷ is) ms = ap (◌∷◌ i) (identifiers_in-parts [] is ms)
identifiers_in-parts (t ∷ ts) is ms = identifiers_in-parts ts is ms

metadata_in-parts :
    (ts : List Bytes) (is : List Identifier) (ms : List Metadata)
    → metadata_in (map type_line ts ++ (map of_identifier is ++ map of_metadata ms)) ≡ ms
unfolding metadata_in
metadata_in-parts [] [] [] = refl
metadata_in-parts [] [] (m ∷ ms) = ap (◌∷◌ m) (metadata_in-parts [] [] ms)
metadata_in-parts [] (i ∷ is) ms = metadata_in-parts [] is ms
metadata_in-parts (t ∷ ts) is ms = metadata_in-parts ts is ms

module _ (a b : QueryItem) (same : query_item_key a ≡ query_item_key b) where
  same_types : (p : Bytes → Bool) → any p (elements a.types) ≡ any p (elements b.types)
  unfolding query_item_key
  same_types p =
      sym (any-sort bytes_ltb p (elements a.types))
      ∙ ap (any p) (sym (types_in-parts _ _ _) ∙ ap types_in same ∙ types_in-parts _ _ _)
      ∙ any-sort bytes_ltb p (elements b.types)

  same_identifiers :
      (p : Identifier → Bool) → all p (elements a.identifiers) ≡ all p (elements b.identifiers)
  unfolding query_item_key
  same_identifiers p =
      sym (all-sort identifier_before p (elements a.identifiers))
      ∙ ap (all p) (
          sym (identifiers_in-parts (sort bytes_ltb (elements a.types)) _ _)
          ∙ ap identifiers_in same
          ∙ identifiers_in-parts (sort bytes_ltb (elements b.types)) _ _)
      ∙ all-sort identifier_before p (elements b.identifiers)

  same_metadata : (p : Metadata → Bool) → all p (elements a.metadata) ≡ all p (elements b.metadata)
  unfolding query_item_key
  same_metadata p =
      sym (all-sort metadata_before p (elements a.metadata))
      ∙ ap (all p) (
          sym (
            metadata_in-parts (sort bytes_ltb (elements a.types))
              (sort identifier_before (elements a.identifiers)) _)
          ∙ ap metadata_in same
          ∙ metadata_in-parts (sort bytes_ltb (elements b.types))
              (sort identifier_before (elements b.identifiers)) _)
      ∙ all-sort metadata_before p (elements b.metadata)

pub item_matches-and :
    (i : QueryItem) (e : EventData)
    → item_matches i e ≡ (
        type_allowed i.types e.typ
        && all (contains e.identifiers) (elements i.identifiers)
        && all (contains e.metadata) (elements i.metadata))
item_matches-and i e = unfold item_matches in ground arith

pub types_present : (i : QueryItem) → validate_item i ≡ none → i.types ≢ some []
unfolding validate_item
types_present i v e = ground arith

allowed_same :
    (xs ys : Option (List Bytes)) (t : Bytes)
    → xs ≢ some []
    → ((p : Bytes → Bool) → any p (elements xs) ≡ any p (elements ys))
    → type_allowed ys t ≡ true
    → type_allowed xs t ≡ true
unfolding any
allowed_same none ys t v same h = refl
allowed_same (some []) bs t v same h = absurd (v refl)
allowed_same (some (x ∷ xs)) none t v same h =
    absurd (unfold any in ground (arith, same (λ _. true)))
allowed_same (some (x ∷ xs)) (some ys) t v same h =
    contains-any (x ∷ xs) t ∙ same (λ y. bytes_eq.beq t y) ∙ sym (contains-any ys t) ∙ h

-- An item with the key of a valid item selects nothing that the valid item does not select.
pub key_matches :
    (a b : QueryItem) (e : EventData)
    → query_item_key a ≡ query_item_key b
    → validate_item a ≡ none
    → item_matches b e ≡ true
    → item_matches a e ≡ true
key_matches a b e same v h = ground (
  arith,
  item_matches-and a e,
  item_matches-and b e,
  same_identifiers a b same (contains e.identifiers),
  same_metadata a b same (contains e.metadata),
  allowed_same a.types b.types e.typ (types_present a v) (same_types a b same),
)
