-- ===== src/Dcb/Query/Dedupe.antt =====
-- What the removal of duplicate items keeps.
use mathlib.Core.List.{Permᴰ}
use tamarackdb.Dcb.Query.Orders.{
  sort-Permᴰ, bytes_ltb-Linear, identifier_before-Linear, metadata_before-Linear,
}
use tamarackdb.Prelude.{
  ℕ, suc, ◌≡◌, refl, ◌∙◌, sym, inl, inr, Bool, true, false, ◌||◌, List, [], ◌∷◌, map, none, some,
  arith, ltb, length, any, All, Bool-cases,
}
use tamarackdb.Prelude.Eq.{contains}
use tamarackdb.Dcb.Event.{EventData}
use tamarackdb.Dcb.Event.Rules.{Distinct}
use tamarackdb.Dcb.Query.{
  QueryItem, KeyLine, elements, query_item_key, keys_beq, dedupe_after, dedupe_query_items,
  new_query, item_matches, matches, validate, validate_item, validate_items, empty_query_item_array,
}
use tamarackdb.Dcb.Query.Keys.{key_eq, keys_beq_iff, key_matches}
use tamarackdb.Dcb.Query.Sorting.{contains-any}

abbrev matched : EventData → QueryItem → Bool
matched e i = item_matches i e

-- An item whose key was seen selects only what the items kept select.
seen_matches :
    (item : QueryItem) (kept : List QueryItem) (e : EventData)
    → any (keys_beq (query_item_key item)) (map query_item_key kept) ≡ true
    → validate_items kept ≡ none
    → item_matches item e ≡ true
    → any (matched e) kept ≡ true
unfolding any validate_items
seen_matches item [] e s v h = absurd (ground arith)
seen_matches item (k ∷ kept) e s v h =
    elim (Bool-cases (keys_beq (query_item_key item) (query_item_key k))) [
      | inl same ↦
          ground (arith, key_matches k item e (sym ((keys_beq_iff _ _).0 same)) (ground arith) h)
      | inr differ ↦ ground (arith, seen_matches item kept e (ground arith) (ground arith) h)
    ]

dedupe_after-matches :
    (kept items : List QueryItem) (e : EventData)
    → validate_items kept ≡ none
    → validate_items (dedupe_after (map query_item_key kept) items) ≡ none
    → (any (matched e) kept || any (matched e) (dedupe_after (map query_item_key kept) items))
      ≡ (any (matched e) kept || any (matched e) items)
unfolding dedupe_after any validate_items
dedupe_after-matches kept [] e v w = refl
dedupe_after-matches kept (item ∷ rest) e v w =
    elim (Bool-cases (any (keys_beq (query_item_key item)) (map query_item_key kept))) [
      | inl skip ↦ ground (
        arith,
        dedupe_after-matches kept rest e v (ground arith),
        seen_matches item kept e skip v,
      )
      | inr keep ↦
          ground (arith, dedupe_after-matches (item ∷ kept) rest e (ground arith) (ground arith))
    ]

-- A query that passes `Validate` selects exactly the events that one of the given items selects:
-- the removal of duplicates changes nothing.
pub matches-new_query :
    (items : List QueryItem) (e : EventData)
    → validate (new_query items) ≡ none
    → matches (new_query items) e ≡ any (λ i. item_matches i e) items
unfolding validate_items
matches-new_query items e v = elim (Bool-cases (ltb (length items) 2)) [
  | inl few ↦ unfold dedupe_query_items matches in rw few refl
  | inr many ↦
      unfold dedupe_query_items matches in
      rw many
        (dedupe_after-matches [] items e refl (unfold validate dedupe_query_items in ground arith))
]

abbrev keys : List QueryItem → List (List KeyLine)
keys items = map query_item_key items

any_key :
    (key : List KeyLine) (seen : List (List KeyLine)) → any (keys_beq key) seen ≡ contains seen key
any_key key seen = sym (contains-any seen key)

contains-cons_false :
    (x key : List KeyLine) (xs : List (List KeyLine))
    → contains (x ∷ xs) key ≡ false
    → (keys_beq key x ≡ false) × (contains xs key ≡ false)
unfolding contains
contains-cons_false x key xs h = ground arith

avoided :
    (x : List KeyLine) (seen xs : List (List KeyLine))
    → All (λ k. contains (x ∷ seen) k ≡ false) xs
    → All (λ k. contains seen k ≡ false) xs × (contains xs x ≡ false)
unfolding contains
avoided x seen [] h = (tt, refl)
avoided x seen (k ∷ ks) h =
    let rest = avoided x seen ks h.1 in
    let apart = contains-cons_false x k seen h.0 in
    ((apart.1, rest.0), ground (arith, rest.1, apart.0, keys_beq_iff x k, keys_beq_iff k x))

dedupe_after-Distinct :
    (seen : List (List KeyLine)) (items : List QueryItem)
    → All (λ k. contains seen k ≡ false) (keys (dedupe_after seen items))
      × Distinct (keys (dedupe_after seen items))
unfolding dedupe_after
dedupe_after-Distinct seen [] = (tt, tt)
dedupe_after-Distinct seen (item ∷ rest) =
    elim (Bool-cases (any (keys_beq (query_item_key item)) seen)) [
      | inl skip ↦ rw skip (dedupe_after-Distinct seen rest)
      | inr keep ↦
          let ih = dedupe_after-Distinct (query_item_key item ∷ seen) rest in
          let apart = avoided (query_item_key item) seen _ ih.0 in
          rw keep ((sym (any_key (query_item_key item) seen) ∙ keep, apart.0), (apart.1, ih.1))
    ]

-- Two items alike: each axis holds the same elements, in whatever order.
pub record Alike (a b : QueryItem) : Type 0 where
  pub types : Permᴰ (elements a.types) (elements b.types)
  pub identifiers : Permᴰ (elements a.identifiers) (elements b.identifiers)
  pub metadata : Permᴰ (elements a.metadata) (elements b.metadata)

Alike-key : (a b : QueryItem) → Alike a b → query_item_key a ≡ query_item_key b
unfolding query_item_key
Alike-key a b h = rw (sort-Permᴰ bytes_ltb-Linear h.types) (
    rw (sort-Permᴰ identifier_before-Linear h.identifiers)
      (rw (sort-Permᴰ metadata_before-Linear h.metadata) refl))

-- No item is alike to one after it.
abbrev pub NoneAlike : List QueryItem → Type 0
NoneAlike [] = Unit {0}
NoneAlike (i ∷ rest) = All (λ j. ¬ Alike i j) rest × NoneAlike rest

no_key-All :
    (i : QueryItem) (rest : List QueryItem)
    → contains (keys rest) (query_item_key i) ≡ false
    → All (λ j. ¬ Alike i j) rest
unfolding contains
no_key-All i [] h = tt
no_key-All i (j ∷ rest) h = (
  (λ alike. ground (
    arith,
    h,
    keys_beq_iff (query_item_key i) (query_item_key j),
    keys_beq_iff (query_item_key j) (query_item_key i),
    Alike-key i j alike,
  )),
  no_key-All i rest (ground (arith, h)),
)

Distinct-NoneAlike : (items : List QueryItem) → Distinct (keys items) → NoneAlike items
Distinct-NoneAlike [] h = tt
Distinct-NoneAlike (i ∷ rest) h = (no_key-All i rest h.0, Distinct-NoneAlike rest h.1)

new_query-Distinct : (items : List QueryItem) → Distinct (keys (new_query items).items)
unfolding dedupe_query_items contains
new_query-Distinct [] = tt
new_query-Distinct (i ∷ []) = (refl, tt)
new_query-Distinct (i ∷ j ∷ rest) =
    rw (many (length rest)) (dedupe_after-Distinct [] (i ∷ j ∷ rest)).1
  where
    many : (n : ℕ) → ltb (suc (suc n)) 2 ≡ false
    many n = ground arith

-- In a query that `NewQuery` builds, no two items are alike: of any two, one axis differs in more than
-- the order of its elements.
pub new_query-NoneAlike : (items : List QueryItem) → NoneAlike (new_query items).items
new_query-NoneAlike items = Distinct-NoneAlike (new_query items).items (new_query-Distinct items)

abbrev pub with_no_types : QueryItem → QueryItem
with_no_types i = record i { types = some [] }

with_no_types-key :
    (i : QueryItem) → i.types ≡ none → query_item_key (with_no_types i) ≡ query_item_key i
unfolding query_item_key
with_no_types-key i h = rw h refl

-- Next to a valid item without types, its copy with an empty array of types, which `Validate` refuses
-- on its own, goes unnoticed: the query of the two passes.
pub empty_types_unnoticed :
    (i : QueryItem)
    → i.types ≡ none
    → validate_item i ≡ none
    → (validate_item (with_no_types i) ≡ some empty_query_item_array)
      × (validate (new_query (i ∷ with_no_types i ∷ [])) ≡ none)
empty_types_unnoticed i h v = (
  (unfold validate_item in ground arith),
  unfold validate dedupe_query_items dedupe_after in
      ground (
        arith,
        v,
        (keys_beq_iff (query_item_key (with_no_types i)) (query_item_key i)).1
            (with_no_types-key i h),
      ),
)
