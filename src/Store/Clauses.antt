-- ===== src/Store/Clauses.antt =====
-- The clauses of a query, one event at a time: they hold of its row when the query matches the event.
use tamarackdb.Prelude.{
  ℕ, ◌≡◌, ◌≢◌, refl, ◌∙◌, Bool, ◌||◌, List, [], ◌∷◌, ◌++◌, map, Option, none, some, arith, any, all,
  all-append,
}
use tamarackdb.Prelude.Eq.{Bytes, contains}
use tamarackdb.Dcb.Event.{Identifier, Metadata, identifier_eq, metadata_eq, Event}
use tamarackdb.Dcb.Query.{
  QueryItem, Query, QueryForm, form_items, form_all, form_none, item_matches, matches, validate,
  validate_item, validate_items, validate_form, matches_form, elements, type_allowed,
}
use tamarackdb.Dcb.Query.Keys.{item_matches-and, types_present}
use tamarackdb.Store.Tables.{Tables}
use tamarackdb.Store.Batch.{event_row}
use tamarackdb.Store.Sql.{
  Clause, identifier_in, metadata_in, Where, unconstrained, never, any_of, query_item_to_sql,
  join_clause, items_to_sql, query_to_sql, clause_holds, holds, tag_selected, type_clauses,
  form_to_sql,
}

module _ (t : Tables) (e : Event) (after : ℕ)
    (identifiers_agree : (i : Identifier)
      → tag_selected t.identifiers i.name i.value after e.sequence
        ≡ contains e.event_data.identifiers i)
    (metadata_agree : (m : Metadata)
      → tag_selected t.metadata m.name m.value after e.sequence
        ≡ contains e.event_data.metadata m) where
  abbrev clause : Clause → Bool
  clause c = clause_holds t (event_row e) c

  all-types :
      (ts : Option (List Bytes))
      → ts ≢ some []
      → all clause (type_clauses (elements ts)) ≡ type_allowed ts e.event_data.typ
  unfolding all clause_holds event_row
  all-types none h = refl
  all-types (some []) h = absurd (h refl)
  all-types (some (x ∷ xs)) h = ground arith

  all-identifiers :
      (is : List Identifier)
      → all clause (map (λ i. identifier_in i.name i.value after) is)
        ≡ all (contains e.event_data.identifiers) is
  unfolding all clause_holds event_row
  all-identifiers [] = refl
  all-identifiers (i ∷ is) = ground (arith, identifiers_agree i, all-identifiers is)

  all-metadata :
      (ms : List Metadata)
      → all clause (map (λ m. metadata_in m.name m.value after) ms)
        ≡ all (contains e.event_data.metadata) ms
  unfolding all clause_holds event_row
  all-metadata [] = refl
  all-metadata (m ∷ ms) = ground (arith, metadata_agree m, all-metadata ms)

  item_selects :
      (item : QueryItem)
      → item.types ≢ some []
      → all clause (query_item_to_sql item after) ≡ item_matches item e.event_data
  unfolding query_item_to_sql
  item_selects item h = ground (
    arith,
    all-append clause (type_clauses (elements item.types)) (
        map (λ i. identifier_in i.name i.value after) (elements item.identifiers)
        ++ map (λ m. metadata_in m.name m.value after) (elements item.metadata)),
    all-append clause (map (λ i. identifier_in i.name i.value after) (elements item.identifiers))
        (map (λ m. metadata_in m.name m.value after) (elements item.metadata)),
    all-types item.types h,
    all-identifiers (elements item.identifiers),
    all-metadata (elements item.metadata),
    item_matches-and item e.event_data,
  )

  join_holds :
      (cs : List Clause) (w : Where)
      → w ≢ never
      → holds t (event_row e) (join_clause cs w) ≡ (all clause cs || holds t (event_row e) w)
  unfolding holds any all
  join_holds [] w h = refl
  join_holds (c ∷ cs) unconstrained h = ground arith
  join_holds (c ∷ cs) never h = absurd (h refl)
  join_holds (c ∷ cs) (any_of clauses) h = refl

  join-ne-never : (cs : List Clause) (w : Where) → w ≢ never → join_clause cs w ≢ never
  join-ne-never [] w h = λ p. cc
  join-ne-never (c ∷ cs) unconstrained h = h
  join-ne-never (c ∷ cs) never h = h
  join-ne-never (c ∷ cs) (any_of clauses) h = λ p. cc

  items-ne-never : (items : List QueryItem) → items_to_sql items after ≢ never
  unfolding items_to_sql
  items-ne-never [] = λ p. cc
  items-ne-never (i ∷ rest) = join-ne-never _ _ (items-ne-never rest)

  validate_items-cons :
      (i : QueryItem) (rest : List QueryItem)
      → validate_items (i ∷ rest) ≡ none
      → (validate_item i ≡ none) × (validate_items rest ≡ none)
  validate_items-cons i rest h = unfold validate_items in ground arith

  items_select :
      (items : List QueryItem)
      → validate_items items ≡ none
      → holds t (event_row e) (items_to_sql items after)
        ≡ any (λ i. item_matches i e.event_data) items
  unfolding items_to_sql any
  items_select [] v = unfold holds in refl
  items_select (i ∷ rest) v =
      let both = validate_items-cons i rest v in
      join_holds (query_item_to_sql i after) (items_to_sql rest after) (items-ne-never rest)
      ∙ ground (arith, item_selects i (types_present i both.0), items_select rest both.1)

  form_selects :
      (form : QueryForm) (items : List QueryItem)
      → validate_form form items ≡ none
      → holds t (event_row e) (form_to_sql form items after) ≡ matches_form form items e.event_data
  form_selects form_all items v = unfold holds in refl
  form_selects form_none items v = unfold holds in refl
  form_selects form_items [] v = absurd (ground arith)
  form_selects form_items (i ∷ rest) v = ground (arith, items_select (i ∷ rest) (ground arith))

  pub query_selects :
      (q : Query)
      → validate q ≡ none
      → holds t (event_row e) (query_to_sql q after) ≡ matches q e.event_data
  query_selects q v =
      unfold query_to_sql matches in form_selects q.form q.items (unfold validate in v)
