-- ===== src/Store/Sql.antt =====
-- internal/store/query.go: queries as SQL. A value of `Where` is the text of `queryToSQL` with its
-- arguments, and `holds` is what SQLite makes of that text for a row of `events`.
use tamarackdb.Prelude.{
  ℕ, Bool, true, false, ◌&&◌, List, [], ◌∷◌, ◌++◌, map, ltb, eqb, length, any, all, if◌then◌else◌,
}
use tamarackdb.Prelude.Eq.{Bytes, bytes_eq, bytes_beq, contains}
use tamarackdb.Dcb.Query.{QueryItem, Query, QueryForm, form_items, form_all, form_none, elements}
use tamarackdb.Store.Tables.{EventRow, TagRow, Tables}

pub data Clause : Type 0 where
  -- events.type IN (...)
  type_in : List Bytes → Clause
  -- events.sequence IN (SELECT event_sequence FROM identifiers WHERE name = ? AND value = ? AND
  -- event_sequence > ?)
  identifier_in : Bytes → Bytes → ℕ → Clause
  -- the same of the table metadata
  metadata_in : Bytes → Bytes → ℕ → Clause

-- The empty text, "0", and "(... OR ...)" of "(... AND ...)".
pub data Where : Type 0 where
  unconstrained : Where
  never : Where
  any_of : List (List Clause) → Where

abbrev pub type_clauses : List Bytes → List Clause
type_clauses [] = []
type_clauses (t ∷ ts) = type_in (t ∷ ts) ∷ []

unfoldable pub query_item_to_sql : QueryItem → ℕ → List Clause
query_item_to_sql item after =
    type_clauses (elements item.types)
    ++ (map (λ i. identifier_in i.name i.value after) (elements item.identifiers)
        ++ map (λ m. metadata_in m.name m.value after) (elements item.metadata))

-- What the loop returns when it reaches an item: the item's clause, if it has any, joins the others.
abbrev pub join_clause : List Clause → Where → Where
join_clause [] rest = unconstrained
join_clause (c ∷ cs) unconstrained = unconstrained
join_clause (c ∷ cs) never = never
join_clause (c ∷ cs) (any_of clauses) = any_of ((c ∷ cs) ∷ clauses)

unfoldable pub items_to_sql : List QueryItem → ℕ → Where
unfolding query_item_to_sql
items_to_sql [] after = any_of []
items_to_sql (item ∷ rest) after =
    join_clause (query_item_to_sql item after) (items_to_sql rest after)

abbrev pub form_to_sql : QueryForm → List QueryItem → ℕ → Where
form_to_sql form_all items after = unconstrained
form_to_sql form_none items after = never
form_to_sql form_items items after =
    if eqb (length items) 0 then never else items_to_sql items after

unfoldable pub query_to_sql : Query → ℕ → Where
unfolding items_to_sql
query_to_sql q after = form_to_sql q.form q.items after

-- Whether a subquery over a tag table selects the sequence of a row.
unfoldable pub tag_selected : List TagRow → Bytes → Bytes → ℕ → ℕ → Bool
unfolding any
tag_selected rows name value after sequence =
    any
      (λ r.
        bytes_beq r.name name
        && bytes_beq r.value value
        && ltb after r.event_sequence
        && eqb r.event_sequence sequence)
      rows

unfoldable pub clause_holds : Tables → EventRow → Clause → Bool
unfolding contains tag_selected
clause_holds t row (type_in ts) = contains ts row.typ
clause_holds t row (identifier_in name value after) =
    tag_selected t.identifiers name value after row.sequence
clause_holds t row (metadata_in name value after) =
    tag_selected t.metadata name value after row.sequence

unfoldable pub holds : Tables → EventRow → Where → Bool
unfolding clause_holds any all
holds t row unconstrained = true
holds t row never = false
holds t row (any_of clauses) = any (all (clause_holds t row)) clauses
