-- ===== src/Store/Selects.antt =====
-- The SQL of a query selects the events that the query matches in memory.
use tamarackdb.Prelude.{
  ℕ, ◌<◌, ◌≡◌, inl, inr, Bool-cases, select, refl, ◌∙◌, sym, ap, Bool, true, false, ◌&&◌, ◌||◌,
  List, [], ◌∷◌, ◌++◌, map, none, arith, ltb, any, All, All-append, All-mono, All-pi, All-both,
}
use mathlib.Core.Path.{ap₂}
use mathlib.Core.List.{reverse, reverse-cons}
use tamarackdb.Prelude.Eq.{contains}
use tamarackdb.Dcb.Event.{Identifier, Metadata, identifier_eq, metadata_eq, Event}
use tamarackdb.Dcb.Query.{Query, matches, validate, insert_sorted, sort}
use tamarackdb.Store.Tables.{EventRow, Tables}
use tamarackdb.Store.Batch.{event_row}
use tamarackdb.Store.Sql.{query_to_sql, holds, tag_selected}
use tamarackdb.Store.Append.{matches_after}
use tamarackdb.Store.Read.{older, newer, selected_events}
use tamarackdb.Store.Log.{Above, Above-mono, Represents, identifiers_selected, metadata_selected}
use tamarackdb.Store.Clauses.{query_selects}

abbrev IdentifierAgrees : Tables → ℕ → Identifier → Event → Type 0
IdentifierAgrees t after i e =
    after < e.sequence
    → tag_selected t.identifiers i.name i.value after e.sequence
      ≡ contains e.event_data.identifiers i

abbrev MetadataAgrees : Tables → ℕ → Metadata → Event → Type 0
MetadataAgrees t after m e =
    after < e.sequence
    → tag_selected t.metadata m.name m.value after e.sequence ≡ contains e.event_data.metadata m

row_sequence : (e : Event) → (event_row e).sequence ≡ e.sequence
unfolding event_row
row_sequence e = refl

abbrev pub wanted : Query → ℕ → Event → Bool
wanted q after e = ltb after e.sequence && matches q e.event_data

abbrev wanted_row : Tables → Query → ℕ → EventRow → Bool
wanted_row t q after row = ltb after row.sequence && holds t row (query_to_sql q after)

-- What SQLite makes of a query for the row of an event is what the query matches.
abbrev RowAgrees : Tables → Query → ℕ → Event → Type 0
RowAgrees t q after e =
    after < e.sequence → holds t (event_row e) (query_to_sql q after) ≡ matches q e.event_data

wanted_rows :
    (t : Tables) (q : Query) (after : ℕ) (e : Event)
    → RowAgrees t q after e
    → wanted_row t q after (event_row e) ≡ wanted q after e
wanted_rows t q after e h = elim (Bool-cases (ltb after e.sequence)) [
  | inl below ↦ ground (arith, row_sequence e, h (ground arith))
  | inr above ↦ ground (arith, row_sequence e)
]

any_row :
    (t : Tables) (q : Query) (after : ℕ) (xs : List Event)
    → All (RowAgrees t q after) xs
    → any (wanted_row t q after) (map event_row xs) ≡ any (wanted q after) xs
unfolding any
any_row t q after [] h = refl
any_row t q after (e ∷ xs) h = ap₂ ◌||◌ (wanted_rows t q after e h.0) (any_row t q after xs h.1)

select_row :
    (t : Tables) (q : Query) (after : ℕ) (xs : List Event)
    → All (RowAgrees t q after) xs
    → select (wanted_row t q after) (map event_row xs) ≡ map event_row (select (wanted q after) xs)
unfolding select
select_row t q after [] h = refl
select_row t q after (e ∷ xs) h =
    ground (arith, wanted_rows t q after e h.0, select_row t q after xs h.1)

select-Above : (p : Event → Bool) (n : ℕ) (xs : List Event) → Above n xs → Above n (select p xs)
unfolding select
select-Above p n [] h = tt
select-Above p n (e ∷ xs) h = elim (Bool-cases (p e)) [
  | inl keep ↦ rw keep (h.0, select-Above p e.sequence xs h.1)
  | inr drop ↦ rw drop (Above-mono _ (omega (arith, h.0)) (select-Above p e.sequence xs h.1))
]

insert-first :
    (e : Event) (xs : List Event)
    → Above e.sequence xs
    → insert_sorted older (event_row e) (map event_row xs) ≡ event_row e ∷ map event_row xs
unfolding insert_sorted
insert-first e [] h = refl
insert-first e (x ∷ xs) h = ground (arith, row_sequence e, row_sequence x, h.0)

sort-ascending :
    (n : ℕ) (xs : List Event) → Above n xs → sort older (map event_row xs) ≡ map event_row xs
unfolding sort
sort-ascending n [] h = refl
sort-ascending n (x ∷ xs) h =
    ap (insert_sorted older (event_row x)) (sort-ascending x.sequence xs h.1)
    ∙ insert-first x xs h.1

insert-last :
    (e : Event) (rows : List EventRow)
    → All (λ r. e.sequence < r.sequence) rows
    → insert_sorted newer (event_row e) rows ≡ rows ++ event_row e ∷ []
unfolding insert_sorted
insert-last e [] h = refl
insert-last e (r ∷ rows) h = ground (arith, row_sequence e, h.0, insert-last e rows h.1)

later_rows :
    (n : ℕ) (xs : List Event) → Above n xs → All (λ r. n < r.sequence) (reverse (map event_row xs))
later_rows n [] h = tt
later_rows n (x ∷ xs) h = rw (reverse-cons (event_row x) (map event_row xs)) (
    All-append (λ r. n < r.sequence) (reverse (map event_row xs)) (event_row x ∷ [])
      (later_rows n xs (Above-mono xs (omega (arith, h.0)) h.1)) (unfold event_row in h.0, tt))

sort-descending :
    (n : ℕ) (xs : List Event)
    → Above n xs
    → sort newer (map event_row xs) ≡ reverse (map event_row xs)
unfolding sort
sort-descending n [] h = refl
sort-descending n (x ∷ xs) h =
    ap (insert_sorted newer (event_row x)) (sort-descending x.sequence xs h.1)
    ∙ insert-last x (reverse (map event_row xs)) (later_rows x.sequence xs h.1)
    ∙ sym (reverse-cons (event_row x) (map event_row xs))

module _ {t : Tables} {log : List Event} (rep : Represents t log) (above : Above 0 log) where
  -- For the events of the log above the bound, what SQLite makes of a valid query is what the query
  -- matches.
  pub sql-matches : (q : Query) (after : ℕ) → validate q ≡ none → All (RowAgrees t q after) log
  sql-matches q after v =
      All-mono
        (λ e.
          ((i : Identifier) → IdentifierAgrees t after i e)
          × ((m : Metadata) → MetadataAgrees t after m e))
        _ log
        (λ e agree below. query_selects t e after (λ i. agree.0 i below) (λ m. agree.1 m below) q v)
        (All-both _ _ log
          (All-pi (IdentifierAgrees t after) log
            (λ i. rw rep.identifiers (identifiers_selected log i.name i.value after above)))
          (All-pi (MetadataAgrees t after) log
            (λ m. rw rep.metadata (metadata_selected log m.name m.value after above))))

  -- For tables that represent a log with rising sequences and a valid query, the check of a
  -- condition finds a conflict exactly when an event of the log after the bound matches the query
  -- in memory.
  pub matches_after-eq-any :
      (q : Query) (after : ℕ)
      → validate q ≡ none
      → matches_after t q after ≡ any (wanted q after) log
  matches_after-eq-any q after v =
      unfold matches_after in rw rep.events (any_row t q after log (sql-matches q after v))

  -- For tables that represent a log with rising sequences and a valid query, a read after a
  -- position selects the rows of the matching events of the log, oldest first, and backwards the
  -- same rows newest first.
  pub selected_events-eq-select :
      (q : Query) (after : ℕ)
      → validate q ≡ none
      → let rows = map event_row (select (wanted q after) log) in
        (selected_events q after false t ≡ rows) × (selected_events q after true t ≡ reverse rows)
  selected_events-eq-select q after v =
      let found = select_row t q after log (sql-matches q after v) in
      let rising = select-Above (wanted q after) 0 log above in
      unfold selected_events in
      (
        rw (rep.events, found) (sort-ascending 0 (select (wanted q after) log) rising),
        rw (rep.events, found) (sort-descending 0 (select (wanted q after) log) rising),
      )
