-- ===== src/Store/Batch.antt =====
-- internal/store/append.go: rows of events and tags, and their insertion in batches.
use tamarackdb.Prelude.{
  ℕ, zero, suc, ◌/◌, Bool, ◌&&◌, List, [], ◌∷◌, ◌++◌, map, eqb, length, any, take, drop,
  if◌then◌else◌,
}
use tamarackdb.Prelude.Eq.{bytes_beq}
use tamarackdb.Prelude.Exec.{Result, ok, err, and_then, pure, ◌>>◌}
use tamarackdb.Dcb.Event.{Identifier, Metadata, Event}
use tamarackdb.Dcb.Compact.{marshal_identifiers, marshal_metadata}
use tamarackdb.Store.Tables.{
  EventRow, TagRow, Tables, Env, Action, statement, constraint_primary_key, constraint_foreign_key,
}

abbrev pub max_batch_variables : ℕ
max_batch_variables = 32000

-- The chunks of the loop of `execBatchInsert`, each of at most `n` rows. As many rounds as there are
-- rows are enough.
module _ {ℓ} {A : Type ℓ} where
  unfoldable pub batches : ℕ → ℕ → List A → List (List A)
  batches zero n rows = []
  batches (suc fuel) n [] = []
  batches (suc fuel) n (r ∷ rows) = take n (r ∷ rows) ∷ batches fuel n (drop n (r ∷ rows))

module _ {A : Type 0} (env : Env) (run : List A → Tables → Result ℕ (Unit {0} × Tables)) where
  unfoldable pub insert_chunks : List (List A) → Action Unit
  unfolding statement
  insert_chunks [] = pure tt
  insert_chunks (chunk ∷ rest) = do statement env (run chunk); insert_chunks rest

  -- Nothing is run for no rows: there is no chunk then.
  unfoldable pub exec_batch_insert : ℕ → List A → Action Unit
  unfolding insert_chunks batches
  exec_batch_insert cols_per_row rows =
      insert_chunks (batches (length rows) (max_batch_variables / cols_per_row) rows)

-- `TimeLayout` keeps the microseconds of a time, which is all that `dcb.Now` leaves of it.
unfoldable pub event_row : Event → EventRow
event_row e = record {
  sequence = e.sequence;
  time = e.time;
  typ = e.event_data.typ;
  payload = e.event_data.payload;
  identifiers = marshal_identifiers e.event_data.identifiers;
  metadata = marshal_metadata e.event_data.metadata;
}

-- INSERT INTO events: the primary key is the sequence.
unfoldable pub insert_event_rows : List EventRow → Tables → Result ℕ (Unit {0} × Tables)
unfolding any
insert_event_rows [] t = ok (tt, t)
insert_event_rows (row ∷ rest) t =
    let next = insert_event_rows rest (record t { events = t.events ++ row ∷ [] }) in
    if any (λ r. eqb r.sequence row.sequence) t.events then err constraint_primary_key else next

abbrev pub tag_row_beq : TagRow → TagRow → Bool
tag_row_beq a b =
    eqb a.event_sequence b.event_sequence && bytes_beq a.name b.name && bytes_beq a.value b.value

-- INSERT INTO identifiers, or metadata: the primary key is the whole row, and the event exists.
unfoldable pub add_tag_rows : List EventRow → List TagRow → List TagRow → Result ℕ (List TagRow)
unfolding any
add_tag_rows events [] rows = ok rows
add_tag_rows events (row ∷ rest) rows =
    let next = add_tag_rows events rest (rows ++ row ∷ []) in
    if any (tag_row_beq row) rows
    then err constraint_primary_key
    else if any (λ e. eqb e.sequence row.event_sequence) events
    then next
    else err constraint_foreign_key

unfoldable pub insert_identifier_rows : List TagRow → Tables → Result ℕ (Unit {0} × Tables)
unfolding add_tag_rows
insert_identifier_rows new t =
    and_then (add_tag_rows t.events new t.identifiers)
      (λ rows. ok (tt, record t { identifiers = rows }))

unfoldable pub insert_metadata_rows : List TagRow → Tables → Result ℕ (Unit {0} × Tables)
unfolding add_tag_rows
insert_metadata_rows new t =
    and_then (add_tag_rows t.events new t.metadata) (λ rows. ok (tt, record t { metadata = rows }))

abbrev pub identifier_row : ℕ → Identifier → TagRow
identifier_row sequence i = record { event_sequence = sequence; name = i.name; value = i.value }

abbrev pub metadata_row : ℕ → Metadata → TagRow
metadata_row sequence m = record { event_sequence = sequence; name = m.name; value = m.value }

-- The tag rows of a list of events.
abbrev pub tag_rows : {A : Type 0} → (ℕ → A → TagRow) → (Event → List A) → List Event → List TagRow
tag_rows row tags [] = []
tag_rows row tags (e ∷ rest) = map (row e.sequence) (tags e) ++ tag_rows row tags rest

unfoldable pub identifier_rows : List Event → List TagRow
identifier_rows = tag_rows identifier_row (λ e. e.event_data.identifiers)

unfoldable pub metadata_rows : List Event → List TagRow
metadata_rows = tag_rows metadata_row (λ e. e.event_data.metadata)

module _ (env : Env) where
  unfoldable pub insert_events_batch : List Event → Action Unit
  unfolding exec_batch_insert insert_event_rows event_row
  insert_events_batch rows = exec_batch_insert env insert_event_rows 6 (map event_row rows)

  unfoldable pub insert_identifiers_batch : List Event → Action Unit
  unfolding exec_batch_insert insert_identifier_rows identifier_rows
  insert_identifiers_batch rows =
      exec_batch_insert env insert_identifier_rows 3 (identifier_rows rows)

  unfoldable pub insert_metadata_batch : List Event → Action Unit
  unfolding exec_batch_insert insert_metadata_rows metadata_rows
  insert_metadata_batch rows = exec_batch_insert env insert_metadata_rows 3 (metadata_rows rows)
