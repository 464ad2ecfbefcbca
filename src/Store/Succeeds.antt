-- ===== src/Store/Succeeds.antt =====
-- The steps of an append that nothing stands against: each of them succeeds.
use tamarackdb.Prelude.{
  ℕ, ◌+◌, ◌-◌, ◌<◌, ◌≡◌, refl, sym, ap, subst, ◌∙◌, true, List, [], ◌∷◌, ◌++◌, map, none, arith,
  eqb, All, any, any-append,
}
use mathlib.Core.List.{append_assoc}
use tamarackdb.Prelude.Exec.{ok, and_then}
use tamarackdb.Dcb.Event.{
  Identifier, Metadata, identifier_eq, metadata_eq, EventData, Event, PendingEvent,
}
use tamarackdb.Dcb.Event.Rules.{Distinct}
use tamarackdb.Store.Tables.{EventRow, TagRow, Tables, Env, Store, driver_call}
use tamarackdb.Store.Batch.{
  event_row, identifier_row, metadata_row, identifier_rows, metadata_rows, tag_row_beq,
  add_tag_rows, insert_event_rows, insert_identifier_rows, insert_metadata_rows,
  insert_events_batch, insert_identifiers_batch, insert_metadata_batch,
}
use tamarackdb.Store.Append.{number_events, insert_events, write_events}
use tamarackdb.Store.Log.{Above, Represents}
use tamarackdb.Store.Inserts.{
  add_event_rows, add_identifier_rows, add_metadata_rows, Spec-insert_events_batch,
  Spec-insert_identifiers_batch, Spec-insert_metadata_batch,
}
use tamarackdb.Store.Fresh.{
  FreshEvents, FreshTags, FreshEvents-split, FreshTags-split, insert_event_rows-fresh,
  add_tag_rows-fresh, Above-FreshEvents, FreshTags-log, tag_rows-below,
}
use tamarackdb.Store.Progress.{
  Total, Total-bind, Total-pure, Total-Spec, Total-driver_call, Total-exec_batch_insert,
}

pub number_events-All :
    (P : EventData → Type 0) (start : ℕ) (events : List PendingEvent)
    → All (λ e. P e.event_data) events
    → All (λ e. P e.event_data) (number_events start events)
unfolding number_events
number_events-All P start [] h = tt
number_events-All P start (e ∷ rest) h = (h.0, number_events-All P (start + 1) rest h.1)

rows_known :
    (rows : List EventRow) (es : List Event)
    → All (λ e. any (λ r. eqb r.sequence e.sequence) (rows ++ map event_row es) ≡ true) es
unfolding any event_row
rows_known rows [] = tt
rows_known rows (e ∷ es) = (
  ground (arith, any-append (λ r. eqb r.sequence e.sequence) rows (map event_row (e ∷ es))),
  subst (λ rs. All (λ x. any (λ r. eqb r.sequence x.sequence) rs ≡ true) es)
      (append_assoc rows (event_row e ∷ []) (map event_row es))
      (rows_known (rows ++ event_row e ∷ []) es),
)

event_rows-below :
    (n : ℕ) (log : List Event)
    → All (λ e. e.sequence < n) log
    → All (λ r. r.sequence < n) (map event_row log)
unfolding event_row
event_rows-below n [] h = tt
event_rows-below n (e ∷ log) h = (h.0, event_rows-below n log h.1)

same_identifier :
    (n : ℕ) (a b : Identifier)
    → tag_row_beq (identifier_row n a) (identifier_row n b) ≡ identifier_eq.beq a b
same_identifier n a b = ground arith

same_metadata :
    (n : ℕ) (a b : Metadata)
    → tag_row_beq (metadata_row n a) (metadata_row n b) ≡ metadata_eq.beq a b
same_metadata n a b = ground arith

-- Events that may follow a log.
pub record Follows (t : Tables) (log es : List Event) (start : ℕ) : Type 0 where
  pub represents : Represents t log
  pub below : All (λ e. e.sequence < start) log
  pub started : 0 < start
  pub above : Above (start - 1) es
  pub identifiers_distinct : All (λ e. Distinct e.event_data.identifiers) es
  pub metadata_distinct : All (λ e. Distinct e.event_data.metadata) es

module _ (t : Tables) (log es : List Event) (start : ℕ) (f : Follows t log es start) where
  bound : start ≡ (start - 1) + 1
  bound = omega (arith, f.started)

  pub events_fresh : FreshEvents (map event_row es) t.events
  events_fresh = Above-FreshEvents (start - 1) es t.events f.above (
      subst (λ rows. All (λ r. r.sequence < (start - 1) + 1) rows) (sym f.represents.events)
        (subst (λ n. All (λ r. r.sequence < n) (map event_row log)) bound
          (event_rows-below start log f.below)))

  pub identifiers_fresh :
      FreshTags (t.events ++ map event_row es) (identifier_rows es) t.identifiers
  unfolding identifier_rows
  identifiers_fresh =
      FreshTags-log identifier_row (λ n a. refl) same_identifier (λ e. e.event_data.identifiers)
        (t.events ++ map event_row es) (start - 1) es t.identifiers f.above (rows_known t.events es)
        f.identifiers_distinct
        (subst (λ rows. All (λ r. r.event_sequence < (start - 1) + 1) rows)
          (sym f.represents.identifiers)
          (subst (λ n. All (λ r. r.event_sequence < n) (identifier_rows log)) bound
            (tag_rows-below identifier_row (λ n a. refl) same_identifier
              (λ e. e.event_data.identifiers) start log f.below)))

  pub metadata_fresh : FreshTags (t.events ++ map event_row es) (metadata_rows es) t.metadata
  unfolding metadata_rows
  metadata_fresh =
      FreshTags-log metadata_row (λ n a. refl) same_metadata (λ e. e.event_data.metadata)
        (t.events ++ map event_row es) (start - 1) es t.metadata f.above (rows_known t.events es)
        f.metadata_distinct
        (subst (λ rows. All (λ r. r.event_sequence < (start - 1) + 1) rows)
          (sym f.represents.metadata)
          (subst (λ n. All (λ r. r.event_sequence < n) (metadata_rows log)) bound
            (tag_rows-below metadata_row (λ n a. refl) same_metadata (λ e. e.event_data.metadata)
              start log f.below)))

module _ (env : Env) (no_fault : (n : ℕ) → env.fault n ≡ none) (es : List Event) (s : Store) where
  Total-events :
      FreshEvents (map event_row es) s.tables.events
      → Total s
          (insert_events_batch env es)
          (λ u s'. s'.tables ≡ add_event_rows (map event_row es) s.tables)
  Total-events h =
      Total-Spec {Q = λ u s'. Unit {0}} s (insert_events_batch env es)
        (unfold insert_events_batch in
          Total-exec_batch_insert env no_fault insert_event_rows add_event_rows
            (λ rows t. FreshEvents rows t.events) insert_event_rows-fresh
            (λ xs ys t. FreshEvents-split xs ys t.events) s 6 (map event_row es) (omega arith)
            (omega arith) h)
        (Spec-insert_events_batch env es s)

  Total-identifiers :
      FreshTags s.tables.events (identifier_rows es) s.tables.identifiers
      → Total s
          (insert_identifiers_batch env es)
          (λ u s'. s'.tables ≡ add_identifier_rows (identifier_rows es) s.tables)
  Total-identifiers h =
      Total-Spec {Q = λ u s'. Unit {0}} s (insert_identifiers_batch env es)
        (unfold insert_identifiers_batch in
          Total-exec_batch_insert env no_fault insert_identifier_rows add_identifier_rows
            (λ rows t. FreshTags t.events rows t.identifiers)
            (λ rows t fresh.
              identifiers_in rows t (add_tag_rows-fresh t.events rows t.identifiers fresh))
            (λ xs ys t. FreshTags-split t.events xs ys t.identifiers) s 3 (identifier_rows es)
            (omega arith) (omega arith) h)
        (Spec-insert_identifiers_batch env es s)
    where
      identifiers_in :
          (rows : List TagRow) (t : Tables)
          → add_tag_rows t.events rows t.identifiers ≡ ok (t.identifiers ++ rows)
          → insert_identifier_rows rows t ≡ ok (tt, add_identifier_rows rows t)
      identifiers_in rows t added =
          unfold insert_identifier_rows in
          ap (λ r. and_then r (λ new. ok (tt, record t { identifiers = new }))) added

  Total-metadata :
      FreshTags s.tables.events (metadata_rows es) s.tables.metadata
      → Total s
          (insert_metadata_batch env es)
          (λ u s'. s'.tables ≡ add_metadata_rows (metadata_rows es) s.tables)
  Total-metadata h =
      Total-Spec {Q = λ u s'. Unit {0}} s (insert_metadata_batch env es)
        (unfold insert_metadata_batch in
          Total-exec_batch_insert env no_fault insert_metadata_rows add_metadata_rows
            (λ rows t. FreshTags t.events rows t.metadata)
            (λ rows t fresh. metadata_in rows t (add_tag_rows-fresh t.events rows t.metadata fresh))
            (λ xs ys t. FreshTags-split t.events xs ys t.metadata) s 3 (metadata_rows es)
            (omega arith) (omega arith) h)
        (Spec-insert_metadata_batch env es s)
    where
      metadata_in :
          (rows : List TagRow) (t : Tables)
          → add_tag_rows t.events rows t.metadata ≡ ok (t.metadata ++ rows)
          → insert_metadata_rows rows t ≡ ok (tt, add_metadata_rows rows t)
      metadata_in rows t added =
          unfold insert_metadata_rows in
          ap (λ r. and_then r (λ new. ok (tt, record t { metadata = new }))) added

module _ (env : Env) (no_fault : (n : ℕ) → env.fault n ≡ none) where
  -- The events of an append, numbered from the next sequence on, follow the log.
  pub Total-write_events :
      (events : List PendingEvent) (start : ℕ) (s : Store) (log : List Event)
      → Follows s.tables log (number_events start events) start
      → Total s (write_events env events start) (λ r s'. Unit {0})
  unfolding write_events insert_events
  Total-write_events [] start s log f =
      Total-bind {Q = λ r s'. Unit {0}} s (insert_events env [] start) _ (Total-pure s [] tt)
        λ r s1 h.
          Total-bind s1 (driver_call env) _ (Total-driver_call env no_fault s1)
            λ u s2 h2. Total-pure s2 r tt
  Total-write_events (e ∷ rest) start s log f =
      let es = number_events start (e ∷ rest) in
      Total-bind {Q = λ r s'. Unit {0}} s (insert_events env (e ∷ rest) start) _
        (Total-bind s (insert_events_batch env es) _
          (Total-events env no_fault es s (events_fresh s.tables log es start f))
          λ u s1 t1.
            Total-bind s1 (insert_identifiers_batch env es) _
              (Total-identifiers env no_fault es s1 (
                subst (λ t. FreshTags t.events (identifier_rows es) t.identifiers) (sym t1)
                  (identifiers_fresh s.tables log es start f)))
              λ v s2 t2.
                Total-bind s2 (insert_metadata_batch env es) _
                  (Total-metadata env no_fault es s2 (
                    subst (λ t. FreshTags t.events (metadata_rows es) t.metadata)
                      (sym (t2 ∙ ap (add_identifier_rows (identifier_rows es)) t1))
                      (metadata_fresh s.tables log es start f)))
                  λ w s3 t3. Total-pure s3 es tt)
        λ r s1 h.
          Total-bind s1 (driver_call env) _ (Total-driver_call env no_fault s1)
            λ u s2 h2. Total-pure s2 r tt
