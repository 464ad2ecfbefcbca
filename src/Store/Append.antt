-- ===== src/Store/Append.antt =====
-- internal/store/append.go: an append, with its conditions and the sequence counter; import.go; and
-- the deletion of every event of sqlite.go.
use tamarackdb.Prelude.{
  ℕ, suc, ◌+◌, Bool, true, false, ◌&&◌, not, List, [], ◌∷◌, Option, none, some, eqb, ltb, length,
  any, if◌then◌else◌,
}
use tamarackdb.Prelude.Exec.{Result, ok, err, pure, raise, ◌>>=◌, ◌>>◌}
use tamarackdb.Dcb.Event.{Event, PendingEvent}
use tamarackdb.Dcb.Query.{Query, query_is_none, AppendCondition}
use tamarackdb.Projection.{Writes, writes_len}
use tamarackdb.Store.Tables.{
  Tables, Env, StoreError, no_time, condition_conflict, Store, Action, statement, driver_call,
  rolled_back, last_sequence,
}
use tamarackdb.Store.Sql.{query_to_sql, holds}
use tamarackdb.Store.Batch.{insert_events_batch, insert_identifiers_batch, insert_metadata_batch}
use tamarackdb.Store.Projections.{Versions, write_projections}

pub record AppendResult : Type 0 where
  pub events : List Event
  pub versions : Versions

abbrev pub no_result : AppendResult
no_result = record { events = []; versions = record { creates = []; replaces = [] } }

-- (holds, decided).
unfoldable pub resolve_without_query : Query → ℕ → ℕ → Bool × Bool
resolve_without_query q after last_assigned =
    if query_is_none q
    then (true, true)
    else if eqb after last_assigned
    then (true, true)
    else (false, false)

unfoldable pub matches_after : Tables → Query → ℕ → Bool
unfolding any query_to_sql holds
matches_after t q after =
    any (λ row. ltb after row.sequence && holds t row (query_to_sql q after)) t.events

-- The index of the first event with no time.
abbrev pub first_without_time : ℕ → List PendingEvent → Option ℕ
first_without_time i [] = none
first_without_time i (e ∷ rest) =
    let later = first_without_time (suc i) rest in if eqb e.time 0 then some i else later

abbrev pub refuse_untimed : {A : Type 0} → Option ℕ → Action A → Action A
refuse_untimed (some i) rest = raise (no_time i)
refuse_untimed none rest = rest

unfoldable pub number_events : ℕ → List PendingEvent → List Event
number_events start [] = []
number_events start (e ∷ rest) =
    record { sequence = start; time = e.time; event_data = e.event_data }
    ∷ number_events (start + 1) rest

abbrev pub reserve_sequences : ℕ → Store → Store
reserve_sequences n s = record s { next_seq = s.next_seq + n }

abbrev pub release_sequences : ℕ → Store → Store
release_sequences start s = record s { next_seq = start }

abbrev pub release : {A : Type 0} → ℕ → Result StoreError A → Store → Result StoreError A × Store
release start (ok a) s = (ok a, s)
release start (err e) s = (err e, release_sequences start s)

-- The sequences are reserved for `body`, and go back unless it succeeds.
unfoldable pub reserving : {A : Type 0} → ℕ → (ℕ → Action A) → Action A
reserving n body s =
    let (r, s') = body s.next_seq (reserve_sequences n s) in release s.next_seq r s'

module _ (env : Env) where
  unfoldable pub check_fail_if_events_match_sql : Query → ℕ → Action Bool
  unfolding statement matches_after
  check_fail_if_events_match_sql q after =
      statement env (λ t. ok (not (matches_after t q after), t))

  unfoldable pub check_condition : AppendCondition → Action Bool
  unfolding resolve_without_query check_fail_if_events_match_sql
  check_condition c s =
      let (h, decided) =
        resolve_without_query c.fail_if_events_match c.after_sequence (last_sequence s) in
      if decided
      then (ok h, s)
      else check_fail_if_events_match_sql c.fail_if_events_match c.after_sequence s

  -- The loop over the conditions, from the index on.
  unfoldable pub check_conditions : ℕ → List AppendCondition → Action Unit
  unfolding check_condition
  check_conditions i [] = pure tt
  check_conditions i (c ∷ rest) = do
    h ← check_condition c
    if h then check_conditions (suc i) rest else raise (condition_conflict i)

  unfoldable pub insert_events : List PendingEvent → ℕ → Action (List Event)
  unfolding number_events insert_events_batch insert_identifiers_batch insert_metadata_batch
  insert_events [] start = pure []
  insert_events (e ∷ rest) start = do
    let result = number_events start (e ∷ rest)
    insert_events_batch env result
    insert_identifiers_batch env result
    insert_metadata_batch env result
    pure result

  -- The inserts and the commit, for reserved sequences.
  unfoldable pub write_events : List PendingEvent → ℕ → Action (List Event)
  unfolding insert_events driver_call
  write_events events start = do
    appended ← insert_events events start
    driver_call env
    pure appended

  unfoldable pub append_tx : List PendingEvent → List AppendCondition → Writes → Action AppendResult
  unfolding check_conditions write_projections reserving write_events
  append_tx events conditions projections = do
    check_conditions 0 conditions
    versions ← write_projections env projections
    appended ← reserving (length events) (write_events events)
    pure (record { events = appended; versions = versions })

  unfoldable pub append_begun :
      List PendingEvent → List AppendCondition → Writes → Action AppendResult
  unfolding append_tx driver_call rolled_back
  append_begun events conditions projections = do
    driver_call env
    rolled_back (append_tx events conditions projections)

  unfoldable pub append : List PendingEvent → List AppendCondition → Writes → Action AppendResult
  unfolding append_begun
  append events conditions projections = refuse_untimed (first_without_time 0 events) (
      if eqb (length events) 0 && eqb (length conditions) 0 && eqb (writes_len projections) 0
      then pure no_result
      else append_begun events conditions projections)

  abbrev highest : ℕ → List Event → ℕ
  highest top [] = top
  highest top (e ∷ rest) = highest (if ltb top e.sequence then e.sequence else top) rest

  abbrev pub advance_past : ℕ → Store → Store
  advance_past top s = if ltb s.next_seq (top + 1) then record s { next_seq = top + 1 } else s

  unfoldable pub import_tx : List Event → Action Unit
  unfolding insert_events_batch insert_identifiers_batch insert_metadata_batch driver_call
  import_tx events = do
    insert_events_batch env events
    insert_identifiers_batch env events
    insert_metadata_batch env events
    driver_call env

  unfoldable pub import_events : List Event → Action Unit
  unfolding import_tx rolled_back
  import_events [] = pure tt
  import_events (e ∷ rest) = do
    driver_call env
    rolled_back (import_tx (e ∷ rest))
    λ s. (ok tt, advance_past (highest 0 (e ∷ rest)) s)

  unfoldable pub delete_all_tx : Action Unit
  unfolding statement driver_call
  delete_all_tx = do
    statement env (λ t. ok (tt, record t { identifiers = [] }))
    statement env (λ t. ok (tt, record t { metadata = [] }))
    statement env (λ t. ok (tt, record t { events = [] }))
    driver_call env

  unfoldable pub delete_all_events : Action Unit
  unfolding delete_all_tx rolled_back
  delete_all_events = do driver_call env; rolled_back delete_all_tx
