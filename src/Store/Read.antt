-- ===== src/Store/Read.antt =====
-- internal/store/read.go, pause.go, and what Open of sqlite.go does with the tables.
use tamarackdb.Prelude.{
  ℕ, ◌+◌, ◌*◌, ◌/◌, Bool, true, false, ◌&&◌, List, [], ◌∷◌, Option, none, some, ltb, length, take,
  select, if◌then◌else◌,
}
use tamarackdb.Prelude.Exec.{ok, pure, raise, ◌>>=◌, ◌>>◌}
use tamarackdb.Dcb.Query.{Query, query_is_none, sort}
use tamarackdb.Store.Tables.{
  EventRow, Tables, Env, bad_limit, Store, Action, statement, driver_call, last_sequence,
}
use tamarackdb.Store.Sql.{query_to_sql, holds}

-- A nil `AfterSequence` is `none`. A row of `events` stands for the `ReadEvent` that is read from it.
pub record ReadFilter : Type 0 where
  pub query : Query
  pub after_sequence : Option ℕ
  pub limit : ℕ
  pub backwards : Bool

pub record DecisionFilter : Type 0 where
  pub query : Query
  pub backwards : Bool
  pub limit : ℕ

pub record Page : Type 0 where
  pub events : List EventRow
  pub has_more : Bool

pub record Decision : Type 0 where
  pub events : List EventRow
  pub position : ℕ

abbrev pub older : EventRow → EventRow → Bool
older a b = ltb a.sequence b.sequence

abbrev pub newer : EventRow → EventRow → Bool
newer a b = ltb b.sequence a.sequence

-- The rows that the SQL of `buildEventsSQL` selects, in its order.
unfoldable pub selected_events : Query → ℕ → Bool → Tables → List EventRow
unfolding select query_to_sql holds sort
selected_events q after backwards t =
    sort (if backwards then newer else older)
      (select (λ row. ltb after row.sequence && holds t row (query_to_sql q after)) t.events)

abbrev pub after_or_zero : Option ℕ → ℕ
after_or_zero none = 0
after_or_zero (some after) = after

unfoldable pub page_of : ℕ → List EventRow → Page
page_of limit events =
    if ltb limit (length events)
    then record { events = take limit events; has_more = true }
    else record { events = events; has_more = false }

-- SELECT coalesce(max(sequence), 0) FROM events
unfoldable pub max_sequence : ℕ → List EventRow → ℕ
max_sequence top [] = top
max_sequence top (row ∷ rest) =
    max_sequence (if ltb top row.sequence then row.sequence else top) rest

-- LIMIT ?, where there is a limit.
abbrev pub limited : ℕ → List EventRow → List EventRow
limited limit events = if ltb 0 limit then take limit events else events

-- `Truncate(time.Microsecond)` of a time in nanoseconds.
abbrev pub to_microseconds : ℕ → ℕ
to_microseconds t = t / 1000 * 1000

module _ (env : Env) where
  unfoldable pub read : ReadFilter → Action Page
  unfolding selected_events page_of statement driver_call
  read f = if ltb f.limit 1 then raise bad_limit else do
    driver_call env
    events ← statement env (λ t. ok (
      take (f.limit + 1) (selected_events f.query (after_or_zero f.after_sequence) f.backwards t),
      t,
    ))
    pure (page_of f.limit events)

  unfoldable pub read_decision : DecisionFilter → Action Decision
  unfolding selected_events max_sequence statement driver_call
  read_decision f = do
    driver_call env
    position ← statement env (λ t. ok (max_sequence 0 t.events, t))
    if query_is_none f.query then pure (record { events = []; position = position }) else do
      events ←
          statement env (λ t. ok (limited f.limit (selected_events f.query 0 f.backwards t), t))
      pure (record { events = events; position = position })

  unfoldable pub set_pause : ℕ → Action ℕ
  unfolding statement
  set_pause at = do
    let since = to_microseconds at
    statement env (λ t. ok (tt, record t { paused = some since }))
    λ s. (ok (last_sequence s), record s { paused_at = since })

  unfoldable pub clear_pause : Action Unit
  unfolding statement
  clear_pause = do
    statement env (λ t. ok (tt, record t { paused = none }))
    λ s. (ok tt, record s { paused_at = 0 })

-- `PausedAt`.
abbrev pub is_paused : Store → Bool
is_paused s = ltb 0 s.paused_at

-- `readPausedAt`: the zero time without a pause.
abbrev pub read_paused_at : Tables → ℕ
read_paused_at t = elim t.paused [ none ↦ 0 | some at ↦ at ]

-- The store that `Open` returns for a file whose schema is in place.
unfoldable pub open_store : Tables → Store
unfolding max_sequence
open_store t = record {
  tables = t;
  next_seq = max_sequence 0 t.events + 1;
  paused_at = read_paused_at t;
  calls = 0;
  uuids = 0;
}
