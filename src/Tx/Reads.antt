-- ===== src/Tx/Reads.antt =====
-- internal/tx/tx.go: reading and writing events in a transaction.
use mathlib.Core.List.{reverse}
use tamarackdb.Prelude.{
  ℕ, ◌+◌, ◌*◌, ◌/◌, Bool, true, false, ◌&&◌, List, [], ◌∷◌, ◌++◌, Option, none, some, ltb, length,
  select, if◌then◌else◌,
}
use tamarackdb.Prelude.Eq.{Bytes}
use tamarackdb.Prelude.Exec.{Result, ok, err, pure, raise, ◌>>=◌}
use tamarackdb.Dcb.Event.{EventData, PendingEvent, new_pending_events}
use tamarackdb.Dcb.Query.{query_is_none, matches}
use tamarackdb.Store.Tables.{EventRow, StoreError, Store}
use tamarackdb.Store.Read.{Decision, DecisionFilter, read_decision}
use tamarackdb.Writer.{failed}
use tamarackdb.Tx.State.{
  OpenCondition, Transaction, World, read_while_open, write_without_read, TxError, design,
  too_large, events_limit, reads_limit, read_limit, writer_error, TxEnv, Action, Call,
}
use tamarackdb.Tx.Calls.{lock, do_call}

pub record Read : Type 0 where
  pub committed : List EventRow
  pub pending : List PendingEvent
  pub count : ℕ
  pub near_limit : Bool

-- An operation of the store, its error that of the call.
abbrev pub stored : {A : Type 0} → Result StoreError A × Store → World → Result TxError A × World
stored (ok a, st) w = (ok a, record w { server = record w.server { store = st } })
stored (err e, st) w =
    (err (writer_error (failed e)), record w { server = record w.server { store = st } })

-- `dcb.Now`: microseconds.
unfoldable pub dcb_now : TxEnv → Action ℕ
dcb_now te w = (ok (te.wall w.ticks / 1000 * 1000), record w { ticks = w.ticks + 1 })

abbrev pub store_limit : ℕ → ℕ → ℕ
store_limit max limit = if ltb 0 limit && ltb limit (max + 1) then limit else max + 1

abbrev pub read_count : ℕ → ℕ → ℕ
read_count limit n = if ltb 0 limit && ltb limit n then limit else n

abbrev pub larger : ℕ → ℕ → ℕ
larger a b = if ltb a b then b else a

module _ (te : TxEnv) where
  -- No event is read for "none", and the position stays 0.
  unfoldable pub read_committed : DecisionFilter → Action Decision
  unfolding read_decision
  read_committed f w =
      if query_is_none f.query
      then (ok (record { events = []; position = 0 }), w)
      else stored
          (read_decision te.turns.env
            (record f { limit = store_limit te.cfg.max_events_per_tx_read f.limit }) w.server.store)
          w

  unfoldable pub record_read : ℕ → World → World
  unfolding lock
  record_read n w =
      let w' = lock te w in
      record w' { stats = record w'.stats { largest_read = larger w'.stats.largest_read n } }

  abbrev pub ordered : Bool → List PendingEvent → List PendingEvent
  ordered true pending = reverse pending
  ordered false pending = pending

  -- What follows once the committed events are read.
  unfoldable pub finish_read :
      DecisionFilter → Transaction → List PendingEvent → Decision → Action (Read × Transaction)
  unfolding record_read
  finish_read f t pending d w =
      let n = read_count f.limit (length d.events + length pending) in
      if ltb te.cfg.max_events_per_tx_read n then (err (too_large read_limit n), w) else (
        ok (
          record {
            committed = d.events;
            pending = ordered f.backwards pending;
            count = n;
            near_limit = ltb (te.cfg.max_events_per_tx_read / 2) n;
          },
          record t { open_condition = some (record { query = f.query; position = d.position }) },
        ),
        record_read n w,
      )

  abbrev pub is_open : Option OpenCondition → Bool
  is_open none = false
  is_open (some c) = true

  unfoldable pub read_call : DecisionFilter → Call Read
  unfolding read_committed finish_read select matches
  read_call f t =
      if is_open t.open_condition
      then raise (design read_while_open)
      else if ltb te.cfg.max_reads_per_tx (length t.conditions + 1)
      then raise (too_large reads_limit (length t.conditions + 1))
      else read_committed f
        >>= finish_read f t (select (λ e. matches f.query e.event_data) t.events)

  unfoldable pub read_events : Bytes → DecisionFilter → Action Read
  unfolding read_call do_call
  read_events id f = do_call te id (read_call f)

  abbrev pub write_open :
      List EventData → Transaction → Option OpenCondition → Action (ℕ × Transaction)
  write_open events t none = raise (design write_without_read)
  write_open events t (some c) =
      if ltb te.cfg.max_events_per_tx (length t.events + length events)
      then raise (too_large events_limit (length t.events + length events))
      else dcb_now te >>= λ now. pure (
        now,
        record t {
          events = t.events ++ new_pending_events events now;
          conditions =
              t.conditions
              ++ record { fail_if_events_match = c.query; after_sequence = c.position } ∷ [];
          open_condition = none;
        },
      )

  unfoldable pub write_call : List EventData → Call ℕ
  unfolding dcb_now new_pending_events
  write_call events t = write_open events t t.open_condition

  unfoldable pub write_events : Bytes → List EventData → Action ℕ
  unfolding write_call do_call
  write_events id events = do_call te id (write_call events)
