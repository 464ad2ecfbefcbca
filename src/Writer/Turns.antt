-- ===== src/Writer/Turns.antt =====
-- What a turn of the writer does to the store: one append, then at most a checkpoint.
use tamarackdb.Prelude.{
  ℕ, ◌≡◌, refl, ◌∙◌, Bool, true, false, List, ◌++◌, Option, none, some, arith, ltb, All,
  if◌then◌else◌, Option-cases,
}
use mathlib.Core.Path.{ap₂}
use tamarackdb.Prelude.Exec.{Result, ok, err}
use tamarackdb.Dcb.Event.{Event, PendingEvent}
use tamarackdb.Dcb.Query.{AppendCondition}
use tamarackdb.Projection.{Writes}
use tamarackdb.Store.Tables.{StoreError, Store, statement}
use tamarackdb.Store.Append.{AppendResult, append, number_events}
use tamarackdb.Store.Spec.{counters}
use tamarackdb.Store.Holds.{Holds, Holds-same, ConditionHolds, ValidConditions}
use tamarackdb.Store.Atomic.{append-unchanged}
use tamarackdb.Store.Refines.{append-appends}
use tamarackdb.Writer.{
  Server, Joined, turn, queue_full, queue_closed, closed_error, WriterError, TurnEnv, checkpoint_at,
  ran, recorded, after_checkpoint, checkpoint, store_checkpoint, run_in_turn, write_pending,
  record_outcome,
}

store_checkpoint-Keeps :
    (te : TurnEnv) (st : Store)
    → ((store_checkpoint te st).1.tables ≡ st.tables)
      × (counters (store_checkpoint te st).1 ≡ counters st)
unfolding store_checkpoint statement
store_checkpoint-Keeps te st = ground (arith, Option-cases (te.env.fault st.calls))

checkpoint_at-Keeps :
    (te : TurnEnv) (o : Option ℕ) (s : Server)
    → ((checkpoint_at te o s).store.tables ≡ s.store.tables)
      × (counters (checkpoint_at te o s).store ≡ counters s.store)
checkpoint_at-Keeps te none s = (refl, refl)
checkpoint_at-Keeps te (some size) s =
    at_checkpoint (ltb size s.writer.next_checkpoint) (store_checkpoint te s.store)
      (store_checkpoint-Keeps te s.store)
  where
    at_checkpoint :
        (small : Bool) (done : Result StoreError Bool × Store)
        → (done.1.tables ≡ s.store.tables) × (counters done.1 ≡ counters s.store)
        → let s' = if small then s else after_checkpoint size done s in
          (s'.store.tables ≡ s.store.tables) × (counters s'.store ≡ counters s.store)
    at_checkpoint true done same = (refl, refl)
    at_checkpoint false (ok b, st) same = same
    at_checkpoint false (err e, st) same = same

ran-ok :
    (te : TurnEnv) (s : Server) (closed : Bool) (a : Result StoreError AppendResult × Store)
    (r : AppendResult)
    → (if closed then (err closed_error, s) else ran te (recorded te s a)).0 ≡ ok r
    → let s' = (if closed then (err closed_error, s) else ran te (recorded te s a)).1 in
      (a.0 ≡ ok r) × (s'.store.tables ≡ a.1.tables) × (counters s'.store ≡ counters a.1)
unfolding checkpoint
ran-ok te s true a r h = absurd (ground (arith, h))
ran-ok te s false (err e, st) r h = absurd (ground (arith, h))
ran-ok te s false (ok x, st) r h =
    let (same, numbers) =
      checkpoint_at-Keeps te (te.wal_size st)
        (record s { writer = record_outcome (ok x) s.writer; store = st }) in
    (ground (arith, h), same, numbers)

-- A turn that succeeded ran one append, and what follows the append keeps the log.
write_pending-ok :
    (te : TurnEnv) (joined : Joined) (events : List PendingEvent)
    (conditions : List AppendCondition)
    → (w : Writes) (s : Server) (r : AppendResult)
    → (write_pending te joined events conditions w s).0 ≡ ok r
    → let s' = (write_pending te joined events conditions w s).1 in
      let st = (append te.env events conditions w s.store).1 in
      ((append te.env events conditions w s.store).0 ≡ ok r)
      × (s'.store.tables ≡ st.tables)
      × (counters s'.store ≡ counters st)
unfolding write_pending run_in_turn checkpoint
write_pending-ok te queue_full events conditions w s r h = absurd (ground (arith, h))
write_pending-ok te queue_closed events conditions w s r h = absurd (ground (arith, h))
write_pending-ok te turn events conditions w s r h =
    ran-ok te s s.writer.closed (append te.env events conditions w s.store) r h

-- On a store that holds a log, with valid queries in the conditions: a write in its turn that
-- succeeds leaves the log longer by its events, numbered from the next sequence in their order,
-- and its conditions hold of the log that it found.
pub write_pending-appends :
    (te : TurnEnv) (joined : Joined) (events : List PendingEvent)
    (conditions : List AppendCondition)
    → (w : Writes) (s : Server) (log : List Event) → Holds s.store log
    → ValidConditions conditions
    → (r : AppendResult) → (write_pending te joined events conditions w s).0 ≡ ok r
    → let s' = (write_pending te joined events conditions w s).1 in
      (r.events ≡ number_events s.store.next_seq events)
      × Holds s'.store (log ++ number_events s.store.next_seq events)
      × All (ConditionHolds log) conditions
write_pending-appends te joined events conditions w s log held v r h =
    let (done, tables, numbers) = write_pending-ok te joined events conditions w s r h in
    let (numbered, holds, next, conditions_hold) =
      append-appends te.env events conditions w s.store log held v r done in
    let st = (append te.env events conditions w s.store).1 in
    (
      numbered,
      Holds-same st (write_pending te joined events conditions w s).1.store
          (log ++ number_events s.store.next_seq events) tables numbers holds,
      conditions_hold,
    )

ran-err :
    (te : TurnEnv) (s : Server) (closed : Bool) (a : Result StoreError AppendResult × Store)
    (e : WriterError)
    → ((c : StoreError)
        → a.0 ≡ err c
        → (a.1.tables ≡ s.store.tables) × (counters a.1 ≡ counters s.store))
    → (if closed then (err closed_error, s) else ran te (recorded te s a)).0 ≡ err e
    → let s' = (if closed then (err closed_error, s) else ran te (recorded te s a)).1 in
      (s'.store.tables ≡ s.store.tables) × (counters s'.store ≡ counters s.store)
unfolding checkpoint
ran-err te s true a e fails h = (refl, refl)
ran-err te s false (ok r, st) e fails h = absurd (ground (arith, h))
ran-err te s false (err c, st) e fails h =
    let (same, numbers) =
      checkpoint_at-Keeps te (te.wal_size st)
        (record s { writer = record_outcome {A = AppendResult} (err c) s.writer; store = st }) in
    let (tables, counted) = fails c refl in (same ∙ tables, numbers ∙ counted)

-- A write that fails, for the queue, a conflict or the database, leaves the store with the log it had.
pub write_pending-fails :
    (te : TurnEnv) (joined : Joined) (events : List PendingEvent)
    (conditions : List AppendCondition)
    → (w : Writes) (s : Server) (log : List Event) → Holds s.store log
    → (e : WriterError) → (write_pending te joined events conditions w s).0 ≡ err e
    → Holds (write_pending te joined events conditions w s).1.store log
unfolding write_pending run_in_turn
write_pending-fails te queue_full events conditions w s log held e h = held
write_pending-fails te queue_closed events conditions w s log held e h = held
write_pending-fails te turn events conditions w s log held e h =
    let (tables, numbers) =
      ran-err te s s.writer.closed (append te.env events conditions w s.store) e
        (λ c failed.
          let same = append-unchanged te.env events conditions w s.store c failed in
          (same.0, ap₂ (λ a b. (a, b)) same.1 same.2))
        h in
    Holds-same s.store (write_pending te turn events conditions w s).1.store log tables numbers held
