-- ===== src/Writer.antt =====
-- internal/writer/writer.go and stats.go: writes in their turn in the FIFO. What `Join` returned is an
-- argument of a turn: the line itself is the queue's.
pub mod Turns
use tamarackdb.Prelude.{
  ℕ, ◌+◌, ◌*◌, ◌%◌, ◌^◌, Bool, true, false, List, [], Option, none, some, ltb, if◌then◌else◌,
}
use tamarackdb.Prelude.Exec.{Result, ok, err, Exec}
use tamarackdb.Dcb.Event.{PendingEvent}
use tamarackdb.Dcb.Query.{AppendCondition}
use tamarackdb.Projection.{Writes}
use tamarackdb.Store.Tables.{
  Env, StoreError, no_time, bad_limit, condition_conflict, projection_conflict, sqlite,
  nil_dereference, Store, statement, driver_call,
}
use tamarackdb.Store.Append.{AppendResult, append}

-- A uint64 counter, one more.
abbrev pub count : ℕ → ℕ
count n = (n + 1) % 2 ^ 64

pub record Stats : Type 0 where
  pub committed : ℕ
  pub condition_conflicts : ℕ
  pub projection_conflicts : ℕ
  pub write_queue_full : ℕ
  pub checkpoints : ℕ
  pub checkpoints_busy : ℕ

pub record Writer : Type 0 where
  pub next_checkpoint : ℕ
  pub closed : Bool
  pub stats : Stats

-- The writer with the store it writes to.
pub record Server : Type 0 where
  pub writer : Writer
  pub store : Store

abbrev pub wal_checkpoint_size : ℕ
wal_checkpoint_size = 64 * 2 ^ 20

-- What `queue.Manager.Join` returned.
pub data Joined : Type 0 where
  turn queue_full queue_closed : Joined

pub data WriterError : Type 0 where
  full closed_error : WriterError
  failed : StoreError → WriterError

-- What the turn takes from the operating system and from SQLite: the size of the WAL file, if it can be
-- read, and whether a reader is still in the WAL when the n-th call checkpoints it.
pub record TurnEnv : Type 0 where
  pub env : Env
  pub wal_size : Store → Option ℕ
  pub wal_busy : ℕ → Bool

unfoldable pub record_outcome : {A : Type 0} → Result StoreError A → Writer → Writer
record_outcome (ok a) w = record w {
  stats = record w.stats { committed = count w.stats.committed };
}
record_outcome (err (condition_conflict i)) w = record w {
  stats = record w.stats { condition_conflicts = count w.stats.condition_conflicts };
}
record_outcome (err (projection_conflict op i)) w = record w {
  stats = record w.stats { projection_conflicts = count w.stats.projection_conflicts };
}
record_outcome (err other) w = w

abbrev checkpoint_done : ℕ → Bool → Writer → Writer
checkpoint_done size true w = record w {
  stats = record w.stats { checkpoints = count w.stats.checkpoints };
  next_checkpoint = wal_checkpoint_size;
}
checkpoint_done size false w = record w {
  stats = record w.stats { checkpoints_busy = count w.stats.checkpoints_busy };
  next_checkpoint = size + wal_checkpoint_size;
}

abbrev after_checkpoint : ℕ → Result StoreError Bool × Store → Server → Server
after_checkpoint size (ok done, st) s = record s {
  writer = checkpoint_done size done s.writer;
  store = st;
}
after_checkpoint size (err e, st) s = record s { store = st }

module _ (te : TurnEnv) where
  -- `Store.Checkpoint`.
  unfoldable pub store_checkpoint : Store → Result StoreError Bool × Store
  unfolding statement
  store_checkpoint st =
      statement te.env (λ t. ok (if te.wal_busy st.calls then false else true, t)) st

  abbrev checkpoint_at : Option ℕ → Server → Server
  checkpoint_at none s = s
  checkpoint_at (some size) s =
      if ltb size s.writer.next_checkpoint
      then s
      else after_checkpoint size (store_checkpoint s.store) s

  unfoldable pub checkpoint : Server → Server
  unfolding store_checkpoint
  checkpoint s = checkpoint_at (te.wal_size s.store) s

  abbrev lift_error : {A : Type 0} → Result StoreError A → Result WriterError A
  lift_error (ok a) = ok a
  lift_error (err e) = err (failed e)

  abbrev pub ran : {A : Type 0} → Result StoreError A × Server → Result WriterError A × Server
  ran (r, s) = (lift_error r, checkpoint s)

  unfoldable pub run_in_turn :
      {A : Type 0} → Joined → (Server → Result StoreError A × Server) → Exec WriterError Server A
  unfolding checkpoint
  run_in_turn queue_full fn s = (
    err full,
    record s {
      writer = record s.writer {
        stats = record s.writer.stats { write_queue_full = count s.writer.stats.write_queue_full };
      };
    },
  )
  run_in_turn queue_closed fn s = (err closed_error, s)
  run_in_turn turn fn s = if s.writer.closed then (err closed_error, s) else ran (fn s)

  abbrev pub recorded :
      Server → Result StoreError AppendResult × Store → Result StoreError AppendResult × Server
  recorded s (r, st) = (r, record s { writer = record_outcome r s.writer; store = st })

  -- `append` of the writer, and so `WritePending`; `WriteProjections` passes no event and no condition.
  unfoldable pub write_pending :
      Joined
      → List PendingEvent
      → List AppendCondition
      → Writes
      → Exec WriterError Server AppendResult
  unfolding run_in_turn record_outcome
  write_pending joined events conditions projections =
      run_in_turn joined (λ s. recorded s (append te.env events conditions projections s.store))

  unfoldable pub write_projections : Joined → Writes → Exec WriterError Server AppendResult
  unfolding write_pending
  write_projections joined projections = write_pending joined [] [] projections

  -- `Optimize`: a statement of SQLite that changes no table here, in its turn. The time of its last success,
  -- which only `Stats` shows, is left out.
  unfoldable pub optimize : Joined → Exec WriterError Server Unit
  unfolding run_in_turn driver_call
  optimize joined =
      run_in_turn joined
        (λ s. let (r, st) = driver_call te.env s.store in (r, record s { store = st }))
