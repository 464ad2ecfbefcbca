-- ===== src/Tx/Pause.antt =====
-- internal/tx/pause.go: the pause of an instance.
use tamarackdb.Prelude.{ℕ, ◌+◌, Bool, true, false, ltb, length, if◌then◌else◌}
use tamarackdb.Prelude.Exec.{Result, ok, err}
use tamarackdb.Store.Tables.{StoreError, Store, last_sequence}
use tamarackdb.Store.Read.{set_pause, clear_pause}
use tamarackdb.Writer.{
  Joined, turn, queue_full, queue_closed, full, closed_error, failed, checkpoint, count,
}
use tamarackdb.Tx.State.{
  PauseState, running, pause_requested, paused, World, TxError, writer_error, TxEnv, Action,
}
use tamarackdb.Tx.Calls.{lock, is_running}

pub record PauseResult : Type 0 where
  pub is_paused : Bool
  pub last_sequence : ℕ
  pub open_transactions : ℕ

abbrev pub is_paused_state : PauseState → Bool
is_paused_state paused = true
is_paused_state _ = false

module _ (te : TxEnv) (joined : Joined) where
  abbrev pub with_store : World → Store → World
  with_store w st = record w { server = record w.server { store = st } }

  abbrev pub pause_set :
      ℕ → World → Result StoreError ℕ × Store → Result StoreError PauseResult × World
  pause_set now w (ok last, st) = (
    ok (record { is_paused = true; last_sequence = last; open_transactions = 0 }),
    record (with_store w st) { pause = paused; pause_since = now },
  )
  pause_set now w (err e, st) = (err e, with_store w st)

  -- The body of `Pause`, once it holds the lock.
  unfoldable pub pause_locked : World → Result StoreError PauseResult × World
  unfolding set_pause
  pause_locked w =
      if is_paused_state w.pause
      then (
        ok (record {
          is_paused = true;
          last_sequence = last_sequence w.server.store;
          open_transactions = 0;
        }),
        w,
      )
      else if ltb 0 (length w.txs)
      then (
        ok (record { is_paused = false; last_sequence = 0; open_transactions = length w.txs }),
        if is_running w.pause
            then record w {
              pause = pause_requested;
              pause_since = te.now w.ticks;
              ticks = w.ticks + 1;
            }
            else w,
      )
      else pause_set (te.now w.ticks) (record w { ticks = w.ticks + 1 })
          (set_pause te.turns.env (te.now w.ticks) w.server.store)

  abbrev pub resumed : World → World
  resumed w =
      if is_running w.pause
      then w
      else record w { pause = running; pause_since = te.now w.ticks; ticks = w.ticks + 1 }

  abbrev pub pause_cleared : World → Result StoreError Unit × Store → Result StoreError Unit × World
  pause_cleared w (ok u, st) = (ok tt, resumed (with_store w st))
  pause_cleared w (err e, st) = (err e, with_store w st)

  -- The body of `Resume` in its turn.
  unfoldable pub resume_locked : World → Result StoreError Unit × World
  unfolding clear_pause
  resume_locked w =
      if is_paused_state w.pause
      then pause_cleared w (clear_pause te.turns.env w.server.store)
      else (ok tt, resumed w)

  abbrev pub turn_done : {A : Type 0} → Result StoreError A × World → Result TxError A × World
  turn_done (ok a, w) = (ok a, record w { server = checkpoint te.turns w.server })
  turn_done (err e, w) =
      (err (writer_error (failed e)), record w { server = checkpoint te.turns w.server })

  -- `RunInTurn` of the writer for a body that also holds the registry.
  unfoldable pub run_world :
      {A : Type 0}
      → Joined
      → (World → Result StoreError A × World)
      → World
      → Result TxError A × World
  unfolding checkpoint
  run_world queue_full fn w = (
    err (writer_error full),
    record w {
      server = record w.server {
        writer = record w.server.writer {
          stats = record w.server.writer.stats {
            write_queue_full = count w.server.writer.stats.write_queue_full;
          };
        };
      };
    },
  )
  run_world queue_closed fn w = (err (writer_error closed_error), w)
  run_world turn fn w =
      if w.server.writer.closed then (err (writer_error closed_error), w) else turn_done (fn w)

  unfoldable pub pause : Action PauseResult
  unfolding run_world pause_locked lock
  pause = run_world joined (λ w. pause_locked (lock te w))

  unfoldable pub resume : Action Unit
  unfolding run_world resume_locked lock
  resume w =
      let w' = lock te w in
      if is_running w'.pause
      then (ok tt, w')
      else run_world joined (λ x. resume_locked (lock te x)) w'
