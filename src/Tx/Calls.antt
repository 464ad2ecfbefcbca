-- ===== src/Tx/Calls.antt =====
-- internal/tx/tx.go: the registry, the life of a transaction, and one call at a time. A call works on
-- its own copy of the transaction, which `release` puts back: nobody else reads it while it is busy.
use tamarackdb.Prelude.{
  ℕ, ◌+◌, Bool, true, false, ◌&&◌, not, [], ◌∷◌, Option, none, some, ltb, leb, length,
  if◌then◌else◌,
}
use tamarackdb.Prelude.Eq.{Bytes, bytes_eq}
use tamarackdb.Prelude.Assoc.{Assoc, lookup, insert, erase}
use tamarackdb.Prelude.Exec.{Result, ok, err}
use tamarackdb.Writer.{count}
use tamarackdb.Tx.State.{
  Transaction, PauseState, running, World, TxError, not_found, busy_error, too_many_error,
  paused_error, design, TxEnv, Action, Call,
}

abbrev pub is_running : PauseState → Bool
is_running running = true
is_running _ = false

-- What the loop of `lock` deletes.
unfoldable pub is_expired : ℕ → ℕ → Transaction → Bool
is_expired timeout now t = not t.busy && leb (t.last_used + timeout) now

-- The transactions that stay, and how many go.
unfoldable pub expire : ℕ → ℕ → Assoc Bytes Transaction → Assoc Bytes Transaction
unfolding is_expired
expire timeout now [] = []
expire timeout now ((id, t) ∷ rest) =
    let kept = expire timeout now rest in if is_expired timeout now t then kept else (id, t) ∷ kept

unfoldable pub expired_count : ℕ → ℕ → Assoc Bytes Transaction → ℕ → ℕ
unfolding is_expired
expired_count timeout now [] n = n
expired_count timeout now ((id, t) ∷ rest) n =
    expired_count timeout now rest (if is_expired timeout now t then count n else n)

module _ (te : TxEnv) where
  unfoldable pub lock : World → World
  unfolding expire expired_count
  lock w =
      let now = te.now w.ticks in
      record w {
        txs = expire te.cfg.idle_timeout now w.txs;
        stats = record w.stats {
          expired = expired_count te.cfg.idle_timeout now w.txs w.stats.expired;
        };
        ticks = w.ticks + 1;
      }

  abbrev pub new_transaction : Bytes → ℕ → Transaction
  new_transaction id last_used = record {
    id = id;
    busy = false;
    last_used = last_used;
    open_condition = none;
    conditions = [];
    events = [];
    projections = [];
    touched = [];
    written = 0;
  }

  -- `Begin` once it holds the lock, with the new identifier.
  unfoldable pub begin_locked : Bytes → Action Bytes
  begin_locked id w =
      if not (is_running w.pause)
      then (err paused_error, record w { stats = record w.stats { paused = count w.stats.paused } })
      else if ltb 0 te.cfg.max_open_tx && leb te.cfg.max_open_tx (length w.txs)
      then (
        err too_many_error,
        record w { stats = record w.stats { too_many = count w.stats.too_many } },
      )
      else (
        ok id,
        record w {
          txs = insert id (new_transaction id (te.now w.ticks)) w.txs;
          ticks = w.ticks + 1;
          stats = record w.stats { begun = count w.stats.begun };
        },
      )

  unfoldable pub begin : Action Bytes
  unfolding begin_locked lock
  begin w = begin_locked (te.new_id w.ids) (lock (record w { ids = w.ids + 1 }))

  abbrev pub acquire_found : Bytes → Option Transaction → Action Transaction
  acquire_found id none w = (err not_found, w)
  acquire_found id (some t) w =
      if t.busy
      then (err busy_error, record w { stats = record w.stats { busy = count w.stats.busy } })
      else (
        ok (record t { busy = true }),
        record w { txs = insert id (record t { busy = true }) w.txs },
      )

  unfoldable pub acquire : Bytes → Action Transaction
  unfolding lock lookup insert
  acquire id w = let w' = lock w in acquire_found id (lookup id w'.txs) w'

  abbrev pub put_back :
      Transaction → Option Transaction → Assoc Bytes Transaction → Assoc Bytes Transaction
  put_back t none txs = txs
  put_back t (some old) txs = insert t.id t txs

  -- A transaction that was ended is no longer in the registry.
  unfoldable pub release : Transaction → World → World
  unfolding lock lookup insert
  release t w =
      let w' = lock w in
      let freed = record t { busy = false; last_used = te.now w'.ticks } in
      record w' { txs = put_back freed (lookup t.id w'.txs) w'.txs; ticks = w'.ticks + 1 }

  unfoldable pub end : Transaction → World → World
  unfolding lock erase
  end t w = let w' = lock w in record w' { txs = erase t.id w'.txs }

  unfoldable pub count_design : World → World
  unfolding lock
  count_design w =
      let w' = lock w in
      record w' { stats = record w'.stats { design_errors = count w'.stats.design_errors } }

  abbrev pub is_design : TxError → Bool
  is_design (design rule) = true
  is_design _ = false

  -- The rest of `do` after the call, its deferred release last.
  abbrev pub finish :
      {A : Type 0}
      → Transaction
      → Result TxError (A × Transaction)
      → World
      → Result TxError A × World
  finish t (ok (a, t')) w = (ok a, release t' w)
  finish t (err e) w = (err e, release t (if is_design e then count_design (end t w) else end t w))

  abbrev pub run_call :
      {A : Type 0} → Call A → Result TxError Transaction → World → Result TxError A × World
  run_call fn (ok t) w = let (r, w') = fn t w in finish t r w'
  run_call fn (err e) w = (err e, w)

  unfoldable pub do_call : {A : Type 0} → Bytes → Call A → Action A
  unfolding acquire release end count_design
  do_call id fn w = let (r, w') = acquire id w in run_call fn r w'

  abbrev abandon_acquired : Result TxError Transaction → World → Result TxError Unit × World
  abandon_acquired (ok t) w =
      let w' = lock (end t w) in
      (
        ok tt,
        release t (record w' { stats = record w'.stats { abandoned = count w'.stats.abandoned } }),
      )
  abandon_acquired (err not_found) w = (ok tt, w)
  abandon_acquired (err e) w = (err e, w)

  unfoldable pub abandon : Bytes → Action Unit
  unfolding acquire release end
  abandon id w = let (r, w') = acquire id w in abandon_acquired r w'

  abbrev pub reject_acquired :
      Bool → Result TxError Transaction → World → Result TxError Unit × World
  reject_acquired is_design_error (ok t) w =
      (ok tt, release t (if is_design_error then count_design (end t w) else end t w))
  reject_acquired is_design_error (err e) w = (err e, w)

  unfoldable pub reject : Bytes → Bool → Action Unit
  unfolding acquire release end count_design
  reject id is_design_error w = let (r, w') = acquire id w in reject_acquired is_design_error r w'
