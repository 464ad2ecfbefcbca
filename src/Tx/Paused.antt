-- ===== src/Tx/Paused.antt =====
-- A paused instance has no open transaction.
use tamarackdb.Prelude.{
  ℕ, ◌+◌, ◌≡◌, refl, ◌∙◌, sym, ap, Bool, true, false, not, ◌&&◌, leb, [], ◌∷◌, Option, none, some,
  arith, ltb, length, if◌then◌else◌,
}
use tamarackdb.Prelude.Eq.{Bytes, bytes_eq}
use tamarackdb.Prelude.Assoc.{Assoc, lookup, insert, erase}
use tamarackdb.Prelude.Exec.{Result, ok, err}
use tamarackdb.Store.Tables.{StoreError, Store, last_sequence}
use tamarackdb.Store.Read.{set_pause, clear_pause}
use tamarackdb.Writer.{count, Joined}
use tamarackdb.Tx.State.{
  Transaction, PauseState, running, pause_requested, paused, World, TxError, TxEnv, paused_error,
  too_many_error, busy_error,
}
use tamarackdb.Tx.Calls.{
  expire, lock, begin_locked, begin, new_transaction, acquire, acquire_found, put_back, release,
  end, is_running,
}
use tamarackdb.Tx.Pause.{
  is_paused_state, pause_set, pause_locked, resumed, pause_cleared, resume_locked,
}

abbrev pub PausedEmpty : World → Type 0
PausedEmpty w = w.pause ≡ paused → w.txs ≡ []

lock-PausedEmpty : (te : TxEnv) (w : World) → PausedEmpty w → PausedEmpty (lock te w)
unfolding lock expire
lock-PausedEmpty te w h p = ap (expire te.cfg.idle_timeout (te.now w.ticks)) (h p)

begin_locked-PausedEmpty :
    (te : TxEnv) (id : Bytes) (w : World) → PausedEmpty w → PausedEmpty (begin_locked te id w).1
unfolding begin_locked
begin_locked-PausedEmpty te id w h =
    by_tests (is_running w.pause)
      (ltb 0 te.cfg.max_open_tx && leb te.cfg.max_open_tx (length w.txs)) (not_running w.pause)
  where
    not_running : (p : PauseState) → is_running p ≡ true → p ≡ paused → ⊥
    not_running running e p = absurd (ground (arith, p))
    not_running pause_requested e p = absurd (ground (arith, e))
    not_running paused e p = absurd (ground (arith, e))

    tested : Bool → Bool → Result TxError Bytes × World
    tested a b =
        if not a
        then (
          err paused_error,
          record w { stats = record w.stats { paused = count w.stats.paused } },
        )
        else if b
        then (
          err too_many_error,
          record w { stats = record w.stats { too_many = count w.stats.too_many } },
        )
        else (
          ok id,
          record w {
            txs = insert id (new_transaction te id (te.now w.ticks)) w.txs;
            ticks = w.ticks + 1;
            stats = record w.stats { begun = count w.stats.begun };
          },
        )

    by_tests : (a b : Bool) → (a ≡ true → w.pause ≡ paused → ⊥) → PausedEmpty (tested a b).1
    by_tests false b open_state = h
    by_tests true true open_state = h
    by_tests true false open_state = λ p. absurd (open_state refl p)

acquire_found-PausedEmpty :
    (te : TxEnv) (id : Bytes) (o : Option Transaction) (w : World)
    → lookup id w.txs ≡ o
    → PausedEmpty w
    → PausedEmpty (acquire_found te id o w).1
unfolding lookup
acquire_found-PausedEmpty te id none w e h p = h p
acquire_found-PausedEmpty te id (some t) w e h p =
    absurd (ground (arith, e, ap (lookup id) (h (paused_before t.busy p))))
  where
    tested : Bool → Result TxError Transaction × World
    tested b =
        if b
        then (err busy_error, record w { stats = record w.stats { busy = count w.stats.busy } })
        else (
          ok (record t { busy = true }),
          record w { txs = insert id (record t { busy = true }) w.txs },
        )

    paused_before : (b : Bool) → (tested b).1.pause ≡ paused → w.pause ≡ paused
    paused_before true p = p
    paused_before false p = p

put_back-PausedEmpty :
    (te : TxEnv) (t : Transaction) (w : World)
    → PausedEmpty w
    → w.pause ≡ paused
    → put_back te t (lookup t.id w.txs) w.txs ≡ []
unfolding lookup
put_back-PausedEmpty te t w h p = ground (arith, h p)

end-PausedEmpty :
    (te : TxEnv) (t : Transaction) (w : World) → PausedEmpty w → PausedEmpty (end te t w)
unfolding end erase
end-PausedEmpty te t w h p = ground (arith, lock-PausedEmpty te w h p)

pause_locked-PausedEmpty :
    (te : TxEnv) (joined : Joined) (w : World)
    → PausedEmpty w
    → PausedEmpty (pause_locked te joined w).1
unfolding pause_locked
pause_locked-PausedEmpty te joined w h =
    by_tests (is_paused_state w.pause) (ltb 0 (length w.txs)) (is_running w.pause)
      (set_pause te.turns.env (te.now w.ticks) w.server.store) (λ e. empty_below w.txs e)
  where
    empty_below : (txs : Assoc Bytes Transaction) → ltb 0 (length txs) ≡ false → txs ≡ []
    empty_below [] e = refl
    empty_below (t ∷ rest) e = absurd (ground (arith, e))

    by_tests :
        (a b c : Bool) (r : Result StoreError ℕ × Store)
        → (b ≡ false → w.txs ≡ [])
        → PausedEmpty
            (if a
              then (
                ok (record {
                  is_paused = true;
                  last_sequence = last_sequence w.server.store;
                  open_transactions = 0;
                }),
                w,
              )
              else if b
              then (
                ok (record {
                  is_paused = false;
                  last_sequence = 0;
                  open_transactions = length w.txs;
                }),
                if c
                    then record w {
                      pause = pause_requested;
                      pause_since = te.now w.ticks;
                      ticks = w.ticks + 1;
                    }
                    else w,
              )
              else pause_set te joined (te.now w.ticks) (record w { ticks = w.ticks + 1 }) r).1
    by_tests true b c r empty = h
    by_tests false true true r empty = λ p. absurd (ground (arith, p))
    by_tests false true false r empty = h
    by_tests false false c (ok last, st) empty = λ p. empty refl
    by_tests false false c (err e, st) empty = h

resumed-PausedEmpty :
    (te : TxEnv) (joined : Joined) (w : World) → PausedEmpty w → PausedEmpty (resumed te joined w)
resumed-PausedEmpty te joined w h = by_running (is_running w.pause)
  where
    by_running :
        (b : Bool)
        → PausedEmpty (
            if b
            then w
            else record w { pause = running; pause_since = te.now w.ticks; ticks = w.ticks + 1 })
    by_running true = h
    by_running false = λ p. absurd (ground (arith, p))

resume_locked-PausedEmpty :
    (te : TxEnv) (joined : Joined) (w : World)
    → PausedEmpty w
    → PausedEmpty (resume_locked te joined w).1
unfolding resume_locked
resume_locked-PausedEmpty te joined w h =
    by_test (is_paused_state w.pause) (clear_pause te.turns.env w.server.store)
  where
    by_test :
        (a : Bool) (r : Result StoreError Unit × Store)
        → PausedEmpty (if a then pause_cleared te joined w r else (ok tt, resumed te joined w)).1
    by_test true (ok u, st) =
        resumed-PausedEmpty te joined (record w { server = record w.server { store = st } }) h
    by_test true (err e, st) = h
    by_test false r = resumed-PausedEmpty te joined w h

-- A step of the registry, from whichever call it comes: a critical section, or a change of the server, the
-- clock or the counters, which keeps the transactions and the pause.
pub data Step (te : TxEnv) (w : World) : World → Type 0 where
  locks : Step te w (lock te w)
  begins : Step te w (begin te w).1
  acquires : (id : Bytes) → Step te w (acquire te id w).1
  releases : (t : Transaction) → Step te w (release te t w)
  ends : (t : Transaction) → Step te w (end te t w)
  keeps : {v : World} → v.txs ≡ w.txs → v.pause ≡ w.pause → Step te w v
  pauses : (joined : Joined) → Step te w (pause_locked te joined (lock te w)).1
  resumes : (joined : Joined) → Step te w (resume_locked te joined (lock te w)).1

pub data Steps (te : TxEnv) (w : World) : World → Type 0 where
  here : Steps te w w
  next : {u v : World} → Steps te w u → Step te u v → Steps te w v

Step-PausedEmpty : {te : TxEnv} {w v : World} → Step te w v → PausedEmpty w → PausedEmpty v
unfolding begin acquire release
Step-PausedEmpty {te} {w} locks h = lock-PausedEmpty te w h
Step-PausedEmpty {te} {w} begins h =
    begin_locked-PausedEmpty te (te.new_id w.ids) (lock te (record w { ids = w.ids + 1 }))
      (lock-PausedEmpty te (record w { ids = w.ids + 1 }) h)
Step-PausedEmpty {te} {w} (acquires id) h =
    acquire_found-PausedEmpty te id (lookup id (lock te w).txs) (lock te w) refl
      (lock-PausedEmpty te w h)
Step-PausedEmpty {te} {w} (releases t) h =
    put_back-PausedEmpty te (record t { busy = false; last_used = te.now (lock te w).ticks })
      (lock te w) (lock-PausedEmpty te w h)
Step-PausedEmpty {te} {w} (ends t) h = end-PausedEmpty te t w h
Step-PausedEmpty (keeps same state) h = λ p. same ∙ h (sym state ∙ p)
Step-PausedEmpty {te} {w} (pauses joined) h =
    pause_locked-PausedEmpty te joined (lock te w) (lock-PausedEmpty te w h)
Step-PausedEmpty {te} {w} (resumes joined) h =
    resume_locked-PausedEmpty te joined (lock te w) (lock-PausedEmpty te w h)

-- From a registry without transactions, after any sequence of steps, in whatever order the calls
-- take the lock, no transaction is open while the instance is paused.
pub Steps-PausedEmpty : {te : TxEnv} {w v : World} → w.txs ≡ [] → Steps te w v → PausedEmpty v
Steps-PausedEmpty e here = λ p. e
Steps-PausedEmpty e (next before step) = Step-PausedEmpty step (Steps-PausedEmpty e before)
