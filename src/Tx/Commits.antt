-- ===== src/Tx/Commits.antt =====
-- What a commit leaves in the store: the events of the transaction, under the conditions it recorded.
use mathlib.Core.List.{append-nil}
use tamarackdb.Prelude.{
  ℕ, ◌≡◌, ◌⊎◌, refl, sym, subst, Bool, true, false, List, [], ◌++◌, Option, none, some, arith, ◌&&◌,
  eqb, length, All, if◌then◌else◌, inl, inr,
}
use tamarackdb.Prelude.Eq.{Bytes, bytes_eq}
use tamarackdb.Prelude.Assoc.{lookup, insert}
use tamarackdb.Prelude.Exec.{Result, ok, err}
use tamarackdb.Dcb.Event.{Event}
use tamarackdb.Projection.{writes_len}
use tamarackdb.Store.Append.{AppendResult, number_events}
use tamarackdb.Store.Holds.{Holds, ConditionHolds, ValidConditions}
use tamarackdb.Store.Refines.{empty_of}
use tamarackdb.Writer.{count, Server, Joined, WriterError, write_pending}
use tamarackdb.Writer.Turns.{write_pending-appends}
use tamarackdb.Tx.State.{Transaction, World, TxError, busy_error, design, commit_while_open, TxEnv}
use tamarackdb.Tx.Calls.{lock, acquire, acquire_found, release, end, finish, run_call, do_call}
use tamarackdb.Tx.Reads.{is_open}
use tamarackdb.Tx.Commit.{
  OpKeys, Net, net_projections, put_server, commit_writes, count_commit, ended, commit_call, commit,
}

-- What a commit of `t` makes of the log: its events, numbered from `next`, under its conditions.
abbrev pub Committed : ℕ → List Event → Transaction → World → TxEnv → Type 0
Committed next log t w te =
    Holds w.server.store (log ++ number_events next t.events)
    × ((t.events ≡ []) ⊎ All (ConditionHolds log) t.conditions)

module _ (te : TxEnv) (joined : Joined) (t : Transaction) (log : List Event) where
  put_server-ok :
      (w : World) (keys : OpKeys) (a : Result WriterError AppendResult × Server)
      → (put_server te joined keys w a).0 ≡ ok tt
      → ((r : AppendResult) × (a.0 ≡ ok r)) × ((put_server te joined keys w a).1.server ≡ a.1)
  unfolding count_commit
  put_server-ok w keys (ok r, s) h = ((r, refl), refl)
  put_server-ok w keys (err e, s) h = absurd (ground (arith, h))

  commit_writes-appends :
      (w : World)
      → Holds w.server.store log
      → ValidConditions t.conditions
      → (commit_writes te joined t w).0 ≡ ok tt
      → Committed w.server.store.next_seq log t (commit_writes te joined t w).1 te
  unfolding commit_writes count_commit number_events
  commit_writes-appends w held v h =
      by_size (eqb (length t.events) 0 && eqb (writes_len (net_projections t).writes) 0)
        (λ e. empty_of t.events (ground (arith, e))) h
    where
      net : Net
      net = net_projections t

      done : Result WriterError AppendResult × Server
      done = write_pending te.turns joined t.events t.conditions net.writes w.server

      by_size :
          (b : Bool)
          → (b ≡ true → t.events ≡ [])
          → (if b
              then (ok tt, count_commit te joined w)
              else put_server te joined net.keys w done).0
            ≡ ok tt
          → Committed w.server.store.next_seq log t
              (if b
                then (ok tt, count_commit te joined w)
                else put_server te joined net.keys w done).1
              te
      by_size true empty h = (
        subst (λ es. Holds w.server.store (log ++ number_events w.server.store.next_seq es))
            (sym (empty refl)) (subst (Holds w.server.store) (sym (append-nil log)) held),
        inl (empty refl),
      )
      by_size false empty h =
          let ((r, wrote), same) = put_server-ok w net.keys done h in
          let (numbered, holds, conditions_hold) =
            write_pending-appends te.turns joined t.events t.conditions net.writes w.server log held
              v r wrote in
          (
            subst (λ s. Holds s.store (log ++ number_events w.server.store.next_seq t.events))
                (sym same) holds,
            inr conditions_hold,
          )

commit_call-appends :
    (te : TxEnv) (joined : Joined) (t : Transaction) (log : List Event) (w : World)
    → Holds w.server.store log
    → ValidConditions t.conditions
    → (finish te t (commit_call te joined t w).0 (commit_call te joined t w).1).0 ≡ ok tt
    → Committed w.server.store.next_seq log t
        (finish te t (commit_call te joined t w).0 (commit_call te joined t w).1).1
        te
unfolding commit_call end release lock
commit_call-appends te joined t log w held v h =
    by_open (is_open te t.open_condition) (commit_writes te joined t w)
      (commit_writes-appends te joined t log w held v) h
  where
    call : Bool → Result TxError Unit × World → Result TxError (Unit {0} × Transaction) × World
    call o r = if o then (err (design commit_while_open), w) else ended te joined t r

    by_open :
        (o : Bool) (r : Result TxError Unit × World)
        → (r.0 ≡ ok tt → Committed w.server.store.next_seq log t r.1 te)
        → (finish te t (call o r).0 (call o r).1).0 ≡ ok tt
        → Committed w.server.store.next_seq log t (finish te t (call o r).0 (call o r).1).1 te
    by_open true r done h = absurd (ground (arith, h))
    by_open false (err e, x) done h = absurd (ground (arith, h))
    by_open false (ok u, x) done h = done refl

-- On a store that holds a log, when the queries of the conditions that the transaction recorded
-- are valid: a commit that succeeds found the transaction, added its events to the end of the log,
-- in their order and numbered from the next sequence, and, if it has events, each of its
-- conditions held of the log before: no event after the position of the condition matched its
-- query.
pub commit-appends :
    (te : TxEnv) (joined : Joined) (id : Bytes) (log : List Event) (w : World)
    → Holds w.server.store log
    → ((t : Transaction) → lookup id (lock te w).txs ≡ some t → ValidConditions t.conditions)
    → (commit te joined id w).0 ≡ ok tt
    → (t : Transaction) × (lookup id (lock te w).txs ≡ some t)
      × Committed w.server.store.next_seq log t (commit te joined id w).1 te
unfolding commit do_call acquire lock
commit-appends te joined id log w held v h = at_found (lookup id (lock te w).txs) refl h
  where
    taken : Bool → Transaction → Result TxError Transaction × World
    taken b u =
        if b
        then (
          err busy_error,
          record (lock te w) {
            stats = record (lock te w).stats { busy = count (lock te w).stats.busy };
          },
        )
        else (
          ok (record u { busy = true }),
          record (lock te w) { txs = insert id (record u { busy = true }) (lock te w).txs },
        )

    run : Bool → Transaction → Result TxError Unit × World
    run b u = run_call te (commit_call te joined) (taken b u).0 (taken b u).1

    by_busy :
        (b : Bool) (u : Transaction)
        → lookup id (lock te w).txs ≡ some u
        → (run b u).0 ≡ ok tt
        → Committed w.server.store.next_seq log u (run b u).1 te
    by_busy true u e h = absurd (ground (arith, h))
    by_busy false u e h =
        commit_call-appends te joined (record u { busy = true }) log
          (record (lock te w) { txs = insert id (record u { busy = true }) (lock te w).txs }) held
          (v u e) h

    at_found :
        (o : Option Transaction)
        → lookup id (lock te w).txs ≡ o
        → (run_call te
            (commit_call te joined)
            (acquire_found te id o (lock te w)).0
            (acquire_found te id o (lock te w)).1).0
          ≡ ok tt
        → (t : Transaction) × (lookup id (lock te w).txs ≡ some t)
          × Committed w.server.store.next_seq log t
              (run_call te
                (commit_call te joined)
                (acquire_found te id o (lock te w)).0
                (acquire_found te id o (lock te w)).1).1
              te
    at_found none e h = absurd (ground (arith, h))
    at_found (some u) e h = (u, e, by_busy u.busy u e h)
