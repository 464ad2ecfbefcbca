-- ===== src/Tx/Failures.antt =====
-- What a commit that fails leaves in the store.
use tamarackdb.Prelude.{
  ◌≡◌, refl, sym, subst, Bool, true, false, List, Option, none, some, arith, ◌&&◌, eqb, length,
  if◌then◌else◌,
}
use tamarackdb.Prelude.Eq.{Bytes, bytes_eq}
use tamarackdb.Prelude.Assoc.{lookup, insert}
use tamarackdb.Prelude.Exec.{Result, ok, err}
use tamarackdb.Dcb.Event.{Event}
use tamarackdb.Projection.{writes_len}
use tamarackdb.Store.Append.{AppendResult}
use tamarackdb.Store.Holds.{Holds}
use tamarackdb.Writer.{count, Server, Joined, WriterError, write_pending}
use tamarackdb.Writer.Turns.{write_pending-fails}
use tamarackdb.Tx.State.{Transaction, World, TxError, busy_error, design, commit_while_open, TxEnv}
use tamarackdb.Tx.Calls.{
  lock, acquire, acquire_found, release, end, count_design, is_design, count_design, is_design,
  finish, run_call, do_call,
}
use tamarackdb.Tx.Reads.{is_open}
use tamarackdb.Tx.Commit.{
  OpKeys, Net, net_projections, put_server, commit_writes, count_commit, ended, commit_call, commit,
}

put_server-fails :
    (te : TxEnv) (joined : Joined) (log : List Event) (w : World) (keys : OpKeys)
    (a : Result WriterError AppendResult × Server) (e : TxError)
    → ((c : WriterError) → a.0 ≡ err c → Holds a.1.store log)
    → (put_server te joined keys w a).0 ≡ err e
    → Holds (put_server te joined keys w a).1.server.store log
put_server-fails te joined log w keys (ok r, s) e fails h = absurd (ground (arith, h))
put_server-fails te joined log w keys (err c, s) e fails h = fails c refl

commit_writes-fails :
    (te : TxEnv) (joined : Joined) (t : Transaction) (log : List Event) (w : World) (e : TxError)
    → Holds w.server.store log
    → (commit_writes te joined t w).0 ≡ err e
    → Holds (commit_writes te joined t w).1.server.store log
unfolding commit_writes
commit_writes-fails te joined t log w e held h =
    by_size (eqb (length t.events) 0 && eqb (writes_len (net_projections t).writes) 0) h
  where
    net : Net
    net = net_projections t

    done : Result WriterError AppendResult × Server
    done = write_pending te.turns joined t.events t.conditions net.writes w.server

    tested : Bool → Result TxError Unit × World
    tested b = if b then (ok tt, count_commit te joined w) else put_server te joined net.keys w done

    by_size : (b : Bool) → (tested b).0 ≡ err e → Holds (tested b).1.server.store log
    by_size true h = absurd (ground (arith, h))
    by_size false h =
        put_server-fails te joined log w net.keys done e
          (write_pending-fails te.turns joined t.events t.conditions net.writes w.server log held) h

finish-server :
    (te : TxEnv) (t : Transaction) (r : Result TxError (Unit {0} × Transaction)) (w : World)
    → (finish te t r w).1.server ≡ w.server
unfolding end release lock count_design
finish-server te t (ok (u, t')) w = refl
finish-server te t (err e) w = by_design (is_design te e)
  where
    by_design :
        (b : Bool)
        → (release te t (if b then count_design te (end te t w) else end te t w)).server ≡ w.server
    by_design true = refl
    by_design false = refl

commit_call-fails :
    (te : TxEnv) (joined : Joined) (t : Transaction) (log : List Event) (w : World) (e : TxError)
    → Holds w.server.store log
    → (finish te t (commit_call te joined t w).0 (commit_call te joined t w).1).0 ≡ err e
    → Holds
        (finish te t (commit_call te joined t w).0 (commit_call te joined t w).1).1.server.store
        log
unfolding commit_call end lock
commit_call-fails te joined t log w e held h =
    subst (λ s. Holds s.store log)
      (sym (finish-server te t (commit_call te joined t w).0 (commit_call te joined t w).1))
      (by_open (is_open te t.open_condition) (commit_writes te joined t w)
        (λ c failed. commit_writes-fails te joined t log w c held failed) h)
  where
    call : Bool → Result TxError Unit × World → Result TxError (Unit {0} × Transaction) × World
    call o r = if o then (err (design commit_while_open), w) else ended te joined t r

    by_open :
        (o : Bool) (r : Result TxError Unit × World)
        → ((c : TxError) → r.0 ≡ err c → Holds r.1.server.store log)
        → (finish te t (call o r).0 (call o r).1).0 ≡ err e
        → Holds (call o r).1.server.store log
    by_open true r fails h = held
    by_open false (err c, x) fails h = fails c refl
    by_open false (ok u, x) fails h = absurd (ground (arith, h))

-- On a store that holds a log, a commit that fails, whatever the error, leaves the store with this
-- log.
pub commit-fails :
    (te : TxEnv) (joined : Joined) (id : Bytes) (log : List Event) (w : World) (e : TxError)
    → Holds w.server.store log
    → (commit te joined id w).0 ≡ err e
    → Holds (commit te joined id w).1.server.store log
unfolding commit do_call acquire lock
commit-fails te joined id log w e held h = at_found (lookup id (lock te w).txs) h
  where
    taken : Bool → Transaction → Result TxError Transaction × World
    taken b u =
        if b
        then (
          err busy_error,
          record (lock te w) {
            stats = record (lock te w).stats { busy = count (lock te w).stats.busy };
          },
        )
        else (
          ok (record u { busy = true }),
          record (lock te w) { txs = insert id (record u { busy = true }) (lock te w).txs },
        )

    run : Result TxError Transaction × World → Result TxError Unit × World
    run r = run_call te (commit_call te joined) r.0 r.1

    by_busy :
        (b : Bool) (u : Transaction)
        → (run (taken b u)).0 ≡ err e
        → Holds (run (taken b u)).1.server.store log
    by_busy true u h = held
    by_busy false u h =
        commit_call-fails te joined (record u { busy = true }) log
          (record (lock te w) { txs = insert id (record u { busy = true }) (lock te w).txs }) e held
          h

    at_found :
        (o : Option Transaction)
        → (run (acquire_found te id o (lock te w))).0 ≡ err e
        → Holds (run (acquire_found te id o (lock te w))).1.server.store log
    at_found none h = held
    at_found (some u) h = by_busy u.busy u h
