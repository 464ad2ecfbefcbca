-- ===== src/Tx/Lives.antt =====
-- The end of a transaction: by the timeout, or by a call that fails.
use tamarackdb.Prelude.{◌≡◌, none, arith, inl, inr, Bool-cases}
use tamarackdb.Prelude.Eq.{Bytes, bytes_eq}
use tamarackdb.Prelude.Assoc.{lookup, lookup-erase_self}
use tamarackdb.Prelude.Exec.{ok, err}
use tamarackdb.Tx.State.{Transaction, World, TxError, TxEnv, Call}
use tamarackdb.Tx.Calls.{lock, acquire, release, end, count_design, do_call, finish, is_design}
use tamarackdb.Tx.Expiry.{lookup-expire_absent}

lock-none :
    (te : TxEnv) (id : Bytes) (w : World)
    → lookup id w.txs ≡ none
    → lookup id (lock te w).txs ≡ none
unfolding lock
lock-none te id w h = lookup-expire_absent te.cfg.idle_timeout (te.now w.ticks) id w.txs h

end-gone : (te : TxEnv) (t : Transaction) (w : World) → lookup t.id (end te t w).txs ≡ none
unfolding end
end-gone te t w = lookup-erase_self t.id (lock te w).txs

release-gone :
    (te : TxEnv) (t : Transaction) (w : World)
    → lookup t.id w.txs ≡ none
    → lookup t.id (release te t w).txs ≡ none
unfolding release
release-gone te t w h = ground (arith, lock-none te t.id w h)

count_design-none :
    (te : TxEnv) (id : Bytes) (w : World)
    → lookup id w.txs ≡ none
    → lookup id (count_design te w).txs ≡ none
unfolding count_design
count_design-none te id w h = lock-none te id w h

pub finish-gone :
    (A : Type 0) (te : TxEnv) (t : Transaction) (e : TxError) (w : World)
    → lookup t.id (finish te {A = A} t (err e) w).1.txs ≡ none
finish-gone A te t e w = elim (Bool-cases (is_design te e)) [
  | inl broken ↦ ground (
    arith,
    broken,
    release-gone te t (count_design te (end te t w))
        (count_design-none te t.id (end te t w) (end-gone te t w)),
  )
  | inr other ↦ ground (arith, other, release-gone te t (end te t w) (end-gone te t w))
]

-- When a call has acquired the transaction and its function fails, the call fails with the error
-- of the function, and the transaction that was acquired is in the registry no more.
pub do_call-fails :
    (A : Type 0) (te : TxEnv) (fn : Call A) (id : Bytes) (t : Transaction) (w v u : World)
    (e : TxError)
    → acquire te id w ≡ (ok t, v)
    → fn t v ≡ (err e, u)
    → ((do_call te id fn w).0 ≡ err e) × (lookup t.id (do_call te id fn w).1.txs ≡ none)
unfolding do_call
do_call-fails A te fn id t w v u e taken fails =
    ground (arith, taken, fails, finish-gone A te t e u)
