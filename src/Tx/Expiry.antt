-- ===== src/Tx/Expiry.antt =====
-- What taking the lock leaves of the registry.
use tamarackdb.Prelude.{ℕ, ◌≡◌, refl, true, false, [], ◌∷◌, none, some, arith}
use tamarackdb.Prelude.Eq.{Bytes, bytes_eq}
use tamarackdb.Prelude.Assoc.{Assoc, lookup}
use tamarackdb.Tx.State.{Transaction, World, TxEnv}
use tamarackdb.Tx.Calls.{is_expired, expire, lock}

lookup-expire_live :
    (timeout now : ℕ) (id : Bytes) (txs : Assoc Bytes Transaction) (t : Transaction)
    → lookup id txs ≡ some t
    → is_expired timeout now t ≡ false
    → lookup id (expire timeout now txs) ≡ some t
unfolding expire lookup
lookup-expire_live timeout now id [] t h live = absurd (ground arith)
lookup-expire_live timeout now id ((j, u) ∷ rest) t h live =
    ground (arith, lookup-expire_live timeout now id rest t)

pub lookup-expire_absent :
    (timeout now : ℕ) (id : Bytes) (txs : Assoc Bytes Transaction)
    → lookup id txs ≡ none
    → lookup id (expire timeout now txs) ≡ none
unfolding expire lookup
lookup-expire_absent timeout now id [] h = refl
lookup-expire_absent timeout now id ((j, u) ∷ rest) h =
    ground (arith, lookup-expire_absent timeout now id rest)

pub lookup-expire_found :
    (timeout now : ℕ) (id : Bytes) (txs : Assoc Bytes Transaction) (t : Transaction)
    → lookup id (expire timeout now txs) ≡ some t
    → is_expired timeout now t ≡ false
unfolding expire lookup
lookup-expire_found timeout now id [] t h = absurd (ground arith)
lookup-expire_found timeout now id ((j, u) ∷ rest) t h =
    ground (arith, lookup-expire_found timeout now id rest t)

is_expired-busy :
    (timeout now : ℕ) (t : Transaction) → t.busy ≡ true → is_expired timeout now t ≡ false
unfolding is_expired
is_expired-busy timeout now t h = ground (arith, h)

-- A busy transaction stays in the registry when the lock is taken, whatever the clock says.
pub lookup-lock_busy :
    (te : TxEnv) (w : World) (id : Bytes) (t : Transaction)
    → lookup id w.txs ≡ some t
    → t.busy ≡ true
    → lookup id (lock te w).txs ≡ some t
unfolding lock
lookup-lock_busy te w id t found busy =
    lookup-expire_live te.cfg.idle_timeout (te.now w.ticks) id w.txs t found
      (is_expired-busy te.cfg.idle_timeout (te.now w.ticks) t busy)
