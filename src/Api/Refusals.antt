-- ===== src/Api/Refusals.antt =====
-- What becomes of a transaction whose request this layer refuses.
use tamarackdb.Prelude.{
  ℕ, [], ◌∷◌, All, Bool-cases, ◌≡◌, ◌≢◌, ◌⊎◌, inl, inr, refl, sym, subst, ap, ◌∙◌, Bool, true,
  false, Option, none, some, arith, if◌then◌else◌,
}
use tamarackdb.Prelude.Eq.{Bytes, bytes_eq, ◌==◌}
use tamarackdb.Prelude.Assoc.{Assoc, lookup, insert}
use tamarackdb.Prelude.Exec.{Result, ok, err}
use tamarackdb.Writer.{count, Joined}
use tamarackdb.Tx.State.{
  Transaction, World, TxError, not_found, busy_error, design, read_while_open, TxEnv,
}
use tamarackdb.Tx.Calls.{is_expired, expire, lock, acquire, acquire_found, reject, reject_acquired}
use tamarackdb.Tx.Lives.{finish-gone}
use tamarackdb.Api.{
  Options, ApiError, client_gone, invalid, invalid_projection, oversize, body_too_large, tx_failed,
  write_failed, store_failed, Api, Request,
}
use tamarackdb.Api.Counts.{handle_err-Handled}
use tamarackdb.Api.Handlers.{is_design_error, put_world, rejected, reject_with, tx_fail}

-- Where a transaction is after it was ended: gone, or still there because another call is using it.
abbrev pub GoneOrBusy : TxEnv → Bytes → World → World → Type 0
GoneOrBusy te id before after =
    (lookup id after.txs ≡ none)
    ⊎ ((t : Transaction) × (lookup id (lock te before).txs ≡ some t)
        × (t.busy ≡ true)
        × (after.txs ≡ (lock te before).txs))

-- Every transaction stands under its identifier.
abbrev pub IsNamed : Assoc Bytes Transaction → Type 0
IsNamed txs = All (λ e. e.1.id ≡ e.0) txs

expire-IsNamed :
    (timeout now : ℕ) (txs : Assoc Bytes Transaction)
    → IsNamed txs
    → IsNamed (expire timeout now txs)
unfolding expire
expire-IsNamed timeout now [] h = tt
expire-IsNamed timeout now ((id, t) ∷ rest) (here, others) =
    kept (is_expired timeout now t) (expire-IsNamed timeout now rest others)
  where
    kept :
        (b : Bool)
        → IsNamed (expire timeout now rest)
        → IsNamed (if b then expire timeout now rest else (id, t) ∷ expire timeout now rest)
    kept true named = named
    kept false named = (here, named)

lookup-IsNamed :
    (id : Bytes) (txs : Assoc Bytes Transaction) (t : Transaction)
    → IsNamed txs
    → lookup id txs ≡ some t
    → t.id ≡ id
unfolding lookup
lookup-IsNamed id [] t named h = absurd (ground (arith, h))
lookup-IsNamed id ((j, u) ∷ rest) t (here, others) h = elim (Bool-cases (j == id)) [
  | inl same ↦
      let found : u ≡ t = ground (arith, h, same) in
      ap (λ x. x.id) (sym found) ∙ here ∙ (bytes_eq.beq_iff j id).0 same
  | inr other ↦ lookup-IsNamed id rest t others (ground (arith, h, other))
]

reject-GoneOrBusy :
    (te : TxEnv) (id : Bytes) (design_error : Bool) (w : World)
    → IsNamed w.txs
    → GoneOrBusy te id w (reject te id design_error w).1
unfolding reject acquire lock
reject-GoneOrBusy te id design_error w named = at_found (lookup id (lock te w).txs) refl
  where
    run : Result TxError Transaction × World → World
    run r = (reject_acquired te design_error r.0 r.1).1

    taken : Bool → Transaction → Result TxError Transaction × World
    taken b u =
        if b
        then (
          err busy_error,
          record (lock te w) {
            stats = record (lock te w).stats { busy = count (lock te w).stats.busy };
          },
        )
        else (
          ok (record u { busy = true }),
          record (lock te w) { txs = insert id (record u { busy = true }) (lock te w).txs },
        )

    named_at : (u : Transaction) → lookup id (lock te w).txs ≡ some u → u.id ≡ id
    named_at u h =
        lookup-IsNamed id (lock te w).txs u
          (expire-IsNamed te.cfg.idle_timeout (te.now w.ticks) w.txs named) h

    ended :
        (d : Bool) (u : Transaction) (v : World)
        → u.id ≡ id
        → lookup id (reject_acquired te d (ok u) v).1.txs ≡ none
    ended true u v same =
        subst (λ i. lookup i (reject_acquired te true (ok u) v).1.txs ≡ none) same
          (finish-gone Unit te u (design read_while_open) v)
    ended false u v same =
        subst (λ i. lookup i (reject_acquired te false (ok u) v).1.txs ≡ none) same
          (finish-gone Unit te u not_found v)

    by_busy :
        (b : Bool) (u : Transaction)
        → u.busy ≡ b
        → lookup id (lock te w).txs ≡ some u
        → GoneOrBusy te id w (run (taken b u))
    by_busy true u is_busy h = inr (u, h, is_busy, refl)
    by_busy false u free h = inl (ended design_error (record u { busy = true }) _ (named_at u h))

    at_found :
        (o : Option Transaction)
        → lookup id (lock te w).txs ≡ o
        → GoneOrBusy te id w (run (acquire_found te id o (lock te w)))
    at_found none h = inl h
    at_found (some u) h = by_busy u.busy u refl h

-- A request on a transaction that this layer refuses ends it, unless another call is using it: that is so
-- for every error but a body that the client did not send to its end, in a registry where each
-- transaction stands under its identifier.
pub tx_fail-GoneOrBusy :
    (opts : Options) (te : TxEnv) (joined : Joined) (r : Request) (id : Bytes) (e : ApiError)
    (a : Api)
    → IsNamed a.world.txs
    → e ≢ client_gone
    → GoneOrBusy te id a.world (tx_fail opts te joined r id e a).1.world
unfolding tx_fail
tx_fail-GoneOrBusy opts te joined r id e a named here = by_error e here
  where
    refused :
        (c : ApiError) → GoneOrBusy te id a.world (reject_with opts te joined r id c a).1.world
    refused c =
        let d = is_design_error c in
        let w = (reject te id d a.world).1 in
        let f = rejected opts te joined c (reject te id d a.world).0 in
        subst (GoneOrBusy te id a.world)
          (sym (handle_err-Handled opts r.context_done false f (put_world a w)).same_world)
          (reject-GoneOrBusy te id d a.world named)

    by_error :
        (c : ApiError)
        → c ≢ client_gone
        → GoneOrBusy te id a.world (tx_fail opts te joined r id c a).1.world
    by_error client_gone other = absurd (other refl)
    by_error (invalid rule) other = refused (invalid rule)
    by_error (invalid_projection at rule) other = refused (invalid_projection at rule)
    by_error (oversize at n) other = refused (oversize at n)
    by_error body_too_large other = refused body_too_large
    by_error (tx_failed c) other = refused (tx_failed c)
    by_error (write_failed c) other = refused (write_failed c)
    by_error (store_failed c) other = refused (store_failed c)
