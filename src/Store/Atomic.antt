-- ===== src/Store/Atomic.antt =====
-- A failed append changes neither the tables nor the counters, wherever it fails.
use tamarackdb.Prelude.{
  ℕ, ◌≡◌, refl, ◌∙◌, sym, ap, Bool, true, false, ◌&&◌, List, Option, none, some, eqb, length,
  if◌then◌else◌,
}
use tamarackdb.Prelude.Exec.{Result, ok, err, pure, continue, ◌>>◌}
use tamarackdb.Dcb.Event.{PendingEvent}
use tamarackdb.Dcb.Query.{AppendCondition}
use tamarackdb.Projection.{Writes, writes_len}
use tamarackdb.Store.Tables.{Env, StoreError, Store, Action, driver_call, rolled_back}
use tamarackdb.Store.Projections.{write_projections}
use tamarackdb.Store.Append.{
  AppendResult, first_without_time, check_conditions, write_events, reserving, reserve_sequences,
  no_result, release, append_tx, append_begun, append, refuse_untimed,
}
use tamarackdb.Store.Spec.{
  Keeps, FailKeeps, FailKeeps-bind, FailKeeps-bind_pure, Keeps-driver_call, counters,
  rolled_back-tables, rolled_back-result, rolled_back-counters,
}
use tamarackdb.Store.Footprint.{Keeps-write_projections}
use tamarackdb.Store.Counters.{
  counters-IgnoresProjections, counters-check_conditions, counters-write_events,
}

module _ (env : Env) where
  counters-release :
      {A : Type 0} (start : ℕ) (r : Result StoreError A) (s : Store) (e : StoreError)
      → r ≡ err e
      → counters (release start r s).1 ≡ (start, s.paused_at)
  counters-release start (ok a) s e h = absurd (cc)
  counters-release start (err c) s e h = refl

  release-result :
      {A : Type 0} (start : ℕ) (r : Result StoreError A) (s : Store) → (release start r s).0 ≡ r
  release-result start (ok a) s = refl
  release-result start (err c) s = refl

  -- The sequences of a body that fails go back.
  FailKeeps-reserving :
      {A : Type 0} (n : ℕ) (body : ℕ → Action A)
      → ((start : ℕ) → Keeps counters (body start))
      → FailKeeps counters (reserving n body)
  unfolding reserving
  FailKeeps-reserving n body kept = record {
    at = λ s e h.
        let s1 = reserve_sequences n s in
        let r = body s.next_seq s1 in
        counters-release s.next_seq r.0 r.1 e (sym (release-result s.next_seq r.0 r.1) ∙ h)
        ∙ ap (λ (c : ℕ × ℕ). (s.next_seq, c.1)) ((kept s.next_seq).at s1);
  }

  append_tx-FailKeeps :
      (events : List PendingEvent) (conditions : List AppendCondition) (w : Writes)
      → FailKeeps counters (append_tx env events conditions w)
  unfolding append_tx
  append_tx-FailKeeps events conditions w =
      FailKeeps-bind (check_conditions env 0 conditions) _
        (counters-check_conditions env 0 conditions)
        λ u.
          FailKeeps-bind (write_projections env w) _
            (Keeps-write_projections env counters (counters-IgnoresProjections env) w)
            λ vs. FailKeeps-bind_pure (reserving (length events) (write_events env events)) _ (
              FailKeeps-reserving (length events) (write_events env events)
                (counters-write_events env events))

  -- A failure that leaves the tables and the counters alone.
  record IsAtomic {A : Type 0} (m : Action A) : Type 0 where
    at :
        (s : Store) (e : StoreError)
        → (m s).0 ≡ err e
        → ((m s).1.tables ≡ s.tables) × (counters (m s).1 ≡ counters s)

  begin-IsAtomic :
      {A : Type 0} (body : Action A)
      → FailKeeps counters body
      → IsAtomic (driver_call env >> rolled_back body)
  begin-IsAtomic body kept = record {
    at = λ s e h.
        go s (driver_call env s) e h ((Keeps-driver_call env (λ x. x.tables) (λ x n. refl)).at s)
          ((Keeps-driver_call env counters (λ x n. refl)).at s);
  }
    where
      go :
          (s : Store) (p : Result StoreError (Unit {0}) × Store) (e : StoreError)
          → (continue p.0 (λ _. rolled_back body) p.1).0 ≡ err e
          → p.1.tables ≡ s.tables
          → counters p.1 ≡ counters s
          → ((continue p.0 (λ _. rolled_back body) p.1).1.tables ≡ s.tables)
            × (counters (continue p.0 (λ _. rolled_back body) p.1).1 ≡ counters s)
      go s (ok u, s') e h t c = (
        rolled_back-tables body s' e h ∙ t,
        rolled_back-counters body s' ∙ kept.at s' e (sym (rolled_back-result body s') ∙ h) ∙ c,
      )
      go s (err x, s') e h t c = (t, c)

  append-IsAtomic :
      (events : List PendingEvent) (conditions : List AppendCondition) (w : Writes)
      → IsAtomic (append env events conditions w)
  unfolding append
  append-IsAtomic events conditions w = refused (first_without_time 0 events) (
      if_pure (eqb (length events) 0 && eqb (length conditions) 0 && eqb (writes_len w) 0) _
        no_result
        (unfold append_begun in
          begin-IsAtomic (append_tx env events conditions w)
            (append_tx-FailKeeps events conditions w)))
    where
      refused :
          (o : Option ℕ) {m : Action AppendResult} → IsAtomic m → IsAtomic (refuse_untimed o m)
      refused (some i) a = record { at = λ s e h. (refl, refl) }
      refused none a = a

      if_pure :
          (b : Bool) (m : Action AppendResult) (r : AppendResult)
          → IsAtomic m
          → IsAtomic (if b then pure r else m)
      if_pure true m r a = record { at = λ s e h. (refl, refl) }
      if_pure false m r a = a

-- Whatever call of the driver fails, an append that returns an error leaves every table, the
-- sequence counter and the pause as they were.
pub append-unchanged :
    (env : Env) (events : List PendingEvent) (conditions : List AppendCondition) (w : Writes)
    (s : Store) (e : StoreError)
    → (append env events conditions w s).0 ≡ err e
    → let s' = (append env events conditions w s).1 in
      (s'.tables ≡ s.tables) × (s'.next_seq ≡ s.next_seq) × (s'.paused_at ≡ s.paused_at)
append-unchanged env events conditions w s e h =
    let both = (append-IsAtomic env events conditions w).at s e h in
    (both.0, ap (λ (c : ℕ × ℕ). c.0) both.1, ap (λ (c : ℕ × ℕ). c.1) both.1)
