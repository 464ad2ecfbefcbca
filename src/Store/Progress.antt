-- ===== src/Store/Progress.antt =====
-- An append that nothing stands against succeeds.
use tamarackdb.Prelude.{
  ℕ, ◌+◌, ◌/◌, ◌≤◌, ◌<◌, ◌≡◌, refl, sym, ap, subst, ◌∙◌, List, [], ◌∷◌, ◌++◌, none, arith, length,
}
use tamarackdb.Prelude.Exec.{Result, ok, continue, pure, ◌>>=◌}
use tamarackdb.Store.Tables.{Tables, Env, StoreError, Store, Action, statement, driver_call}
use tamarackdb.Store.Batch.{insert_chunks, exec_batch_insert, batches, max_batch_variables}
use tamarackdb.Store.Inserts.{concat, batches-concat}
use tamarackdb.Store.Spec.{Spec}

-- The action succeeds from the state, and its value and its state meet `Q`.
pub record Total {A : Type 0} (s : Store) (m : Action A) (Q : A → Store → Type 0) : Type 0 where
  pub value : A
  pub after : Store
  pub runs : m s ≡ (ok value, after)
  pub meets : Q value after

module _ {A B : Type 0} {Q : A → Store → Type 0} {R : B → Store → Type 0} where
  pub Total-bind :
      (s : Store) (m : Action A) (k : A → Action B)
      → Total s m Q
      → ((a : A) (s' : Store) → Q a s' → Total s' (k a) R)
      → Total s (m >>= k) R
  Total-bind s m k d next =
      let e = next d.value d.after d.meets in
      record {
        value = e.value;
        after = e.after;
        runs = ap (λ r. continue r.0 k r.1) d.runs ∙ e.runs;
        meets = e.meets;
      }

module _ {A : Type 0} where
  pub Total-pure : {Q : A → Store → Type 0} (s : Store) (a : A) → Q a s → Total s (pure a) Q
  Total-pure s a q = record { value = a; after = s; runs = refl; meets = q }

  -- What is known of an action that succeeds holds of it.
  pub Total-Spec :
      {Q R : A → Store → Type 0} (s : Store) (m : Action A) → Total s m Q → Spec s m R → Total s m R
  Total-Spec {R = R} s m d spec = record {
    value = d.value;
    after = d.after;
    runs = d.runs;
    meets =
        subst (λ (p : Result StoreError A × Store). R d.value p.1) d.runs
          (spec.ensures d.value (ap (λ (p : Result StoreError A × Store). p.0) d.runs));
  }

module _ (env : Env) (no_fault : (n : ℕ) → env.fault n ≡ none) where
  pub Total-statement :
      {A : Type 0} (run : Tables → Result ℕ (A × Tables)) (s : Store) (a : A) (t : Tables)
      → run s.tables ≡ ok (a, t)
      → Total s (statement env run) (λ b s'. (b ≡ a) × (s'.tables ≡ t) × (s'.next_seq ≡ s.next_seq))
  unfolding statement
  Total-statement run s a t h = record {
    value = a;
    after = record s { calls = s.calls + 1; tables = t };
    runs = ground (arith, no_fault s.calls, h);
    meets = (refl, refl, refl);
  }

  pub Total-driver_call :
      (s : Store)
      → Total s (driver_call env) (λ u s'. (s'.tables ≡ s.tables) × (s'.next_seq ≡ s.next_seq))
  unfolding driver_call
  Total-driver_call s =
      let d = Total-statement (λ t. ok (tt, t)) s tt s.tables refl in
      record { value = d.value; after = d.after; runs = d.runs; meets = (d.meets.1, d.meets.2) }

  -- Rows that go in chunk by chunk.
  module _ {R : Type 0} (run : List R → Tables → Result ℕ (Unit {0} × Tables))
      (add : List R → Tables → Tables) (Fresh : List R → Tables → Type 0)
      (runs : (xs : List R) (t : Tables) → Fresh xs t → run xs t ≡ ok (tt, add xs t))
      (split : (xs ys : List R) (t : Tables)
        → Fresh (xs ++ ys) t
        → Fresh xs t × Fresh ys (add xs t)) where
    Total-insert_chunks :
        (s : Store) (chunks : List (List R))
        → Fresh (concat chunks) s.tables
        → Total s (insert_chunks env run chunks) (λ u s'. Unit {0})
    unfolding insert_chunks concat
    Total-insert_chunks s [] h = Total-pure s tt tt
    Total-insert_chunks s (chunk ∷ rest) h =
        let (first, second) = split chunk (concat rest) s.tables h in
        Total-bind s (statement env (run chunk)) _
          (Total-statement (run chunk) s tt (add chunk s.tables) (runs chunk s.tables first))
          λ u s' done. Total-insert_chunks s' rest (subst (Fresh (concat rest)) (sym done.1) second)

    pub Total-exec_batch_insert :
        (s : Store) (n : ℕ) (rows : List R)
        → 0 < n
        → n ≤ max_batch_variables
        → Fresh rows s.tables
        → Total s (exec_batch_insert env run n rows) (λ u s'. Unit {0})
    unfolding exec_batch_insert
    Total-exec_batch_insert s n rows positive few h =
        Total-insert_chunks s (batches (length rows) (max_batch_variables / n) rows)
          (subst (λ xs. Fresh xs s.tables) (sym (batches-concat n rows positive few).0) h)
