-- ===== src/Store/Chunks.antt =====
-- How a batch insert splits its rows into statements.
use mathlib.Core.Path.{fun_ext}
use tamarackdb.Prelude.{
  ℕ, ◌*◌, ◌/◌, ◌≤◌, ◌<◌, ◌≡◌, refl, ◌∙◌, sym, ap, List, [], ◌∷◌, arith, ltb, length, All,
  if◌then◌else◌,
}
use tamarackdb.Prelude.Exec.{Result, ok, err, continue, ◌>>=◌}
use tamarackdb.Store.Tables.{Tables, Env, Store, StoreError, statement}
use tamarackdb.Store.Batch.{batches, max_batch_variables, insert_chunks, exec_batch_insert}
use tamarackdb.Store.Inserts.{batches-concat, Adds, Spec-exec_batch_insert}

-- SQLITE_ERROR, which SQLite reports for too many variables.
abbrev too_many_variables : ℕ
too_many_variables = 1

-- A database that refuses a statement of more than `max_batch_variables` variables.
abbrev pub bounded :
    {R : Type 0}
    → ℕ
    → (List R → Tables → Result ℕ (Unit {0} × Tables))
    → List R
    → Tables
    → Result ℕ (Unit {0} × Tables)
bounded cols_per_row run rows t =
    if ltb max_batch_variables (length rows * cols_per_row)
    then err too_many_variables
    else run rows t

insert_chunks-bounded :
    {R : Type 0} (env : Env) (run : List R → Tables → Result ℕ (Unit {0} × Tables)) (n : ℕ)
    (chunks : List (List R)) (s : Store)
    → All (λ chunk. length chunk * n ≤ max_batch_variables) chunks
    → insert_chunks env (bounded n run) chunks s ≡ insert_chunks env run chunks s
unfolding insert_chunks statement
insert_chunks-bounded env run n [] s h = refl
insert_chunks-bounded {R} env run n (chunk ∷ rest) s h =
    ap (λ r. (statement env r >>= λ u. insert_chunks env (bounded n run) rest) s) (same chunk h.0)
    ∙ again (statement env (run chunk) s) (λ s'. insert_chunks-bounded env run n rest s' h.1)
  where
    runs :
        (xs : List R) (t : Tables)
        → length xs * n ≤ max_batch_variables
        → bounded n run xs t ≡ run xs t
    runs xs t le = ground (arith, le)

    same : (xs : List R) → length xs * n ≤ max_batch_variables → bounded n run xs ≡ run xs
    same xs le = fun_ext λ t. runs xs t le

    again :
        (r : Result StoreError (Unit {0}) × Store)
        → ((s' : Store) → insert_chunks env (bounded n run) rest s' ≡ insert_chunks env run rest s')
        → continue r.0 (λ u. insert_chunks env (bounded n run) rest) r.1
          ≡ continue r.0 (λ u. insert_chunks env run rest) r.1
    again (ok u, s') alike = alike s'
    again (err e, s') alike = refl

-- Rows of at least one column and at most `max_batch_variables`, written by statements that each add
-- the rows they are given: a batch insert runs alike on a database that refuses statements of more
-- than `max_batch_variables` variables, and when it succeeds, the tables have every row once, in order.
pub exec_batch_insert-bounded :
    (env : Env) {R : Type 0} {run : List R → Tables → Result ℕ (Unit {0} × Tables)}
    {add : List R → Tables → Tables} (s s' : Store) (u : Unit {0}) (n : ℕ) (rows : List R)
    → Adds run add
    → 0 < n
    → n ≤ max_batch_variables
    → exec_batch_insert env run n rows s ≡ (ok u, s')
    → (exec_batch_insert env (bounded n run) n rows s ≡ (ok u, s'))
      × (s'.tables ≡ add rows s.tables)
exec_batch_insert-bounded env {R} {run} s s' u n rows adds pos le done =
    let alike : exec_batch_insert env (bounded n run) n rows s
        ≡ exec_batch_insert env run n rows s =
      unfold exec_batch_insert in
      insert_chunks-bounded env run n (batches (length rows) (max_batch_variables / n) rows) s
        (batches-concat n rows pos le).1 in
    (
      alike ∙ done,
      ap (λ x. x.1.tables) (sym done)
          ∙ (Spec-exec_batch_insert env adds s n rows pos le).ensures u (ap (λ x. x.0) done),
    )
