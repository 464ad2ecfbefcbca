-- ===== src/Store/Footprint.antt =====
-- What the projection statements of an append leave alone.
use tamarackdb.Prelude.{ℕ, ◌+◌, ◌≡◌, ◌∙◌, sym, ap, subst, List, [], ◌∷◌, Option, none, some, arith}
use tamarackdb.Prelude.Exec.{Result, ok, pure, ◌>>=◌}
use tamarackdb.Prelude.Eq.{Bytes}
use tamarackdb.Prelude.Assoc.{Assoc}
use tamarackdb.Projection.{Key, Writes}
use tamarackdb.Store.Tables.{
  ProjectionRow, Tables, Env, StoreError, ProjectionOp, Store, Action, statement, driver_call,
}
use tamarackdb.Store.Projections.{
  Prepared, create_row, replace_row, delete_row, check_written, draw_uuid, create_args,
  replace_args, delete_args, exec_from, exec_each, write_projections, dereference,
}
use tamarackdb.Store.Spec.{
  Keeps, Keeps-bind_good, Keeps-pure, Keeps-raise, Keeps-if, Keeps-bind, Keeps-statement,
  Keeps-driver_call,
}

-- What `f` shows is left alone by the count of calls, the UUIDs drawn, and the projections.
pub record IgnoresProjections {X : Type 0} (f : Store → X) : Type 0 where
  pub calls : (s : Store) (n : ℕ) → f (record s { calls = n }) ≡ f s
  pub uuids : (s : Store) (n : ℕ) → f (record s { uuids = n }) ≡ f s
  pub projections :
      (s : Store) (p : Assoc Key ProjectionRow)
      → f (record s { tables = record s.tables { projections = p } }) ≡ f s

-- A prepared statement writes projections only.
WritesProjections : (Tables → ℕ × Tables) → Type 0
WritesProjections run = (t : Tables) → (run t).1 ≡ record t { projections = (run t).1.projections }

create_row-WritesProjections :
    (k : Key) (row : ProjectionRow) → WritesProjections (create_row k row)
unfolding create_row WritesProjections
create_row-WritesProjections k row t = ground arith

replace_row-WritesProjections :
    (k : Key) (version : Bytes) (row : ProjectionRow)
    → WritesProjections (replace_row k version row)
unfolding replace_row WritesProjections
replace_row-WritesProjections k version row t = ground arith

delete_row-WritesProjections :
    (k : Key) (version : Bytes) → WritesProjections (delete_row k version)
unfolding delete_row WritesProjections
delete_row-WritesProjections k version t = ground arith

module _ (env : Env) {X : Type 0} (f : Store → X) (ig : IgnoresProjections f) where
  Keeps-run :
      (run : Tables → ℕ × Tables)
      → WritesProjections run
      → Keeps f (statement env (λ t. ok (run t)))
  unfolding WritesProjections
  Keeps-run run w = Keeps-statement env _ f ig.calls λ s a t h.
      ap (λ x. f (record s { tables = x })) (sym (second s t a h) ∙ w s.tables)
      ∙ ig.projections s (run s.tables).1.projections
    where
      second :
          (s : Store) (t : Tables) (a : ℕ)
          → ◌≡◌ {A = Result ℕ (ℕ × Tables)} (ok (run s.tables)) (ok (a, t))
          → (run s.tables).1 ≡ t
      second s t a h = ground arith

  Keeps-check_written : (op : ProjectionOp) (i n : ℕ) → Keeps f (check_written op i n)
  unfolding check_written
  Keeps-check_written op i n = Keeps-if _ _ _ (Keeps-raise _) (Keeps-pure tt)

  Keeps-dereference : (o : Option Bytes) → Keeps f (dereference env o)
  Keeps-dereference none = Keeps-raise _
  Keeps-dereference (some p) = Keeps-pure p

  Keeps-draw_uuid : Keeps f (draw_uuid env)
  unfolding draw_uuid
  Keeps-draw_uuid = record { at = λ s. ig.uuids s (s.uuids + 1) }

  payload_writes :
      (o : Option Bytes) (mk : Bytes → Prepared) (s : Store) (p : Prepared)
      → ((x : Bytes) → WritesProjections (mk x).run)
      → ((dereference env o >>= λ x. pure (mk x)) s).0 ≡ ok p
      → WritesProjections p.run
  payload_writes none mk s p good h = absurd (cc)
  payload_writes (some x) mk s p good h = subst (λ q. WritesProjections q.run) (unwrap h) (good x)
    where
      unwrap : {q r : Prepared} → ◌≡◌ {A = Result StoreError Prepared} (ok q) (ok r) → q ≡ r
      unwrap e = ground arith

  -- The arguments keep `f`, and the statement they make writes projections only.
  record GoodArgs {A : Type 0} (args : A → Action Prepared) : Type 0 where
    keeps : (a : A) → Keeps f (args a)
    writes : (s : Store) (a : A) (p : Prepared) → (args a s).0 ≡ ok p → WritesProjections p.run

  create_args-GoodArgs : GoodArgs (create_args env)
  unfolding create_args
  create_args-GoodArgs = record {
    keeps = λ c. Keeps-bind (draw_uuid env) _ Keeps-draw_uuid λ v.
        Keeps-bind (dereference env c.payload) _ (Keeps-dereference c.payload) λ x.
          Keeps-pure
            (record { version = v; run = create_row c.key (record { version = v; payload = x }) });
    writes = λ s c p h.
        payload_writes c.payload
          (λ x. record {
            version = env.uuid s.uuids;
            run = create_row c.key (record { version = env.uuid s.uuids; payload = x });
          })
          (record s { uuids = s.uuids + 1 }) p (λ x. create_row-WritesProjections c.key _) h;
  }

  replace_args-GoodArgs : GoodArgs (replace_args env)
  unfolding replace_args
  replace_args-GoodArgs = record {
    keeps = λ r. Keeps-bind (draw_uuid env) _ Keeps-draw_uuid λ v.
        Keeps-bind (dereference env r.payload) _ (Keeps-dereference r.payload) λ x.
          Keeps-pure (record {
            version = v;
            run = replace_row r.key r.version (record { version = v; payload = x });
          });
    writes = λ s r p h.
        payload_writes r.payload
          (λ x. record {
            version = env.uuid s.uuids;
            run = replace_row r.key r.version (record { version = env.uuid s.uuids; payload = x });
          })
          (record s { uuids = s.uuids + 1 }) p
          (λ x. replace_row-WritesProjections r.key r.version _) h;
  }

  delete_args-GoodArgs : GoodArgs (delete_args env)
  unfolding delete_args
  delete_args-GoodArgs = record {
    keeps = λ d. Keeps-pure _;
    writes = λ s d p h.
        payload_writes (some []) (λ x. record { version = []; run = delete_row d.key d.version }) s
          p (λ x. delete_row-WritesProjections d.key d.version) h;
  }

  module _ {A : Type 0} (op : ProjectionOp) (args : A → Action Prepared)
      (good : GoodArgs args) where
    Keeps-exec_from : (index : ℕ) (xs : List A) → Keeps f (exec_from env op args index xs)
    unfolding exec_from
    Keeps-exec_from index [] = Keeps-pure []
    Keeps-exec_from index (a ∷ rest) =
        Keeps-bind_good (λ p. WritesProjections p.run) (args a) _ (good.keeps a)
          (λ s p h. good.writes s a p h)
          λ p w. Keeps-bind (statement env (λ t. ok (p.run t))) _ (Keeps-run p.run w) λ n.
            Keeps-bind (check_written op index n) _ (Keeps-check_written op index n) λ u.
              Keeps-bind (exec_from env op args (index + 1) rest) _
                (Keeps-exec_from (index + 1) rest) λ vs. Keeps-pure _

    Keeps-exec_each : (xs : List A) → Keeps f (exec_each env op args xs)
    unfolding exec_each
    Keeps-exec_each [] = Keeps-pure []
    Keeps-exec_each (a ∷ rest) =
        Keeps-bind (driver_call env) _ (Keeps-driver_call env f ig.calls)
          λ u. Keeps-exec_from 0 (a ∷ rest)

  pub Keeps-write_projections : (w : Writes) → Keeps f (write_projections env w)
  unfolding write_projections
  Keeps-write_projections w =
      Keeps-bind _ _ (Keeps-exec_each _ _ create_args-GoodArgs w.creates) λ vs.
        Keeps-bind _ _ (Keeps-exec_each _ _ replace_args-GoodArgs w.replaces) λ us.
          Keeps-bind _ _ (Keeps-exec_each _ _ delete_args-GoodArgs w.deletes) λ _. Keeps-pure _
