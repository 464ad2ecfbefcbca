-- ===== src/Store/Appends.antt =====
-- A successful append: what it returns, and what the store is then.
use tamarackdb.Prelude.{
  ℕ, ◌+◌, ◌≡◌, refl, ◌∙◌, sym, ap, subst, List, [], ◌∷◌, ◌++◌, arith, length, All,
}
use tamarackdb.Prelude.Exec.{Result, ok, err}
use tamarackdb.Dcb.Event.{Event, PendingEvent}
use tamarackdb.Dcb.Query.{AppendCondition}
use tamarackdb.Projection.{Writes}
use tamarackdb.Store.Tables.{EventRow, TagRow, Tables, Env, StoreError, Store, Action, driver_call}
use tamarackdb.Store.Batch.{insert_events_batch, insert_identifiers_batch, insert_metadata_batch}
use tamarackdb.Store.Projections.{Versions, write_projections}
use tamarackdb.Store.Append.{
  AppendResult, number_events, insert_events, write_events, reserving, release, reserve_sequences,
  check_conditions, append_tx,
}
use tamarackdb.Store.Spec.{Keeps, Keeps-driver_call, Spec, Spec-bind, counters}
use tamarackdb.Store.Footprint.{IgnoresProjections, Keeps-write_projections}
use tamarackdb.Store.Counters.{
  counters-IgnoresProjections, counters-check_conditions, counters-write_events,
}
use tamarackdb.Store.Log.{Represents, RowsOf}
use tamarackdb.Store.Inserts.{
  add_log, Spec-insert_events_batch, Spec-insert_identifiers_batch, Spec-insert_metadata_batch,
  batches_added,
}
use tamarackdb.Store.Holds.{ConditionHolds, Holds, Represents-add_log, ValidConditions, add_log-nil}
use tamarackdb.Store.Conditions.{checked, tables-check_conditions, Spec-check_conditions}

module _ (env : Env) where
  Spec-insert_events :
      (events : List PendingEvent) (start : ℕ) (s : Store)
      → Spec s (insert_events env events start) (λ r s'.
        (r ≡ number_events start events)
        × (s'.tables ≡ add_log (number_events start events) s.tables))
  unfolding insert_events
  Spec-insert_events [] start s = record { ensures = λ r h. (ground arith, add_log-nil s.tables) }
  Spec-insert_events (e ∷ rest) start s =
      let es = number_events start (e ∷ rest) in
      Spec-bind s (insert_events_batch env es) _ (Spec-insert_events_batch env es s) λ u s1 _ h1.
        Spec-bind s1 (insert_identifiers_batch env es) _ (Spec-insert_identifiers_batch env es s1)
          λ v s2 _ h2.
            Spec-bind s2 (insert_metadata_batch env es) _ (Spec-insert_metadata_batch env es s2)
              λ w s3 _ h3. record {
                ensures = λ r h. (ground arith, batches_added env es s s1 s2 s3 h1 h2 h3);
              }

  -- What an append writes, seen from the state in which its transaction begins.
  abbrev pub Appended :
      Store → List Event → List PendingEvent → List AppendCondition → AppendResult → Store → Type 0
  Appended s log events conditions r s' =
      (r.events ≡ number_events s.next_seq events)
      × Represents s'.tables (log ++ number_events s.next_seq events)
      × (s'.next_seq ≡ s.next_seq + length events)
      × All (ConditionHolds log) conditions

  Spec-write_events :
      (events : List PendingEvent) (start : ℕ) (s : Store)
      → Spec s (write_events env events start) (λ r s'.
        (r ≡ number_events start events)
        × (s'.tables ≡ add_log (number_events start events) s.tables))
  unfolding write_events
  Spec-write_events events start s =
      Spec-bind s (insert_events env events start) _ (Spec-insert_events events start s)
        λ r s1 _ h1.
          Spec-bind s1 (driver_call env) _ (record { ensures = λ u h. same s1 })
            λ u s2 _ t2. record { ensures = λ r' h. (ground (arith, h1.0), t2 ∙ h1.1) }
    where
      same : (x : Store) → (driver_call env x).1.tables ≡ x.tables
      same x = (Keeps-driver_call env (λ y. y.tables) (λ y n. refl)).at x

  Spec-reserving :
      {A : Type 0} {Q : A → Store → Type 0} (n : ℕ) (body : ℕ → Action A) (s : Store)
      → Spec (reserve_sequences n s) (body s.next_seq) Q
      → Spec s (reserving n body) Q
  unfolding reserving
  Spec-reserving {A} {Q} n body s spec = record {
    ensures = λ a h.
        kept (body s.next_seq (reserve_sequences n s)).0 (body s.next_seq (reserve_sequences n s)).1
          a h spec.ensures;
  }
    where
      kept :
          (r : Result StoreError A) (x : Store) (a : A)
          → (release s.next_seq r x).0 ≡ ok a
          → ((b : A) → r ≡ ok b → Q b x)
          → Q a (release s.next_seq r x).1
      kept (ok b) x a h q = q a h
      kept (err e) x a h q = absurd (cc)

  Spec-Keeps :
      {A : Type 0} {Q : A → Store → Type 0} {X : Type 0} (f : Store → X) (m : Action A) (s : Store)
      → Spec s m Q
      → Keeps f m
      → Spec s m (λ a s'. Q a s' × (f s' ≡ f s))
  Spec-Keeps f m s spec keeps = record { ensures = λ a h. (spec.ensures a h, keeps.at s) }

  abbrev event_tables : Store → List EventRow × List TagRow × List TagRow
  event_tables s = (s.tables.events, s.tables.identifiers, s.tables.metadata)

  event_tables-IgnoresProjections : IgnoresProjections event_tables
  event_tables-IgnoresProjections = record {
    calls = λ s n. refl;
    uuids = λ s n. refl;
    projections = λ s p. refl;
  }

  Represents-same :
      (s s' : Store) (log : List Event)
      → event_tables s' ≡ event_tables s
      → Represents s.tables log
      → Represents s'.tables log
  Represents-same s s' log e rep = record {
    rows =
        subst (RowsOf log) (ap (λ (x : List EventRow × List TagRow × List TagRow). x.0) (sym e))
          rep.rows;
    events = ap (λ (x : List EventRow × List TagRow × List TagRow). x.0) e ∙ rep.events;
    identifiers = ap (λ (x : List EventRow × List TagRow × List TagRow). x.1) e ∙ rep.identifiers;
    metadata = ap (λ (x : List EventRow × List TagRow × List TagRow). x.2) e ∙ rep.metadata;
  }

  -- The parts of an append, put together.
  Appended-parts :
      (s s2 s3 : Store) (log : List Event) (events : List PendingEvent)
      (conditions : List AppendCondition) (r : AppendResult)
      → s2.next_seq ≡ s.next_seq
      → Represents s2.tables log
      → All (ConditionHolds log) conditions
      → r.events ≡ number_events s2.next_seq events
      → s3.tables ≡ add_log (number_events s2.next_seq events) s2.tables
      → s3.next_seq ≡ s2.next_seq + length events
      → Appended s log events conditions r s3
  Appended-parts s s2 s3 log events conditions r next rep checked numbered tables counted = (
    numbered ∙ ap (λ n. number_events n events) next,
    subst (λ n. Represents s3.tables (log ++ number_events n events)) next
        (subst (λ t. Represents t (log ++ number_events s2.next_seq events)) (sym tables)
          (Represents-add_log (number_events s2.next_seq events) rep)),
    omega arith,
    checked,
  )

  pub Spec-append_tx :
      (events : List PendingEvent) (conditions : List AppendCondition) (w : Writes) (s : Store)
      (log : List Event)
      → Holds s log
      → ValidConditions conditions
      → Spec s (append_tx env events conditions w) (Appended s log events conditions)
  unfolding append_tx
  Spec-append_tx events conditions w s log held v =
      Spec-bind s (check_conditions env 0 conditions) _
        (Spec-check_conditions env 0 conditions s log held v)
        λ u s1 e1 checked.
          Spec-bind {Q = λ vs x. Unit {0}} s1 (write_projections env w) _
            (record { ensures = λ vs h. tt })
            λ vs s2 e2 _.
              Spec-bind s2 (reserving (length events) (write_events env events)) _
                (Spec-reserving (length events) (write_events env events) s2 (
                  Spec-Keeps counters (write_events env events s2.next_seq)
                    (reserve_sequences (length events) s2)
                    (Spec-write_events events s2.next_seq (reserve_sequences (length events) s2))
                    (counters-write_events env events s2.next_seq)))
                λ r s3 e3 written.
                  let c1 = ap counters e1 ∙ (counters-check_conditions env 0 conditions).at s in
                  let t1 =
                    ap event_tables e1
                    ∙ ap in_event_tables ((tables-check_conditions env 0 conditions).at s) in
                  let c2 =
                    ap counters e2
                    ∙ (Keeps-write_projections env counters (counters-IgnoresProjections env) w).at
                        s1 in
                  let t2 =
                    ap event_tables e2
                    ∙ (Keeps-write_projections env event_tables event_tables-IgnoresProjections
                          w).at
                        s1 in
                  record {
                    ensures = λ r' h.
                        Appended-parts s s2 s3 log events conditions r'
                          (ap (λ (x : ℕ × ℕ). x.0) (c2 ∙ c1))
                          (Represents-same s s2 log (t2 ∙ t1) held.represents) checked
                          (events_of r vs r' h ∙ written.0.0) written.0.1
                          (ap (λ (x : ℕ × ℕ). x.0) written.1);
                  }
    where
      in_event_tables : Tables → List EventRow × List TagRow × List TagRow
      in_event_tables t = (t.events, t.identifiers, t.metadata)

      events_of :
          (r : List Event) (vs : Versions) (r' : AppendResult)
          → ◌≡◌ {A = Result StoreError AppendResult}
              (ok (record { events = r; versions = vs }))
              (ok r')
          → r'.events ≡ r
      events_of r vs r' h = ground arith
