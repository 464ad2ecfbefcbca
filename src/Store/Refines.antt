-- ===== src/Store/Refines.antt =====
-- The store refines a log of events: an append adds to the log, or leaves it.
use mathlib.Core.List.{append-nil}
use mathlib.Core.Path.{ap₂}
use tamarackdb.Prelude.{
  ℕ, ◌+◌, ◌≡◌, refl, ◌∙◌, sym, ap, subst, Bool, true, false, ◌&&◌, List, [], ◌∷◌, ◌++◌, Option,
  none, some, arith, eqb, length, All, if◌then◌else◌,
}
use tamarackdb.Prelude.Exec.{Result, ok, err, pure}
use tamarackdb.Dcb.Event.{Event, PendingEvent}
use tamarackdb.Dcb.Query.{AppendCondition}
use tamarackdb.Projection.{Writes, writes_len}
use tamarackdb.Store.Tables.{Env, StoreError, Store, Action, driver_call, rolled_back}
use tamarackdb.Store.Append.{
  AppendResult, no_result, first_without_time, number_events, append_tx, append_begun, append,
  refuse_untimed,
}
use tamarackdb.Store.Spec.{Keeps-driver_call, Spec, Spec-bind, Spec-rolled_back, counters}
use tamarackdb.Store.Atomic.{append-unchanged}
use tamarackdb.Store.Log.{Represents}
use tamarackdb.Store.Holds.{Holds, Holds-same, Holds-add, ConditionHolds, ValidConditions}
use tamarackdb.Store.Appends.{Appended, Spec-append_tx}

pub empty_of {ℓ} : {A : Type ℓ} (xs : List A) → true ≡ eqb (length xs) 0 → xs ≡ []
empty_of [] h = refl
empty_of (x ∷ xs) h = absurd (ground arith)

module _ (env : Env) (events : List PendingEvent) (conditions : List AppendCondition) (w : Writes)
    (s : Store) (log : List Event) (held : Holds s log) (v : ValidConditions conditions) where
  begin_same :
      (s1 : Store)
      → s1 ≡ (driver_call env s).1
      → (s1.tables ≡ s.tables) × (counters s1 ≡ counters s)
  begin_same s1 e = (
    ap (λ x. x.tables) e ∙ (Keeps-driver_call env (λ x. x.tables) (λ x n. refl)).at s,
    ap counters e ∙ (Keeps-driver_call env counters (λ x n. refl)).at s,
  )

  Appended-from :
      (s1 s' : Store) (r : AppendResult)
      → s1.next_seq ≡ s.next_seq
      → Appended env s1 log events conditions r s'
      → Appended env s log events conditions r s'
  Appended-from s1 s' r e a = (
    a.0 ∙ ap (λ n. number_events n events) e,
    subst (λ n. Represents s'.tables (log ++ number_events n events)) e a.1,
    a.2 ∙ ap (λ n. n + length events) e,
    a.3,
  )

  Spec-append_begun :
      Spec s (append_begun env events conditions w) (Appended env s log events conditions)
  unfolding append_begun
  Spec-append_begun =
      Spec-bind {Q = λ u s1. (s1.tables ≡ s.tables) × (counters s1 ≡ counters s)} s
        (driver_call env) _ (record { ensures = λ u h. begin_same (driver_call env s).1 refl })
        λ u s1 e1 same. record {
          ensures = λ r h.
              Appended-from s1 (rolled_back (append_tx env events conditions w) s1).1 r
                (ap (λ (x : ℕ × ℕ). x.0) same.1)
                ((Spec-rolled_back (append_tx env events conditions w) s1 (
                    Spec-append_tx env events conditions w s1 log
                      (Holds-same s s1 log same.0 same.1 held) v)).ensures
                  r h);
        }

  Appended-nothing :
      events ≡ [] → conditions ≡ [] → Appended env s log events conditions no_result s
  Appended-nothing e c =
      subst (λ es. Appended env s log es conditions no_result s) (sym e)
        (subst (λ cs. Appended env s log [] cs no_result s) (sym c)
          (unfold number_events in
            (
              refl,
              subst (Represents s.tables) (sym (append-nil log)) held.represents,
              omega arith,
              tt,
            )))

  Spec-append : Spec s (append env events conditions w) (Appended env s log events conditions)
  unfolding append
  Spec-append = timed (first_without_time 0 events) (
      nonempty (eqb (length events) 0) (eqb (length conditions) 0) (eqb (writes_len w) 0) refl refl)
    where
      unwrap : {q r : AppendResult} → ◌≡◌ {A = Result StoreError AppendResult} (ok q) (ok r) → q ≡ r
      unwrap h = ground arith

      timed :
          (o : Option ℕ) {m : Action AppendResult}
          → Spec s m (Appended env s log events conditions)
          → Spec s (refuse_untimed o m) (Appended env s log events conditions)
      timed (some i) spec = record { ensures = λ r h. absurd (cc) }
      timed none spec = spec

      nonempty :
          (a b c : Bool)
          → a ≡ eqb (length events) 0
          → b ≡ eqb (length conditions) 0
          → Spec s
              (if a && b && c then pure no_result else append_begun env events conditions w)
              (Appended env s log events conditions)
      nonempty true true true ea eb = record {
        ensures = λ r h.
            subst (λ x. Appended env s log events conditions x s) (unwrap h)
              (Appended-nothing (empty_of events ea) (empty_of conditions eb));
      }
      nonempty true true false ea eb = Spec-append_begun
      nonempty true false c ea eb = Spec-append_begun
      nonempty false b c ea eb = Spec-append_begun

  -- On a store that holds a log, with valid queries in the conditions: an append that succeeds
  -- returns the events with the next sequences in order, adds exactly these to the log of the
  -- store, moves the next sequence past them, and every condition holds of the log that it found.
  pub append-appends :
      (r : AppendResult)
      → (append env events conditions w s).0 ≡ ok r
      → let s' = (append env events conditions w s).1 in
        (r.events ≡ number_events s.next_seq events)
        × Holds s' (log ++ number_events s.next_seq events)
        × (s'.next_seq ≡ s.next_seq + length events)
        × All (ConditionHolds log) conditions
  append-appends r h =
      let a = Spec-append.ensures r h in (a.0, Holds-add s _ log events held a.1 a.2, a.2, a.3)

  abbrev pub log_after : Result StoreError AppendResult → List Event
  log_after (ok r) = log ++ number_events s.next_seq events
  log_after (err e) = log

  -- On a store that holds a log, with valid queries in the conditions: whatever the outcome of an
  -- append, the store holds a log again, the longer one after a success, and the same one after an
  -- error.
  pub append-Holds :
      Holds (append env events conditions w s).1 (log_after (append env events conditions w s).0)
  append-Holds = outcome (append env events conditions w s).0 refl
    where
      outcome :
          (r : Result StoreError AppendResult)
          → (append env events conditions w s).0 ≡ r
          → Holds (append env events conditions w s).1 (log_after r)
      outcome (ok r) h = (append-appends r h).1
      outcome (err e) h =
          let same = append-unchanged env events conditions w s e h in
          Holds-same s _ log same.0 (ap₂ (λ a b. (a, b)) same.1 same.2) held
