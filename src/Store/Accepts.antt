-- ===== src/Store/Accepts.antt =====
-- An append whose conditions hold, on storage that does not fail.
use tamarackdb.Prelude.{
  ℕ, suc, ◌-◌, ◌≡◌, ◌≢◌, refl, sym, ap, subst, ◌∙◌, Bool, true, false, not, ◌&&◌, List, [], ◌∷◌,
  Option, none, some, arith, eqb, length, All, All-mono, if◌then◌else◌,
}
use tamarackdb.Prelude.Exec.{Result, ok, pure, raise}
use tamarackdb.Dcb.Event.{identifier_eq, metadata_eq, EventData, Event, PendingEvent}
use tamarackdb.Dcb.Event
use tamarackdb.Dcb.Event.Rules.{Distinct, validate_iff}
use tamarackdb.Dcb.Query.{AppendCondition, validate}
use tamarackdb.Projection.{Writes, writes_len}
use tamarackdb.Store.Tables.{
  Tables, Env, StoreError, Store, Action, condition_conflict, driver_call, rolled_back, undo,
  last_sequence,
}
use tamarackdb.Store.Projections.{write_projections}
use tamarackdb.Store.Append.{
  AppendResult, no_result, resolve_without_query, matches_after, check_fail_if_events_match_sql,
  check_condition, check_conditions, number_events, write_events, reserving, reserve_sequences,
  release, append_tx, append_begun, append, first_without_time, refuse_untimed,
}
use tamarackdb.Store.Counters.{counters-check_condition}
use tamarackdb.Store.Conditions.{Spec-check_condition, tables-check_condition}
use tamarackdb.Store.Spec.{Keeps-driver_call, counters}
use tamarackdb.Store.Log.{Represents}
use tamarackdb.Store.Holds.{Holds, Holds-same, ConditionHolds, ValidConditions, number_events-Above}
use tamarackdb.Store.Progress.{
  Total, Total-bind, Total-pure, Total-Spec, Total-statement, Total-driver_call,
}
use tamarackdb.Store.Succeeds.{Follows, number_events-All, Total-write_events}

abbrev no_writes : Writes
no_writes = record { creates = []; replaces = []; deletes = [] }

-- The tables and the counters are as they were.
abbrev Same : Store → Store → Type 0
Same s s' = (s'.tables ≡ s.tables) × (counters s' ≡ counters s)

module _ (env : Env) (no_fault : (n : ℕ) → env.fault n ≡ none) (log : List Event) where
  Total-check_condition :
      (c : AppendCondition) (s : Store)
      → Holds s log
      → validate c.fail_if_events_match ≡ none
      → ConditionHolds log c
      → Total s (check_condition env c) (λ h s'. (h ≡ true) × Same s s')
  unfolding check_condition check_fail_if_events_match_sql
  Total-check_condition c s held valid holds =
      Total-Spec {Q = λ h s'. Unit {0}} s (check_condition env c)
        (let d =
            decided
              (resolve_without_query c.fail_if_events_match c.after_sequence (last_sequence s)) in
          record { value = d.value; after = d.after; runs = d.runs; meets = tt })
        (record {
          ensures = λ h e. (
            (Spec-check_condition env c s log held valid).ensures h e ∙ ap not holds,
            ((tables-check_condition env c).at s, (counters-check_condition env c).at s),
          );
        })
    where
      decided :
          (r : Bool × Bool)
          → Total s
              (λ x.
                if r.1
                then (ok r.0, x)
                else check_fail_if_events_match_sql env c.fail_if_events_match c.after_sequence x)
              (λ h s'. Unit {0})
      decided (h, true) = Total-pure s h tt
      decided (h, false) =
          let d =
            Total-statement env no_fault
              (λ t. ok (not (matches_after t c.fail_if_events_match c.after_sequence), t)) s
              (not (matches_after s.tables c.fail_if_events_match c.after_sequence)) s.tables
              refl in
          record { value = d.value; after = d.after; runs = d.runs; meets = tt }

  Total-check_conditions :
      (i : ℕ) (cs : List AppendCondition) (s : Store)
      → Holds s log
      → ValidConditions cs
      → All (ConditionHolds log) cs
      → Total s (check_conditions env i cs) (λ u s'. Same s s')
  unfolding check_conditions
  Total-check_conditions i [] s held valid holds = Total-pure s tt (refl, refl)
  Total-check_conditions i (c ∷ rest) s held (v, valid) (h, holds) =
      Total-bind s (check_condition env c) _ (Total-check_condition c s held v h)
        λ b s' (passes, (tables, counts)).
          subst
            (λ x.
              Total s'
                (if x then check_conditions env (suc i) rest else raise (condition_conflict i))
                (λ u s''. Same s s''))
            (sym passes)
            (after_first tables counts (
              Total-check_conditions (suc i) rest s' (Holds-same s s' log tables counts held) valid
                holds))
    where
      after_first :
          {s' : Store}
          → s'.tables ≡ s.tables
          → counters s' ≡ counters s
          → Total s' (check_conditions env (suc i) rest) (λ u s''. Same s' s'')
          → Total s' (check_conditions env (suc i) rest) (λ u s''. Same s s'')
      after_first tables counts d = record {
        value = d.value;
        after = d.after;
        runs = d.runs;
        meets = (d.meets.0 ∙ tables, d.meets.1 ∙ counts);
      }

  Total-reserving :
      {A : Type 0} {Q : A → Store → Type 0} (n : ℕ) (body : ℕ → Action A) (s : Store)
      → Total (reserve_sequences n s) (body s.next_seq) Q
      → Total s (reserving n body) Q
  unfolding reserving
  Total-reserving n body s d = record {
    value = d.value;
    after = d.after;
    runs = ap (λ r. release s.next_seq r.0 r.1) d.runs;
    meets = d.meets;
  }

  Total-rolled_back :
      {A : Type 0} {Q : A → Store → Type 0} (body : Action A) (s : Store)
      → Total s body Q
      → Total s (rolled_back body) Q
  unfolding rolled_back
  Total-rolled_back body s d = record {
    value = d.value;
    after = d.after;
    runs = ap (λ r. undo s.tables r.0 r.1) d.runs;
    meets = d.meets;
  }

-- Events that `Validate` accepts, each with its time.
abbrev pub Proper : List PendingEvent → Type 0
Proper events = All (λ e. (e.time ≢ 0) × (Event.validate e.event_data ≡ none)) events

first_without_time-none :
    (i : ℕ) (events : List PendingEvent) → Proper events → first_without_time i events ≡ none
first_without_time-none i [] h = refl
first_without_time-none i (e ∷ rest) h =
    ground (arith, h.0.0, first_without_time-none (suc i) rest h.1)

module _ (env : Env) (no_fault : (n : ℕ) → env.fault n ≡ none) (events : List PendingEvent)
    (conditions : List AppendCondition) (s : Store) (log : List Event) (held : Holds s log)
    (valid : ValidConditions conditions) (holds : All (ConditionHolds log) conditions)
    (proper : Proper events) where
  follows : (t : Tables) → t ≡ s.tables → Follows t log (number_events s.next_seq events) s.next_seq
  follows t same = record {
    represents = subst (λ x. Represents x log) (sym same) held.represents;
    below = held.below;
    started = held.started;
    above = number_events-Above (s.next_seq - 1) s.next_seq events (omega (arith, held.started));
    identifiers_distinct =
        number_events-All (λ e. Distinct e.identifiers) s.next_seq events
          (All-mono _ _ events (λ e h. ((validate_iff e.event_data).0 h.1).distinct_identifiers)
            proper);
    metadata_distinct =
        number_events-All (λ e. Distinct e.metadata) s.next_seq events
          (All-mono _ _ events (λ e h. ((validate_iff e.event_data).0 h.1).distinct_metadata)
            proper);
  }

  Total-append_tx :
      (s0 : Store)
      → s0.tables ≡ s.tables
      → counters s0 ≡ counters s
      → Total s0 (append_tx env events conditions no_writes) (λ r s'. Unit {0})
  unfolding append_tx write_projections
  Total-append_tx s0 tables counts =
      Total-bind s0 (check_conditions env 0 conditions) _
        (Total-check_conditions env no_fault log 0 conditions s0
          (Holds-same s s0 log tables counts held) valid holds)
        λ u s1 (tables1, counts1).
          Total-bind {Q = λ v s2. s2 ≡ s1} s1 (write_projections env no_writes) _
            (Total-pure s1 _ refl)
            λ v s2 same.
              let t2 : s2.tables ≡ s.tables = ap (λ x. x.tables) same ∙ tables1 ∙ tables in
              let n2 : s2.next_seq ≡ s.next_seq =
                ap (λ x. x.next_seq) same ∙ ap (λ (x : ℕ × ℕ). x.0) (counts1 ∙ counts) in
              Total-bind s2 (reserving (length events) (write_events env events)) _
                (Total-reserving env no_fault log (length events) (write_events env events) s2 (
                  Total-write_events env no_fault events s2.next_seq
                    (reserve_sequences (length events) s2) log
                    (subst (λ n. Follows s2.tables log (number_events n events) n) (sym n2)
                      (follows s2.tables t2))))
                λ r s3 h. Total-pure s3 (record { events = r; versions = v }) tt

  Total-append_begun : Total s (append_begun env events conditions no_writes) (λ r s'. Unit {0})
  unfolding append_begun
  Total-append_begun =
      Total-bind {Q = λ u s'. Same s s'} s (driver_call env) _ begun λ u s1 (tables, counts).
        Total-rolled_back env no_fault log (append_tx env events conditions no_writes) s1
          (Total-append_tx s1 tables counts)
    where
      begun : Total s (driver_call env) (λ u s'. Same s s')
      begun = Total-Spec s (driver_call env) (Total-driver_call env no_fault s) (record {
        ensures = λ u h. (
          (Keeps-driver_call env (λ x. x.tables) (λ x n. refl)).at s,
          (Keeps-driver_call env counters (λ x n. refl)).at s,
        );
      })

  -- On a store that holds a log, and on storage that does not fail: an append of valid events, each with its
  -- time, and of no projection succeeds when each of its conditions, with a valid query, holds of the log.
  pub append-succeeds : (r : AppendResult) × ((append env events conditions no_writes s).0 ≡ ok r)
  unfolding append
  append-succeeds =
      let d = timed (first_without_time 0 events) (first_without_time-none 0 events proper) in
      (d.value, ap (λ (p : Result StoreError AppendResult × Store). p.0) d.runs)
    where
      steps : Bool → Action AppendResult
      steps b = if b then pure no_result else append_begun env events conditions no_writes

      body : (b : Bool) → Total s (steps b) (λ r s'. Unit {0})
      body true = Total-pure s no_result tt
      body false = Total-append_begun

      empty : Bool
      empty = eqb (length events) 0 && eqb (length conditions) 0 && eqb (writes_len no_writes) 0

      timed :
          (o : Option ℕ) → o ≡ none → Total s (refuse_untimed o (steps empty)) (λ r s'. Unit {0})
      timed none h = body empty
      timed (some i) h = absurd (cc)
