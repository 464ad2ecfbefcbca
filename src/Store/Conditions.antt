-- ===== src/Store/Conditions.antt =====
-- The conditions of an append, checked against the log.
use tamarackdb.Prelude.{
  ℕ, suc, ◌≡◌, refl, ◌∙◌, sym, ap, Bool, true, false, not, List, [], ◌∷◌, arith, eqb, All, All-mono,
  any, if◌then◌else◌, Bool-cases, inl, inr, none,
}
use tamarackdb.Prelude.Exec.{Result, ok, raise}
use tamarackdb.Dcb.Event.{Event}
use tamarackdb.Dcb.Query.{Query, AppendCondition, validate, query_is_none}
use tamarackdb.Store.Tables.{Env, StoreError, condition_conflict, Store, last_sequence}
use tamarackdb.Store.Append.{
  check_condition, check_conditions, resolve_without_query, check_fail_if_events_match_sql,
  matches_after,
}
use tamarackdb.Store.Spec.{
  Keeps, Keeps-pure, Keeps-raise, Keeps-if, Keeps-bind, Keeps-statement, Spec, Spec-bind,
  Spec-statement, counters,
}
use tamarackdb.Store.Counters.{counters-check_condition}
use tamarackdb.Store.Selects.{wanted, matches_after-eq-any}
use tamarackdb.Store.Holds.{
  ConditionHolds, Holds, Holds-same, ValidConditions, any-false, late-matches, none-matches,
}

module _ (env : Env) where
  check_condition-behind :
      (c : AppendCondition) (s : Store)
      → query_is_none c.fail_if_events_match ≡ false
      → eqb c.after_sequence (last_sequence s) ≡ false
      → check_condition env c s
        ≡ check_fail_if_events_match_sql env c.fail_if_events_match c.after_sequence s
  unfolding check_condition
  check_condition-behind c s something behind = rw (something, behind) refl

  pub checked :
      (c : AppendCondition) (s : Store) (log : List Event)
      → Holds s log
      → validate c.fail_if_events_match ≡ none
      → (h : Bool)
      → (check_fail_if_events_match_sql env c.fail_if_events_match c.after_sequence s).0 ≡ ok h
      → h ≡ not (any (wanted c.fail_if_events_match c.after_sequence) log)
  checked c s log held v h e = ground (
    arith,
    (Spec-statement env (λ t. ok (not (matches_after t c.fail_if_events_match c.after_sequence), t))
          s).ensures
        h (unfold check_fail_if_events_match_sql in e),
    matches_after-eq-any held.represents held.above c.fail_if_events_match c.after_sequence v,
  )

  -- The check of a condition, shortcut or not, tells whether the condition holds of the log.
  pub Spec-check_condition :
      (c : AppendCondition) (s : Store) (log : List Event)
      → Holds s log
      → validate c.fail_if_events_match ≡ none
      → Spec s
          (check_condition env c)
          (λ h s'. h ≡ not (any (wanted c.fail_if_events_match c.after_sequence) log))
  unfolding check_condition
  Spec-check_condition c s log held v = elim (Bool-cases (query_is_none q)) [
    | inl nothing ↦ record {
      ensures = λ h e. ground (
        arith,
        any-false (wanted q after) log
            (All-mono _ _ log (λ x below. none-matches q after x nothing) held.below),
      );
    }
    | inr something ↦ elim (Bool-cases (eqb after (last_sequence s))) [
      | inl current ↦ record {
        ensures = λ h e. ground (
          arith,
          any-false (wanted q after) log (
              All-mono _ _ log (λ x below. late-matches q after s.next_seq x (ground arith) below)
                held.below),
        );
      }
      | inr behind ↦ record {
        ensures = λ h e. checked c s log held v h (
            sym (
              ap (λ (p : Result StoreError Bool × Store). p.0)
                (check_condition-behind c s something behind))
            ∙ e);
      }
    ]
  ]
    where
      open c use {fail_if_events_match as q, after_sequence as after}

  tables-check_sql :
      (q : Query) (after : ℕ) → Keeps (λ s. s.tables) (check_fail_if_events_match_sql env q after)
  tables-check_sql q after =
      unfold check_fail_if_events_match_sql in
      Keeps-statement env (λ t. ok (not (matches_after t q after), t)) (λ x. x.tables) (λ x n. refl)
        (λ x a t e. ground arith)

  pub tables-check_condition : (c : AppendCondition) → Keeps (λ s. s.tables) (check_condition env c)
  unfolding check_condition
  tables-check_condition c = record {
    at =
        λ s. go (resolve_without_query c.fail_if_events_match c.after_sequence (last_sequence s)) s;
  }
    where
      go :
          (r : Bool × Bool) (s : Store)
          → (if r.1
              then (ok r.0, s)
              else check_fail_if_events_match_sql env c.fail_if_events_match c.after_sequence
                  s).1.tables
            ≡ s.tables
      go (h, true) s = refl
      go (h, false) s = (tables-check_sql c.fail_if_events_match c.after_sequence).at s

  pub tables-check_conditions :
      (i : ℕ) (cs : List AppendCondition) → Keeps (λ s. s.tables) (check_conditions env i cs)
  unfolding check_conditions
  tables-check_conditions i [] = Keeps-pure tt
  tables-check_conditions i (c ∷ rest) =
      Keeps-bind (check_condition env c) _ (tables-check_condition c)
        λ h. Keeps-if h _ _ (tables-check_conditions (suc i) rest) (Keeps-raise _)

  pub Spec-check_conditions :
      (i : ℕ) (cs : List AppendCondition) (s : Store) (log : List Event)
      → Holds s log
      → ValidConditions cs
      → Spec s (check_conditions env i cs) (λ u s'. All (ConditionHolds log) cs)
  unfolding check_conditions
  Spec-check_conditions i [] s log held v = record { ensures = λ u h. tt }
  Spec-check_conditions i (c ∷ rest) s log held v =
      Spec-bind s (check_condition env c) _ (Spec-check_condition c s log held v.0)
        λ h s' same exact. checked_if h s' exact (
          Spec-check_conditions (suc i) rest s' log
            (Holds-same s s' log (ap (λ x. x.tables) same ∙ (tables-check_condition c).at s)
              (ap counters same ∙ (counters-check_condition env c).at s) held)
            v.1)
    where
      checked_if :
          (h : Bool) (s' : Store)
          → h ≡ not (any (wanted c.fail_if_events_match c.after_sequence) log)
          → Spec s' (check_conditions env (suc i) rest) (λ u x. All (ConditionHolds log) rest)
          → Spec s'
              (if h then check_conditions env (suc i) rest else raise (condition_conflict i))
              (λ u x. All (ConditionHolds log) (c ∷ rest))
      checked_if true s' exact spec = record { ensures = λ u e. (ground arith, spec.ensures u e) }
      checked_if false s' exact spec = record { ensures = λ u e. absurd (cc) }
