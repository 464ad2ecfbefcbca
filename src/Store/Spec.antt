-- ===== src/Store/Spec.antt =====
-- Rules for actions on the store: what an action keeps, and what holds after it succeeds.
use tamarackdb.Prelude.{
  ℕ, ◌≡◌, refl, ◌∙◌, sym, ap, Bool, true, false, Option, none, some, arith, if◌then◌else◌, ◌+◌,
  subst,
}
use tamarackdb.Prelude.Exec.{Result, ok, err, pure, raise, continue, ◌>>=◌}
use tamarackdb.Store.Tables.{
  Tables, Env, StoreError, Store, Action, statement, attempt, outcome, undo, driver_call,
  rolled_back,
}

-- `f` of the state is the same after `m`, whether it succeeds or fails.
pub record Keeps {X A : Type 0} (f : Store → X) (m : Action A) : Type 0 where
  pub at : (s : Store) → f (m s).1 ≡ f s

-- After `m` succeeds from `s`, its value and its state meet `Q`.
pub record Spec {A : Type 0} (s : Store) (m : Action A) (Q : A → Store → Type 0) : Type 0 where
  pub ensures : (a : A) → (m s).0 ≡ ok a → Q a (m s).1

module _ {X A : Type 0} {f : Store → X} where
  pub Keeps-pure : (a : A) → Keeps f (pure a)
  Keeps-pure a = record { at = λ s. refl }

  pub Keeps-raise : (e : StoreError) → Keeps f (raise {A = A} e)
  Keeps-raise e = record { at = λ s. refl }

  pub Keeps-if : (b : Bool) (m n : Action A) → Keeps f m → Keeps f n → Keeps f (if b then m else n)
  Keeps-if true m n km kn = km
  Keeps-if false m n km kn = kn

module _ {X A B : Type 0} {f : Store → X} where
  pub Keeps-bind :
      (m : Action A) (k : A → Action B) → Keeps f m → ((a : A) → Keeps f (k a)) → Keeps f (m >>= k)
  Keeps-bind m k km kk = record { at = λ s. go (m s) ∙ km.at s }
    where
      go : (p : Result StoreError A × Store) → f (continue p.0 k p.1).1 ≡ f p.1
      go (ok a, s') = (kk a).at s'
      go (err e, s') = refl

  -- The same where the second part needs to know something of the value of the first.
  pub Keeps-bind_good :
      (P : A → Type 0) (m : Action A) (k : A → Action B)
      → Keeps f m
      → ((s : Store) (a : A) → (m s).0 ≡ ok a → P a)
      → ((a : A) → P a → Keeps f (k a))
      → Keeps f (m >>= k)
  Keeps-bind_good P m k km good kk = record { at = λ s. go (m s) (good s) ∙ km.at s }
    where
      go :
          (p : Result StoreError A × Store)
          → ((a : A) → p.0 ≡ ok a → P a)
          → f (continue p.0 k p.1).1 ≡ f p.1
      go (ok a, s') h = (kk a (h a refl)).at s'
      go (err e, s') h = refl

module _ {A B : Type 0} {Q : A → Store → Type 0} {R : B → Store → Type 0} where
  pub Spec-bind :
      (s : Store) (m : Action A) (k : A → Action B)
      → Spec s m Q
      → ((a : A) (s' : Store) → s' ≡ (m s).1 → Q a s' → Spec s' (k a) R)
      → Spec s (m >>= k) R
  Spec-bind s m k sm sk = record {
    ensures = λ b h. go (m s) sm.ensures (λ a. sk a (m s).1 refl) b h;
  }
    where
      go :
          (p : Result StoreError A × Store)
          → ((a : A) → p.0 ≡ ok a → Q a p.1)
          → ((a : A) → Q a p.1 → Spec p.1 (k a) R)
          → (b : B) → (continue p.0 k p.1).0 ≡ ok b
          → R b (continue p.0 k p.1).1
      go (ok a, s') q r b h = (r a (q a refl)).ensures b h
      go (err e, s') q r b h = absurd (cc)

module _ {A : Type 0} (env : Env) (run : Tables → Result ℕ (A × Tables)) where
  outcome_keeps :
      {X : Type 0} (f : Store → X) (s : Store) (r : Result ℕ (A × Tables))
      → ((a : A) (t : Tables) → r ≡ ok (a, t) → f (record s { tables = t }) ≡ f s)
      → f (outcome r s).1 ≡ f s
  outcome_keeps f s (ok (a, t)) h = h a t refl
  outcome_keeps f s (err e) h = refl

  attempt_keeps :
      {X : Type 0} (f : Store → X) (o : Option ℕ) (s : Store)
      → ((a : A) (t : Tables) → run s.tables ≡ ok (a, t) → f (record s { tables = t }) ≡ f s)
      → f (attempt o run s).1 ≡ f s
  attempt_keeps f (some code) s h = refl
  attempt_keeps f none s h = outcome_keeps f s (run s.tables) h

  -- A statement changes what it does to the tables, and the count of calls.
  pub Keeps-statement :
      {X : Type 0} (f : Store → X)
      → ((s : Store) (n : ℕ) → f (record s { calls = n }) ≡ f s)
      → ((s : Store) (a : A) (t : Tables)
          → run s.tables ≡ ok (a, t)
          → f (record s { tables = t }) ≡ f s)
      → Keeps f (statement env run)
  unfolding statement
  Keeps-statement f counted kept = record {
    at = λ s.
        attempt_keeps f (env.fault s.calls) (record s { calls = s.calls + 1 })
          (kept (record s { calls = s.calls + 1 }))
        ∙ counted s (s.calls + 1);
  }

  outcome_ok :
      (s : Store) (r : Result ℕ (A × Tables)) (a : A)
      → (outcome r s).0 ≡ ok a
      → r ≡ ok (a, (outcome r s).1.tables)
  outcome_ok s (ok (b, t)) a h = ground arith
  outcome_ok s (err e) a h = absurd (cc)

  attempt_ok :
      (o : Option ℕ) (s : Store) (a : A)
      → (attempt o run s).0 ≡ ok a
      → run s.tables ≡ ok (a, (attempt o run s).1.tables)
  attempt_ok (some code) s a h = absurd (cc)
  attempt_ok none s a h = outcome_ok s (run s.tables) a h

  -- A statement that succeeds has run on the tables.
  pub Spec-statement :
      (s : Store) → Spec s (statement env run) (λ a s'. run s.tables ≡ ok (a, s'.tables))
  unfolding statement
  Spec-statement s = record {
    ensures = λ a h. attempt_ok (env.fault s.calls) (record s { calls = s.calls + 1 }) a h;
  }

pub Keeps-driver_call :
    {X : Type 0} (env : Env) (f : Store → X)
    → ((s : Store) (n : ℕ) → f (record s { calls = n }) ≡ f s)
    → Keeps f (driver_call env)
unfolding driver_call
Keeps-driver_call env f counted =
    Keeps-statement env _ f counted
      (λ s a t h. ap (λ x. f (record s { tables = x })) (same_tables s t a h))
  where
    same_tables :
        (s : Store) (t : Tables) (a : Unit {0})
        → ◌≡◌ {A = Result ℕ (Unit {0} × Tables)} (ok (tt, s.tables)) (ok (a, t))
        → t ≡ s.tables
    same_tables s t a h = ground arith

-- Everything but the tables and the count of calls.
abbrev pub counters : Store → ℕ × ℕ
counters s = (s.next_seq, s.paused_at)

module _ {A : Type 0} where
  undo_tables :
      (t : Tables) (r : Result StoreError A) (s : Store) (e : StoreError)
      → r ≡ err e
      → (undo t r s).1.tables ≡ t
  undo_tables t (ok a) s e h = absurd (cc)
  undo_tables t (err c) s e h = refl

  pub undo-result : (t : Tables) (r : Result StoreError A) (s : Store) → (undo t r s).0 ≡ r
  undo-result t (ok a) s = refl
  undo-result t (err c) s = refl

  pub undo-ok :
      (t : Tables) (r : Result StoreError A) (s : Store) (a : A) → r ≡ ok a → (undo t r s).1 ≡ s
  undo-ok t (ok b) s a h = refl
  undo-ok t (err c) s a h = absurd (cc)

  -- A body that fails under `rolled_back` leaves the tables as it found them.
  pub rolled_back-tables :
      (m : Action A) (s : Store) (e : StoreError)
      → (rolled_back m s).0 ≡ err e
      → (rolled_back m s).1.tables ≡ s.tables
  unfolding rolled_back
  rolled_back-tables m s e h =
      undo_tables s.tables (m s).0 (m s).1 e (sym (undo-result s.tables (m s).0 (m s).1) ∙ h)

  pub rolled_back-result : (m : Action A) (s : Store) → (rolled_back m s).0 ≡ (m s).0
  unfolding rolled_back
  rolled_back-result m s = undo-result s.tables (m s).0 (m s).1

  pub Spec-rolled_back :
      {Q : A → Store → Type 0} (m : Action A) (s : Store) → Spec s m Q → Spec s (rolled_back m) Q
  unfolding rolled_back
  Spec-rolled_back {Q} m s sm = record {
    ensures = λ a h.
        let done : (m s).0 ≡ ok a = sym (undo-result s.tables (m s).0 (m s).1) ∙ h in
        subst (Q a) (sym (undo-ok s.tables (m s).0 (m s).1 a done)) (sm.ensures a done);
  }

  undo-counters :
      (t : Tables) (r : Result StoreError A) (s : Store) → counters (undo t r s).1 ≡ counters s
  undo-counters t (ok a) s = refl
  undo-counters t (err c) s = refl

  pub rolled_back-counters :
      (m : Action A) (s : Store) → counters (rolled_back m s).1 ≡ counters (m s).1
  unfolding rolled_back
  rolled_back-counters m s = undo-counters s.tables (m s).0 (m s).1

-- After `m` fails, `f` of the state is as it was.
pub record FailKeeps {X A : Type 0} (f : Store → X) (m : Action A) : Type 0 where
  pub at : (s : Store) (e : StoreError) → (m s).0 ≡ err e → f (m s).1 ≡ f s

module _ {X A B : Type 0} {f : Store → X} where
  pub FailKeeps-bind :
      (m : Action A) (k : A → Action B)
      → Keeps f m
      → ((a : A) → FailKeeps f (k a))
      → FailKeeps f (m >>= k)
  FailKeeps-bind m k km kk = record { at = λ s e h. go (m s) e h ∙ km.at s }
    where
      go :
          (p : Result StoreError A × Store) (e : StoreError)
          → (continue p.0 k p.1).0 ≡ err e
          → f (continue p.0 k p.1).1 ≡ f p.1
      go (ok a, s') e h = (kk a).at s' e h
      go (err c, s') e h = refl

  -- What follows cannot fail.
  pub FailKeeps-bind_pure :
      (m : Action A) (g : A → B) → FailKeeps f m → FailKeeps f (m >>= λ a. pure (g a))
  FailKeeps-bind_pure m g km = record { at = λ s e h. go (m s) e h (km.at s) }
    where
      go :
          (p : Result StoreError A × Store) (e : StoreError)
          → (continue p.0 (λ a. pure (g a)) p.1).0 ≡ err e
          → {x : X} → ((c : StoreError) → p.0 ≡ err c → f p.1 ≡ x)
          → f (continue p.0 (λ a. pure (g a)) p.1).1 ≡ x
      go (ok a, s') e h keep = absurd (cc)
      go (err c, s') e h keep = keep c refl
