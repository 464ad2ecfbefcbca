-- ===== src/Tx/Marks.antt =====
-- Which projections a call of writes marks as written.
use tamarackdb.Prelude.{
  ℕ, ◌≡◌, refl, ◌∙◌, sym, ap, Bool, true, ◌||◌, List, [], ◌∷◌, ◌++◌, Option, none, some, arith,
  Bool-cases, inl, inr, ltb, eqb,
}
use tamarackdb.Prelude.Eq.{contains}
use tamarackdb.Prelude.Assoc.{lookup, insert, lookup-insert}
use tamarackdb.Prelude.Exec.{Result, ok, err}
use tamarackdb.Projection.{Key, projection_key_eq}
use tamarackdb.Tx.State.{ProjectionState, Transaction, World, TxEnv, DesignRule}
use tamarackdb.Tx.Reads.{is_open, dcb_now}
use tamarackdb.Tx.Written.{keys, created_written, and_then-ok}
use tamarackdb.Tx.Writes.{
  Projection, Writes, States, known_written, is_known, created, update, check_creates,
  check_replaces, check_deletes, check_writes, writes_len, count_written, apply_creates,
  apply_replaces, apply_deletes, apply_writes, write_checked, projections_call,
}

abbrev is_in : States → Key → Bool
is_in ps k = is_known (lookup k ps)

abbrev is_marked : States → Key → Bool
is_marked ps k = known_written (lookup k ps)

-- From one state to the other the keys are marked, and nothing else changes its mark.
record Marks (ps qs : States) (ks : List Key) : Type 0 where
  marked : (k : Key) → is_marked qs k ≡ (contains ks k || is_marked ps k)
  kept : (k : Key) → is_in ps k ≡ true → is_in qs k ≡ true

Marks-none : (ps : States) → Marks ps ps []
unfolding contains
Marks-none ps = record { marked = λ k. refl; kept = λ k h. h }

Marks-insert :
    (k : Key) (s : ProjectionState) (ps qs : States) (ks : List Key)
    → s.written ≡ true
    → Marks (insert k s ps) qs ks
    → Marks ps qs (k ∷ ks)
unfolding contains
Marks-insert k s ps qs ks w h = record {
  marked = λ j. ground (
    arith,
    w,
    h.marked j,
    lookup-insert k j s ps,
    projection_key_eq.beq_iff k j,
    projection_key_eq.beq_iff j k,
  );
  kept = λ j x. h.kept j (ground (arith, x, lookup-insert k j s ps));
}

Marks-update :
    (k : Key) (f : ProjectionState → ProjectionState) (o : Option ProjectionState) (ps qs : States)
    (ks : List Key)
    → is_known o ≡ true
    → ((s : ProjectionState) → (f s).written ≡ true)
    → Marks (update k f o ps) qs ks
    → Marks ps qs (k ∷ ks)
Marks-update k f none ps qs ks known w h = absurd (ground (arith, known))
Marks-update k f (some s) ps qs ks known w h = Marks-insert k (f s) ps qs ks (w s) h

-- The update of one projection leaves the others known.
known-update :
    (k j : Key) (f : ProjectionState → ProjectionState) (o : Option ProjectionState) (ps : States)
    → is_in ps j ≡ true
    → is_in (update k f o ps) j ≡ true
known-update k j f none ps h = h
known-update k j f (some s) ps h = ground (arith, h, lookup-insert k j (f s) ps)

apply_creates-Marks :
    (xs : List Projection) (t : Transaction)
    → Marks t.projections (apply_creates xs t).projections (keys xs)
unfolding apply_creates
apply_creates-Marks [] t = Marks-none t.projections
apply_creates-Marks (p ∷ rest) t =
    Marks-insert p.key (created p.payload (lookup p.key t.projections)) t.projections _ (keys rest)
      (created_written p.payload (lookup p.key t.projections)) (apply_creates-Marks rest _)

abbrev AllIn : States → List Key → Type 0
AllIn ps ks = (k : Key) → contains ks k ≡ true → is_in ps k ≡ true

AllIn-head : (ps : States) (k : Key) (ks : List Key) → AllIn ps (k ∷ ks) → is_in ps k ≡ true
unfolding contains
AllIn-head ps k ks h = h k (ground (arith, projection_key_eq.beq_iff k k))

AllIn-update :
    (ps : States) (k : Key) (ks : List Key) (f : ProjectionState → ProjectionState)
    → AllIn ps (k ∷ ks)
    → AllIn (update k f (lookup k ps) ps) ks
unfolding contains
AllIn-update ps k ks f h j c = known-update k j f (lookup k ps) ps (h j (ground (arith, c)))

apply_replaces-Marks :
    (xs : List Projection) (t : Transaction)
    → AllIn t.projections (keys xs)
    → Marks t.projections (apply_replaces xs t).projections (keys xs)
unfolding apply_replaces
apply_replaces-Marks [] t h = Marks-none t.projections
apply_replaces-Marks (p ∷ rest) t h =
    Marks-update p.key _ (lookup p.key t.projections) t.projections _ (keys rest)
      (AllIn-head t.projections p.key (keys rest) h) (λ s. refl)
      (apply_replaces-Marks rest _ (AllIn-update t.projections p.key (keys rest) _ h))

apply_deletes-Marks :
    (ks : List Key) (t : Transaction)
    → AllIn t.projections ks
    → Marks t.projections (apply_deletes ks t).projections ks
unfolding apply_deletes
apply_deletes-Marks [] t h = Marks-none t.projections
apply_deletes-Marks (k ∷ rest) t h =
    Marks-update k _ (lookup k t.projections) t.projections _ rest
      (AllIn-head t.projections k rest h) (λ s. refl)
      (apply_deletes-Marks rest _ (AllIn-update t.projections k rest _ h))

-- What is replaced or deleted was known.
check_replaces-AllIn :
    (ps : States) (xs : List Projection) (seen all : List Key)
    → check_replaces ps xs seen ≡ ok all
    → AllIn ps (keys xs)
unfolding check_replaces contains
check_replaces-AllIn ps [] seen all h k c = absurd (ground (arith, c))
check_replaces-AllIn ps (p ∷ rest) seen all h k c = ground (
  arith,
  h,
  c,
  projection_key_eq.beq_iff k p.key,
  Bool-cases (contains seen p.key),
  check_replaces-AllIn ps rest (p.key ∷ seen) all _ k,
)

check_deletes-AllIn :
    (ps : States) (xs : List Key) (seen all : List Key)
    → check_deletes ps xs seen ≡ ok all
    → AllIn ps xs
unfolding check_deletes contains
check_deletes-AllIn ps [] seen all h k c = absurd (ground (arith, c))
check_deletes-AllIn ps (x ∷ rest) seen all h k c = ground (
  arith,
  h,
  c,
  projection_key_eq.beq_iff k x,
  Bool-cases (contains seen x),
  check_deletes-AllIn ps rest (x ∷ seen) all _ k,
)

contains-append :
    (xs ys : List Key) (k : Key) → contains (xs ++ ys) k ≡ (contains xs k || contains ys k)
unfolding contains
contains-append [] ys k = refl
contains-append (x ∷ xs) ys k = ground (arith, contains-append xs ys k)

-- The projections that a call writes.
abbrev pub keys_of : Writes → List Key
keys_of w = keys w.creates ++ (keys w.replaces ++ w.deletes)

apply_writes-Marks :
    (w : Writes) (n : ℕ) (t : Transaction) (seen : List Key)
    → check_writes t.projections w ≡ ok seen
    → (k : Key)
    → is_marked (apply_writes w n t).projections k
      ≡ (contains (keys_of w) k || is_marked t.projections k)
unfolding apply_writes check_writes
apply_writes-Marks w n t seen h k =
    let (a, e1, h1) = and_then-ok (check_creates t.projections w.creates []) _ seen h in
    let (b, e2, h2) = and_then-ok (check_replaces t.projections w.replaces a) _ seen h1 in
    let t0 = record t { written = n } in
    let t1 = apply_creates w.creates t0 in
    let t2 = apply_replaces w.replaces t1 in
    let created = apply_creates-Marks w.creates t0 in
    let replaced =
      apply_replaces-Marks w.replaces t1
        λ j c. created.kept j (check_replaces-AllIn t.projections w.replaces a b e2 j c) in
    let deleted = apply_deletes-Marks w.deletes t2 λ j c.
      replaced.kept j
        (created.kept j (check_deletes-AllIn t.projections w.deletes b seen h2 j c)) in
    ground (
      arith,
      created.marked k,
      replaced.marked k,
      deleted.marked k,
      contains-append (keys w.creates) (keys w.replaces ++ w.deletes) k,
      contains-append (keys w.replaces) w.deletes k,
    )

write_checked-Marks :
    (te : TxEnv) (p : Writes) (t u : Transaction) (w : World) (time : ℕ)
    (r : Result DesignRule (List Key))
    → check_writes t.projections p ≡ r
    → (write_checked te p t r w).0 ≡ ok (time, u)
    → (k : Key) → is_marked u.projections k ≡ (contains (keys_of p) k || is_marked t.projections k)
unfolding dcb_now
write_checked-Marks te p t u w time (err rule) checked h k = absurd (ground (arith, h))
write_checked-Marks te p t u w time (ok seen) checked h k =
    let n = count_written t.projections t.written seen in
    elim (Bool-cases (ltb te.cfg.max_projections_per_tx n)) [
      | inl above ↦ absurd (ground (arith, h, above))
      | inr within ↦
          let same : apply_writes p n t ≡ u = ground (arith, h, within) in
          ap (λ x. is_marked x.projections k) (sym same) ∙ apply_writes-Marks p n t seen checked k
    ]

-- A call that writes projections and succeeds marks as written exactly the projections that it creates,
-- replaces or deletes, next to those marked before it.
pub projections_call-marks :
    (te : TxEnv) (p : Writes) (t u : Transaction) (w : World) (time : ℕ) (k : Key)
    → (projections_call te p t w).0 ≡ ok (time, u)
    → known_written (lookup k u.projections)
      ≡ (contains (keys_of p) k || known_written (lookup k t.projections))
unfolding projections_call
projections_call-marks te p t u w time k h = elim (Bool-cases (is_open te t.open_condition)) [
  | inl open_read ↦ absurd (ground (arith, h, open_read))
  | inr closed ↦ elim (Bool-cases (eqb (writes_len p) 0)) [
    | inl empty ↦ absurd (ground (arith, h, closed, empty))
    | inr full ↦
        write_checked-Marks te p t u w time (check_writes t.projections p) refl
          (ground (arith, h, closed, full)) k
  ]
]
