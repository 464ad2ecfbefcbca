-- ===== src/Tx/Written.antt =====
-- How many projections a transaction has written, and what its calls make of the number.
use tamarackdb.Prelude.{
  ℕ, ◌+◌, ◌≤◌, ◌≡◌, refl, true, false, List, [], ◌∷◌, map, Option, none, some, arith, Bool-cases,
  if◌then◌else◌,
}
use tamarackdb.Prelude.Eq.{contains}
use tamarackdb.Prelude.Assoc.{lookup, insert, lookup-insert}
use tamarackdb.Prelude.Exec.{Result, ok, err, and_then}
use tamarackdb.Projection.{Key, projection_key_eq}
use tamarackdb.Tx.State.{ProjectionState, Transaction}
use tamarackdb.Tx.Writes.{
  Projection, Writes, States, known_written, created, update, check_creates, check_replaces,
  check_deletes, check_writes, count_written, apply_creates, apply_replaces, apply_deletes,
  apply_writes,
}

-- The projections that are marked as written.
unfoldable pub written_count : States → ℕ
written_count [] = 0
written_count ((k, s) ∷ rest) = (if s.written then 1 else 0) + written_count rest

abbrev due : Option ProjectionState → ℕ
due o = if known_written o then 0 else 1

-- Those of the keys whose projection is not yet written.
pub new_keys : States → List Key → ℕ
new_keys ps [] = 0
new_keys ps (k ∷ rest) = due (lookup k ps) + new_keys ps rest

pub count_written-new_keys :
    (ps : States) (n : ℕ) (ks : List Key) → count_written ps n ks ≡ n + new_keys ps ks
unfolding count_written new_keys
count_written-new_keys ps n [] = omega arith
count_written-new_keys ps n (k ∷ rest) = ground (
  arith,
  count_written-new_keys ps n rest,
  count_written-new_keys ps (n + 1) rest,
  Bool-cases (known_written (lookup k ps)),
)

written_count-insert :
    (k : Key) (s : ProjectionState) (ps : States)
    → written_count (insert k s ps) ≤ written_count ps + due (lookup k ps)
unfolding written_count insert lookup
written_count-insert k s [] = ground arith
written_count-insert k s ((j, old) ∷ rest) = ground (arith, written_count-insert k s rest)

pub written_count-unwritten :
    (k : Key) (s : ProjectionState) (ps : States)
    → s.written ≡ false
    → written_count (insert k s ps) ≤ written_count ps
unfolding written_count insert
written_count-unwritten k s [] h = ground (arith, h)
written_count-unwritten k s ((j, old) ∷ rest) h =
    ground (arith, h, written_count-unwritten k s rest h)

-- What is written stays written.
Grows : States → States → Type 0
Grows ps qs = (k : Key) → known_written (lookup k ps) ≡ true → known_written (lookup k qs) ≡ true

Grows-insert :
    (k : Key) (s : ProjectionState) (ps : States) → s.written ≡ true → Grows ps (insert k s ps)
unfolding Grows
Grows-insert k s ps h j w = ground (arith, lookup-insert k j s ps, h, w)

new_keys-Grows : (ps qs : States) (ks : List Key) → Grows ps qs → new_keys qs ks ≤ new_keys ps ks
unfolding Grows new_keys
new_keys-Grows ps qs [] h = omega arith
new_keys-Grows ps qs (k ∷ rest) h = ground (arith, h k, new_keys-Grows ps qs rest h)

-- Writing the keys from one state to the other adds no more than the new keys.
record Adds (ps qs : States) (ks : List Key) : Type 0 where
  counted : written_count qs ≤ written_count ps + new_keys ps ks
  grows : Grows ps qs

Adds-none : (ps : States) → Adds ps ps []
unfolding Grows new_keys
Adds-none ps = record { counted = omega arith; grows = λ k h. h }

Adds-skip : (ps qs : States) (k : Key) (ks : List Key) → Adds ps qs ks → Adds ps qs (k ∷ ks)
unfolding new_keys
Adds-skip ps qs k ks h = record { counted = ground (arith, h.counted); grows = h.grows }

Adds-insert :
    (k : Key) (s : ProjectionState) (ps qs : States) (ks : List Key)
    → s.written ≡ true
    → Adds (insert k s ps) qs ks
    → Adds ps qs (k ∷ ks)
unfolding Grows new_keys
Adds-insert k s ps qs ks w h =
    let grown = Grows-insert k s ps w in
    record {
      counted = omega (
        arith,
        h.counted,
        written_count-insert k s ps,
        new_keys-Grows ps (insert k s ps) ks grown,
      );
      grows = λ j x. h.grows j (grown j x);
    }

abbrev pub keys : List Projection → List Key
keys = map (λ p. p.key)

pub created_written :
    (payload : List ℕ) (o : Option ProjectionState) → (created payload o).written ≡ true
created_written payload none = refl
created_written payload (some s) = refl

apply_creates-Adds :
    (ps : List Projection) (t : Transaction)
    → Adds t.projections (apply_creates ps t).projections (keys ps)
unfolding apply_creates
apply_creates-Adds [] t = Adds-none t.projections
apply_creates-Adds (p ∷ rest) t =
    Adds-insert p.key (created p.payload (lookup p.key t.projections)) t.projections _ (keys rest)
      (created_written p.payload (lookup p.key t.projections)) (apply_creates-Adds rest _)

Adds-update :
    (k : Key) (f : ProjectionState → ProjectionState) (o : Option ProjectionState) (ps qs : States)
    (ks : List Key)
    → ((s : ProjectionState) → (f s).written ≡ true)
    → Adds (update k f o ps) qs ks
    → Adds ps qs (k ∷ ks)
Adds-update k f none ps qs ks w h = Adds-skip ps qs k ks h
Adds-update k f (some s) ps qs ks w h = Adds-insert k (f s) ps qs ks (w s) h

apply_replaces-Adds :
    (ps : List Projection) (t : Transaction)
    → Adds t.projections (apply_replaces ps t).projections (keys ps)
unfolding apply_replaces
apply_replaces-Adds [] t = Adds-none t.projections
apply_replaces-Adds (p ∷ rest) t =
    Adds-update p.key _ (lookup p.key t.projections) t.projections _ (keys rest) (λ s. refl)
      (apply_replaces-Adds rest _)

apply_deletes-Adds :
    (ks : List Key) (t : Transaction) → Adds t.projections (apply_deletes ks t).projections ks
unfolding apply_deletes
apply_deletes-Adds [] t = Adds-none t.projections
apply_deletes-Adds (k ∷ rest) t =
    Adds-update k _ (lookup k t.projections) t.projections _ rest (λ s. refl)
      (apply_deletes-Adds rest _)

-- The keys that the checks have seen are those of the writes.
check_creates-new_keys :
    (ps qs : States) (xs : List Projection) (seen all : List Key)
    → check_creates ps xs seen ≡ ok all
    → new_keys qs all ≡ new_keys qs (keys xs) + new_keys qs seen
unfolding check_creates new_keys
check_creates-new_keys ps qs [] seen all h = ground (arith, h)
check_creates-new_keys ps qs (p ∷ rest) seen all h = ground (
  arith,
  h,
  Bool-cases (contains seen p.key),
  check_creates-new_keys ps qs rest (p.key ∷ seen) all,
)

check_replaces-new_keys :
    (ps qs : States) (xs : List Projection) (seen all : List Key)
    → check_replaces ps xs seen ≡ ok all
    → new_keys qs all ≡ new_keys qs (keys xs) + new_keys qs seen
unfolding check_replaces new_keys
check_replaces-new_keys ps qs [] seen all h = ground (arith, h)
check_replaces-new_keys ps qs (p ∷ rest) seen all h = ground (
  arith,
  h,
  Bool-cases (contains seen p.key),
  check_replaces-new_keys ps qs rest (p.key ∷ seen) all,
)

check_deletes-new_keys :
    (ps qs : States) (xs : List Key) (seen all : List Key)
    → check_deletes ps xs seen ≡ ok all
    → new_keys qs all ≡ new_keys qs xs + new_keys qs seen
unfolding check_deletes new_keys
check_deletes-new_keys ps qs [] seen all h = ground (arith, h)
check_deletes-new_keys ps qs (k ∷ rest) seen all h =
    ground
      (arith, h, Bool-cases (contains seen k), check_deletes-new_keys ps qs rest (k ∷ seen) all)

pub and_then-ok :
    {E A B : Type 0} (m : Result E A) (f : A → Result E B) (b : B)
    → and_then m f ≡ ok b
    → (a : A) × (m ≡ ok a) × (f a ≡ ok b)
and_then-ok (ok a) f b h = (a, refl, h)
and_then-ok (err e) f b h = absurd (ground (arith, h))

check_writes-new_keys :
    (ps qs : States) (w : Writes) (all : List Key)
    → check_writes ps w ≡ ok all
    → new_keys qs all
      ≡ new_keys qs (keys w.creates) + new_keys qs (keys w.replaces) + new_keys qs w.deletes
unfolding check_writes
check_writes-new_keys ps qs w all h =
    let (a, e1, h1) = and_then-ok (check_creates ps w.creates []) _ all h in
    let (b, e2, h2) = and_then-ok (check_replaces ps w.replaces a) _ all h1 in
    unfold new_keys in
    omega (
      arith,
      check_creates-new_keys ps qs w.creates [] a e1,
      check_replaces-new_keys ps qs w.replaces a b e2,
      check_deletes-new_keys ps qs w.deletes b all h2,
    )

-- A write of projections that its checks let through adds no more than it counts.
pub apply_writes-new_keys :
    (w : Writes) (n : ℕ) (t : Transaction) (seen : List Key)
    → check_writes t.projections w ≡ ok seen
    → written_count (apply_writes w n t).projections
      ≤ written_count t.projections + new_keys t.projections seen
unfolding apply_writes Grows
apply_writes-new_keys w n t seen h =
    let t0 = record t { written = n } in
    let t1 = apply_creates w.creates t0 in
    let t2 = apply_replaces w.replaces t1 in
    let a = apply_creates-Adds w.creates t0 in
    let b = apply_replaces-Adds w.replaces t1 in
    let c = apply_deletes-Adds w.deletes t2 in
    omega (
      arith,
      a.counted,
      b.counted,
      c.counted,
      new_keys-Grows t.projections t1.projections (keys w.replaces) a.grows,
      new_keys-Grows t.projections t2.projections w.deletes (λ k x. b.grows k (a.grows k x)),
      check_writes-new_keys t.projections t.projections w seen h,
    )
