-- ===== src/Tx/Net.antt =====
-- The net writes of a transaction, and the keys that name them in a conflict.
use mathlib.Core.List.{map-append}
use tamarackdb.Prelude.{
  false, ℕ, zero, suc, ◌≡◌, ◌⊎◌, refl, ◌∙◌, ap, Bool, true, false, List, [], ◌∷◌, map, Option, none,
  some, arith, eqb, length, length-append, get_elem?, inl, inr,
}
use tamarackdb.Prelude.Assoc.{Assoc, lookup}
use tamarackdb.Projection.{Key, projection_key_eq, Create, Replace, Delete, Writes, writes_len}
use tamarackdb.Store.Tables.{ProjectionOp, create_op, replace_op, delete_op, projection_conflict}
use tamarackdb.Writer.{Server, Joined, failed, write_pending}
use tamarackdb.Tx.State.{
  ProjectionState, Transaction, World, TxEnv, TxError, conflict, already_exists, created_since_read,
  version_moved,
}
use tamarackdb.Prelude.Exec.{err}
use tamarackdb.Tx.Commit.{
  commit_writes, commit_call, Net, no_net, net_step, net_from, net_projections, create_conflict,
  moved, conflict_error,
}

-- The keys list the projections of the writes, in their order.
pub record Named (n : Net) : Type 0 where
  pub creates : n.keys.creates ≡ map (λ c. c.key) n.writes.creates
  pub replaces : n.keys.replaces ≡ map (λ c. c.key) n.writes.replaces
  pub deletes : n.keys.deletes ≡ map (λ c. c.key) n.writes.deletes
  pub unread : length n.keys.unread ≡ length n.keys.creates

net_step-Named : (k : Key) (o : Option ProjectionState) (n : Net) → Named n → Named (net_step k o n)
unfolding net_step
net_step-Named k none n h = h
net_step-Named k (some s) n h = ground (
  arith,
  h,
  map-append (λ (c : Create). c.key) n.writes.creates
      (record { key = k; payload = some s.payload } ∷ []),
  map-append (λ (c : Replace). c.key) n.writes.replaces
      (record { key = k; version = s.read_version; payload = some s.payload } ∷ []),
  map-append (λ (c : Delete). c.key) n.writes.deletes
      (record { key = k; version = s.read_version } ∷ []),
  length-append n.keys.unread (s.unread ∷ []),
  length-append n.keys.creates (k ∷ []),
)

net_from-Named :
    (ps : Assoc Key ProjectionState) (ks : List Key) (n : Net) → Named n → Named (net_from ps ks n)
unfolding net_from
net_from-Named ps [] n h = h
net_from-Named ps (k ∷ rest) n h =
    net_from-Named ps rest (net_step k (lookup k ps) n) (net_step-Named k (lookup k ps) n h)

no_net-Named : Named no_net
no_net-Named = record { creates = refl; replaces = refl; deletes = refl; unread = refl }

-- The keys a commit keeps beside its net writes are the projections of these writes: list by list,
-- in their order, with a flag for each create.
net_projections-Named : (t : Transaction) → Named (net_projections t)
unfolding net_projections
net_projections-Named t = net_from-Named t.projections t.touched no_net no_net-Named

abbrev pub map_option : {A B : Type 0} → (A → B) → Option A → Option B
map_option f none = none
map_option f (some x) = some (f x)

get_elem?-map :
    {A B : Type 0} (f : A → B) (xs : List A) (i : ℕ)
    → get_elem? (map f xs) i ≡ map_option f (get_elem? xs i)
get_elem?-map f [] i = refl
get_elem?-map f (y ∷ xs) zero = refl
get_elem?-map f (y ∷ xs) (suc i) = get_elem?-map f xs i

-- Two lists of one length have an element at the same places.
paired :
    {A B : Type 0} (xs : List A) (ys : List B) (i : ℕ)
    → length ys ≡ length xs
    → ((get_elem? xs i ≡ none) × (get_elem? ys i ≡ none))
      ⊎ ((x : A) × (y : B) × (get_elem? xs i ≡ some x) × (get_elem? ys i ≡ some y))
paired [] [] i e = inl (refl, refl)
paired [] (y ∷ ys) i e = absurd (omega arith)
paired (x ∷ xs) [] i e = absurd (omega arith)
paired (x ∷ xs) (y ∷ ys) zero e = inr (x, y, refl, refl)
paired (x ∷ xs) (y ∷ ys) (suc i) e = paired xs ys i (omega arith)

-- The projection that an error names, and the one whose write was refused.
abbrev pub conflict_key : TxError → Option Key
conflict_key (conflict (already_exists k)) = some k
conflict_key (conflict (created_since_read k)) = some k
conflict_key (conflict (version_moved k)) = some k
conflict_key _ = none

abbrev pub refused_key : Writes → ProjectionOp → ℕ → Option Key
refused_key w create_op i = map_option (λ c. c.key) (get_elem? w.creates i)
refused_key w replace_op i = map_option (λ c. c.key) (get_elem? w.replaces i)
refused_key w delete_op i = map_option (λ c. c.key) (get_elem? w.deletes i)

create_conflict-key :
    (k : Key) (b : Bool) → conflict_key (create_conflict (some k) (some b)) ≡ some k
create_conflict-key k true = refl
create_conflict-key k false = refl

conflict_key-create :
    (ks : List Key) (unread : List Bool) (i : ℕ)
    → length unread ≡ length ks
    → conflict_key (create_conflict (get_elem? ks i) (get_elem? unread i)) ≡ get_elem? ks i
conflict_key-create ks unread i e = elim (paired ks unread i e) [
  | inl (no_key, no_flag) ↦ ground (arith, no_key, no_flag)
  | inr (k, b, a, c) ↦ ground (arith, a, c, create_conflict-key k b)
]

conflict_key-moved : (o : Option Key) → conflict_key (moved o) ≡ o
conflict_key-moved none = refl
conflict_key-moved (some k) = refl

conflict_error-Named :
    (n : Net) (op : ProjectionOp) (i : ℕ)
    → Named n
    → conflict_key (conflict_error n.keys op i) ≡ refused_key n.writes op i
unfolding conflict_error
conflict_error-Named n create_op i h =
    conflict_key-create n.keys.creates n.keys.unread i h.unread
    ∙ ap (λ ks. get_elem? ks i) h.creates
    ∙ get_elem?-map (λ (c : Create). c.key) n.writes.creates i
conflict_error-Named n replace_op i h =
    conflict_key-moved (get_elem? n.keys.replaces i)
    ∙ ap (λ ks. get_elem? ks i) h.replaces
    ∙ get_elem?-map (λ (c : Replace). c.key) n.writes.replaces i
conflict_error-Named n delete_op i h =
    conflict_key-moved (get_elem? n.keys.deletes i)
    ∙ ap (λ ks. get_elem? ks i) h.deletes
    ∙ get_elem?-map (λ (c : Delete). c.key) n.writes.deletes i

conflict_error-names :
    (t : Transaction) (op : ProjectionOp) (i : ℕ)
    → conflict_key (conflict_error (net_projections t).keys op i)
      ≡ refused_key (net_projections t).writes op i
conflict_error-names t op i =
    conflict_error-Named (net_projections t) op i (net_projections-Named t)

map_option-some :
    {A : Type 0} (f : A → Key) (xs : List A) (i : ℕ) (k : Key)
    → map_option f (get_elem? xs i) ≡ some k
    → eqb (length xs) 0 ≡ false
map_option-some f [] i k h = absurd (ground (arith, h))
map_option-some f (x ∷ xs) i k h = ground arith

writes_len-refused :
    (w : Writes) (op : ProjectionOp) (i : ℕ) (k : Key)
    → refused_key w op i ≡ some k
    → eqb (writes_len w) 0 ≡ false
writes_len-refused w create_op i k h =
    ground (arith, map_option-some (λ (c : Create). c.key) w.creates i k h)
writes_len-refused w replace_op i k h =
    ground (arith, map_option-some (λ (c : Replace). c.key) w.replaces i k h)
writes_len-refused w delete_op i k h =
    ground (arith, map_option-some (λ (c : Delete). c.key) w.deletes i k h)

commit_writes-refused :
    (te : TxEnv) (joined : Joined) (t : Transaction) (w : World) (op : ProjectionOp) (i : ℕ)
    (k : Key) (s : Server)
    → refused_key (net_projections t).writes op i ≡ some k
    → write_pending te.turns joined t.events t.conditions (net_projections t).writes w.server
      ≡ (err (failed (projection_conflict op i)), s)
    → commit_writes te joined t w
      ≡ (err (conflict_error (net_projections t).keys op i), record w { server = s })
unfolding commit_writes
commit_writes-refused te joined t w op i k s refused result =
    ground (arith, writes_len-refused (net_projections t).writes op i k refused, result)

-- A commit with no read left open whose write the store refuses, because the projection of its write
-- `i` of one kind is not as the transaction read it, fails with a conflict that names exactly this
-- projection.
pub commit_call-names :
    (te : TxEnv) (joined : Joined) (t : Transaction) (w : World) (op : ProjectionOp) (i : ℕ)
    (k : Key) (s : Server)
    → t.open_condition ≡ none
    → refused_key (net_projections t).writes op i ≡ some k
    → write_pending te.turns joined t.events t.conditions (net_projections t).writes w.server
      ≡ (err (failed (projection_conflict op i)), s)
    → (e : TxError) × ((commit_call te joined t w).0 ≡ err e) × (conflict_key e ≡ some k)
unfolding commit_call
commit_call-names te joined t w op i k s closed refused result = (
  conflict_error (net_projections t).keys op i,
  ground (arith, closed, commit_writes-refused te joined t w op i k s refused result),
  conflict_error-names t op i ∙ refused,
)
