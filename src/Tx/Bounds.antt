-- ===== src/Tx/Bounds.antt =====
-- The limits of the configuration, kept by each call on a transaction.
use tamarackdb.Prelude.{
  ℕ, suc, ◌+◌, ◌/◌, ◌≤◌, ◌≡◌, refl, ◌∙◌, ap, subst, Bool, true, false, List, [], ◌∷◌, Option, none,
  some, arith, ltb, eqb, length, length-append, if◌then◌else◌,
}
use tamarackdb.Prelude.Eq.{Bytes}
use tamarackdb.Prelude.Assoc.{lookup}
use tamarackdb.Prelude.Exec.{Result, ok, err, ◌>>=◌, continue}
use tamarackdb.Dcb.Event.{EventData, PendingEvent, new_pending_events}
use tamarackdb.Projection.{Key, projection_key_eq}
use tamarackdb.Store.Projections.{get_projection}
use tamarackdb.Store.Read.{Decision, DecisionFilter}
use tamarackdb.Tx.State.{
  OpenCondition, ProjectionState, DesignRule, Transaction, World, TxError, too_large, read_limit,
  TxEnv, Action,
}
use tamarackdb.Tx.Calls.{new_transaction}
use tamarackdb.Tx.Reads.{
  Read, stored, finish_read, record_read, ordered, read_count, read_committed, is_open, read_call,
  write_open, write_call, dcb_now,
}
use tamarackdb.Tx.Written.{
  written_count, written_count-unwritten, count_written-new_keys, apply_writes-new_keys,
}
use tamarackdb.Tx.Writes.{
  first_read, Projection, Writes, apply_creates, apply_replaces, apply_deletes, apply_writes,
  count_written, get_known, get_call, write_checked, projections_call, check_writes, writes_len,
}

-- The open condition takes the place of one more condition.
abbrev pub conditions_due : Transaction → ℕ
conditions_due t = length t.conditions + open_one t.open_condition
  where
    open_one : Option OpenCondition → ℕ
    open_one none = 0
    open_one (some c) = 1

-- The transaction is within the limits: its events, the reads it commits with, the projections it wrote,
-- and those that it counts as written.
abbrev pub Within : TxEnv → Transaction → Type 0
Within te t =
    (length t.events ≤ te.cfg.max_events_per_tx)
    × (conditions_due t ≤ te.cfg.max_reads_per_tx)
    × (written_count t.projections ≤ t.written)
    × (t.written ≤ te.cfg.max_projections_per_tx)

-- What a call leaves of a transaction within the limits.
abbrev pub Kept : {A : Type 0} → TxEnv → Result TxError (A × Transaction) → Type 0
Kept te (ok (a, t)) = Within te t
Kept te (err e) = Unit {0}

new_transaction-Within : (te : TxEnv) (id : Bytes) (now : ℕ) → Within te (new_transaction te id now)
unfolding written_count
new_transaction-Within te id now = (omega arith, omega arith, omega arith, omega arith)

apply_creates-same :
    (ps : List Projection) (t : Transaction)
    → let u = apply_creates ps t in
      (u.events ≡ t.events)
      × (u.conditions ≡ t.conditions)
      × (u.open_condition ≡ t.open_condition)
      × (u.written ≡ t.written)
unfolding apply_creates
apply_creates-same [] t = (refl, refl, refl, refl)
apply_creates-same (p ∷ rest) t = apply_creates-same rest _

apply_replaces-same :
    (ps : List Projection) (t : Transaction)
    → let u = apply_replaces ps t in
      (u.events ≡ t.events)
      × (u.conditions ≡ t.conditions)
      × (u.open_condition ≡ t.open_condition)
      × (u.written ≡ t.written)
unfolding apply_replaces
apply_replaces-same [] t = (refl, refl, refl, refl)
apply_replaces-same (p ∷ rest) t = apply_replaces-same rest _

apply_deletes-same :
    (ks : List Key) (t : Transaction)
    → let u = apply_deletes ks t in
      (u.events ≡ t.events)
      × (u.conditions ≡ t.conditions)
      × (u.open_condition ≡ t.open_condition)
      × (u.written ≡ t.written)
unfolding apply_deletes
apply_deletes-same [] t = (refl, refl, refl, refl)
apply_deletes-same (k ∷ rest) t = apply_deletes-same rest _

apply_writes-same :
    (w : Writes) (n : ℕ) (t : Transaction)
    → let u = apply_writes w n t in
      (u.events ≡ t.events)
      × (u.conditions ≡ t.conditions)
      × (u.open_condition ≡ t.open_condition)
      × (u.written ≡ n)
unfolding apply_writes
apply_writes-same w n t =
    let t0 = record t { written = n } in
    let t1 = apply_creates w.creates t0 in
    let t2 = apply_replaces w.replaces t1 in
    let a = apply_creates-same w.creates t0 in
    let b = apply_replaces-same w.replaces t1 in
    let c = apply_deletes-same w.deletes t2 in
    (c.0 ∙ b.0 ∙ a.0, c.1 ∙ b.1 ∙ a.1, c.2 ∙ b.2 ∙ a.2, c.3 ∙ b.3 ∙ a.3)

length-new_pending_events :
    (events : List EventData) (now : ℕ) → length (new_pending_events events now) ≡ length events
unfolding new_pending_events
length-new_pending_events [] now = refl
length-new_pending_events (e ∷ rest) now = ap suc (length-new_pending_events rest now)

-- The rules for the code of a call.
module _ {A : Type 0} (te : TxEnv) where
  abbrev Keeps : Action (A × Transaction) → Type 0
  Keeps m = (w : World) → Kept te (m w).0

  Keeps-if :
      (b : Bool) (m n : Action (A × Transaction))
      → (b ≡ true → Keeps m)
      → (b ≡ false → Keeps n)
      → Keeps (if b then m else n)
  Keeps-if true m n f g = f refl
  Keeps-if false m n f g = g refl

  Keeps-bind :
      {B : Type 0} (m : Action B) (k : B → Action (A × Transaction))
      → ((b : B) → Keeps (k b))
      → Keeps (m >>= k)
  Keeps-bind {B} m k h w = continued (m w)
    where
      continued : (r : Result TxError B × World) → Kept te (continue r.0 k r.1).0
      continued (ok b, v) = h b v
      continued (err e, v) = tt

  Kept-if :
      (b : Bool) (x y : Result TxError (A × Transaction) × World)
      → Kept te x.0
      → Kept te y.0
      → Kept te (if b then x else y).0
  Kept-if true x y f g = f
  Kept-if false x y f g = g

module _ (te : TxEnv) (t : Transaction) (h : Within te t) where
  finish_read-Keeps :
      (f : DecisionFilter) (pending : List PendingEvent) (d : Decision)
      → length t.conditions + 1 ≤ te.cfg.max_reads_per_tx
      → Keeps te (finish_read te f t pending d)
  unfolding finish_read
  finish_read-Keeps f pending d room w =
      let n = read_count f.limit (length d.events + length pending) in
      Kept-if te (ltb te.cfg.max_events_per_tx_read n) (err (too_large read_limit n), w)
        (
          ok (
            record {
              committed = d.events;
              pending = ordered te f.backwards pending;
              count = n;
              near_limit = ltb (te.cfg.max_events_per_tx_read / 2) n;
            },
            record t { open_condition = some (record { query = f.query; position = d.position }) },
          ),
          record_read te n w,
        )
        tt (h.0, room, h.2, h.3)

  read_call-Keeps : (f : DecisionFilter) → Keeps te (read_call te f t)
  unfolding read_call
  read_call-Keeps f =
      Keeps-if te (is_open te t.open_condition) _ _ (λ e w. tt)
        λ closed.
          Keeps-if te (ltb te.cfg.max_reads_per_tx (length t.conditions + 1)) _ _ (λ e w. tt)
            λ room.
              Keeps-bind te (read_committed te f) _
                λ d. finish_read-Keeps f _ d (ground (arith, room))

  write_open-Keeps :
      (events : List EventData) (o : Option OpenCondition)
      → t.open_condition ≡ o
      → Keeps te (write_open te events t o)
  write_open-Keeps events none e = λ w. tt
  write_open-Keeps events (some c) e =
      Keeps-if te (ltb te.cfg.max_events_per_tx (length t.events + length events)) _ _ (λ e w. tt)
        λ room. Keeps-bind te (dcb_now te) _ λ now w. (
          ground (
            arith,
            room,
            length-append t.events (new_pending_events events now),
            length-new_pending_events events now,
          ),
          ground (
            arith,
            h.1,
            e,
            length-append t.conditions
                (record { fail_if_events_match = c.query; after_sequence = c.position } ∷ []),
          ),
          h.2,
          h.3,
        )

  write_call-Keeps : (events : List EventData) → Keeps te (write_call te events t)
  unfolding write_call
  write_call-Keeps events = write_open-Keeps events t.open_condition refl

  get_known-Keeps : (k : Key) (o : Option ProjectionState) → Keeps te (get_known te k t o)
  get_known-Keeps k none =
      Keeps-bind te (λ w. stored (get_projection te.turns.env k w.server.store) w) _
        λ read w. (
          h.0,
          h.1,
          omega (arith, h.2, written_count-unwritten k (first_read read) t.projections refl),
          h.3,
        )
  get_known-Keeps k (some p) = λ w. h

  get_call-Keeps : (k : Key) → Keeps te (get_call te k t)
  unfolding get_call
  get_call-Keeps k = get_known-Keeps k (lookup k t.projections)

  write_checked-Keeps :
      (p : Writes) (r : Result DesignRule (List Key))
      → check_writes t.projections p ≡ r
      → Keeps te (write_checked te p t r)
  write_checked-Keeps p (err rule) checked = λ w. tt
  write_checked-Keeps p (ok seen) checked =
      let n = count_written t.projections t.written seen in
      Keeps-if te (ltb te.cfg.max_projections_per_tx n) _ _ (λ e w. tt)
        λ room. Keeps-bind te (dcb_now te) _ λ now w. Within-apply_writes n (ground (arith, room)) (
          omega (
            arith,
            h.2,
            apply_writes-new_keys p n t seen checked,
            count_written-new_keys t.projections t.written seen,
          ))
    where
      Within-apply_writes :
          (n : ℕ)
          → n ≤ te.cfg.max_projections_per_tx
          → written_count (apply_writes p n t).projections ≤ n
          → Within te (apply_writes p n t)
      Within-apply_writes n room counted =
          let same = apply_writes-same p n t in
          (
            ground (arith, h.0, same.0),
            ground (arith, h.1, same.1, same.2),
            ground (arith, counted, same.3),
            ground (arith, room, same.3),
          )

  projections_call-Keeps : (p : Writes) → Keeps te (projections_call te p t)
  unfolding projections_call
  projections_call-Keeps p =
      Keeps-if {A = ℕ} te (is_open te t.open_condition) _ _ (λ e w. tt)
        λ closed.
          Keeps-if {A = ℕ} te (eqb (writes_len p) 0) _ _ (λ e w. tt)
            λ some_writes. write_checked-Keeps p (check_writes t.projections p) refl

Kept-ok :
    {A : Type 0} (te : TxEnv) (r : Result TxError (A × Transaction)) (a : A) (t : Transaction)
    → r ≡ ok (a, t)
    → Kept te r
    → Within te t
Kept-ok te r a t e h = subst (Kept te) e h

-- The transactions that calls make: begun, taken and put back, and what each call that succeeds leaves.
pub data Made (te : TxEnv) : Transaction → Type 0 where
  begun : (id : Bytes) (now : ℕ) → Made te (new_transaction te id now)
  passed :
      {t : Transaction} (busy : Bool) (last_used : ℕ)
      → Made te t
      → Made te (record t { busy = busy; last_used = last_used })
  reads :
      {t : Transaction} (f : DecisionFilter) (w : World) (r : Read) (u : Transaction)
      → Made te t
      → (read_call te f t w).0 ≡ ok (r, u)
      → Made te u
  writes :
      {t : Transaction} (events : List EventData) (w : World) (time : ℕ) (u : Transaction)
      → Made te t
      → (write_call te events t w).0 ≡ ok (time, u)
      → Made te u
  gets :
      {t : Transaction} (k : Key) (w : World) (p : Bytes × Bool) (u : Transaction)
      → Made te t
      → (get_call te k t w).0 ≡ ok (p, u)
      → Made te u
  projects :
      {t : Transaction} (p : Writes) (w : World) (time : ℕ) (u : Transaction)
      → Made te t
      → (projections_call te p t w).0 ≡ ok (time, u)
      → Made te u

-- Every transaction that calls make, in any order and in whatever state of the server, keeps the limits
-- of the configuration: the events it buffers, the reads its commit will check, the open one included,
-- and the number of projections it counts as written, which is no less than the number of those that
-- it marks as written.
pub Made-Within : {te : TxEnv} {t : Transaction} → Made te t → Within te t
Made-Within {te} (begun id now) = new_transaction-Within te id now
Made-Within (passed busy last_used m) = Made-Within m
Made-Within {te} (reads {t} f w r u m e) =
    Kept-ok te _ r u e (read_call-Keeps te t (Made-Within m) f w)
Made-Within {te} (writes {t} es w time u m e) =
    Kept-ok te _ time u e (write_call-Keeps te t (Made-Within m) es w)
Made-Within {te} (gets {t} k w p u m e) =
    Kept-ok te _ p u e (get_call-Keeps te t (Made-Within m) k w)
Made-Within {te} (projects {t} p w time u m e) =
    Kept-ok te _ time u e (projections_call-Keeps te t (Made-Within m) p w)
