-- ===== src/Tx/Writes.antt =====
-- internal/tx/projections.go: projections in a transaction.
use tamarackdb.Prelude.{
  ℕ, ◌+◌, Bool, true, false, not, List, [], ◌∷◌, ◌++◌, Option, none, some, ltb, eqb, length,
  if◌then◌else◌,
}
use tamarackdb.Prelude.Eq.{Bytes, contains}
use tamarackdb.Prelude.Assoc.{Assoc, lookup, insert}
use tamarackdb.Prelude.Exec.{Result, ok, err, and_then, pure, raise, ◌>>=◌}
use tamarackdb.Projection.{Key, projection_key_eq}
use tamarackdb.Store.Projections.{ProjectionRead, get_projection}
use tamarackdb.Tx.State.{
  ProjectionState, Transaction, DesignRule, projections_while_open, no_projection, appears_twice,
  created_while_found, not_read_first, replaced_while_absent, design, too_large, projections_limit,
  TxEnv, Action, Call,
}
use tamarackdb.Tx.Calls.{do_call}
use tamarackdb.Tx.Reads.{stored, dcb_now, is_open}

pub record Projection : Type 0 where
  pub key : Key
  pub payload : Bytes

pub record Writes : Type 0 where
  pub creates : List Projection
  pub replaces : List Projection
  pub deletes : List Key

abbrev pub writes_len : Writes → ℕ
writes_len w = length w.creates + length w.replaces + length w.deletes

abbrev pub States : Type 0
States = Assoc Key ProjectionState

-- The state of a projection, as `GetProjection` first reads it.
abbrev pub first_read : ProjectionRead → ProjectionState
first_read read = record {
  read_found = read.found;
  read_version = read.version;
  unread = false;
  found = read.found;
  payload = read.payload;
  written = false;
}

abbrev pub shown : ProjectionState → Bytes × Bool
shown p = (p.payload, p.found)

-- Whether a projection is known and exists in the transaction.
abbrev pub known_found : Option ProjectionState → Bool
known_found none = false
known_found (some s) = s.found

abbrev pub is_known : Option ProjectionState → Bool
is_known none = false
is_known (some s) = true

abbrev pub known_written : Option ProjectionState → Bool
known_written none = false
known_written (some s) = s.written

-- `once`, before the rest of a loop.
abbrev pub once : List Key → Key → Result DesignRule (List Key) → Result DesignRule (List Key)
once seen k rest = if contains seen k then err (appears_twice k) else rest

-- The three loops of checks. They return the keys seen.
unfoldable pub check_creates : States → List Projection → List Key → Result DesignRule (List Key)
unfolding contains lookup
check_creates ps [] seen = ok seen
check_creates ps (p ∷ rest) seen =
    let next = check_creates ps rest (p.key ∷ seen) in
    once seen p.key
      (if known_found (lookup p.key ps) then err (created_while_found p.key) else next)

unfoldable pub check_replaces : States → List Projection → List Key → Result DesignRule (List Key)
unfolding contains lookup
check_replaces ps [] seen = ok seen
check_replaces ps (p ∷ rest) seen =
    let next = check_replaces ps rest (p.key ∷ seen) in
    once seen p.key (
      if not (is_known (lookup p.key ps))
      then err (not_read_first p.key)
      else if not (known_found (lookup p.key ps))
      then err (replaced_while_absent p.key)
      else next)

unfoldable pub check_deletes : States → List Key → List Key → Result DesignRule (List Key)
unfolding contains lookup
check_deletes ps [] seen = ok seen
check_deletes ps (k ∷ rest) seen =
    let next = check_deletes ps rest (k ∷ seen) in
    once seen k (if not (is_known (lookup k ps)) then err (not_read_first k) else next)

-- A projection written again counts once.
unfoldable pub count_written : States → ℕ → List Key → ℕ
unfolding lookup
count_written ps n [] = n
count_written ps n (k ∷ rest) =
    count_written ps (if known_written (lookup k ps) then n else n + 1) rest

abbrev pub created : Bytes → Option ProjectionState → ProjectionState
created payload none = record {
  read_found = false;
  read_version = [];
  unread = true;
  found = true;
  payload = payload;
  written = true;
}
created payload (some s) = record s { found = true; payload = payload; written = true }

-- The three loops of writes.
unfoldable pub apply_creates : List Projection → Transaction → Transaction
unfolding lookup insert
apply_creates [] t = t
apply_creates (p ∷ rest) t = apply_creates rest (record t {
  projections = insert p.key (created p.payload (lookup p.key t.projections)) t.projections;
  touched = if is_known (lookup p.key t.projections) then t.touched else t.touched ++ p.key ∷ [];
})

abbrev pub update :
    Key → (ProjectionState → ProjectionState) → Option ProjectionState → States → States
update k f none ps = ps
update k f (some s) ps = insert k (f s) ps

unfoldable pub apply_replaces : List Projection → Transaction → Transaction
unfolding lookup insert
apply_replaces [] t = t
apply_replaces (p ∷ rest) t = apply_replaces rest (record t {
  projections =
      update p.key (λ s. record s { payload = p.payload; written = true })
        (lookup p.key t.projections) t.projections;
})

unfoldable pub apply_deletes : List Key → Transaction → Transaction
unfolding lookup insert
apply_deletes [] t = t
apply_deletes (k ∷ rest) t = apply_deletes rest (record t {
  projections =
      update k (λ s. record s { found = false; payload = []; written = true })
        (lookup k t.projections) t.projections;
})

unfoldable pub check_writes : States → Writes → Result DesignRule (List Key)
unfolding check_creates check_replaces check_deletes
check_writes ps w =
    and_then (check_creates ps w.creates [])
      λ a. and_then (check_replaces ps w.replaces a) λ b. check_deletes ps w.deletes b

unfoldable pub apply_writes : Writes → ℕ → Transaction → Transaction
unfolding apply_creates apply_replaces apply_deletes
apply_writes w n t =
    apply_deletes w.deletes
      (apply_replaces w.replaces (apply_creates w.creates (record t { written = n })))

module _ (te : TxEnv) where
  abbrev pub get_known :
      Key → Transaction → Option ProjectionState → Action ((Bytes × Bool) × Transaction)
  get_known key t (some p) = pure (shown p, t)
  get_known key t none =
      (λ w. stored (get_projection te.turns.env key w.server.store) w) >>= λ read. pure (
        shown (first_read read),
        record t {
          projections = insert key (first_read read) t.projections;
          touched = t.touched ++ key ∷ [];
        },
      )

  unfoldable pub get_call : Key → Call (Bytes × Bool)
  unfolding get_projection lookup insert
  get_call key t = get_known key t (lookup key t.projections)

  unfoldable pub get_tx_projection : Bytes → Key → Action (Bytes × Bool)
  unfolding get_call do_call
  get_tx_projection id key = do_call te id (get_call key)

  abbrev pub write_checked :
      Writes → Transaction → Result DesignRule (List Key) → Action (ℕ × Transaction)
  write_checked w t (err rule) = raise (design rule)
  write_checked w t (ok seen) =
      let n = count_written t.projections t.written seen in
      if ltb te.cfg.max_projections_per_tx n
      then raise (too_large projections_limit n)
      else dcb_now te >>= λ now. pure (now, apply_writes w n t)

  unfoldable pub projections_call : Writes → Call ℕ
  unfolding check_writes count_written apply_writes dcb_now
  projections_call w t =
      if is_open te t.open_condition
      then raise (design projections_while_open)
      else if eqb (writes_len w) 0
      then raise (design no_projection)
      else write_checked w t (check_writes t.projections w)

  unfoldable pub write_tx_projections : Bytes → Writes → Action ℕ
  unfolding projections_call do_call
  write_tx_projections id w = do_call te id (projections_call w)
