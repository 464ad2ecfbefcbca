-- ===== src/Tx/Commit.antt =====
-- internal/tx/projections.go and tx.go: the net writes of a transaction, and its commit.
use tamarackdb.Prelude.{
  ℕ, Bool, true, false, ◌&&◌, not, List, [], ◌∷◌, ◌++◌, Option, none, some, eqb, length, get_elem?,
  if◌then◌else◌,
}
use tamarackdb.Prelude.Eq.{Bytes}
use tamarackdb.Prelude.Assoc.{Assoc, lookup}
use tamarackdb.Prelude.Exec.{Result, ok, err}
use tamarackdb.Projection.{Key, projection_key_eq, Writes, writes_len}
use tamarackdb.Store.Tables.{ProjectionOp, create_op, replace_op, delete_op, projection_conflict}
use tamarackdb.Store.Append.{AppendResult}
use tamarackdb.Writer.{Server, Joined, WriterError, failed, write_pending, count}
use tamarackdb.Tx.State.{
  ProjectionState, Transaction, World, commit_while_open, already_exists, created_since_read,
  version_moved, TxError, design, conflict, writer_error, index_out_of_range, TxEnv, Action, Call,
}
use tamarackdb.Tx.Calls.{lock, end, do_call}
use tamarackdb.Tx.Reads.{is_open}

-- The projection of each store operation, to name it in a conflict.
pub record OpKeys : Type 0 where
  pub creates : List Key
  pub replaces : List Key
  pub deletes : List Key
  pub unread : List Bool

pub record Net : Type 0 where
  pub writes : Writes
  pub keys : OpKeys

abbrev pub no_net : Net
no_net = record {
  writes = record { creates = []; replaces = []; deletes = [] };
  keys = record { creates = []; replaces = []; deletes = []; unread = [] };
}

abbrev pub net_create : Key → ProjectionState → Net → Net
net_create k s n = record {
  writes = record n.writes {
    creates = n.writes.creates ++ record { key = k; payload = some s.payload } ∷ [];
  };
  keys = record n.keys {
    creates = n.keys.creates ++ k ∷ [];
    unread = n.keys.unread ++ s.unread ∷ [];
  };
}

abbrev pub net_replace : Key → ProjectionState → Net → Net
net_replace k s n = record {
  writes = record n.writes {
    replaces =
        n.writes.replaces
        ++ record { key = k; version = s.read_version; payload = some s.payload } ∷ [];
  };
  keys = record n.keys { replaces = n.keys.replaces ++ k ∷ [] };
}

abbrev pub net_delete : Key → ProjectionState → Net → Net
net_delete k s n = record {
  writes = record n.writes {
    deletes = n.writes.deletes ++ record { key = k; version = s.read_version } ∷ [];
  };
  keys = record n.keys { deletes = n.keys.deletes ++ k ∷ [] };
}

-- One round of the loop. Every touched key has a state.
unfoldable pub net_step : Key → Option ProjectionState → Net → Net
net_step k none n = n
net_step k (some s) n =
    if not s.written
    then n
    else if not s.read_found && s.found
    then net_create k s n
    else if s.read_found && s.found
    then net_replace k s n
    else if s.read_found && not s.found
    then net_delete k s n
    else n

unfoldable pub net_from : Assoc Key ProjectionState → List Key → Net → Net
unfolding net_step lookup
net_from ps [] n = n
net_from ps (k ∷ rest) n = net_from ps rest (net_step k (lookup k ps) n)

unfoldable pub net_projections : Transaction → Net
unfolding net_from
net_projections t = net_from t.projections t.touched no_net

abbrev pub create_conflict : Option Key → Option Bool → TxError
create_conflict (some k) (some true) = conflict (already_exists k)
create_conflict (some k) (some false) = conflict (created_since_read k)
create_conflict _ _ = index_out_of_range

abbrev pub moved : Option Key → TxError
moved none = index_out_of_range
moved (some k) = conflict (version_moved k)

-- An index out of range would panic.
unfoldable pub conflict_error : OpKeys → ProjectionOp → ℕ → TxError
conflict_error keys create_op i =
    create_conflict (get_elem? keys.creates i) (get_elem? keys.unread i)
conflict_error keys replace_op i = moved (get_elem? keys.replaces i)
conflict_error keys delete_op i = moved (get_elem? keys.deletes i)

module _ (te : TxEnv) (joined : Joined) where
  unfoldable pub count_commit : World → World
  unfolding lock
  count_commit w =
      let w' = lock te w in
      record w' { stats = record w'.stats { committed = count w'.stats.committed } }

  -- The error of a commit whose write was refused.
  abbrev pub commit_error : OpKeys → WriterError → TxError
  commit_error keys (failed (projection_conflict op i)) = conflict_error keys op i
  commit_error keys e = writer_error e

  abbrev pub written :
      OpKeys → Result WriterError AppendResult → World → Result TxError Unit × World
  written keys (ok r) w = (ok tt, count_commit w)
  written keys (err e) w = (err (commit_error keys e), w)

  abbrev pub put_server :
      OpKeys → World → Result WriterError AppendResult × Server → Result TxError Unit × World
  put_server keys w (r, s) = written keys r (record w { server = s })

  unfoldable pub commit_writes : Transaction → Action Unit
  unfolding net_projections write_pending conflict_error count_commit
  commit_writes t w =
      let net = net_projections t in
      if eqb (length t.events) 0 && eqb (writes_len net.writes) 0
      then (ok tt, count_commit w)
      else put_server net.keys w
          (write_pending te.turns joined t.events t.conditions net.writes w.server)

  abbrev pub ended :
      Transaction → Result TxError Unit × World → Result TxError (Unit {0} × Transaction) × World
  ended t (ok u, w) = (ok (u, t), end te t w)
  ended t (err e, w) = (err e, end te t w)

  unfoldable pub commit_call : Call Unit
  unfolding commit_writes end
  commit_call t w =
      if is_open te t.open_condition
      then (err (design commit_while_open), w)
      else ended t (commit_writes t w)

  unfoldable pub commit : Bytes → Action Unit
  unfolding commit_call do_call
  commit id = do_call te id commit_call
