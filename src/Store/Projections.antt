-- ===== src/Store/Projections.antt =====
-- internal/store/projection.go: reading and writing projections.
use tamarackdb.Prelude.{
  ℕ, ◌+◌, Bool, true, false, not, List, [], ◌∷◌, Option, none, some, eqb, select, if◌then◌else◌,
}
use tamarackdb.Prelude.Eq.{Bytes, bytes_beq}
use tamarackdb.Prelude.Assoc.{lookup, insert, erase}
use tamarackdb.Prelude.Exec.{ok, pure, raise, ◌>>=◌, ◌>>◌}
use tamarackdb.Projection.{Key, projection_key_eq, Create, Replace, Delete, Writes}
use tamarackdb.Store.Tables.{
  ProjectionRow, Tables, Env, Action, ProjectionOp, create_op, replace_op, delete_op,
  projection_conflict, nil_dereference, statement, driver_call,
}

pub record ProjectionRead : Type 0 where
  pub found : Bool
  pub version : Bytes
  pub payload : Bytes

abbrev pub projection_read : Option ProjectionRow → ProjectionRead
projection_read none = record { found = false; version = []; payload = [] }
projection_read (some row) = record { found = true; version = row.version; payload = row.payload }

-- The new version of each created and of each replaced projection.
pub record Versions : Type 0 where
  pub creates : List Bytes
  pub replaces : List Bytes

-- INSERT ... ON CONFLICT (type, id) DO NOTHING, with the number of rows written.
unfoldable pub create_row : Key → ProjectionRow → Tables → ℕ × Tables
create_row k row t = elim (lookup k t.projections) [
  | none ↦ (1, record t { projections = insert k row t.projections })
  | some old ↦ (0, t)
]

abbrev pub has_version : Bytes → Option ProjectionRow → Bool
has_version version none = false
has_version version (some row) = bytes_beq row.version version

-- UPDATE ... WHERE type = ? AND id = ? AND version = ?
unfoldable pub replace_row : Key → Bytes → ProjectionRow → Tables → ℕ × Tables
replace_row k version row t =
    if has_version version (lookup k t.projections)
    then (1, record t { projections = insert k row t.projections })
    else (0, t)

-- DELETE ... WHERE type = ? AND id = ? AND version = ?
unfoldable pub delete_row : Key → Bytes → Tables → ℕ × Tables
delete_row k version t =
    if has_version version (lookup k t.projections)
    then (1, record t { projections = erase k t.projections })
    else (0, t)

unfoldable pub check_written : ProjectionOp → ℕ → ℕ → Action Unit
check_written op index n = if eqb n 0 then raise (projection_conflict op index) else pure tt

-- A statement with its arguments, and the version it writes.
pub record Prepared : Type 0 where
  pub version : Bytes
  pub run : Tables → ℕ × Tables

module _ (env : Env) where
  unfoldable pub draw_uuid : Action Bytes
  draw_uuid s = (ok (env.uuid s.uuids), record s { uuids = s.uuids + 1 })

  abbrev pub dereference : Option Bytes → Action Bytes
  dereference none = raise nil_dereference
  dereference (some p) = pure p

  unfoldable pub create_args : Create → Action Prepared
  unfolding draw_uuid create_row
  create_args c = do
    version ← draw_uuid
    payload ← dereference c.payload
    pure (record {
      version = version;
      run = create_row c.key (record { version = version; payload = payload });
    })

  unfoldable pub replace_args : Replace → Action Prepared
  unfolding draw_uuid replace_row
  replace_args r = do
    version ← draw_uuid
    payload ← dereference r.payload
    pure (record {
      version = version;
      run = replace_row r.key r.version (record { version = version; payload = payload });
    })

  unfoldable pub delete_args : Delete → Action Prepared
  unfolding delete_row
  delete_args d = pure (record { version = []; run = delete_row d.key d.version })

  module _ {A : Type 0} (op : ProjectionOp) (args : A → Action Prepared) where
    -- The loop of `execEach`, from the index on.
    unfoldable pub exec_from : ℕ → List A → Action (List Bytes)
    unfolding statement check_written
    exec_from index [] = pure []
    exec_from index (a ∷ rest) = do
      prepared ← args a
      n ← statement env (λ t. ok (prepared.run t))
      check_written op index n
      versions ← exec_from (index + 1) rest
      pure (prepared.version ∷ versions)

    unfoldable pub exec_each : List A → Action (List Bytes)
    unfolding exec_from driver_call
    exec_each [] = pure []
    exec_each (a ∷ rest) = do driver_call env; exec_from 0 (a ∷ rest)

  unfoldable pub write_projections : Writes → Action Versions
  unfolding exec_each create_args replace_args delete_args
  write_projections w = do
    created ← exec_each create_op create_args w.creates
    replaced ← exec_each replace_op replace_args w.replaces
    exec_each delete_op delete_args w.deletes
    pure (record { creates = created; replaces = replaced })

  unfoldable pub get_projection : Key → Action ProjectionRead
  unfolding statement lookup
  get_projection k = statement env (λ t. ok (projection_read (lookup k t.projections), t))

  unfoldable pub delete_projections_by_type : Bytes → Action Unit
  unfolding statement select
  delete_projections_by_type typ = statement env (λ t.
      ok (tt, record t { projections = select (λ p. not (bytes_beq p.0.typ typ)) t.projections }))

  unfoldable pub delete_all_projections : Action Unit
  unfolding statement
  delete_all_projections = statement env (λ t. ok (tt, record t { projections = [] }))
