-- ===== src/Store/Tables.antt =====
-- The tables of internal/store/schema.go, the state of the store, and a call of the SQLite driver.
-- A call may fail: `fault n` is the result code with which the n-th call fails, if it does. A
-- statement that meets a constraint fails with the code of the constraint.
use tamarackdb.Prelude.{ℕ, ◌+◌, ◌-◌, List, Option, none, some}
use tamarackdb.Prelude.Eq.{Bytes}
use tamarackdb.Prelude.Assoc.{Assoc}
use tamarackdb.Prelude.Exec.{Result, ok, err, Exec}
use tamarackdb.Dcb.Compact.{Compact}
use tamarackdb.Projection.{Key}

pub record EventRow : Type 0 where
  pub sequence : ℕ
  pub time : ℕ
  pub typ : Bytes
  pub payload : Bytes
  pub identifiers : Compact
  pub metadata : Compact

-- A row of the tables `identifiers` and `metadata`.
pub record TagRow : Type 0 where
  pub event_sequence : ℕ
  pub name : Bytes
  pub value : Bytes

pub record ProjectionRow : Type 0 where
  pub version : Bytes
  pub payload : Bytes

-- `paused` is the column of the one row of `store`.
pub record Tables : Type 0 where
  pub events : List EventRow
  pub identifiers : List TagRow
  pub metadata : List TagRow
  pub projections : Assoc Key ProjectionRow
  pub paused : Option ℕ

-- What the store takes from the driver and from the generator of UUIDs.
pub record Env : Type 0 where
  pub fault : ℕ → Option ℕ
  pub uuid : ℕ → Bytes

pub data ProjectionOp : Type 0 where
  create_op replace_op delete_op : ProjectionOp

pub data StoreError : Type 0 where
  no_time : ℕ → StoreError
  bad_limit : StoreError
  condition_conflict : ℕ → StoreError
  projection_conflict : ProjectionOp → ℕ → StoreError
  sqlite : ℕ → StoreError
  nil_dereference : StoreError

-- `calls` counts the calls of the driver, `uuids` the UUIDs drawn. `paused_at` is 0 outside a pause.
pub record Store : Type 0 where
  pub tables : Tables
  pub next_seq : ℕ
  pub paused_at : ℕ
  pub calls : ℕ
  pub uuids : ℕ

abbrev pub Action : Type 0 → Type 0
Action A = Exec StoreError Store A

-- SQLITE_CONSTRAINT_PRIMARYKEY and SQLITE_CONSTRAINT_FOREIGNKEY.
abbrev pub constraint_primary_key : ℕ
constraint_primary_key = 1555

abbrev pub constraint_foreign_key : ℕ
constraint_foreign_key = 787

abbrev pub outcome : {A : Type 0} → Result ℕ (A × Tables) → Store → Result StoreError A × Store
outcome (ok (a, t)) s = (ok a, record s { tables = t })
outcome (err code) s = (err (sqlite code), s)

abbrev pub attempt :
    {A : Type 0} → Option ℕ → (Tables → Result ℕ (A × Tables)) → Store → Result StoreError A × Store
attempt (some code) run s = (err (sqlite code), s)
attempt none run s = outcome (run s.tables) s

-- One call of the driver that runs a statement.
unfoldable pub statement : {A : Type 0} → Env → (Tables → Result ℕ (A × Tables)) → Action A
statement env run s = attempt (env.fault s.calls) run (record s { calls = s.calls + 1 })

-- A call that changes no table: a begin, a prepare, a commit.
unfoldable pub driver_call : Env → Action Unit
unfolding statement
driver_call env = statement env (λ t. ok (tt, t))

abbrev pub undo : {A : Type 0} → Tables → Result StoreError A → Store → Result StoreError A × Store
undo t (ok a) s = (ok a, s)
undo t (err e) s = (err e, record s { tables = t })

-- `defer tx.Rollback()`: what fails before the commit leaves the tables as they were.
unfoldable pub rolled_back : {A : Type 0} → Action A → Action A
rolled_back body s = let (r, s') = body s in undo s.tables r s'

-- `LastSequence`.
abbrev pub last_sequence : Store → ℕ
last_sequence s = s.next_seq - 1
