-- ===== src/Tx/Examples.antt =====
-- Concrete runs of the registry and the writer, and instances of their theorems.
use tamarackdb.Prelude.{
  ◌||◌, ◌*◌, ◌≡◌, refl, true, false, [], ◌∷◌, ◌++◌, Option, none, some, All, arith, subst,
}
use tamarackdb.Prelude.Eq.{bytes, bytes_eq, bytes_beq, contains}
use tamarackdb.Prelude.Assoc.{lookup}
use tamarackdb.Prelude.Exec.{Result, ok, err}
use tamarackdb.Dcb.Event.{Identifier, PendingEvent}
use tamarackdb.Dcb.Query.{Query, form_items, AppendCondition, validate}
use tamarackdb.Dcb.Compact.{marshal_identifiers, marshal_metadata}
use tamarackdb.Projection.{Key, projection_key_eq, Writes}
use tamarackdb.Store.Tables.{create_op, projection_conflict}
use tamarackdb.Store.Append.{AppendResult, append, number_events}
use tamarackdb.Store.Batch.{identifier_rows, metadata_rows}
use tamarackdb.Store.Log.{RowsOf-log}
use tamarackdb.Store.Holds.{Holds, ConditionHolds}
use tamarackdb.Writer.{Server, TurnEnv, WriterError, failed, turn, write_pending}
use tamarackdb.Writer.Turns.{write_pending-appends}
use tamarackdb.Tx.State.{
  Config, ProjectionState, Transaction, running, World, TxEnv, TxError, busy_error, design,
  commit_while_open,
}
use tamarackdb.Tx.Calls.{lock, new_transaction, acquire, do_call}
use tamarackdb.Tx.Reads.{read_call, read_committed, write_call}
use tamarackdb.Tx.Commit.{net_projections, commit_call, commit}
use tamarackdb.Tx.Net.{conflict_key, refused_key, commit_call-names}
use tamarackdb.Tx.Writes
use tamarackdb.Tx.Writes.{known_written, projections_call}
use tamarackdb.Tx.Marks.{keys_of, projections_call-marks}
use tamarackdb.Tx.Exclusion.{here, next, acquires, keeps, acquire_excludes}
use tamarackdb.Tx.Lives.{do_call-fails}
use tamarackdb.Tx.Bounds.{Within, begun, reads, writes, Made-Within}
use tamarackdb.Tx.Commits.{Committed, commit-appends}
use tamarackdb.Tx.Failures.{commit-fails}
use tamarackdb.Tx.Pause.{pause_locked}
use tamarackdb.Tx.Paused.{PausedEmpty, Steps, pauses, Steps-PausedEmpty}

abbrev cfg : Config
cfg = record {
  idle_timeout = 100;
  max_events_per_tx = 10;
  max_reads_per_tx = 5;
  max_projections_per_tx = 5;
  max_events_per_tx_read = 50;
  max_open_tx = 3;
}

abbrev turns : TurnEnv
turns = record {
  env = record { fault = λ n. none; uuid = λ n. n ∷ [] };
  wal_size = λ s. some 100000000;
  wal_busy = λ n. false;
}

abbrev te : TxEnv
te = record { cfg = cfg; now = λ n. n; wall = λ n. n * 1000; new_id = λ n. n ∷ []; turns = turns }

abbrev empty_server : Server
empty_server = record {
  writer = record {
    next_checkpoint = 0;
    closed = false;
    stats = record {
      committed = 0;
      condition_conflicts = 0;
      projection_conflicts = 0;
      write_queue_full = 0;
      checkpoints = 0;
      checkpoints_busy = 0;
    };
  };
  store = record {
    tables = record {
      events = [];
      identifiers = [];
      metadata = [];
      projections = [];
      paused = none;
    };
    next_seq = 1;
    paused_at = 0;
    calls = 0;
    uuids = 0;
  };
}

abbrev course : Identifier
course = record { name = bytes "c"; value = bytes "1" }

abbrev opened : PendingEvent
opened = record {
  time = 5;
  event_data = record {
    typ = bytes "Opened";
    identifiers = course ∷ [];
    metadata = [];
    payload = bytes "{}";
  };
}

abbrev of_course : Query
of_course = record {
  form = form_items;
  items = record { types = none; identifiers = some (course ∷ []); metadata = none } ∷ [];
}

abbrev at_start : AppendCondition
at_start = record { fail_if_events_match = of_course; after_sequence = 0 }

abbrev key : Key
key = record { typ = bytes "Course"; id = bytes "1" }

abbrev created_state : ProjectionState
created_state = record {
  read_found = false;
  read_version = [];
  unread = true;
  found = true;
  payload = bytes "{}";
  written = true;
}

abbrev deciding : Transaction
deciding = record (new_transaction te (bytes "t") 0) {
  conditions = at_start ∷ [];
  events = opened ∷ [];
  projections = (key, created_state) ∷ [];
  touched = key ∷ [];
  written = 1;
}

abbrev world : World
world = record {
  txs = (bytes "t", deciding) ∷ [];
  stats = record {
    begun = 1;
    committed = 0;
    abandoned = 0;
    expired = 0;
    design_errors = 0;
    paused = 0;
    busy = 0;
    too_many = 0;
    largest_read = 0;
  };
  pause = running;
  pause_since = 0;
  server = empty_server;
  ticks = 0;
  ids = 1;
}

valid_query : validate of_course ≡ none
unfolding validate
valid_query = refl

Holds-empty : Holds empty_server.store []
unfolding identifier_rows metadata_rows
Holds-empty = record {
  represents = record {
    rows = RowsOf-log refl;
    events = refl;
    identifiers = refl;
    metadata = refl;
  };
  above = tt;
  below = tt;
  started = omega arith;
}

abbrev no_writes : Writes
no_writes = record { creates = []; replaces = []; deletes = [] }

wrote :
    (write_pending turns turn (opened ∷ []) (at_start ∷ []) no_writes empty_server).0
    ≡ ok (record {
      events = number_events 1 (opened ∷ []);
      versions = record { creates = []; replaces = [] };
    })
unfolding write_pending append bytes_beq marshal_identifiers marshal_metadata
wrote = refl

write_pending-appends_example :
    let s' = (write_pending turns turn (opened ∷ []) (at_start ∷ []) no_writes empty_server).1 in
    (number_events 1 (opened ∷ []) ≡ number_events 1 (opened ∷ []))
    × Holds s'.store ([] ++ number_events 1 (opened ∷ []))
    × All (ConditionHolds []) (at_start ∷ [])
write_pending-appends_example =
    write_pending-appends turns turn (opened ∷ []) (at_start ∷ []) no_writes empty_server []
      Holds-empty (valid_query, tt)
      (record {
        events = number_events 1 (opened ∷ []);
        versions = record { creates = []; replaces = [] };
      })
      wrote

committed : (commit te turn (bytes "t") world).0 ≡ ok tt
unfolding commit bytes_beq marshal_identifiers marshal_metadata append
committed = refl

conditions_valid :
    (t : Transaction)
    → lookup (bytes "t") (lock te world).txs ≡ some t
    → All (λ c. validate c.fail_if_events_match ≡ none) t.conditions
unfolding lock bytes_beq lookup
conditions_valid t e = subst valid_if e (valid_query, tt)
  where
    valid_if : Option Transaction → Type 0
    valid_if none = Unit {0}
    valid_if (some u) = All (λ c. validate c.fail_if_events_match ≡ none) u.conditions

commit-appends_example :
    (t : Transaction) × (lookup (bytes "t") (lock te world).txs ≡ some t)
    × Committed 1 [] t (commit te turn (bytes "t") world).1 te
commit-appends_example =
    commit-appends te turn (bytes "t") [] world Holds-empty conditions_valid committed

abbrev taken : World
taken = (acquire te (bytes "t") world).1

abbrev acquired : Transaction
acquired = record deciding { busy = true }

taken_once : acquire te (bytes "t") world ≡ (ok acquired, taken)
unfolding acquire bytes_beq
taken_once = refl

acquire_excludes_example :
    (acquire te (bytes "t") (record (acquire te (bytes "t") taken).1 { server = empty_server })).0
    ≡ err busy_error
acquire_excludes_example =
    acquire_excludes te world taken
      (record (acquire te (bytes "t") taken).1 { server = empty_server }) (bytes "t") acquired
      taken_once (next (next here (acquires (bytes "t"))) (keeps refl))

-- A commit while a read is open.
abbrev half : Transaction
half = record deciding { open_condition = some (record { query = of_course; position = 0 }) }

abbrev open_world : World
open_world = record world { txs = (bytes "t", half) ∷ [] }

open_taken :
    acquire te (bytes "t") open_world
    ≡ (ok (record half { busy = true }), (acquire te (bytes "t") open_world).1)
unfolding acquire bytes_beq
open_taken = refl

open_fails :
    commit_call te turn (record half { busy = true }) (acquire te (bytes "t") open_world).1
    ≡ (err (design commit_while_open), (acquire te (bytes "t") open_world).1)
unfolding commit_call
open_fails = refl

do_call-fails_example :
    let done = do_call te (bytes "t") (commit_call te turn) open_world in
    (done.0 ≡ err (design commit_while_open)) × (lookup (bytes "t") done.1.txs ≡ none)
do_call-fails_example =
    do_call-fails Unit te (commit_call te turn) (bytes "t") (record half { busy = true }) open_world
      (acquire te (bytes "t") open_world).1 (acquire te (bytes "t") open_world).1
      (design commit_while_open) open_taken open_fails

open_commit_fails : (commit te turn (bytes "t") open_world).0 ≡ err (design commit_while_open)
unfolding commit bytes_beq
open_commit_fails = refl

commit-fails_example : Holds (commit te turn (bytes "t") open_world).1.server.store []
commit-fails_example =
    commit-fails te turn (bytes "t") [] open_world (design commit_while_open) Holds-empty
      open_commit_fails

names_the_key : refused_key (net_projections deciding).writes create_op 0 ≡ some key
unfolding net_projections bytes_beq
names_the_key = refl

-- Another client has created the projection meanwhile.
abbrev taken_server : Server
taken_server = record empty_server {
  store = record empty_server.store {
    tables = record empty_server.store.tables {
      projections = (key, record { version = 7 ∷ []; payload = [] }) ∷ [];
    };
  };
}

abbrev net_create_of_key : Writes
net_create_of_key = record no_writes {
  creates = record { key = key; payload = some (bytes "{}") } ∷ [];
}

abbrev refused_write : Result WriterError AppendResult × Server
refused_write =
    write_pending turns turn (opened ∷ []) (at_start ∷ []) net_create_of_key taken_server

create_refused :
    write_pending turns turn
      (opened ∷ [])
      (at_start ∷ [])
      (net_projections deciding).writes
      taken_server
    ≡ (err (failed (projection_conflict create_op 0)), refused_write.1)
unfolding write_pending append bytes_beq marshal_identifiers marshal_metadata net_projections
create_refused = refl

commit_call-names_example :
    (e : TxError) × ((commit_call te turn deciding (record world { server = taken_server })).0
      ≡ err e)
    × (conflict_key e ≡ some key)
commit_call-names_example =
    commit_call-names te turn deciding (record world { server = taken_server }) create_op 0 key
      refused_write.1 refl names_the_key create_refused

abbrev fresh : Transaction
fresh = new_transaction te (bytes "t") 7

abbrev having_read : Transaction
having_read = record fresh { open_condition = some (record { query = of_course; position = 0 }) }

abbrev having_written : Transaction
having_written = record fresh {
  conditions = at_start ∷ [];
  events = record opened { time = 0 } ∷ [];
}

read_nothing :
    (read_call te (record { query = of_course; backwards = false; limit = 0 }) fresh world).0
    ≡ ok (record { committed = []; pending = []; count = 0; near_limit = false }, having_read)
unfolding read_call read_committed
read_nothing = refl

wrote_one : (write_call te (opened.event_data ∷ []) having_read world).0 ≡ ok (0, having_written)
unfolding write_call
wrote_one = refl

Made-Within_example : Within te having_written
Made-Within_example = Made-Within {te = te} {t = having_written} (
    writes (opened.event_data ∷ []) world 0 having_written
      (reads _ world _ having_read (begun (bytes "t") 7) read_nothing) wrote_one)

Steps-PausedEmpty_example :
    PausedEmpty (pause_locked te turn (lock te (record world { txs = [] }))).1
Steps-PausedEmpty_example =
    Steps-PausedEmpty {te = te} {w = record world { txs = [] }} refl
      (Steps.next Steps.here (pauses turn))

abbrev create_key : Writes.Writes
create_key = record {
  creates = record { key = key; payload = bytes "{}" } ∷ [];
  replaces = [];
  deletes = [];
}

abbrev having_created : Transaction
having_created = record fresh {
  projections = (key, created_state) ∷ [];
  touched = key ∷ [];
  written = 1;
}

created_one : (projections_call te create_key fresh world).0 ≡ ok (0, having_created)
unfolding projections_call bytes_beq
created_one = refl

projections_call-marks_example :
    known_written (lookup key having_created.projections)
    ≡ (contains (keys_of create_key) key || known_written (lookup key fresh.projections))
projections_call-marks_example =
    projections_call-marks te create_key fresh having_created world 0 key created_one
