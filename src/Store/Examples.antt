-- ===== src/Store/Examples.antt =====
-- Concrete runs of the store, and instances of its theorems.
use mathlib.Core.List.{reverse}
use tamarackdb.Prelude.{
  ℕ, ◌+◌, ◌≡◌, ◌≢◌, refl, true, false, List, [], ◌∷◌, ◌++◌, map, Option, none, some, any, select,
  length, All, arith, zero, suc,
}
use tamarackdb.Prelude.Eq.{bytes, bytes_beq}
use tamarackdb.Prelude.Exec.{ok, err}
use tamarackdb.Dcb.Event.{Identifier, Event, PendingEvent}
use tamarackdb.Dcb.Query.{Query, form_items, AppendCondition, matches, validate}
use tamarackdb.Dcb.Compact.{marshal_identifiers, marshal_metadata}
use tamarackdb.Projection.{Writes}
use tamarackdb.Store.Tables.{Tables, Env, Store, condition_conflict, sqlite}
use tamarackdb.Store.Batch.{
  exec_batch_insert, insert_event_rows, event_row, identifier_rows, metadata_rows,
}
use tamarackdb.Dcb.Event
use tamarackdb.Names.{valid_name, valid_value, name_byte, value_byte}
use tamarackdb.Store.Accepts.{append-succeeds}
use tamarackdb.Store.Append.{AppendResult, append, number_events, matches_after}
use tamarackdb.Store.Read.{selected_events}
use tamarackdb.Store.Log.{Represents, RowsOf-log}
use tamarackdb.Store.Selects.{wanted, matches_after-eq-any, selected_events-eq-select}
use tamarackdb.Store.Inserts.{add_event_rows, events-Adds}
use tamarackdb.Store.Chunks.{bounded, exec_batch_insert-bounded}
use tamarackdb.Store.Atomic.{append-unchanged}
use tamarackdb.Store.Holds.{Holds, ConditionHolds}
use tamarackdb.Store.Refines.{append-appends}

abbrev sound : Env
sound = record { fault = λ n. none; uuid = λ n. n ∷ [] }

-- The fourth call of the driver fails: the disk is full.
abbrev failing : Env
failing = record { fault = λ n. full n; uuid = λ n. n ∷ [] }
  where
    full : ℕ → Option ℕ
    full (suc (suc (suc zero))) = some 13
    full n = none

abbrev empty_tables : Tables
empty_tables = record {
  events = [];
  identifiers = [];
  metadata = [];
  projections = [];
  paused = none;
}

abbrev empty_store : Store
empty_store = record { tables = empty_tables; next_seq = 1; paused_at = 0; calls = 0; uuids = 0 }

abbrev course : Identifier
course = record { name = bytes "c"; value = bytes "1" }

abbrev opened : PendingEvent
opened = record {
  time = 5;
  event_data = record {
    typ = bytes "Opened";
    identifiers = course ∷ [];
    metadata = [];
    payload = bytes "{}";
  };
}

abbrev of_course : Query
of_course = record {
  form = form_items;
  items = record { types = none; identifiers = some (course ∷ []); metadata = none } ∷ [];
}

abbrev at_start : AppendCondition
at_start = record { fail_if_events_match = of_course; after_sequence = 0 }

abbrev no_writes : Writes
no_writes = record { creates = []; replaces = []; deletes = [] }

abbrev once : Store
once = (append sound (opened ∷ []) (at_start ∷ []) no_writes empty_store).1

first_append :
    (append sound (opened ∷ []) (at_start ∷ []) no_writes empty_store).0
    ≡ ok (record {
      events = number_events 1 (opened ∷ []);
      versions = record { creates = []; replaces = [] };
    })
unfolding append bytes_beq marshal_identifiers marshal_metadata
first_append = refl

-- A second decision on the same read finds the event of the first.
second_append :
    (append sound (opened ∷ []) (at_start ∷ []) no_writes once).0 ≡ err (condition_conflict 0)
unfolding append bytes_beq marshal_identifiers marshal_metadata
second_append = refl

full_disk : (append failing (opened ∷ []) (at_start ∷ []) no_writes empty_store).0 ≡ err (sqlite 13)
unfolding append bytes_beq marshal_identifiers marshal_metadata
full_disk = refl

valid_query : validate of_course ≡ none
unfolding validate
valid_query = refl

Holds-empty : Holds empty_store []
unfolding identifier_rows metadata_rows
Holds-empty = record {
  represents = record {
    rows = RowsOf-log refl;
    events = refl;
    identifiers = refl;
    metadata = refl;
  };
  above = tt;
  below = tt;
  started = omega arith;
}

append-unchanged_example :
    let s' = (append failing (opened ∷ []) (at_start ∷ []) no_writes empty_store).1 in
    (s'.tables ≡ empty_tables) × (s'.next_seq ≡ 1) × (s'.paused_at ≡ 0)
append-unchanged_example =
    append-unchanged failing (opened ∷ []) (at_start ∷ []) no_writes empty_store (sqlite 13)
      full_disk

append-appends_example :
    (number_events 1 (opened ∷ []) ≡ number_events 1 (opened ∷ []))
    × Holds once ([] ++ number_events 1 (opened ∷ []))
    × (once.next_seq ≡ 1 + length (opened ∷ []))
    × All (ConditionHolds []) (at_start ∷ [])
append-appends_example =
    append-appends sound (opened ∷ []) (at_start ∷ []) no_writes empty_store [] Holds-empty
      (valid_query, tt)
      (record {
        events = number_events 1 (opened ∷ []);
        versions = record { creates = []; replaces = [] };
      })
      first_append

abbrev log : List Event
log = record { sequence = 1; time = 5; event_data = opened.event_data } ∷ []

abbrev one_event : Tables
one_event = record empty_tables {
  events = map event_row log;
  identifiers = identifier_rows log;
  metadata = metadata_rows log;
}

one_event-Represents : Represents one_event log
one_event-Represents = record {
  rows = RowsOf-log refl;
  events = refl;
  identifiers = refl;
  metadata = refl;
}

found : any (wanted of_course 0) log ≡ true
unfolding any matches bytes_beq
found = refl

matches_after-eq-any_example : matches_after one_event of_course 0 ≡ any (wanted of_course 0) log
matches_after-eq-any_example =
    matches_after-eq-any one_event-Represents (omega arith) of_course 0 valid_query

selected_events-eq-select_example :
    let rows = map event_row (select (wanted of_course 0) log) in
    (selected_events of_course 0 false one_event ≡ rows)
    × (selected_events of_course 0 true one_event ≡ reverse rows)
selected_events-eq-select_example =
    selected_events-eq-select one_event-Represents (omega arith) of_course 0 valid_query

opened_valid : Event.validate opened.event_data ≡ none
unfolding Event.validate valid_name valid_value name_byte value_byte bytes_beq
opened_valid = refl

has_time : opened.time ≢ 0
has_time e = absurd (omega (arith, e))

starts_empty : ConditionHolds [] at_start
unfolding any
starts_empty = refl

append-succeeds_example :
    (r : AppendResult) × ((append sound (opened ∷ []) (at_start ∷ []) no_writes empty_store).0
      ≡ ok r)
append-succeeds_example =
    append-succeeds sound (λ n. refl) (opened ∷ []) (at_start ∷ []) empty_store [] Holds-empty
      (valid_query, tt) (starts_empty, tt) ((has_time, opened_valid), tt)

abbrev one_row : Store
one_row = (exec_batch_insert sound insert_event_rows 6 (map event_row log) empty_store).1

row_inserted :
    exec_batch_insert sound insert_event_rows 6 (map event_row log) empty_store ≡ (ok tt, one_row)
unfolding exec_batch_insert event_row marshal_identifiers marshal_metadata insert_event_rows
row_inserted = refl

exec_batch_insert-bounded_example :
    (exec_batch_insert sound (bounded 6 insert_event_rows) 6 (map event_row log) empty_store
      ≡ (ok tt, one_row))
    × (one_row.tables ≡ add_event_rows (map event_row log) empty_store.tables)
exec_batch_insert-bounded_example =
    exec_batch_insert-bounded sound empty_store one_row tt 6 (map event_row log) events-Adds
      (omega arith) (omega arith) row_inserted
