-- ===== src/Api/Examples.antt =====
-- Concrete requests, and instances of the theorems about them.
use tamarackdb.Prelude.{◌*◌, ◌≤◌, ◌≡◌, ◌≢◌, ◌↔◌, ◌⊎◌, refl, true, false, [], ◌∷◌, none, some}
use tamarackdb.Prelude.Eq.{bytes, bytes_eq, bytes_beq}
use tamarackdb.Prelude.Assoc.{lookup, insert}
use tamarackdb.Prelude.Exec.{ok}
use tamarackdb.Prelude.Int.{pos}
use tamarackdb.Dcb.Event.{PendingEvent}
use tamarackdb.Dcb.Query.{query_all, validate}
use tamarackdb.Projection.{Key, Writes}
use tamarackdb.Store.Tables.{EventRow, sqlite}
use tamarackdb.Store.Read.{ReadFilter, DecisionFilter}
use tamarackdb.Writer.{turn}
use tamarackdb.Tx.State.{Transaction, World, TxEnv, running}
use tamarackdb.Tx.Calls.{new_transaction}
use tamarackdb.Tx.Reads.{Read}
use tamarackdb.Api.{Options, Api, Request, client_gone, invalid, malformed, store_failed, end_line}
use tamarackdb.Api.Answers.{handle_err}
use tamarackdb.Api.Requests.{ReadRequest, read_filter, validate_write_projections}
use tamarackdb.Api.Checks.{AtMost}
use tamarackdb.Api.Projections.{Accepted, validate_write_projections-Accepted_iff}
use tamarackdb.Api.Setup.{new_panic}
use tamarackdb.Api.Loaded.{read_filter-InBounds}
use tamarackdb.Api.Lines.{write_tx_events}
use tamarackdb.Api.Streams.{Ends, event_lines, start, write_tx_events-Ends}
use tamarackdb.Api.Counts.{Handled, handle_err-Handled}
use tamarackdb.Api.Handlers.{tx_fail, handle_tx_write_events}
use tamarackdb.Api.Refusals.{GoneOrBusy, IsNamed, tx_fail-GoneOrBusy}

abbrev opts : Options
opts = record {
  auth_token = bytes "secret";
  default_events_per_page = pos 100;
  max_events_per_page = pos 1000;
  max_event_size = pos 65536;
  max_projection_size = pos 65536;
  max_projections_per_write = pos 500;
  max_request_body_size = pos 8388608;
  dev_mode = false;
  log_level = bytes "info";
  on_fatal_storage_error = true;
}

abbrev user : Key
user = record { typ = bytes "user"; id = bytes "7" }

abbrev two_writes : Writes
two_writes = record {
  creates = record { key = user; payload = some (bytes "{}") } ∷ [];
  replaces = [];
  deletes = record { key = user; version = bytes "v1" } ∷ [];
}

validate_write_projections-Accepted_iff_example :
    (validate_write_projections opts two_writes ≡ ok tt) ↔ Accepted opts two_writes
validate_write_projections-Accepted_iff_example =
    validate_write_projections-Accepted_iff opts two_writes

starts : new_panic opts ≡ none
unfolding new_panic bytes_beq
starts = refl

abbrev latest : ReadRequest
latest = record {
  query = query_all;
  after_sequence = none;
  limit = some (pos 50);
  backwards = true;
}

abbrev latest_filter : ReadFilter
latest_filter = record { query = query_all; after_sequence = none; limit = 50; backwards = true }

latest_read : read_filter opts latest ≡ ok latest_filter
unfolding read_filter validate
latest_read = refl

read_filter-InBounds_example :
    (validate query_all ≡ none)
    × (1 ≤ 50)
    × AtMost 50 (pos 1000)
    × ((latest_filter.after_sequence ≡ none) ⊎ (latest_filter.backwards ≡ false))
read_filter-InBounds_example = read_filter-InBounds opts latest latest_filter starts latest_read

abbrev opened_row : EventRow
opened_row = record {
  sequence = 1;
  time = 5;
  typ = bytes "Opened";
  payload = bytes "{}";
  identifiers = [];
  metadata = [];
}

abbrev pending : PendingEvent
pending = record {
  time = 7;
  event_data = record {
    typ = bytes "Closed";
    identifiers = [];
    metadata = [];
    payload = bytes "{}";
  };
}

abbrev one_of_each : Read
one_of_each = record {
  committed = opened_row ∷ [];
  pending = pending ∷ [];
  count = 2;
  near_limit = false;
}

abbrev last_first : DecisionFilter
last_first = record { query = query_all; backwards = true; limit = 1 }

write_tx_events-Ends_example :
    Ends
      (λ n. true)
      (event_lines one_of_each last_first)
      end_line
      (write_tx_events (λ n. true) one_of_each last_first start)
write_tx_events-Ends_example = write_tx_events-Ends (λ n. true) one_of_each last_first

abbrev te : TxEnv
te = record {
  cfg = record {
    idle_timeout = 100;
    max_events_per_tx = 10;
    max_reads_per_tx = 5;
    max_projections_per_tx = 5;
    max_events_per_tx_read = 50;
    max_open_tx = 3;
  };
  now = λ n. n;
  wall = λ n. n * 1000;
  new_id = λ n. n ∷ [];
  turns = record {
    env = record { fault = λ n. none; uuid = λ n. n ∷ [] };
    wal_size = λ s. none;
    wal_busy = λ n. false;
  };
}

abbrev open_tx : Transaction
open_tx = new_transaction te (bytes "t") 0

abbrev world : World
world = record {
  txs = (bytes "t", open_tx) ∷ [];
  stats = record {
    begun = 1;
    committed = 0;
    abandoned = 0;
    expired = 0;
    design_errors = 0;
    paused = 0;
    busy = 0;
    too_many = 0;
    largest_read = 0;
  };
  pause = running;
  pause_since = 0;
  server = record {
    writer = record {
      next_checkpoint = 0;
      closed = false;
      stats = record {
        committed = 0;
        condition_conflicts = 0;
        projection_conflicts = 0;
        write_queue_full = 0;
        checkpoints = 0;
        checkpoints_busy = 0;
      };
    };
    store = record {
      tables = record {
        events = [];
        identifiers = [];
        metadata = [];
        projections = [];
        paused = none;
      };
      next_seq = 1;
      paused_at = 0;
      calls = 0;
      uuids = 0;
    };
  };
  ticks = 0;
  ids = 1;
}

abbrev api : Api
api = record { world = world; internal_errors = 0; storage_full_errors = 0; fatal_reports = 0 }

abbrev request : Request
request = record {
  sent = bytes "{";
  is_complete = true;
  context_done = false;
  goes_out = λ n. true;
}

-- The disk is full while a request waits for its answer.
handle_err-Handled_example :
    Handled opts false false
      (store_failed (sqlite 13))
      api
      (handle_err opts false false (store_failed (sqlite 13)) api).0
      (handle_err opts false false (store_failed (sqlite 13)) api).1
handle_err-Handled_example = handle_err-Handled opts false false (store_failed (sqlite 13)) api

named : IsNamed world.txs
named = (refl, tt)

malformed_body : invalid malformed ≢ client_gone
malformed_body e = absurd (cc)

tx_fail-GoneOrBusy_example :
    GoneOrBusy te
      (bytes "t")
      world
      (tx_fail opts te turn request (bytes "t") (invalid malformed) api).1.world
tx_fail-GoneOrBusy_example =
    tx_fail-GoneOrBusy opts te turn request (bytes "t") (invalid malformed) api named malformed_body

-- The transaction is gone after a truncated body.
after_malformed :
    lookup
      (bytes "t")
      (handle_tx_write_events opts te turn (λ b. none) request (bytes "t") api).1.world.txs
    ≡ none
unfolding handle_tx_write_events bytes_beq lookup insert
after_malformed = refl
