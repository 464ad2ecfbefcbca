-- ===== src/Api.antt =====
-- internal/api: the requests of the HTTP API, their checks, and their answers. An error stands for its
-- message, and the JSON decoder of a body is a parameter.
pub mod Answers
pub mod Requests
pub mod Setup
pub mod Loaded
pub mod Lines
pub mod Handlers
pub mod Checks
pub mod Projections
pub mod Counts
pub mod Refusals
pub mod Streams
mod Examples
use tamarackdb.Prelude.{ℕ, Bool, List, Option}
use tamarackdb.Prelude.Eq.{Bytes}
use tamarackdb.Prelude.Int.{ℤ}
use tamarackdb.Dcb.Event.{PendingEvent}
use tamarackdb.Dcb.Event
use tamarackdb.Dcb.Query.{QueryError}
use tamarackdb.Projection
use tamarackdb.Store.Tables.{EventRow, StoreError}
use tamarackdb.Writer.{WriterError}
use tamarackdb.Tx.State.{TxError, World}

pub data Level : Type 0 where
  debug info warning error : Level

-- The codes of the error envelope.
pub data Code : Type 0 where
  projection_not_found transaction_not_found concurrency_exception invalid_request : Code
  payload_too_large unauthorized write_queue_full too_many_transactions shutting_down : Code
  paused transaction_busy internal_error storage_full unavailable : Code

abbrev pub code_level : Code → Level
code_level projection_not_found = debug
code_level transaction_not_found = info
code_level concurrency_exception = debug
code_level invalid_request = info
code_level payload_too_large = info
code_level unauthorized = info
code_level write_queue_full = warning
code_level too_many_transactions = warning
code_level shutting_down = info
code_level paused = info
code_level transaction_busy = info
code_level internal_error = error
code_level storage_full = error
code_level unavailable = error

pub record Options : Type 0 where
  pub auth_token : Bytes
  pub default_events_per_page : ℤ
  pub max_events_per_page : ℤ
  pub max_event_size : ℤ
  pub max_projection_size : ℤ
  pub max_projections_per_write : ℤ
  pub max_request_body_size : ℤ
  pub dev_mode : Bool
  pub log_level : Bytes
  pub on_fatal_storage_error : Bool

-- The place of an item in a request: its list and its index.
pub data ItemList : Type 0 where
  events_list create_list replace_list delete_list : ItemList

abbrev pub Place : Type 0
Place = ItemList × ℕ

pub data Invalid : Type 0 where
  malformed trailing_data missing_events negative_after_sequence : Invalid
  backwards_after_sequence negative_limit zero_limit limit_exceeds_max : Invalid
  too_many_projections : Invalid
  duplicate_projection_key : Place → Place → Invalid
  invalid_query : QueryError → Invalid
  invalid_event : Option Place → Event.ValidationError → Invalid

pub data ApiError : Type 0 where
  invalid : Invalid → ApiError
  invalid_projection : Option Place → Projection.ValidationError → ApiError
  oversize : Place → ℕ → ApiError
  body_too_large client_gone : ApiError
  tx_failed : TxError → ApiError
  write_failed : WriterError → ApiError
  store_failed : StoreError → ApiError

-- A line of a response in NDJSON.
pub data Line : Type 0 where
  committed_line : EventRow → Line
  pending_line : PendingEvent → Line
  has_more_line : Bool → Line
  end_line : Line

pub data Body : Type 0 where
  no_body : Body
  tx_id_body : Bytes → Body
  time_body : ℕ → Body
  payload_body : Bytes → Body
  projection_body : Bytes → Bytes → Body
  versions_body : List Bytes → List Bytes → Body
  open_transactions_body : ℕ → Body
  last_sequence_body : ℕ → Body
  lines_body : List Line → Body

-- Nothing is answered to a client that is gone.
pub data Answer : Type 0 where
  no_answer : Answer
  error_answer : ℕ → Code → Answer
  answer : ℕ → Body → Answer

-- The `Server`, over the registry and the store. `fatal_reports` counts the calls of
-- `OnFatalStorageError`.
pub record Api : Type 0 where
  pub world : World
  pub internal_errors : ℕ
  pub storage_full_errors : ℕ
  pub fatal_reports : ℕ

-- What a client sent of a body, whether it sent it to its end, whether the context of the request is done
-- when an error is handled, and whether the n-th line of the response goes out.
pub record Request : Type 0 where
  pub sent : Bytes
  pub is_complete : Bool
  pub context_done : Bool
  pub goes_out : ℕ → Bool
