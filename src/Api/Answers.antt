-- ===== src/Api/Answers.antt =====
-- internal/api/errors.go `handleErr` and internal/store/errors.go: the answer to an error.
use tamarackdb.Prelude.{
  ℕ, ◌%◌, ◌+◌, Bool, true, false, ◌&&◌, ◌||◌, Option, none, some, eqb, if◌then◌else◌,
}
use tamarackdb.Store.Tables.{
  StoreError, no_time, bad_limit, condition_conflict, projection_conflict, sqlite, nil_dereference,
}
use tamarackdb.Writer.{count, WriterError, full, closed_error, failed}
use tamarackdb.Tx.State.{
  TxError, not_found, busy_error, too_many_error, paused_error, design, too_large, conflict,
  writer_error, index_out_of_range,
}
use tamarackdb.Api.{
  Code, concurrency_exception, transaction_not_found, invalid_request, payload_too_large,
  write_queue_full, too_many_transactions, shutting_down, transaction_busy, internal_error,
  storage_full, paused, Options, Place, invalid_event, ApiError, invalid, invalid_projection,
  oversize, body_too_large, client_gone, tx_failed, write_failed, store_failed, Answer, no_answer,
  error_answer, Api,
}

-- The primary codes of SQLite.
abbrev pub sqlite_ioerr : ℕ
sqlite_ioerr = 10

abbrev pub sqlite_corrupt : ℕ
sqlite_corrupt = 11

abbrev pub sqlite_full : ℕ
sqlite_full = 13

abbrev pub sqlite_cant_open : ℕ
sqlite_cant_open = 14

abbrev pub sqlite_not_a_db : ℕ
sqlite_not_a_db = 26

-- `Code() & 0xff`
abbrev pub primary_code : ℕ → ℕ
primary_code c = c % 256

abbrev pub store_error : ApiError → Option StoreError
store_error (store_failed e) = some e
store_error (write_failed (failed e)) = some e
store_error (tx_failed (writer_error (failed e))) = some e
store_error _ = none

abbrev pub fatal_code : Option StoreError → Bool
fatal_code (some (sqlite c)) =
    eqb (primary_code c) sqlite_ioerr
    || eqb (primary_code c) sqlite_corrupt
    || eqb (primary_code c) sqlite_cant_open
    || eqb (primary_code c) sqlite_not_a_db
fatal_code _ = false

unfoldable pub is_fatal : ApiError → Bool
is_fatal e = fatal_code (store_error e)

abbrev pub refuse : ℕ → Code → Api → Answer × Api
refuse status code a = (error_answer status code, a)

abbrev pub refuse_internal : Api → Answer × Api
refuse_internal a =
    (error_answer 500 internal_error, record a { internal_errors = count a.internal_errors })

abbrev pub refuse_full : Api → Answer × Api
refuse_full a =
    (error_answer 507 storage_full, record a { storage_full_errors = count a.storage_full_errors })

-- A panic is not an error that is handled: net/http drops the connection.
abbrev pub dropped : Api → Answer × Api
dropped a = (no_answer, a)

abbrev pub respond_store : StoreError → Api → Answer × Api
respond_store (projection_conflict op i) a = refuse 409 concurrency_exception a
respond_store (condition_conflict i) a = refuse 409 concurrency_exception a
respond_store (sqlite c) a =
    if eqb (primary_code c) sqlite_full then refuse_full a else refuse_internal a
respond_store nil_dereference a = dropped a
respond_store (no_time i) a = refuse_internal a
respond_store bad_limit a = refuse_internal a

abbrev pub respond_writer : WriterError → Api → Answer × Api
respond_writer full a = refuse 503 write_queue_full a
respond_writer closed_error a = refuse 503 shutting_down a
respond_writer (failed e) a = respond_store e a

abbrev pub respond_tx : TxError → Api → Answer × Api
respond_tx (design rule) a = refuse 400 invalid_request a
respond_tx (too_large limit n) a = refuse 400 invalid_request a
respond_tx (conflict c) a = refuse 409 concurrency_exception a
respond_tx not_found a = refuse 404 transaction_not_found a
respond_tx busy_error a = refuse 409 transaction_busy a
respond_tx paused_error a = refuse 503 paused a
respond_tx too_many_error a = refuse 503 too_many_transactions a
respond_tx (writer_error e) a = respond_writer e a
respond_tx index_out_of_range a = dropped a

-- The switch of `handleErr`.
unfoldable pub respond : ApiError → Api → Answer × Api
respond (invalid rule) a = refuse 400 invalid_request a
respond (invalid_projection at rule) a = refuse 400 invalid_request a
respond (oversize at n) a = refuse 413 payload_too_large a
respond body_too_large a = refuse 413 payload_too_large a
respond client_gone a = dropped a
respond (tx_failed e) a = respond_tx e a
respond (write_failed e) a = respond_writer e a
respond (store_failed e) a = respond_store e a

abbrev pub is_client_gone : ApiError → Bool
is_client_gone client_gone = true
is_client_gone _ = false

-- `context_done` is the context of the request, `wrote_header` whether the response has started.
unfoldable pub handle_err : Options → Bool → Bool → ApiError → Api → Answer × Api
unfolding respond is_fatal
handle_err opts context_done wrote_header e a =
    let reported =
      if is_fatal e && opts.on_fatal_storage_error
      then record a { fatal_reports = a.fatal_reports + 1 }
      else a in
    if context_done || is_client_gone e
    then (no_answer, reported)
    else if wrote_header
    then (no_answer, reported)
    else respond e reported

unfoldable pub prefixed : Place → ApiError → ApiError
prefixed at (invalid (invalid_event old e)) = invalid (invalid_event (some at) e)
prefixed at (invalid_projection old e) = invalid_projection (some at) e
prefixed at e = e
