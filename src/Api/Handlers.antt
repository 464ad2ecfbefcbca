-- ===== src/Api/Handlers.antt =====
-- internal/api: the handlers, over the registry, the writer and the store. The decoder of each body and
-- what `Join` returned are arguments; a cancelled context is seen only when an error is handled.
use tamarackdb.Prelude.{
  Bool, true, false, not, List, [], ◌∷◌, Option, none, some, ltb, if◌then◌else◌,
}
use tamarackdb.Prelude.Eq.{Bytes}
use tamarackdb.Prelude.Exec.{Result, ok, err, and_then}
use tamarackdb.Dcb.Event.{EventInput}
use tamarackdb.Projection.{Key, Create, Writes, writes_len}
use tamarackdb.Store.Tables.{StoreError, Store}
use tamarackdb.Store.Read.{ReadFilter, Page, read}
use tamarackdb.Store.Projections.{
  ProjectionRead, get_projection, delete_projections_by_type, delete_all_projections,
}
use tamarackdb.Store.Append.{AppendResult, delete_all_events}
use tamarackdb.Writer.{Joined, WriterError, Server, run_in_turn, optimize, write_projections}
use tamarackdb.Tx.State.{World, TxError, TxEnv}
use tamarackdb.Tx.Calls.{begin, abandon, reject}
use tamarackdb.Tx.Reads.{read_events, write_events}
use tamarackdb.Tx
use tamarackdb.Tx.Writes.{get_tx_projection, write_tx_projections}
use tamarackdb.Tx.Commit.{commit}
use tamarackdb.Tx.Pause.{PauseResult, pause, resume}
use tamarackdb.Api.{
  Options, ApiError, oversize, body_too_large, client_gone, tx_failed, write_failed, store_failed,
  no_body, tx_id_body, time_body, payload_body, projection_body, versions_body,
  open_transactions_body, last_sequence_body, lines_body, projection_not_found, Answer, no_answer,
  error_answer, answer, Api, Request,
}
use tamarackdb.Api.Answers.{handle_err}
use tamarackdb.Api.Requests.{
  Decoder, decode_json_strict, ReadRequest, parse_read_request, TxReadRequest, decision_filter,
  checked_events, event_data, validate_key_item, validate_write_projections, TxProjectionsRequest,
  validate_tx_projections,
}
use tamarackdb.Api.Lines.{Broken, Stream, write_page, write_tx_events}

-- The rule of the registry: an item over a size limit is no design error.
abbrev pub is_design_error : ApiError → Bool
is_design_error (oversize at n) = false
is_design_error body_too_large = false
is_design_error e = true

abbrev pub put_world : Api → World → Api
put_world a w = record a { world = w }

abbrev pub put_server : Api → Server → Api
put_server a s = record a { world = record a.world { server = s } }

abbrev pub put_store : Api → Store → Api
put_store a st = put_server a (record a.world.server { store = st })

-- A response whose lines are cut short keeps those that went out.
abbrev pub streamed : Result Broken Unit × Stream → Api → Answer × Api
streamed (r, s) a = (answer 200 (lines_body s.lines), a)

abbrev pub start : Stream
start = record { lines = []; sent = 0 }

module _ (opts : Options) (te : TxEnv) (joined : Joined) where
  abbrev pub fails : Request → ApiError → Api → Answer × Api
  fails r e a = handle_err opts r.context_done false e a

  -- The end of a handler that has called the registry.
  abbrev pub tx_done :
      {A : Type 0}
      → Request
      → (A → Api → Answer × Api)
      → Result TxError A × World
      → Api
      → Answer × Api
  tx_done r respond (ok x, w) a = respond x (put_world a w)
  tx_done r respond (err e, w) a = fails r (tx_failed e) (put_world a w)

  abbrev pub rejected : ApiError → Result TxError Unit → ApiError
  rejected e (ok u) = e
  rejected e (err c) = tx_failed c

  -- `txFail` for any other error than `errClientGone`.
  abbrev pub reject_with : Request → Bytes → ApiError → Api → Answer × Api
  reject_with r id e a =
      let (outcome, w) = reject te id (is_design_error e) a.world in
      fails r (rejected e outcome) (put_world a w)

  unfoldable pub tx_fail : Request → Bytes → ApiError → Api → Answer × Api
  unfolding reject handle_err
  tx_fail r id client_gone a = (no_answer, a)
  tx_fail r id e a = reject_with r id e a

  -- A request on a transaction: what was checked of it, then the call.
  abbrev pub on_transaction :
      {A : Type 0}
      → Request
      → Bytes
      → Result ApiError A
      → (A → Api → Answer × Api)
      → Api
      → Answer × Api
  on_transaction r id (err e) call a = tx_fail r id e a
  on_transaction r id (ok x) call a = call x a

  unfoldable pub handle_tx_begin : Request → Api → Answer × Api
  unfolding begin handle_err
  handle_tx_begin r a = tx_done r (λ id b. (answer 200 (tx_id_body id), b)) (begin te a.world) a

  unfoldable pub handle_tx_read_events :
      Decoder TxReadRequest → Request → Bytes → Api → Answer × Api
  unfolding tx_fail decode_json_strict decision_filter read_events write_tx_events handle_err
  handle_tx_read_events dec r id =
      on_transaction r id (and_then (decode_json_strict opts dec r) decision_filter) (λ f a.
        tx_done r (λ read b. streamed (write_tx_events r.goes_out read f start) b)
          (read_events te id f a.world) a)

  unfoldable pub handle_tx_write_events :
      Decoder (Option (List EventInput)) → Request → Bytes → Api → Answer × Api
  unfolding tx_fail decode_json_strict checked_events event_data write_events handle_err
  handle_tx_write_events dec r id =
      on_transaction r id (and_then (decode_json_strict opts dec r) (checked_events opts))
        (λ events a.
          tx_done r (λ t b. (answer 200 (time_body t), b))
            (write_events te id (event_data events) a.world) a)

  abbrev pub found_payload : (Bytes × Bool) → Api → Answer × Api
  found_payload (payload, true) a = (answer 200 (payload_body payload), a)
  found_payload (payload, false) a = (error_answer 404 projection_not_found, a)

  unfoldable pub handle_tx_get_projection : Decoder Key → Request → Bytes → Api → Answer × Api
  unfolding tx_fail decode_json_strict validate_key_item get_tx_projection handle_err
  handle_tx_get_projection dec r id =
      on_transaction r id (and_then (decode_json_strict opts dec r) validate_key_item)
        (λ key a. tx_done r found_payload (get_tx_projection te id key a.world) a)

  abbrev pub or_empty : Option Bytes → Bytes
  or_empty none = []
  or_empty (some p) = p

  -- The payload was checked not to be nil.
  unfoldable pub to_tx : List Create → List Tx.Writes.Projection
  to_tx [] = []
  to_tx (c ∷ rest) = record { key = c.key; payload = or_empty c.payload } ∷ to_tx rest

  unfoldable pub tx_writes : TxProjectionsRequest → Tx.Writes.Writes
  unfolding to_tx
  tx_writes req = record {
    creates = to_tx req.creates;
    replaces = to_tx req.replaces;
    deletes = req.deletes;
  }

  abbrev pub checked_tx_projections : TxProjectionsRequest → Result ApiError TxProjectionsRequest
  checked_tx_projections req = and_then (validate_tx_projections opts req) (λ _. ok req)

  unfoldable pub handle_tx_write_projections :
      Decoder TxProjectionsRequest → Request → Bytes → Api → Answer × Api
  unfolding tx_fail decode_json_strict validate_tx_projections tx_writes write_tx_projections
      handle_err
  handle_tx_write_projections dec r id =
      on_transaction r id (and_then (decode_json_strict opts dec r) checked_tx_projections)
        (λ req a.
          tx_done r (λ t b. (answer 200 (time_body t), b))
            (write_tx_projections te id (tx_writes req) a.world) a)

  abbrev pub no_content : Unit {0} → Api → Answer × Api
  no_content u a = (answer 204 no_body, a)

  unfoldable pub handle_tx_commit : Request → Bytes → Api → Answer × Api
  unfolding commit handle_err
  handle_tx_commit r id a = tx_done r no_content (commit te joined id a.world) a

  unfoldable pub handle_tx_abandon : Request → Bytes → Api → Answer × Api
  unfolding abandon handle_err
  handle_tx_abandon r id a = tx_done r no_content (abandon te id a.world) a

  abbrev pub pause_answer : PauseResult → Api → Answer × Api
  pause_answer p a =
      if not p.is_paused
      then (answer 202 (open_transactions_body p.open_transactions), a)
      else (answer 200 (last_sequence_body p.last_sequence), a)

  unfoldable pub handle_pause : Request → Api → Answer × Api
  unfolding pause handle_err
  handle_pause r a = tx_done r pause_answer (pause te joined a.world) a

  unfoldable pub handle_resume : Request → Api → Answer × Api
  unfolding resume handle_err
  handle_resume r a = tx_done r no_content (resume te joined a.world) a

  abbrev pub paged : Request → Result StoreError Page × Store → Api → Answer × Api
  paged r (ok page, st) a = streamed (write_page r.goes_out page start) (put_store a st)
  paged r (err e, st) a = fails r (store_failed e) (put_store a st)

  abbrev pub read_page : Request → Result ApiError ReadFilter → Api → Answer × Api
  read_page r (err e) a = fails r e a
  read_page r (ok f) a = paged r (read te.turns.env f a.world.server.store) a

  unfoldable pub handle_read_events : Decoder ReadRequest → Request → Api → Answer × Api
  unfolding parse_read_request read write_page handle_err
  handle_read_events dec r = read_page r (parse_read_request opts dec r)

  abbrev pub projection_answer :
      Request → Result StoreError ProjectionRead × Store → Api → Answer × Api
  projection_answer r (ok p, st) a =
      if not p.found
      then (error_answer 404 projection_not_found, put_store a st)
      else (answer 200 (projection_body p.version p.payload), put_store a st)
  projection_answer r (err e, st) a = fails r (store_failed e) (put_store a st)

  abbrev pub read_projection : Request → Result ApiError Key → Api → Answer × Api
  read_projection r (err e) a = fails r e a
  read_projection r (ok key) a =
      projection_answer r (get_projection te.turns.env key a.world.server.store) a

  unfoldable pub handle_get_projection : Decoder Key → Request → Api → Answer × Api
  unfolding decode_json_strict validate_key_item get_projection handle_err
  handle_get_projection dec r =
      read_projection r (and_then (decode_json_strict opts dec r) validate_key_item)

  abbrev pub versions_answer :
      Request → Result WriterError AppendResult × Server → Api → Answer × Api
  versions_answer r (ok v, s) a =
      (answer 200 (versions_body v.versions.creates v.versions.replaces), put_server a s)
  versions_answer r (err e, s) a = fails r (write_failed e) (put_server a s)

  abbrev pub write_checked : Request → Result ApiError Writes → Api → Answer × Api
  write_checked r (err e) a = fails r e a
  write_checked r (ok w) a =
      if ltb 0 (writes_len w)
      then versions_answer r (write_projections te.turns joined w a.world.server) a
      else (answer 200 (versions_body [] []), a)

  abbrev pub checked_writes : Writes → Result ApiError Writes
  checked_writes w = and_then (validate_write_projections opts w) (λ _. ok w)

  unfoldable pub handle_write_projections : Decoder Writes → Request → Api → Answer × Api
  unfolding decode_json_strict validate_write_projections write_projections handle_err
  handle_write_projections dec r =
      write_checked r (and_then (decode_json_strict opts dec r) checked_writes)

  abbrev pub turn_answer : Request → Result WriterError Unit × Server → Api → Answer × Api
  turn_answer r (ok u, s) a = (answer 204 no_body, put_server a s)
  turn_answer r (err e, s) a = fails r (write_failed e) (put_server a s)

  abbrev on_store :
      (Store → Result StoreError Unit × Store) → Server → Result StoreError Unit × Server
  on_store fn s = let (r, st) = fn s.store in (r, record s { store = st })

  unfoldable pub handle_delete_projections_by_type : Request → Bytes → Api → Answer × Api
  unfolding run_in_turn delete_projections_by_type handle_err
  handle_delete_projections_by_type r typ a =
      turn_answer r
        (run_in_turn te.turns joined (on_store (delete_projections_by_type te.turns.env typ))
          a.world.server)
        a

  unfoldable pub handle_delete_all_projections : Request → Api → Answer × Api
  unfolding run_in_turn delete_all_projections handle_err
  handle_delete_all_projections r a =
      turn_answer r
        (run_in_turn te.turns joined (on_store (delete_all_projections te.turns.env))
          a.world.server)
        a

  unfoldable pub handle_delete_events : Request → Api → Answer × Api
  unfolding run_in_turn delete_all_events handle_err
  handle_delete_events r a =
      turn_answer r
        (run_in_turn te.turns joined (on_store (delete_all_events te.turns.env)) a.world.server) a

  unfoldable pub handle_optimize : Request → Api → Answer × Api
  unfolding optimize handle_err
  handle_optimize r a = turn_answer r (optimize te.turns joined a.world.server) a
