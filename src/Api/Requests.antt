-- ===== src/Api/Requests.antt =====
-- internal/api/body.go, events.go, projection.go and tx.go: what a request is checked for before it is
-- carried out.
use tamarackdb.Prelude.{
  ℕ, ◌+◌, Bool, true, false, List, [], ◌∷◌, map, Option, none, some, length, if◌then◌else◌,
}
use tamarackdb.Prelude.Eq.{Bytes}
use tamarackdb.Prelude.Assoc.{Assoc, lookup, insert}
use tamarackdb.Prelude.Exec.{Result, ok, err, and_then, refuse_if}
use tamarackdb.Prelude.Int.{ℤ, pos, is_negative, is_zero, ltb_ℤ, to_nat}
use tamarackdb.Dcb.Event.{EventData, EventInput, input_data, size, validate_input}
use tamarackdb.Dcb.Query.{Query, validate}
use tamarackdb.Projection.{
  Key, projection_key_eq, Create, Replace, Delete, Writes, writes_len, validate_key,
  validate_create, validate_replace, validate_delete,
}
use tamarackdb.Projection
use tamarackdb.Store.Read.{ReadFilter, DecisionFilter}
use tamarackdb.Api.{
  Options, ItemList, events_list, create_list, replace_list, delete_list, Place, malformed,
  trailing_data, missing_events, negative_after_sequence, backwards_after_sequence, negative_limit,
  zero_limit, limit_exceeds_max, too_many_projections, duplicate_projection_key, invalid_query,
  invalid_event, ApiError, invalid, invalid_projection, oversize, body_too_large, client_gone,
  Request,
}
use tamarackdb.Api.Answers.{prefixed}

-- The strict decoder of `encoding/json`: the value of a text, and whether nothing follows it.
abbrev pub Decoder : Type 0 → Type 0
Decoder A = Bytes → Option (A × Bool)

-- `readBody` under `withBodyLimit`.
unfoldable pub read_body : ℤ → Request → Result ApiError Bytes
read_body limit r =
    if ltb_ℤ limit (pos (length r.sent))
    then err body_too_large
    else if r.is_complete
    then ok r.sent
    else err client_gone

abbrev pub decoded : {A : Type 0} → Option (A × Bool) → Result ApiError A
decoded none = err (invalid malformed)
decoded (some (v, true)) = ok v
decoded (some (v, false)) = err (invalid trailing_data)

unfoldable pub decode_json_strict : {A : Type 0} → Options → Decoder A → Request → Result ApiError A
unfolding read_body
decode_json_strict opts dec r =
    and_then (read_body opts.max_request_body_size r) (λ body. decoded (dec body))

-- `if err := check; err != nil { return err }`, with the error as this layer wraps it.
abbrev pub require : {E : Type 0} → (E → ApiError) → Option E → Result ApiError Unit
require wrap none = ok tt
require wrap (some e) = err (wrap e)

abbrev pub validate_limit : ℤ → Result ApiError Unit
validate_limit limit =
    if is_negative limit
    then err (invalid negative_limit)
    else if is_zero limit
    then err (invalid zero_limit)
    else ok tt

pub record ReadRequest : Type 0 where
  pub query : Query
  pub after_sequence : Option ℤ
  pub limit : Option ℤ
  pub backwards : Bool

abbrev pub after_checks : Option ℤ → Bool → Result ApiError Unit
after_checks none backwards = ok tt
after_checks (some after) backwards =
    if is_negative after
    then err (invalid negative_after_sequence)
    else if backwards
    then err (invalid backwards_after_sequence)
    else ok tt

abbrev pub page_limit : Options → Option ℤ → Result ApiError ℕ
page_limit opts none = ok (to_nat opts.default_events_per_page)
page_limit opts (some limit) = and_then (validate_limit limit) (λ _.
    if ltb_ℤ opts.max_events_per_page limit
    then err (invalid limit_exceeds_max)
    else ok (to_nat limit))

abbrev pub to_sequence : Option ℤ → Option ℕ
to_sequence none = none
to_sequence (some after) = some (to_nat after)

-- `parseReadRequest` once the body is decoded.
unfoldable pub read_filter : Options → ReadRequest → Result ApiError ReadFilter
unfolding validate
read_filter opts req =
    and_then (require (λ e. invalid (invalid_query e)) (validate req.query)) (λ _.
      and_then (after_checks req.after_sequence req.backwards) (λ _.
        and_then (page_limit opts req.limit) (λ n. ok (record {
          query = req.query;
          after_sequence = to_sequence req.after_sequence;
          limit = n;
          backwards = req.backwards;
        }))))

unfoldable pub parse_read_request :
    Options → Decoder ReadRequest → Request → Result ApiError ReadFilter
unfolding decode_json_strict read_filter
parse_read_request opts dec r = and_then (decode_json_strict opts dec r) (read_filter opts)

pub record TxReadRequest : Type 0 where
  pub query : Query
  pub backwards : Bool
  pub limit : Option ℤ

abbrev pub decision_limit : Option ℤ → Result ApiError ℕ
decision_limit none = ok 0
decision_limit (some limit) = and_then (validate_limit limit) (λ _. ok (to_nat limit))

-- The checks of `handleTxReadEvents`.
unfoldable pub decision_filter : TxReadRequest → Result ApiError DecisionFilter
unfolding validate
decision_filter req = and_then (require (λ e. invalid (invalid_query e)) (validate req.query)) (λ _.
    and_then (decision_limit req.limit)
      (λ n. ok (record { query = req.query; backwards = req.backwards; limit = n })))

abbrev pub refuse_oversize : Place → ℤ → ℕ → Result ApiError Unit
refuse_oversize at max n = refuse_if (ltb_ℤ max (pos n)) (oversize at n)

-- `validateEvents` from the event at `i` on.
unfoldable pub validate_events_from : ℤ → ℕ → List EventInput → Result ApiError Unit
unfolding validate_input size input_data prefixed
validate_events_from max i [] = ok tt
validate_events_from max i (e ∷ rest) =
    and_then
      (require (λ c. prefixed (events_list, i) (invalid (invalid_event none c))) (validate_input e))
      (λ _.
        and_then (refuse_oversize (events_list, i) max (size (input_data e)))
          (λ _. validate_events_from max (i + 1) rest))

unfoldable pub validate_events : ℤ → List EventInput → Result ApiError Unit
unfolding validate_events_from
validate_events max events = validate_events_from max 0 events

unfoldable pub event_data : List EventInput → List EventData
unfolding input_data
event_data events = map input_data events

-- A missing key of the body is `none`.
unfoldable pub checked_events :
    Options → Option (List EventInput) → Result ApiError (List EventInput)
unfolding validate_events
checked_events opts none = err (invalid missing_events)
checked_events opts (some events) =
    and_then (validate_events opts.max_event_size events) (λ _. ok events)

abbrev pub payload_size : Option Bytes → ℕ
payload_size none = 0
payload_size (some p) = length p

abbrev pub projection_size : Key → Option Bytes → ℕ
projection_size k payload = length k.typ + length k.id + payload_size payload

-- A projection of a request as `check` takes it: what its `Validate` returned, and its size.
pub record Item : Type 0 where
  pub key : Key
  pub validated : Option Projection.ValidationError
  pub item_size : ℕ

unfoldable pub create_item : Create → Item
unfolding validate_create
create_item c = record {
  key = c.key;
  validated = validate_create c;
  item_size = projection_size c.key c.payload;
}

unfoldable pub replace_item : Replace → Item
unfolding validate_replace
replace_item r = record {
  key = r.key;
  validated = validate_replace r;
  item_size = projection_size r.key r.payload;
}

unfoldable pub delete_item : Delete → Item
unfolding validate_delete
delete_item d = record {
  key = d.key;
  validated = validate_delete d;
  item_size = projection_size d.key none;
}

unfoldable pub key_item : Key → Item
unfolding validate_key
key_item k = record { key = k; validated = validate_key k; item_size = projection_size k none }

abbrev pub Seen : Type 0
Seen = Assoc Key Place

abbrev pub unless_seen : Place → Option Place → Result ApiError Unit
unless_seen at none = ok tt
unless_seen at (some first) = err (invalid (duplicate_projection_key at first))

-- `check` of `validateProjections`: the map `seen` after it.
unfoldable pub check_item : ℤ → Place → Item → Seen → Result ApiError Seen
unfolding prefixed lookup insert
check_item max at p seen =
    and_then (require (λ e. prefixed at (invalid_projection none e)) p.validated) (λ _.
      and_then (unless_seen at (lookup p.key seen))
        (λ _. and_then (refuse_oversize at max p.item_size) (λ _. ok (insert p.key at seen))))

-- One of its loops.
unfoldable pub check_items : ℤ → ItemList → ℕ → List Item → Seen → Result ApiError Seen
unfolding check_item
check_items max op i [] seen = ok seen
check_items max op i (p ∷ rest) seen =
    and_then (check_item max (op, i) p seen) (check_items max op (i + 1) rest)

unfoldable pub validate_projections : ℤ → Writes → Result ApiError Unit
unfolding check_items create_item replace_item delete_item
validate_projections max w =
    and_then (check_items max create_list 0 (map create_item w.creates) []) (λ s.
      and_then (check_items max replace_list 0 (map replace_item w.replaces) s) (λ s'.
        and_then (check_items max delete_list 0 (map delete_item w.deletes) s') (λ _. ok tt)))

unfoldable pub validate_write_projections : Options → Writes → Result ApiError Unit
unfolding validate_projections
validate_write_projections opts w =
    if ltb_ℤ opts.max_projections_per_write (pos (writes_len w))
    then err (invalid too_many_projections)
    else validate_projections opts.max_projection_size w

pub record TxProjectionsRequest : Type 0 where
  pub creates : List Create
  pub replaces : List Create
  pub deletes : List Key

-- `check` of `validateTxProjections` in one of its loops.
unfoldable pub check_tx_items : ℤ → ItemList → ℕ → List Item → Result ApiError Unit
unfolding prefixed
check_tx_items max op i [] = ok tt
check_tx_items max op i (p ∷ rest) =
    and_then (require (λ e. prefixed (op, i) (invalid_projection none e)) p.validated) (λ _.
      and_then (refuse_oversize (op, i) max p.item_size) (λ _. check_tx_items max op (i + 1) rest))

unfoldable pub validate_tx_projections : Options → TxProjectionsRequest → Result ApiError Unit
unfolding check_tx_items create_item key_item
validate_tx_projections opts req =
    and_then (check_tx_items opts.max_projection_size create_list 0 (map create_item req.creates))
      (λ _.
        and_then
          (check_tx_items opts.max_projection_size replace_list 0 (map create_item req.replaces))
          (λ _. check_tx_items opts.max_projection_size delete_list 0 (map key_item req.deletes)))

-- `Validate` of the key that a read names.
unfoldable pub validate_key_item : Key → Result ApiError Key
unfolding validate_key
validate_key_item k =
    and_then (require (λ e. invalid_projection none e) (validate_key k)) (λ _. ok k)
