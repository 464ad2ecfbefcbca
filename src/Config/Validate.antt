-- ===== src/Config/Validate.antt =====
-- internal/config/config.go: Validate. Its switch is a list of tests with their errors: the first test
-- that holds gives the error.
use tamarackdb.Prelude.{
  ℕ, Bool, true, false, ◌&&◌, not, List, [], ◌∷◌, ◌++◌, map, Option, none, some, ltb, leb, length,
  if◌then◌else◌,
}
use tamarackdb.Prelude.Eq.{Bytes, bytes, bytes_eq, bytes_beq, contains}
use tamarackdb.Prelude.Int.{pos, is_positive, ltb_ℤ}
use tamarackdb.Config.Numbers.{parse_octal}
use tamarackdb.Config.{
  Config, Setting, max_socket_path_len, default_events_per_page, max_events_per_page,
  max_event_size, max_projection_size, max_events_per_tx, max_reads_per_tx, max_projections_per_tx,
  max_projections_per_write, max_events_per_tx_read, max_request_body_size, max_queued_writes,
  read_pool_size, tx_idle_timeout, max_open_tx, value_of,
}

pub data Invalid : Type 0 where
  socket_path_too_long bad_socket_mode no_bind_address bad_port open_without_token : Invalid
  no_data_dir bad_log_level default_page_above_max : Invalid
  not_positive : Setting → Invalid

abbrev pub is_empty : Bytes → Bool
is_empty s = bytes_beq s []

abbrev pub at_most_0777 : Option ℕ → Bool
at_most_0777 none = false
at_most_0777 (some n) = leb n 511

unfoldable pub valid_socket_mode : Bytes → Bool
unfolding parse_octal
valid_socket_mode s = at_most_0777 (parse_octal s)

-- `net.ParseIP` and `IsLoopback` are one test of an address.
unfoldable pub is_loopback : (Bytes → Bool) → Bytes → Bool
is_loopback is_loopback_ip addr =
    if bytes_beq addr (bytes "localhost") then true else is_loopback_ip addr

abbrev pub log_levels : List Bytes
log_levels = bytes "debug" ∷ bytes "info" ∷ bytes "warning" ∷ bytes "error" ∷ []

abbrev pub below_one : Config → Setting → Bool × Invalid
below_one c s = (not (is_positive (value_of s c)), not_positive s)

-- The first error whose test holds.
unfoldable pub first_true {ℓ} : {E : Type ℓ} → List (Bool × E) → Option E
first_true [] = none
first_true ((b, e) ∷ rest) = if b then some e else first_true rest

abbrev pub page_cases : Config → List (Bool × Invalid)
page_cases c =
    (is_empty c.data_dir, no_data_dir)
    ∷ (not (contains log_levels c.log_level), bad_log_level)
    ∷ below_one c default_events_per_page
    ∷ below_one c max_events_per_page
    ∷ (ltb_ℤ c.max_events_per_page c.default_events_per_page, default_page_above_max)
    ∷ []

abbrev pub limits : List Setting
limits =
    max_event_size ∷ max_projection_size ∷ max_events_per_tx ∷ max_reads_per_tx
    ∷ max_projections_per_tx ∷ max_events_per_tx_read ∷ max_projections_per_write
    ∷ max_request_body_size ∷ max_queued_writes ∷ read_pool_size ∷ tx_idle_timeout ∷ max_open_tx
    ∷ []

module _ (is_loopback_ip : Bytes → Bool) where
  abbrev pub address_cases : Config → List (Bool × Invalid)
  address_cases c =
      let tcp = is_empty c.socket_path in
      (ltb max_socket_path_len (length c.socket_path), socket_path_too_long)
      ∷ (not tcp && not (valid_socket_mode c.socket_mode), bad_socket_mode)
      ∷ (tcp && is_empty c.bind_address, no_bind_address)
      ∷ (tcp && not (is_positive c.port && ltb_ℤ c.port (pos 65536)), bad_port)
      ∷ (
        tcp
            && is_empty c.auth_token_file
            && not c.allow_no_auth
            && not c.dev_mode
            && not (is_loopback is_loopback_ip c.bind_address),
        open_without_token,
      )
      ∷ []

  unfoldable pub validate : Config → Option Invalid
  unfolding valid_socket_mode is_loopback first_true contains
  validate c = first_true (address_cases c ++ page_cases c ++ map (below_one c) limits)

abbrev pub or_zero : Option ℕ → ℕ
or_zero none = 0
or_zero (some n) = n

-- The permission bits of the socket.
unfoldable pub socket_file_mode : Config → ℕ
unfolding parse_octal
socket_file_mode c = or_zero (parse_octal c.socket_mode)
