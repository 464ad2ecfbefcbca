-- ===== src/Config/Examples.antt =====
-- Concrete settings, and instances of the theorems about them.
use tamarackdb.Prelude.{◌≡◌, ◌≢◌, refl, false, [], Option, none, some, if◌then◌else◌}
use tamarackdb.Prelude.Eq.{Bytes, bytes, bytes_eq, bytes_beq, contains}
use tamarackdb.Prelude.Exec.{ok}
use tamarackdb.Prelude.Int.{pos}
use tamarackdb.Config.{
  Config, FileBools, default_socket_path, default_socket_mode, max_events_per_tx, port_setting,
}
use tamarackdb.Config.Load.{found, Outside, load, no_config}
use tamarackdb.Config.Rules.{IsValid, validate-IsValid_iff}
use tamarackdb.Config.Validate.{validate}
use tamarackdb.Api.Setup.{new_panic, options_of}
use tamarackdb.Api.Loaded.{load-starts}
use tamarackdb.Config.Settings.{load-token}
use tamarackdb.Config.Choice.{load-Chosen, Chosen}

abbrev only : Bytes → Bytes → Bytes → Option Bytes
only name value asked = if bytes_beq asked name then some value else none

abbrev outside : Outside
outside = record {
  variable = only (bytes "TAMARACKDB_MAX_EVENTS_PER_TX") (bytes "250");
  token_file = only (bytes "token") (bytes "s3cret\n");
  lower = λ s. s;
  trim = λ s. s;
  is_loopback_ip = λ s. false;
}

abbrev from_file : Config
from_file = record (no_config outside) { auth_token_file = bytes "token" }

abbrev no_bools : FileBools
no_bools = record { allow_no_auth = none; dev_mode = none }

abbrev loaded : Config
loaded = record {
  socket_path = default_socket_path;
  socket_mode = default_socket_mode;
  bind_address = [];
  port = pos 0;
  auth_token_file = bytes "token";
  auth_token = bytes "s3cret";
  allow_no_auth = false;
  data_dir = bytes "data";
  dev_mode = false;
  log_level = bytes "info";
  default_events_per_page = pos 10000;
  max_events_per_page = pos 10000;
  max_event_size = pos 65536;
  max_projection_size = pos 65536;
  max_events_per_tx = pos 250;
  max_reads_per_tx = pos 100;
  max_projections_per_tx = pos 500;
  max_projections_per_write = pos 500;
  max_events_per_tx_read = pos 10000;
  max_request_body_size = pos 8388608;
  max_queued_writes = pos 100;
  read_pool_size = pos 8;
  tx_idle_timeout = pos 60;
  max_open_tx = pos 1000;
}

loads : load outside (found from_file (some no_bools)) ≡ ok loaded
unfolding load bytes_beq contains
loads = refl

token_file_set : loaded.auth_token_file ≢ []
token_file_set e = absurd (cc)

load-token_example : loaded.auth_token ≢ []
load-token_example =
    load-token outside (found from_file (some no_bools)) loaded loads token_file_set

not_the_port : max_events_per_tx ≢ port_setting
not_the_port e = absurd (cc)

load-Chosen_example :
    Chosen (pos 0) (outside.variable (bytes "TAMARACKDB_MAX_EVENTS_PER_TX")) (pos 100) (pos 250)
load-Chosen_example =
    load-Chosen outside (found from_file (some no_bools)) from_file loaded no_bools
      max_events_per_tx refl loads not_the_port

accepted : validate (λ s. false) loaded ≡ none
unfolding validate bytes_beq contains
accepted = refl

validate-IsValid_iff_example : IsValid (λ s. false) loaded
validate-IsValid_iff_example = (validate-IsValid_iff (λ s. false) loaded).0 accepted

load-starts_example : new_panic (options_of loaded) ≡ none
load-starts_example = load-starts outside (found from_file (some no_bools)) loaded loads
