-- ===== src/Config.antt =====
-- internal/config/config.go and file.go: the settings of the server. An error stands for its message.
-- The TOML file comes decoded, and strings outside ASCII are lowercased and trimmed by the Unicode tables.
pub mod Numbers
pub mod Load
pub mod Validate
pub mod Backup
pub mod Rules
pub mod Settings
pub mod Choice
mod Examples
use tamarackdb.Prelude.{ℕ, Bool, Option}
use tamarackdb.Prelude.Eq.{Bytes, bytes}
use tamarackdb.Prelude.Int.{ℤ, pos}

pub record Config : Type 0 where
  pub socket_path : Bytes
  pub socket_mode : Bytes
  pub bind_address : Bytes
  pub port : ℤ
  pub auth_token_file : Bytes
  pub auth_token : Bytes
  pub allow_no_auth : Bool
  pub data_dir : Bytes
  pub dev_mode : Bool
  pub log_level : Bytes
  pub default_events_per_page : ℤ
  pub max_events_per_page : ℤ
  pub max_event_size : ℤ
  pub max_projection_size : ℤ
  pub max_events_per_tx : ℤ
  pub max_reads_per_tx : ℤ
  pub max_projections_per_tx : ℤ
  pub max_projections_per_write : ℤ
  pub max_events_per_tx_read : ℤ
  pub max_request_body_size : ℤ
  pub max_queued_writes : ℤ
  pub read_pool_size : ℤ
  pub tx_idle_timeout : ℤ
  pub max_open_tx : ℤ

-- Which boolean keys the file sets: a nil pointer is `none`.
pub record FileBools : Type 0 where
  pub allow_no_auth : Option Bool
  pub dev_mode : Option Bool

abbrev pub default_socket_path : Bytes
default_socket_path = bytes "/run/tamarackdb/tamarackdb.sock"

abbrev pub default_socket_mode : Bytes
default_socket_mode = bytes "0600"

abbrev pub default_bind_address : Bytes
default_bind_address = bytes "127.0.0.1"

abbrev pub default_data_dir : Bytes
default_data_dir = bytes "data"

abbrev pub default_log_level : Bytes
default_log_level = bytes "info"

abbrev pub max_socket_path_len : ℕ
max_socket_path_len = 107

-- The numeric settings: a name for each field, its default and its environment variable.
pub data Setting : Type 0 where
  port_setting default_events_per_page max_events_per_page max_event_size : Setting
  max_projection_size max_events_per_tx max_reads_per_tx max_projections_per_tx : Setting
  max_projections_per_write max_events_per_tx_read max_request_body_size : Setting
  max_queued_writes read_pool_size tx_idle_timeout max_open_tx : Setting

abbrev pub default_of : Setting → ℤ
default_of port_setting = pos 8085
default_of default_events_per_page = pos 10000
default_of max_events_per_page = pos 10000
default_of max_event_size = pos 65536
default_of max_projection_size = pos 65536
default_of max_events_per_tx = pos 100
default_of max_reads_per_tx = pos 100
default_of max_projections_per_tx = pos 500
default_of max_projections_per_write = pos 500
default_of max_events_per_tx_read = pos 10000
default_of max_request_body_size = pos 8388608
default_of max_queued_writes = pos 100
default_of read_pool_size = pos 8
default_of tx_idle_timeout = pos 60
default_of max_open_tx = pos 1000

abbrev pub variable_of : Setting → Bytes
variable_of port_setting = bytes "TAMARACKDB_PORT"
variable_of default_events_per_page = bytes "TAMARACKDB_DEFAULT_EVENTS_PER_PAGE"
variable_of max_events_per_page = bytes "TAMARACKDB_MAX_EVENTS_PER_PAGE"
variable_of max_event_size = bytes "TAMARACKDB_MAX_EVENT_SIZE"
variable_of max_projection_size = bytes "TAMARACKDB_MAX_PROJECTION_SIZE"
variable_of max_events_per_tx = bytes "TAMARACKDB_MAX_EVENTS_PER_TX"
variable_of max_reads_per_tx = bytes "TAMARACKDB_MAX_READS_PER_TX"
variable_of max_projections_per_tx = bytes "TAMARACKDB_MAX_PROJECTIONS_PER_TX"
variable_of max_projections_per_write = bytes "TAMARACKDB_MAX_PROJECTIONS_PER_WRITE"
variable_of max_events_per_tx_read = bytes "TAMARACKDB_MAX_EVENTS_PER_TX_READ"
variable_of max_request_body_size = bytes "TAMARACKDB_MAX_REQUEST_BODY_SIZE"
variable_of max_queued_writes = bytes "TAMARACKDB_MAX_QUEUED_WRITES"
variable_of read_pool_size = bytes "TAMARACKDB_READ_POOL_SIZE"
variable_of tx_idle_timeout = bytes "TAMARACKDB_TX_IDLE_TIMEOUT"
variable_of max_open_tx = bytes "TAMARACKDB_MAX_OPEN_TX"

abbrev pub value_of : Setting → Config → ℤ
value_of port_setting c = c.port
value_of default_events_per_page c = c.default_events_per_page
value_of max_events_per_page c = c.max_events_per_page
value_of max_event_size c = c.max_event_size
value_of max_projection_size c = c.max_projection_size
value_of max_events_per_tx c = c.max_events_per_tx
value_of max_reads_per_tx c = c.max_reads_per_tx
value_of max_projections_per_tx c = c.max_projections_per_tx
value_of max_projections_per_write c = c.max_projections_per_write
value_of max_events_per_tx_read c = c.max_events_per_tx_read
value_of max_request_body_size c = c.max_request_body_size
value_of max_queued_writes c = c.max_queued_writes
value_of read_pool_size c = c.read_pool_size
value_of tx_idle_timeout c = c.tx_idle_timeout
value_of max_open_tx c = c.max_open_tx
