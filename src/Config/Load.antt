-- ===== src/Config/Load.antt =====
-- internal/config/config.go and file.go: Load, which joins the file, the environment and the defaults.
use tamarackdb.Prelude.{
  ℕ, ◌+◌, Bool, true, false, ◌&&◌, not, List, [], ◌∷◌, ◌++◌, map, Option, none, some, ltb, leb, all,
  if◌then◌else◌,
}
use mathlib.Core.List.{reverse}
use tamarackdb.Prelude.Eq.{Bytes, bytes, bytes_eq, nat_eq, contains}
use tamarackdb.Prelude.Exec.{Result, ok, err, and_then}
use tamarackdb.Prelude.Int.{ℤ, pos, is_zero}
use tamarackdb.Config.Numbers.{atoi, parse_bool}
use tamarackdb.Config.Validate.{Invalid, is_empty, validate}
use tamarackdb.Config.{
  Config, FileBools, Setting, port_setting, default_events_per_page, max_events_per_page,
  max_event_size, max_projection_size, max_events_per_tx, max_reads_per_tx, max_projections_per_tx,
  max_projections_per_write, max_events_per_tx_read, max_request_body_size, max_queued_writes,
  read_pool_size, tx_idle_timeout, max_open_tx, value_of, variable_of, default_of,
  default_socket_path, default_socket_mode, default_bind_address, default_data_dir,
  default_log_level,
}

-- What `readFile` makes of the configuration file: the decoded sections, or why there is none. The
-- boolean keys are decoded once more, which may fail by itself.
pub data FileRead {ℓ} (C : Type ℓ) : Type ℓ where
  missing unreadable undecodable : FileRead C
  found : C → Option FileBools → FileRead C

-- The environment, the token files and the Unicode tables: `none` is a variable that is not set, or a
-- file that cannot be read.
pub record Outside : Type 0 where
  pub variable : Bytes → Option Bytes
  pub token_file : Bytes → Option Bytes
  pub lower : Bytes → Bytes
  pub trim : Bytes → Bytes
  pub is_loopback_ip : Bytes → Bool

pub data ConfigError : Type 0 where
  file_unreadable file_undecodable token_unreadable token_empty : ConfigError
  invalid_variables : List Bytes → ConfigError
  invalid : Invalid → ConfigError

abbrev pub is_ascii : Bytes → Bool
is_ascii s = all (λ c. ltb c 128) s

abbrev pub lower_byte : ℕ → ℕ
lower_byte c = if leb b'A' c && leb c b'Z' then c + 32 else c

abbrev pub is_space : ℕ → Bool
is_space c = contains (9 ∷ 10 ∷ 11 ∷ 12 ∷ 13 ∷ 32 ∷ []) c

abbrev pub trim_left : Bytes → Bytes
trim_left [] = []
trim_left (c ∷ rest) = let shorter = trim_left rest in if is_space c then shorter else c ∷ rest

module _ (out : Outside) where
  -- `strings.ToLower` and `strings.TrimSpace`.
  unfoldable pub to_lower : Bytes → Bytes
  unfolding all
  to_lower s = if is_ascii s then map lower_byte s else out.lower s

  unfoldable pub trim_space : Bytes → Bytes
  unfolding all contains
  trim_space s = if is_ascii s then reverse (trim_left (reverse (trim_left s))) else out.trim s

  abbrev pub set_or : Bytes → Option Bytes → Bytes
  set_or dst none = dst
  set_or dst (some v) = v

  unfoldable pub env_string : Bytes → Bytes → Bytes
  env_string dst name = if not (is_empty dst) then dst else set_or dst (out.variable name)

  -- The value with the name of the variable, if it is invalid.
  abbrev pub parsed {ℓ} : {A : Type ℓ} → Bytes → A → Option A → A × List Bytes
  parsed name dst none = (dst, name ∷ [])
  parsed name dst (some a) = (a, [])

  abbrev pub read_int : Bytes → ℤ → Option Bytes → ℤ × List Bytes
  read_int name dst none = (dst, [])
  read_int name dst (some v) = parsed name dst (atoi v)

  unfoldable pub env_int : ℤ → Bytes → ℤ × List Bytes
  unfolding atoi
  env_int dst name = if not (is_zero dst) then (dst, []) else read_int name dst (out.variable name)

  abbrev pub read_bool : Bytes → Bool → Option Bytes → Bool × List Bytes
  read_bool name dst none = (dst, [])
  read_bool name dst (some v) = parsed name dst (parse_bool v)

  abbrev pub is_set : Option Bool → Bool
  is_set none = false
  is_set (some b) = true

  unfoldable pub env_bool : Bool → Bool → Bytes → Bool × List Bytes
  unfolding parse_bool
  env_bool dst in_file name = if in_file then (dst, []) else read_bool name dst (out.variable name)

  abbrev pub env_setting : Config → Setting → ℤ × List Bytes
  env_setting c s = env_int (value_of s c) (variable_of s)

  unfoldable pub apply_env : Config → FileBools → Config × List Bytes
  unfolding env_string env_int env_bool
  apply_env c in_file =
      let no_auth =
        env_bool c.allow_no_auth (is_set in_file.allow_no_auth)
          (bytes "TAMARACKDB_ALLOW_NO_AUTH") in
      let dev = env_bool c.dev_mode (is_set in_file.dev_mode) (bytes "TAMARACKDB_DEV_MODE") in
      let read = env_setting c in
      (
        record {
          socket_path = env_string c.socket_path (bytes "TAMARACKDB_SOCKET_PATH");
          socket_mode = env_string c.socket_mode (bytes "TAMARACKDB_SOCKET_MODE");
          bind_address = env_string c.bind_address (bytes "TAMARACKDB_BIND_ADDRESS");
          port = (read port_setting).0;
          auth_token_file = env_string c.auth_token_file (bytes "TAMARACKDB_AUTH_TOKEN_FILE");
          auth_token = c.auth_token;
          allow_no_auth = no_auth.0;
          data_dir = env_string c.data_dir (bytes "TAMARACKDB_DATA_DIR");
          dev_mode = dev.0;
          log_level = env_string c.log_level (bytes "TAMARACKDB_LOG_LEVEL");
          default_events_per_page = (read default_events_per_page).0;
          max_events_per_page = (read max_events_per_page).0;
          max_event_size = (read max_event_size).0;
          max_projection_size = (read max_projection_size).0;
          max_events_per_tx = (read max_events_per_tx).0;
          max_reads_per_tx = (read max_reads_per_tx).0;
          max_projections_per_tx = (read max_projections_per_tx).0;
          max_projections_per_write = (read max_projections_per_write).0;
          max_events_per_tx_read = (read max_events_per_tx_read).0;
          max_request_body_size = (read max_request_body_size).0;
          max_queued_writes = (read max_queued_writes).0;
          read_pool_size = (read read_pool_size).0;
          tx_idle_timeout = (read tx_idle_timeout).0;
          max_open_tx = (read max_open_tx).0;
        },
        (read port_setting).1
            ++ (no_auth.1
                ++ (dev.1
                    ++ ((read default_events_per_page).1
                        ++ ((read max_events_per_page).1
                            ++ ((read max_event_size).1
                                ++ ((read max_projection_size).1
                                    ++ ((read max_events_per_tx).1
                                        ++ ((read max_reads_per_tx).1
                                            ++ ((read max_projections_per_tx).1
                                                ++ ((read max_projections_per_write).1
                                                    ++ ((read max_events_per_tx_read).1
                                                        ++ ((read max_request_body_size).1
                                                            ++ ((read max_queued_writes).1
                                                            ++ ((read read_pool_size).1
                                                            ++ ((read tx_idle_timeout).1
                                                            ++ (read max_open_tx).1))))))))))))))),
      )

  abbrev pub or_text : Bytes → Bytes → Bytes
  or_text s default = if is_empty s then default else s

  abbrev pub or_default : Setting → Config → ℤ
  or_default s c = if is_zero (value_of s c) then default_of s else value_of s c

  -- The socket, or a TCP address.
  unfoldable pub default_address : Config → Config
  default_address c =
      let path =
        if is_empty c.socket_path && is_empty c.bind_address && is_zero c.port
        then default_socket_path
        else c.socket_path in
      let tcp = is_empty path in
      record c {
        socket_path = path;
        socket_mode = if tcp then c.socket_mode else or_text c.socket_mode default_socket_mode;
        bind_address = if tcp then or_text c.bind_address default_bind_address else c.bind_address;
        port = if tcp then or_default port_setting c else c.port;
      }

  unfoldable pub default_limits : Config → Config
  default_limits c = record c {
    data_dir = or_text c.data_dir default_data_dir;
    log_level = or_text c.log_level default_log_level;
    default_events_per_page = or_default default_events_per_page c;
    max_events_per_page = or_default max_events_per_page c;
    max_event_size = or_default max_event_size c;
    max_projection_size = or_default max_projection_size c;
    max_events_per_tx = or_default max_events_per_tx c;
    max_reads_per_tx = or_default max_reads_per_tx c;
    max_projections_per_tx = or_default max_projections_per_tx c;
    max_projections_per_write = or_default max_projections_per_write c;
    max_events_per_tx_read = or_default max_events_per_tx_read c;
    max_request_body_size = or_default max_request_body_size c;
    max_queued_writes = or_default max_queued_writes c;
    read_pool_size = or_default read_pool_size c;
    tx_idle_timeout = or_default tx_idle_timeout c;
    max_open_tx = or_default max_open_tx c;
  }

  abbrev pub nonempty_token : Bytes → Result ConfigError Bytes
  nonempty_token token = if is_empty token then err token_empty else ok token

  unfoldable pub read_token_file : Bytes → Result ConfigError Bytes
  unfolding trim_space
  read_token_file path = elim (out.token_file path) [
    | none ↦ err token_unreadable
    | some content ↦ nonempty_token (trim_space content)
  ]

  unfoldable pub with_token : Config → Result ConfigError Config
  unfolding read_token_file
  with_token c =
      if is_empty c.auth_token_file
      then ok c
      else and_then (read_token_file c.auth_token_file)
          (λ token. ok (record c { auth_token = token }))

  abbrev pub checked : Config → Option Invalid → Result ConfigError Config
  checked c none = ok c
  checked c (some e) = err (invalid e)

  abbrev pub no_config : Config
  no_config = record {
    socket_path = [];
    socket_mode = [];
    bind_address = [];
    port = pos 0;
    auth_token_file = [];
    auth_token = [];
    allow_no_auth = false;
    data_dir = [];
    dev_mode = false;
    log_level = [];
    default_events_per_page = pos 0;
    max_events_per_page = pos 0;
    max_event_size = pos 0;
    max_projection_size = pos 0;
    max_events_per_tx = pos 0;
    max_reads_per_tx = pos 0;
    max_projections_per_tx = pos 0;
    max_projections_per_write = pos 0;
    max_events_per_tx_read = pos 0;
    max_request_body_size = pos 0;
    max_queued_writes = pos 0;
    read_pool_size = pos 0;
    tx_idle_timeout = pos 0;
    max_open_tx = pos 0;
  }

  -- The zero value of the section, when there is no file.
  abbrev pub file_config : FileRead Config → Result ConfigError (Config × FileBools)
  file_config missing = ok (no_config, record { allow_no_auth = none; dev_mode = none })
  file_config unreadable = err file_unreadable
  file_config undecodable = err file_undecodable
  file_config (found c none) = err file_undecodable
  file_config (found c (some bools)) = ok (c, bools)

  abbrev pub joined : Config × List Bytes → Result ConfigError Config
  joined (c, []) = ok c
  joined (c, e ∷ es) = err (invalid_variables (e ∷ es))

  abbrev pub lowered : Config → Config
  lowered c = record c { log_level = to_lower c.log_level }

  unfoldable pub load : FileRead Config → Result ConfigError Config
  unfolding apply_env to_lower default_address default_limits with_token validate
  load file = and_then (file_config file) λ (c, in_file).
      and_then (joined (apply_env c in_file)) λ settings.
        and_then (with_token (default_limits (default_address (lowered settings))))
          λ c'. checked c' (validate out.is_loopback_ip c')
