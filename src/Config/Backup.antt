-- ===== src/Config/Backup.antt =====
-- internal/config/backup.go: the settings of tamarackdb-backup. What `url.Parse` finds in a text, if it
-- parses, is an argument: the scheme and the host.
use tamarackdb.Prelude.{
  Bool, false, ◌&&◌, ◌||◌, not, List, [], ◌∷◌, Option, none, some, ltb, length, if◌then◌else◌,
}
use tamarackdb.Prelude.Eq.{Bytes, bytes, bytes_beq}
use tamarackdb.Prelude.Exec.{Result, ok, err, and_then}
use tamarackdb.Prelude.Int.{ℤ, pos, is_zero, is_positive}
use tamarackdb.Config.{max_socket_path_len}
use tamarackdb.Config.Validate.{is_empty, first_true}
use tamarackdb.Config.Load.{
  FileRead, missing, unreadable, undecodable, found, Outside, set_or, env_string, env_int, or_text,
  read_token_file, ConfigError, file_unreadable, file_undecodable, invalid_variables,
}

pub record BackupConfig : Type 0 where
  pub source_url : Bytes
  pub source_socket : Bytes
  pub source_token_file : Bytes
  pub source_token : Bytes
  pub data_dir : Bytes
  pub page_limit : ℤ

pub data InvalidBackup : Type 0 where
  no_source two_sources bad_url socket_too_long no_backup_dir bad_page_limit : InvalidBackup

pub data BackupError : Type 0 where
  from_config : ConfigError → BackupError
  invalid_backup : InvalidBackup → BackupError

abbrev pub default_backup_data_dir : Bytes
default_backup_data_dir = bytes "backup"

abbrev pub default_backup_page_limit : ℤ
default_backup_page_limit = pos 10000

abbrev pub http_url : Option (Bytes × Bytes) → Bool
http_url none = false
http_url (some (scheme, host)) =
    (bytes_beq scheme (bytes "http") || bytes_beq scheme (bytes "https")) && not (is_empty host)

module _ (out : Outside) (parse_url : Bytes → Option (Bytes × Bytes)) where
  abbrev pub valid_http_url : Bytes → Bool
  valid_http_url s = http_url (parse_url s)

  abbrev pub backup_cases : BackupConfig → List (Bool × InvalidBackup)
  backup_cases c =
      (is_empty c.source_url && is_empty c.source_socket, no_source)
      ∷ (not (is_empty c.source_url) && not (is_empty c.source_socket), two_sources)
      ∷ (not (is_empty c.source_url) && not (valid_http_url c.source_url), bad_url)
      ∷ (ltb max_socket_path_len (length c.source_socket), socket_too_long)
      ∷ (is_empty c.data_dir, no_backup_dir)
      ∷ (not (is_positive c.page_limit), bad_page_limit)
      ∷ []

  unfoldable pub validate_backup : BackupConfig → Option InvalidBackup
  unfolding first_true
  validate_backup c = first_true (backup_cases c)

  -- The page limit with the name of its variable, if that is invalid.
  unfoldable pub apply_backup_env : BackupConfig → Bool → BackupConfig × List Bytes
  unfolding env_string env_int
  apply_backup_env c source_in_file =
      let limit = env_int out c.page_limit (bytes "TAMARACKDB_BACKUP_PAGE_LIMIT") in
      (
        record {
          source_url =
              if source_in_file
              then c.source_url
              else set_or out c.source_url (out.variable (bytes "TAMARACKDB_BACKUP_SOURCE_URL"));
          source_socket =
              if source_in_file
              then c.source_socket
              else set_or out c.source_socket
                  (out.variable (bytes "TAMARACKDB_BACKUP_SOURCE_SOCKET"));
          source_token_file =
              env_string out c.source_token_file (bytes "TAMARACKDB_BACKUP_SOURCE_TOKEN_FILE");
          source_token = c.source_token;
          data_dir = env_string out c.data_dir (bytes "TAMARACKDB_BACKUP_DATA_DIR");
          page_limit = limit.0;
        },
        limit.1,
      )

  abbrev pub backup_defaults : BackupConfig → BackupConfig
  backup_defaults c = record c {
    data_dir = or_text out c.data_dir default_backup_data_dir;
    page_limit = if is_zero c.page_limit then default_backup_page_limit else c.page_limit;
  }

  abbrev pub no_backup_config : BackupConfig
  no_backup_config = record {
    source_url = [];
    source_socket = [];
    source_token_file = [];
    source_token = [];
    data_dir = [];
    page_limit = pos 0;
  }

  -- `LoadBackup` decodes the file once.
  abbrev pub backup_section : FileRead BackupConfig → Result BackupError BackupConfig
  backup_section missing = ok no_backup_config
  backup_section unreadable = err (from_config file_unreadable)
  backup_section undecodable = err (from_config file_undecodable)
  backup_section (found c bools) = ok c

  abbrev pub backup_joined : BackupConfig × List Bytes → Result BackupError BackupConfig
  backup_joined (c, []) = ok c
  backup_joined (c, e ∷ es) = err (from_config (invalid_variables (e ∷ es)))

  abbrev pub with_source_token :
      BackupConfig → Result ConfigError Bytes → Result BackupError BackupConfig
  with_source_token c (ok token) = ok (record c { source_token = token })
  with_source_token c (err e) = err (from_config e)

  abbrev pub backup_token : BackupConfig → Result BackupError BackupConfig
  backup_token c =
      if is_empty c.source_token_file
      then ok c
      else with_source_token c (read_token_file out c.source_token_file)

  abbrev pub checked_backup : BackupConfig → Option InvalidBackup → Result BackupError BackupConfig
  checked_backup c none = ok c
  checked_backup c (some e) = err (invalid_backup e)

  unfoldable pub load_backup : FileRead BackupConfig → Result BackupError BackupConfig
  unfolding apply_backup_env validate_backup read_token_file
  load_backup file = and_then (backup_section file) λ c.
      and_then
        (backup_joined
          (apply_backup_env c (not (is_empty c.source_url) || not (is_empty c.source_socket))))
        λ settings.
          and_then (backup_token (backup_defaults settings))
            λ c'. checked_backup c' (validate_backup c')
