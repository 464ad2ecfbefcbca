-- ===== src/Config/Settings.antt =====
-- What Load returns: valid settings, with a token where one is asked for.
use tamarackdb.Prelude.{
  ◌≡◌, ◌≢◌, refl, ◌∙◌, sym, ap, false, List, [], ◌∷◌, Option, none, some, arith, Bool-cases, inl,
  inr, ◌⊎◌,
}
use tamarackdb.Prelude.Eq.{Bytes, bytes_eq, bytes_beq, bytes_beq_iff, contains}
use tamarackdb.Prelude.Exec.{Result, ok, err, and_then}
use tamarackdb.Prelude.Int.{pos}
use tamarackdb.Config.{
  Config, FileBools, default_events_per_page, max_events_per_page, max_event_size,
  max_projection_size, max_events_per_tx, max_reads_per_tx, max_projections_per_tx,
  max_projections_per_write, max_events_per_tx_read, max_request_body_size, max_queued_writes,
  read_pool_size, tx_idle_timeout, max_open_tx, default_of, default_socket_path,
  default_socket_mode, default_data_dir, default_log_level,
}
use tamarackdb.Config.Validate.{Invalid, is_empty, validate}
use tamarackdb.Config.Load.{
  FileRead, missing, Outside, file_config, joined, apply_env, lowered, default_address,
  default_limits, with_token, read_token_file, nonempty_token, checked, load, trim_space,
  token_unreadable,
}
use tamarackdb.Config.Rules.{IsValid, validate-IsValid_iff}

-- The steps of a successful Load.
pub record Loaded (out : Outside) (file : FileRead Config) (c : Config) : Type 0 where
  pub from_file : Config
  pub in_file : FileBools
  pub decoded : file_config out file ≡ ok (from_file, in_file)
  pub no_error : (apply_env out from_file in_file).1 ≡ []
  pub secret :
      with_token out
        (default_limits out (default_address out (lowered out (apply_env out from_file in_file).0)))
      ≡ ok c
  accepted : validate out.is_loopback_ip c ≡ none

checked-ok :
    (out : Outside) (c c' : Config) (o : Option Invalid)
    → checked out c' o ≡ ok c
    → (c' ≡ c) × (o ≡ none)
checked-ok out c c' none h = (ground (arith, h), refl)
checked-ok out c c' (some e) h = absurd (ground (arith, h))

joined-ok :
    (out : Outside) (a : Config × List Bytes) (c : Config)
    → joined out a ≡ ok c
    → (a.0 ≡ c) × (a.1 ≡ [])
joined-ok out (x, []) c h = (ground (arith, h), refl)
joined-ok out (x, e ∷ es) c h = absurd (ground (arith, h))

and_then-ok :
    {E A B : Type 0} (m : Result E A) (f : A → Result E B) (b : B)
    → and_then m f ≡ ok b
    → (a : A) × (m ≡ ok a) × (f a ≡ ok b)
and_then-ok (ok a) f b h = (a, refl, h)
and_then-ok (err e) f b h = absurd (cc)

pub load-Loaded :
    (out : Outside) (file : FileRead Config) (c : Config) → load out file ≡ ok c → Loaded out file c
unfolding load
load-Loaded out file c h =
    let ((f, bools), e1, h1) = and_then-ok (file_config out file) _ c h in
    let (x, e2, h2) = and_then-ok (joined out (apply_env out f bools)) _ c h1 in
    let (y, e3, h3) =
      and_then-ok (with_token out (default_limits out (default_address out (lowered out x)))) _ c
        h2 in
    let (same, clean) = joined-ok out (apply_env out f bools) x e2 in
    let (final, accepted) = checked-ok out c y (validate out.is_loopback_ip y) h3 in
    record {
      from_file = f;
      in_file = bools;
      decoded = e1;
      no_error = clean;
      secret =
          ap (λ z. with_token out (default_limits out (default_address out (lowered out z)))) same
          ∙ e3
          ∙ ap ok final;
      accepted = ap (validate out.is_loopback_ip) (sym final) ∙ accepted;
    }

-- Settings that Load returns meet the rules of Validate, wherever each comes from.
pub load-IsValid :
    (out : Outside) (file : FileRead Config) (c : Config)
    → load out file ≡ ok c
    → IsValid out.is_loopback_ip c
load-IsValid out file c h =
    let steps = load-Loaded out file c h in
    (validate-IsValid_iff out.is_loopback_ip c).0 steps.accepted

nonempty_token-ok : (out : Outside) (t token : Bytes) → nonempty_token out t ≡ ok token → token ≢ []
nonempty_token-ok out t token h e = elim (Bool-cases (is_empty t)) [
  | inl empty ↦ ground (arith, h, empty)
  | inr full ↦ ground (arith, h, full, e, bytes_beq_iff t [])
]

read_token_file-ok :
    (out : Outside) (path token : Bytes) → read_token_file out path ≡ ok token → token ≢ []
unfolding read_token_file
read_token_file-ok out path token h = go (out.token_file path) h
  where
    go :
        (o : Option Bytes)
        → (elim o [
          | none ↦ err token_unreadable
          | some content ↦ nonempty_token out (trim_space out content)
        ])
          ≡ ok token
        → token ≢ []
    go none h = absurd (cc)
    go (some content) h = nonempty_token-ok out (trim_space out content) token h

pub with_token-ok :
    (out : Outside) (c c' : Config)
    → with_token out c ≡ ok c'
    → ((c ≡ c') × (c'.auth_token_file ≡ []))
      ⊎ ((token : Bytes) × (token ≢ []) × (c' ≡ record c { auth_token = token }))
unfolding with_token
with_token-ok out c c' h = elim (Bool-cases (is_empty c.auth_token_file)) [
  | inl none_set ↦
      let same : c ≡ c' = ground (arith, h, none_set) in
      inl (
        same,
        ap (λ x. x.auth_token_file) (sym same) ∙ (bytes_beq_iff c.auth_token_file []).0 none_set,
      )
  | inr set ↦
      let (token, read, made) =
        and_then-ok (read_token_file out c.auth_token_file) (λ t. ok (record c { auth_token = t }))
          c' (ground (arith, h, set)) in
      inr (token, read_token_file-ok out c.auth_token_file token read, ground (arith, made))
]

-- A server that is to check a token never starts without one: when Load succeeds and a token file is
-- set, the token is not empty.
pub load-token :
    (out : Outside) (file : FileRead Config) (c : Config)
    → load out file ≡ ok c
    → c.auth_token_file ≢ []
    → c.auth_token ≢ []
load-token out file c h set =
    let steps = load-Loaded out file c h in
    elim (with_token-ok out _ c steps.secret) [
      | inl (same, empty) ↦ absurd (set empty)
      | inr (token, full, made) ↦ λ e. full (ap (λ x. x.auth_token) (sym made) ∙ e)
    ]

-- What the constants of the package make of no settings at all.
abbrev pub default_config : Config
default_config = record {
  socket_path = default_socket_path;
  socket_mode = default_socket_mode;
  bind_address = [];
  port = pos 0;
  auth_token_file = [];
  auth_token = [];
  allow_no_auth = false;
  data_dir = default_data_dir;
  dev_mode = false;
  log_level = default_log_level;
  default_events_per_page = default_of default_events_per_page;
  max_events_per_page = default_of max_events_per_page;
  max_event_size = default_of max_event_size;
  max_projection_size = default_of max_projection_size;
  max_events_per_tx = default_of max_events_per_tx;
  max_reads_per_tx = default_of max_reads_per_tx;
  max_projections_per_tx = default_of max_projections_per_tx;
  max_projections_per_write = default_of max_projections_per_write;
  max_events_per_tx_read = default_of max_events_per_tx_read;
  max_request_body_size = default_of max_request_body_size;
  max_queued_writes = default_of max_queued_writes;
  read_pool_size = default_of read_pool_size;
  tx_idle_timeout = default_of tx_idle_timeout;
  max_open_tx = default_of max_open_tx;
}

-- With no configuration file and no variable set, Load succeeds, whatever the rest of the system holds,
-- and returns the default of each setting, on the unix socket and not on TCP.
pub load_defaults :
    (out : Outside) → load (record out { variable = λ name. none }) missing ≡ ok default_config
unfolding load bytes_beq contains
load_defaults out = refl
