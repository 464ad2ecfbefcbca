-- ===== src/Api/Setup.antt =====
-- internal/api/router.go, auth.go, logging.go and level.go, and the call of `api.New` in
-- cmd/tamarackdb-server/main.go: the construction of a server, and what stands around its handlers.
use tamarackdb.Prelude.{
  ℕ, Bool, true, false, ◌&&◌, ◌||◌, not, List, [], ◌∷◌, Option, none, some, ltb, length, take, drop,
  map, if◌then◌else◌,
}
use tamarackdb.Prelude.Eq.{Bytes, bytes, bytes_beq}
use tamarackdb.Prelude.Int.{is_positive, ltb_ℤ}
use tamarackdb.Config.{Config}
use tamarackdb.Config.Load.{lower_byte}
use tamarackdb.Config.Validate.{first_true}
use tamarackdb.Api.{
  Level, debug, info, warning, error, unauthorized, Options, Answer, error_answer, Api,
}

abbrev pub parse_level : Bytes → Option Level
parse_level s =
    if bytes_beq s (bytes "debug")
    then some debug
    else if bytes_beq s (bytes "info")
    then some info
    else if bytes_beq s (bytes "warning")
    then some warning
    else if bytes_beq s (bytes "error")
    then some error
    else none

abbrev pub level_rank : Level → ℕ
level_rank debug = 0
level_rank info = 1
level_rank warning = 2
level_rank error = 3

-- The messages of the panics of `New`. Its pointers are those that `main` has just built.
pub data Misconfigured : Type 0 where
  default_page_not_positive max_page_not_positive default_page_over_max : Misconfigured
  event_size_not_positive projection_size_not_positive : Misconfigured
  projections_not_positive body_size_not_positive unknown_log_level : Misconfigured

abbrev pub is_none {ℓ} : {A : Type ℓ} → Option A → Bool
is_none none = true
is_none (some a) = false

-- The cases of the switch of `New`, and the panic, if any.
abbrev pub startup_checks : Options → List (Bool × Misconfigured)
startup_checks opts =
    (not (is_positive opts.default_events_per_page), default_page_not_positive)
    ∷ (not (is_positive opts.max_events_per_page), max_page_not_positive)
    ∷ (ltb_ℤ opts.max_events_per_page opts.default_events_per_page, default_page_over_max)
    ∷ (not (is_positive opts.max_event_size), event_size_not_positive)
    ∷ (not (is_positive opts.max_projection_size), projection_size_not_positive)
    ∷ (not (is_positive opts.max_projections_per_write), projections_not_positive)
    ∷ (not (is_positive opts.max_request_body_size), body_size_not_positive)
    ∷ (is_none (parse_level opts.log_level), unknown_log_level)
    ∷ []

unfoldable pub new_panic : Options → Option Misconfigured
unfolding first_true
new_panic opts = first_true (startup_checks opts)

-- The options that `main` passes to `New`.
unfoldable pub options_of : Config → Options
options_of cfg = record {
  auth_token = cfg.auth_token;
  default_events_per_page = cfg.default_events_per_page;
  max_events_per_page = cfg.max_events_per_page;
  max_event_size = cfg.max_event_size;
  max_projection_size = cfg.max_projection_size;
  max_projections_per_write = cfg.max_projections_per_write;
  max_request_body_size = cfg.max_request_body_size;
  dev_mode = cfg.dev_mode;
  log_level = cfg.log_level;
  on_fatal_storage_error = true;
}

abbrev pub bearer_prefix : Bytes
bearer_prefix = bytes "Bearer "

-- A missing header is the empty text. The prefix is ASCII, and no byte of another letter folds to one of
-- its letters.
unfoldable pub bearer_token : Bytes → Option Bytes
bearer_token h =
    if ltb (length h) (length bearer_prefix)
      || not (
          bytes_beq (map lower_byte (take (length bearer_prefix) h)) (map lower_byte bearer_prefix))
    then none
    else some (drop (length bearer_prefix) h)

-- `constantTimeEqual`, over the digest of `sha256`.
abbrev pub constant_time_equal : (Bytes → Bytes) → Bytes → Bytes → Bool
constant_time_equal digest a b = bytes_beq (digest a) (digest b)

abbrev pub token_accepted : (Bytes → Bytes) → Bytes → Option Bytes → Bool
token_accepted digest expected none = false
token_accepted digest expected (some token) = constant_time_equal digest token expected

-- `withAuth` around a handler, which `New` leaves out without a token.
unfoldable pub with_auth :
    (Bytes → Bytes) → Options → Bytes → (Api → Answer × Api) → Api → Answer × Api
unfolding bearer_token
with_auth digest opts header next a =
    if not (bytes_beq opts.auth_token [])
      && not (token_accepted digest opts.auth_token (bearer_token header))
    then (error_answer 401 unauthorized, a)
    else next a
