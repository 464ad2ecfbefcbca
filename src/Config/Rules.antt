-- ===== src/Config/Rules.antt =====
-- What Validate accepts, described setting by setting.
use tamarackdb.Prelude.{
  ℕ, ◌≤◌, ◌≡◌, ◌≢◌, ◌↔◌, inl, inr, refl, Bool, true, false, ◌&&◌, not, List, [], ◌∷◌, ◌++◌, map,
  none, some, Option, ◌⊎◌, length, All, arith, Bool-cases,
}
use tamarackdb.Prelude.Eq.{Bytes, bytes, bytes_eq, bytes_beq_iff, contains}
use tamarackdb.Config.Numbers.{parse_octal}
use tamarackdb.Prelude.Int.{ℤ, pos, is_positive, ltb_ℤ, IsPositive}
use tamarackdb.Config.{Config, Setting, value_of}
use tamarackdb.Config.Validate.{
  is_empty, at_most_0777, valid_socket_mode, is_loopback, log_levels, below_one, first_true,
  address_cases, page_cases, limits, validate,
}

pub first_true-none {ℓ} :
    {E : Type ℓ} (cases : List (Bool × E))
    → (first_true cases ≡ none) ↔ All (λ c. c.0 ≡ false) cases
unfolding first_true
first_true-none [] = ((λ h. tt), (λ h. refl))
first_true-none ((true, e) ∷ rest) =
    ((λ h. absurd (ground (arith, h))), (λ h. absurd (ground (arith, h.0))))
first_true-none ((false, e) ∷ rest) =
    ((λ h. (refl, (first_true-none rest).0 h)), (λ h. (first_true-none rest).1 h.1))

-- The address of a listener: a unix socket, or TCP. An address that other hosts reach needs a token or
-- the permission to serve without one.
pub record ListensSafely (is_loopback_ip : Bytes → Bool) (c : Config) : Type 0 where
  pub path_fits : length c.socket_path ≤ 107
  pub mode_valid : c.socket_path ≢ [] → (n : ℕ) × (parse_octal c.socket_mode ≡ some n) × (n ≤ 511)
  pub address_set : c.socket_path ≡ [] → c.bind_address ≢ []
  pub port_valid : c.socket_path ≡ [] → (n : ℕ) × (c.port ≡ pos n) × (1 ≤ n) × (n ≤ 65535)
  pub guarded :
      c.socket_path ≡ []
      → c.auth_token_file ≡ []
      → c.allow_no_auth ≡ false
      → c.dev_mode ≡ false
      → (c.bind_address ≡ bytes "localhost") ⊎ (is_loopback_ip c.bind_address ≡ true)

pub record IsValid (is_loopback_ip : Bytes → Bool) (c : Config) : Type 0 where
  pub listens : ListensSafely is_loopback_ip c
  pub data_dir_set : c.data_dir ≢ []
  pub level_known :
      (c.log_level ≡ bytes "debug")
      ⊎ (c.log_level ≡ bytes "info")
      ⊎ (c.log_level ≡ bytes "warning")
      ⊎ (c.log_level ≡ bytes "error")
  pub pages_positive : IsPositive c.default_events_per_page × IsPositive c.max_events_per_page
  pub pages_ordered : ltb_ℤ c.max_events_per_page c.default_events_per_page ≡ false
  pub limits_positive : All IsPositive (
      c.max_event_size ∷ c.max_projection_size ∷ c.max_events_per_tx ∷ c.max_reads_per_tx
      ∷ c.max_projections_per_tx ∷ c.max_events_per_tx_read ∷ c.max_projections_per_write
      ∷ c.max_request_body_size ∷ c.max_queued_writes ∷ c.read_pool_size ∷ c.tx_idle_timeout
      ∷ c.max_open_tx ∷ [])

octal_mode :
    (s : Bytes) → valid_socket_mode s ≡ true → (n : ℕ) × (parse_octal s ≡ some n) × (n ≤ 511)
unfolding valid_socket_mode
octal_mode s h = bounded (parse_octal s) h
  where
    bounded : (o : Option ℕ) → at_most_0777 o ≡ true → (n : ℕ) × (o ≡ some n) × (n ≤ 511)
    bounded none h = absurd (ground (arith, h))
    bounded (some n) h = (n, refl, ground (arith, h))

mode_of_octal :
    (s : Bytes) → (n : ℕ) × (parse_octal s ≡ some n) × (n ≤ 511) → valid_socket_mode s ≡ true
unfolding valid_socket_mode
mode_of_octal s (n, e, h) = rw e (ground (arith, h))

is_loopback_iff :
    (ip : Bytes → Bool) (a : Bytes)
    → (is_loopback ip a ≡ true) ↔ ((a ≡ bytes "localhost") ⊎ (ip a ≡ true))
unfolding is_loopback
is_loopback_iff ip a = ground (arith, bytes_beq_iff a (bytes "localhost"))

pub log_levels_iff :
    (s : Bytes)
    → (contains log_levels s ≡ true)
      ↔ ((s ≡ bytes "debug") ⊎ (s ≡ bytes "info") ⊎ (s ≡ bytes "warning") ⊎ (s ≡ bytes "error"))
unfolding contains
log_levels_iff s = ground (
  arith,
  bytes_beq_iff s (bytes "debug"),
  bytes_beq_iff s (bytes "info"),
  bytes_beq_iff s (bytes "warning"),
  bytes_beq_iff s (bytes "error"),
)

module _ (ip : Bytes → Bool) (c : Config) where
  port_cases :
      (z : ℤ)
      → (is_positive z && ltb_ℤ z (pos 65536)) ≡ true
      → (n : ℕ) × (z ≡ pos n) × (1 ≤ n) × (n ≤ 65535)
  port_cases (pos n) h = (n, refl, ground (arith, h), ground (arith, h))
  port_cases (ℤ.negsuc n) h = absurd (ground (arith, h))

  ListensSafely-address_cases : All (λ x. x.0 ≡ false) (address_cases ip c) → ListensSafely ip c
  ListensSafely-address_cases h = record {
    path_fits = ground (arith, h.0);
    mode_valid =
        λ e. octal_mode c.socket_mode (ground (arith, h.1.0, bytes_beq_iff c.socket_path [], e));
    address_set = λ e f.
        ground
          (arith, h.1.1.0, bytes_beq_iff c.socket_path [], e, bytes_beq_iff c.bind_address [], f);
    port_valid =
        λ e. port_cases c.port (ground (arith, h.1.1.1.0, bytes_beq_iff c.socket_path [], e));
    guarded = λ e f g k. (is_loopback_iff ip c.bind_address).0 (
        ground (
          arith,
          h.1.1.1.1.0,
          bytes_beq_iff c.socket_path [],
          e,
          bytes_beq_iff c.auth_token_file [],
          f,
          g,
          k,
        ));
  }

  token_case :
      (file no_auth dev loop : Bool)
      → (file ≡ true → no_auth ≡ false → dev ≡ false → loop ≡ true)
      → (file && not no_auth && not dev && not loop) ≡ false
  token_case false no_auth dev loop h = refl
  token_case true true dev loop h = refl
  token_case true false true loop h = refl
  token_case true false false loop h = ground (arith, h refl refl refl)

  address_cases-ListensSafely : ListensSafely ip c → All (λ x. x.0 ≡ false) (address_cases ip c)
  address_cases-ListensSafely h = elim (Bool-cases (is_empty c.socket_path)) [
    | inl tcp ↦
        let e : c.socket_path ≡ [] = (bytes_beq_iff c.socket_path []).0 tcp in
        let port = h.port_valid e in
        (
          ground (arith, h.path_fits),
          (
            ground (arith, tcp),
            (
              ground (arith, h.address_set e, bytes_beq_iff c.bind_address []),
              (
                ground (arith, port.1, port.2, port.3),
                (
                  ground (
                    arith,
                    tcp,
                    token_case (is_empty c.auth_token_file) c.allow_no_auth c.dev_mode
                        (is_loopback ip c.bind_address)
                        (λ f g k.
                          (is_loopback_iff ip c.bind_address).1
                            (h.guarded e ((bytes_beq_iff c.auth_token_file []).0 f) g k)),
                  ),
                  tt,
                ),
              ),
            ),
          ),
        )
    | inr sock ↦
        let ne : c.socket_path ≢ [] =
          λ e. ground (arith, sock, (bytes_beq_iff c.socket_path []).1 e) in
        (
          ground (arith, h.path_fits),
          (
            ground (arith, mode_of_octal c.socket_mode (h.mode_valid ne)),
            (ground (arith, sock), (ground (arith, sock), (ground (arith, sock), tt))),
          ),
        )
  ]

below_one-All :
    (c : Config) (settings : List Setting)
    → All (λ x. x.0 ≡ false) (map (below_one c) settings)
      ↔ All (λ s. IsPositive (value_of s c)) settings
below_one-All c [] = ((λ h. tt), (λ h. tt))
below_one-All c (s ∷ rest) = (
  (λ h. (ground (arith, h.0), (below_one-All c rest).0 h.1)),
  (λ h. (ground (arith, h.0), (below_one-All c rest).1 h.1)),
)

-- `Validate` accepts exactly the settings that meet the rules: a listener that is safe, a data
-- directory, a known log level, a default page within the maximum, and limits greater than zero.
pub validate-IsValid_iff : (ip : Bytes → Bool) (c : Config) → (validate ip c ≡ none) ↔ IsValid ip c
unfolding validate
validate-IsValid_iff ip c = (
  (λ h.
      let all_false =
        (first_true-none (address_cases ip c ++ page_cases c ++ map (below_one c) limits)).0 h in
      let b = all_false.1.1.1.1.1 in
      record {
        listens = ListensSafely-address_cases ip c (
          all_false.0,
          (all_false.1.0, (all_false.1.1.0, (all_false.1.1.1.0, (all_false.1.1.1.1.0, tt)))),
        );
        data_dir_set = λ e. ground (arith, b.0, (bytes_beq_iff c.data_dir []).1 e);
        level_known = (log_levels_iff c.log_level).0 (ground (arith, b.1.0));
        pages_positive = (ground (arith, b.1.1.0), ground (arith, b.1.1.1.0));
        pages_ordered = b.1.1.1.1.0;
        limits_positive = (below_one-All c limits).0 b.1.1.1.1.1;
      }),
  (λ h.
      let a = address_cases-ListensSafely ip c h.listens in
      (first_true-none (address_cases ip c ++ page_cases c ++ map (below_one c) limits)).1 (
        a.0,
        (
          a.1.0,
          (
            a.1.1.0,
            (
              a.1.1.1.0,
              (
                a.1.1.1.1.0,
                (
                  ground (arith, h.data_dir_set, bytes_beq_iff c.data_dir []),
                  (
                    ground (arith, (log_levels_iff c.log_level).1 h.level_known),
                    (
                      ground (arith, h.pages_positive.0),
                      (
                        ground (arith, h.pages_positive.1),
                        (h.pages_ordered, (below_one-All c limits).1 h.limits_positive),
                      ),
                    ),
                  ),
                ),
              ),
            ),
          ),
        ),
      )),
)
