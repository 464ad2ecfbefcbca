-- ===== src/Config/Choice.antt =====
-- Where each numeric setting that Load returns comes from.
use tamarackdb.Prelude.{
  ◌≡◌, ◌≢◌, refl, ◌∙◌, sym, ap, subst, Bool, true, false, not, List, [], ◌∷◌, ◌++◌, Option, none,
  some, arith, inl, inr, if◌then◌else◌,
}
use tamarackdb.Prelude.Eq.{Bytes, bytes, bytes_eq}
use tamarackdb.Prelude.Exec.{ok}
use tamarackdb.Prelude.Int.{ℤ, is_zero}
use tamarackdb.Config.Numbers.{atoi}
use tamarackdb.Config.{
  Config, FileBools, Setting, port_setting, default_events_per_page, max_events_per_page,
  max_event_size, max_projection_size, max_events_per_tx, max_reads_per_tx, max_projections_per_tx,
  max_projections_per_write, max_events_per_tx_read, max_request_body_size, max_queued_writes,
  read_pool_size, tx_idle_timeout, max_open_tx, value_of, variable_of, default_of,
}
use tamarackdb.Config.Load.{
  FileRead, Outside, file_config, apply_env, lowered, default_address, default_limits, with_token,
  load, env_setting, env_bool, is_set, env_int, read_int, parsed,
}
use tamarackdb.Config.Settings.{load-Loaded, with_token-ok}

append-eq-nil {ℓ} : {A : Type ℓ} (xs ys : List A) → xs ++ ys ≡ [] → (xs ≡ []) × (ys ≡ [])
append-eq-nil [] ys h = (refl, h)
append-eq-nil (x ∷ xs) ys h = absurd (cc)

-- Where a numeric setting comes from: the file, if it sets another value than zero; else the
-- environment, if the variable is set to one; else the default.
pub data Chosen (file : ℤ) (variable : Option Bytes) (default : ℤ) : ℤ → Type 0 where
  from_file : is_zero file ≡ false → Chosen file variable default file
  from_variable :
      (text : Bytes) (n : ℤ)
      → is_zero file ≡ true
      → variable ≡ some text
      → atoi text ≡ some n
      → is_zero n ≡ false
      → Chosen file variable default n
  from_zero_variable :
      (text : Bytes) (n : ℤ)
      → is_zero file ≡ true
      → variable ≡ some text
      → atoi text ≡ some n
      → is_zero n ≡ true
      → Chosen file variable default default
  from_default : is_zero file ≡ true → variable ≡ none → Chosen file variable default default

env_int-Chosen :
    (out : Outside) (file default : ℤ) (name : Bytes)
    → (env_int out file name).1 ≡ []
    → let v = (env_int out file name).0 in
      Chosen file (out.variable name) default (if is_zero v then default else v)
unfolding env_int
env_int-Chosen out file default name clean = by_file (is_zero file) refl clean
  where
    value : Bool → ℤ × List Bytes
    value b = if not b then (file, []) else read_int out name file (out.variable name)

    chosen : ℤ → Type 0
    chosen v = Chosen file (out.variable name) default (if is_zero v then default else v)

    by_value :
        (n : ℤ) (b : Bool)
        → is_zero n ≡ b
        → (b ≡ true → Chosen file (out.variable name) default default)
        → (b ≡ false → Chosen file (out.variable name) default n)
        → chosen n
    by_value n true e f g = rw e (f refl)
    by_value n false e f g = rw e (g refl)

    by_atoi :
        (text : Bytes) (o : Option ℤ)
        → is_zero file ≡ true
        → out.variable name ≡ some text
        → atoi text ≡ o
        → (parsed out name file o).1 ≡ []
        → chosen (parsed out name file o).0
    by_atoi text none zero set e clean = absurd (cc)
    by_atoi text (some n) zero set e clean =
        by_value n (is_zero n) refl (λ z. from_zero_variable text n zero set e z)
          (λ z. from_variable text n zero set e z)

    by_variable :
        (o : Option Bytes)
        → is_zero file ≡ true
        → out.variable name ≡ o
        → (read_int out name file o).1 ≡ []
        → chosen (read_int out name file o).0
    by_variable none zero e clean = rw zero (from_default zero e)
    by_variable (some text) zero e clean = by_atoi text (atoi text) zero e refl clean

    by_file : (b : Bool) → is_zero file ≡ b → (value b).1 ≡ [] → chosen (value b).0
    by_file false e clean = rw e (from_file e)
    by_file true e clean = by_variable (out.variable name) e refl clean

-- Every variable of a numeric setting was read without an error.
setting_clean :
    (out : Outside) (f : Config) (bools : FileBools)
    → (apply_env out f bools).1 ≡ []
    → (s : Setting) → (env_setting out f s).1 ≡ []
unfolding apply_env
setting_clean out f bools h s =
    let a0 = append-eq-nil (env_setting out f port_setting).1 _ h in
    let a1 =
      append-eq-nil
        (env_bool out f.allow_no_auth (is_set out bools.allow_no_auth)
          (bytes "TAMARACKDB_ALLOW_NO_AUTH")).1
        _ a0.1 in
    let a2 =
      append-eq-nil
        (env_bool out f.dev_mode (is_set out bools.dev_mode) (bytes "TAMARACKDB_DEV_MODE")).1 _
        a1.1 in
    let a3 = append-eq-nil (env_setting out f default_events_per_page).1 _ a2.1 in
    let a4 = append-eq-nil (env_setting out f max_events_per_page).1 _ a3.1 in
    let a5 = append-eq-nil (env_setting out f max_event_size).1 _ a4.1 in
    let a6 = append-eq-nil (env_setting out f max_projection_size).1 _ a5.1 in
    let a7 = append-eq-nil (env_setting out f max_events_per_tx).1 _ a6.1 in
    let a8 = append-eq-nil (env_setting out f max_reads_per_tx).1 _ a7.1 in
    let a9 = append-eq-nil (env_setting out f max_projections_per_tx).1 _ a8.1 in
    let a10 = append-eq-nil (env_setting out f max_projections_per_write).1 _ a9.1 in
    let a11 = append-eq-nil (env_setting out f max_events_per_tx_read).1 _ a10.1 in
    let a12 = append-eq-nil (env_setting out f max_request_body_size).1 _ a11.1 in
    let a13 = append-eq-nil (env_setting out f max_queued_writes).1 _ a12.1 in
    let a14 = append-eq-nil (env_setting out f read_pool_size).1 _ a13.1 in
    let a15 = append-eq-nil (env_setting out f tx_idle_timeout).1 _ a14.1 in
    elim s as (λ t. (env_setting out f t).1 ≡ []) [
      | port_setting ↦ a0.0
      | default_events_per_page ↦ a3.0
      | max_events_per_page ↦ a4.0
      | max_event_size ↦ a5.0
      | max_projection_size ↦ a6.0
      | max_events_per_tx ↦ a7.0
      | max_reads_per_tx ↦ a8.0
      | max_projections_per_tx ↦ a9.0
      | max_projections_per_write ↦ a10.0
      | max_events_per_tx_read ↦ a11.0
      | max_request_body_size ↦ a12.0
      | max_queued_writes ↦ a13.0
      | read_pool_size ↦ a14.0
      | tx_idle_timeout ↦ a15.0
      | max_open_tx ↦ a15.1
    ]

value_of-defaults :
    (out : Outside) (f : Config) (bools : FileBools) (s : Setting)
    → s ≢ port_setting
    → value_of s (default_limits out (default_address out (lowered out (apply_env out f bools).0)))
      ≡ (if is_zero (env_setting out f s).0 then default_of s else (env_setting out f s).0)
unfolding default_limits default_address apply_env
value_of-defaults out f bools port_setting ne = absurd (ne refl)
value_of-defaults out f bools default_events_per_page ne = refl
value_of-defaults out f bools _ ne = refl

value_of-with_token :
    (out : Outside) (c c' : Config) (s : Setting)
    → with_token out c ≡ ok c'
    → value_of s c' ≡ value_of s c
value_of-with_token out c c' s h = elim (with_token-ok out c c' h) [
  | inl (same, empty) ↦ ap (value_of s) (sym same)
  | inr (token, full, made) ↦ ap (value_of s) made ∙ unchanged token s
]
  where
    unchanged :
        (token : Bytes) (t : Setting) → value_of t (record c { auth_token = token }) ≡ value_of t c
    unchanged token port_setting = refl
    unchanged token _ = refl

-- Each numeric setting that Load returns, the port aside, comes from the file if it sets it, else from
-- its environment variable, else from its default; a zero counts as not set.
pub load-Chosen :
    (out : Outside) (file : FileRead Config) (from c : Config) (bools : FileBools) (s : Setting)
    → file_config out file ≡ ok (from, bools)
    → load out file ≡ ok c
    → s ≢ port_setting
    → Chosen (value_of s from) (out.variable (variable_of s)) (default_of s) (value_of s c)
load-Chosen out file from c bools s decoded h ne =
    let steps = load-Loaded out file c h in
    let same : steps.from_file ≡ from = ground (arith, steps.decoded, decoded) in
    subst (λ f. Chosen (value_of s f) (out.variable (variable_of s)) (default_of s) (value_of s c))
      same
      (subst (Chosen (value_of s steps.from_file) (out.variable (variable_of s)) (default_of s))
        (sym (
          value_of-with_token out _ c s steps.secret
          ∙ value_of-defaults out steps.from_file steps.in_file s ne))
        (env_int-Chosen out (value_of s steps.from_file) (default_of s) (variable_of s)
          (setting_clean out steps.from_file steps.in_file steps.no_error s)))
