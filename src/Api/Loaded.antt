-- ===== src/Api/Loaded.antt =====
-- The server that `main` builds from its settings, and the pages it reads.
use tamarackdb.Prelude.{
  ℕ, ◌≤◌, ◌≡◌, ◌⊎◌, inl, inr, refl, subst, Bool, true, false, ◌||◌, Option, none, some, arith,
  Bool-cases, if◌then◌else◌,
}
use tamarackdb.Prelude.Eq.{Bytes, bytes, bytes_eq, bytes_beq, contains}
use tamarackdb.Prelude.Exec.{Result, ok, err, and_then}
use tamarackdb.Prelude.Int.{ℤ, pos, negsuc, is_negative, is_zero, ltb_ℤ, to_nat, IsPositive}
use tamarackdb.Dcb.Query.{validate}
use tamarackdb.Store.Read.{ReadFilter}
use tamarackdb.Config.{Config}
use tamarackdb.Config.Load.{FileRead, Outside, load}
use tamarackdb.Config.Validate.{log_levels}
use tamarackdb.Config.Rules.{first_true-none, log_levels_iff}
use tamarackdb.Config.Settings.{load-IsValid}
use tamarackdb.Api.{
  debug, info, warning, error, ApiError, Options, invalid, invalid_query, limit_exceeds_max,
}
use tamarackdb.Api.Requests.{
  ReadRequest, read_filter, require, after_checks, page_limit, validate_limit, to_sequence,
}
use tamarackdb.Api.Setup.{startup_checks, new_panic, options_of, parse_level, is_none}
use tamarackdb.Api.Checks.{AtMost, ltb_ℤ-AtMost_iff, and_then_iff, require_iff}

parse_level-known : (s : Bytes) → contains log_levels s ≡ true → is_none (parse_level s) ≡ false
unfolding contains
parse_level-known s h =
    by_test (bytes_beq s (bytes "debug")) (bytes_beq s (bytes "info"))
      (bytes_beq s (bytes "warning")) (bytes_beq s (bytes "error")) h
  where
    by_test :
        (a b c d : Bool)
        → (a || (b || (c || (d || false)))) ≡ true
        → is_none (
            if a
            then some debug
            else if b
            then some info
            else if c
            then some warning
            else if d
            then some error
            else none)
          ≡ false
    by_test true b c d h = refl
    by_test false true c d h = refl
    by_test false false true d h = refl
    by_test false false false true h = refl
    by_test false false false false h = absurd (ground (arith, h))

-- `New` does not panic on settings that Load returned.
pub load-starts :
    (out : Outside) (file : FileRead Config) (c : Config)
    → load out file ≡ ok c
    → new_panic (options_of c) ≡ none
unfolding new_panic options_of
load-starts out file c h =
    let v = load-IsValid out file c h in
    let limit = v.limits_positive in
    (first_true-none (startup_checks (options_of c))).1 (
      ground (arith, v.pages_positive.0),
      (
        ground (arith, v.pages_positive.1),
        (
          v.pages_ordered,
          (
            ground (arith, limit.0),
            (
              ground (arith, limit.1.0),
              (
                ground (arith, limit.1.1.1.1.1.1.0),
                (
                  ground (arith, limit.1.1.1.1.1.1.1.0),
                  (
                    parse_level-known c.log_level ((log_levels_iff c.log_level).1 v.level_known),
                    tt,
                  ),
                ),
              ),
            ),
          ),
        ),
      ),
    )

-- What `New` has checked of the page sizes.
abbrev pub PagesSet : Options → Type 0
PagesSet opts =
    IsPositive opts.default_events_per_page
    × AtMost (to_nat opts.default_events_per_page) opts.max_events_per_page

new_panic-PagesSet : (opts : Options) → new_panic opts ≡ none → PagesSet opts
unfolding new_panic
new_panic-PagesSet opts h =
    let checks = (first_true-none (startup_checks opts)).0 h in
    (
      ground (arith, checks.0),
      ordered opts.default_events_per_page (ground (arith, checks.0)) checks.1.1.0,
    )
  where
    ordered :
        (z : ℤ)
        → IsPositive z
        → ltb_ℤ opts.max_events_per_page z ≡ false
        → AtMost (to_nat z) opts.max_events_per_page
    ordered (pos n) p h = (ltb_ℤ-AtMost_iff n opts.max_events_per_page).0 h
    ordered (negsuc n) p h = absurd (ground (arith, p))

positive-to_nat : (z : ℤ) → IsPositive z → 1 ≤ to_nat z
positive-to_nat (pos n) h = ground (arith, h)
positive-to_nat (negsuc n) h = absurd (ground (arith, h))

validate_limit-ok : (z : ℤ) → validate_limit z ≡ ok tt → IsPositive z
validate_limit-ok (pos n) h = elim (Bool-cases (is_zero (pos n))) [
  | inl zero ↦ absurd (ground (arith, zero, h))
  | inr above ↦ ground (arith, above)
]
validate_limit-ok (negsuc n) h = absurd (ground (arith, h))

page_limit-within :
    (opts : Options) (limit : Option ℤ) (n : ℕ)
    → PagesSet opts
    → page_limit opts limit ≡ ok n
    → (1 ≤ n) × AtMost n opts.max_events_per_page
page_limit-within opts none n (positive, ordered) h =
    subst (λ m. (1 ≤ m) × AtMost m opts.max_events_per_page) (ground (arith, h))
      (positive-to_nat opts.default_events_per_page positive, ordered)
page_limit-within opts (some z) n set h =
    let (u, checked, h) =
      (and_then_iff (validate_limit z)
          (λ _.
            if ltb_ℤ opts.max_events_per_page z
            then err (invalid limit_exceeds_max)
            else ok (to_nat z))
          n).0
        h in
    elim (Bool-cases (ltb_ℤ opts.max_events_per_page z)) [
      | inl over ↦ absurd (ground (arith, over, h))
      | inr fits ↦
          subst (λ m. (1 ≤ m) × AtMost m opts.max_events_per_page) (ground (arith, fits, h))
            (within z (validate_limit-ok z checked) fits)
    ]
  where
    within :
        (z : ℤ)
        → IsPositive z
        → ltb_ℤ opts.max_events_per_page z ≡ false
        → (1 ≤ to_nat z) × AtMost (to_nat z) opts.max_events_per_page
    within (pos m) p fits =
        (ground (arith, p), (ltb_ℤ-AtMost_iff m opts.max_events_per_page).0 fits)
    within (negsuc m) p fits = absurd (ground (arith, p))

after_checks-ok :
    (after : Option ℤ) (backwards : Bool)
    → after_checks after backwards ≡ ok tt
    → (to_sequence after ≡ none) ⊎ (backwards ≡ false)
after_checks-ok none backwards h = inl refl
after_checks-ok (some z) true h = elim (Bool-cases (is_negative z)) [
  | inl negative ↦ absurd (ground (arith, negative, h))
  | inr natural ↦ absurd (ground (arith, natural, h))
]
after_checks-ok (some z) false h = inr refl

-- A read that the checks let through on a server whose settings New accepted: its query is valid, its page
-- holds at least one event and at most maxEventsPerPage, and it has no afterSequence or is not backwards.
pub read_filter-InBounds :
    (opts : Options) (req : ReadRequest) (f : ReadFilter)
    → new_panic opts ≡ none
    → read_filter opts req ≡ ok f
    → (validate f.query ≡ none)
      × (1 ≤ f.limit)
      × AtMost f.limit opts.max_events_per_page
      × ((f.after_sequence ≡ none) ⊎ (f.backwards ≡ false))
unfolding read_filter
read_filter-InBounds opts req f started h =
    let (u, valid, h) =
      (and_then_iff (require (λ e. invalid (invalid_query e)) (validate req.query)) after f).0 h in
    let (u', checked, h) =
      (and_then_iff (after_checks req.after_sequence req.backwards) paged f).0 h in
    let (n, limited, made) = (and_then_iff (page_limit opts req.limit) filter f).0 h in
    let (low, high) =
      page_limit-within opts req.limit n (new_panic-PagesSet opts started) limited in
    let same : to_filter n ≡ f = ground (arith, made) in
    subst
      (λ g.
        (validate g.query ≡ none)
        × (1 ≤ g.limit)
        × AtMost g.limit opts.max_events_per_page
        × ((g.after_sequence ≡ none) ⊎ (g.backwards ≡ false)))
      same
      (
        (require_iff (λ e. invalid (invalid_query e)) (validate req.query)).0 valid,
        low,
        high,
        after_checks-ok req.after_sequence req.backwards checked,
      )
  where
    to_filter : ℕ → ReadFilter
    to_filter n = record {
      query = req.query;
      after_sequence = to_sequence req.after_sequence;
      limit = n;
      backwards = req.backwards;
    }

    filter : ℕ → Result ApiError ReadFilter
    filter n = ok (to_filter n)

    paged : Unit {0} → Result ApiError ReadFilter
    paged u = and_then (page_limit opts req.limit) filter

    after : Unit {0} → Result ApiError ReadFilter
    after u = and_then (after_checks req.after_sequence req.backwards) paged
