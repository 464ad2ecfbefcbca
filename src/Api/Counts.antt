-- ===== src/Api/Counts.antt =====
-- What `handleErr` counts and reports, against the answers that it gives.
use tamarackdb.Prelude.{
  ℕ, ◌+◌, ◌≡◌, refl, Bool, true, false, ◌&&◌, ◌||◌, some, arith, eqb, Bool-cases, inl, inr,
  if◌then◌else◌,
}
use tamarackdb.Store.Tables.{
  StoreError, no_time, bad_limit, condition_conflict, projection_conflict, sqlite, nil_dereference,
}
use tamarackdb.Writer.{count, WriterError, full, closed_error, failed}
use tamarackdb.Tx.State.{
  TxError, not_found, busy_error, too_many_error, paused_error, design, too_large, conflict,
  writer_error, index_out_of_range,
}
use tamarackdb.Api.{
  internal_error, Options, ApiError, invalid, invalid_projection, oversize, body_too_large,
  client_gone, tx_failed, write_failed, store_failed, Answer, no_answer, error_answer, answer, Api,
}
use tamarackdb.Api.Answers.{
  primary_code, sqlite_full, fatal_code, is_fatal, refuse_full, refuse_internal, respond,
  respond_store, respond_writer, respond_tx, is_client_gone, handle_err,
}

-- The answer has this status.
abbrev pub has_status : ℕ → Answer → Bool
has_status n no_answer = false
has_status n (error_answer status code) = eqb status n
has_status n (answer status body) = eqb status n

-- One more, for an answer of this status.
abbrev pub counted : ℕ → Answer → ℕ → ℕ
counted status given n = if has_status status given then count n else n

-- The counters after an error against the answer that was given to it: one error is an internal one for
-- each 500, and one is of a full disk for each 507. Nothing else changes.
pub record Counts (before : Api) (given : Answer) (after : Api) : Type 0 where
  pub internal_counted : after.internal_errors ≡ counted 500 given before.internal_errors
  pub full_counted : after.storage_full_errors ≡ counted 507 given before.storage_full_errors
  pub same_reports : after.fatal_reports ≡ before.fatal_reports
  pub same_world : after.world ≡ before.world

unchanged :
    (a : Api) (given : Answer)
    → has_status 500 given ≡ false
    → has_status 507 given ≡ false
    → Counts a given a
unchanged a given h k = record {
  internal_counted = ground (arith, h);
  full_counted = ground (arith, k);
  same_reports = refl;
  same_world = refl;
}

respond_store-Counts :
    (e : StoreError) (a : Api) → Counts a (respond_store e a).0 (respond_store e a).1
respond_store-Counts (projection_conflict op i) a = unchanged a _ refl refl
respond_store-Counts (condition_conflict i) a = unchanged a _ refl refl
respond_store-Counts (sqlite c) a = by_code (eqb (primary_code c) sqlite_full)
  where
    by_code :
        (b : Bool)
        → Counts a
            (if b then refuse_full a else refuse_internal a).0
            (if b then refuse_full a else refuse_internal a).1
    by_code true = record {
      internal_counted = refl;
      full_counted = refl;
      same_reports = refl;
      same_world = refl;
    }
    by_code false = record {
      internal_counted = refl;
      full_counted = refl;
      same_reports = refl;
      same_world = refl;
    }
respond_store-Counts nil_dereference a = unchanged a _ refl refl
respond_store-Counts (no_time i) a = record {
  internal_counted = refl;
  full_counted = refl;
  same_reports = refl;
  same_world = refl;
}
respond_store-Counts bad_limit a = record {
  internal_counted = refl;
  full_counted = refl;
  same_reports = refl;
  same_world = refl;
}

respond_writer-Counts :
    (e : WriterError) (a : Api) → Counts a (respond_writer e a).0 (respond_writer e a).1
respond_writer-Counts full a = unchanged a _ refl refl
respond_writer-Counts closed_error a = unchanged a _ refl refl
respond_writer-Counts (failed e) a = respond_store-Counts e a

respond_tx-Counts : (e : TxError) (a : Api) → Counts a (respond_tx e a).0 (respond_tx e a).1
respond_tx-Counts (design rule) a = unchanged a _ refl refl
respond_tx-Counts (too_large limit n) a = unchanged a _ refl refl
respond_tx-Counts (conflict c) a = unchanged a _ refl refl
respond_tx-Counts not_found a = unchanged a _ refl refl
respond_tx-Counts busy_error a = unchanged a _ refl refl
respond_tx-Counts paused_error a = unchanged a _ refl refl
respond_tx-Counts too_many_error a = unchanged a _ refl refl
respond_tx-Counts (writer_error e) a = respond_writer-Counts e a
respond_tx-Counts index_out_of_range a = unchanged a _ refl refl

respond-Counts : (e : ApiError) (a : Api) → Counts a (respond e a).0 (respond e a).1
unfolding respond
respond-Counts (invalid rule) a = unchanged a _ refl refl
respond-Counts (invalid_projection at rule) a = unchanged a _ refl refl
respond-Counts (oversize at n) a = unchanged a _ refl refl
respond-Counts body_too_large a = unchanged a _ refl refl
respond-Counts client_gone a = unchanged a _ refl refl
respond-Counts (tx_failed e) a = respond_tx-Counts e a
respond-Counts (write_failed e) a = respond_writer-Counts e a
respond-Counts (store_failed e) a = respond_store-Counts e a

respond_store-fatal :
    (e : StoreError) (a : Api)
    → fatal_code (some e) ≡ true
    → (respond_store e a).0 ≡ error_answer 500 internal_error
respond_store-fatal (projection_conflict op i) a h = absurd (ground (arith, h))
respond_store-fatal (condition_conflict i) a h = absurd (ground (arith, h))
respond_store-fatal (sqlite c) a h = elim (Bool-cases (eqb (primary_code c) sqlite_full)) [
  | inl out_of_space ↦ absurd (ground (arith, out_of_space, h))
  | inr other ↦ ground (arith, other)
]
respond_store-fatal nil_dereference a h = absurd (ground (arith, h))
respond_store-fatal (no_time i) a h = absurd (ground (arith, h))
respond_store-fatal bad_limit a h = absurd (ground (arith, h))

respond-fatal :
    (e : ApiError) (a : Api) → is_fatal e ≡ true → (respond e a).0 ≡ error_answer 500 internal_error
unfolding respond is_fatal
respond-fatal (store_failed e) a h = respond_store-fatal e a h
respond-fatal (write_failed (failed e)) a h = respond_store-fatal e a h
respond-fatal (tx_failed (writer_error (failed e))) a h = respond_store-fatal e a h
respond-fatal (write_failed full) a h = absurd (ground (arith, h))
respond-fatal (write_failed closed_error) a h = absurd (ground (arith, h))
respond-fatal (tx_failed (writer_error full)) a h = absurd (ground (arith, h))
respond-fatal (tx_failed (writer_error closed_error)) a h = absurd (ground (arith, h))
respond-fatal (tx_failed (design rule)) a h = absurd (ground (arith, h))
respond-fatal (tx_failed (too_large limit n)) a h = absurd (ground (arith, h))
respond-fatal (tx_failed (conflict c)) a h = absurd (ground (arith, h))
respond-fatal (tx_failed not_found) a h = absurd (ground (arith, h))
respond-fatal (tx_failed busy_error) a h = absurd (ground (arith, h))
respond-fatal (tx_failed paused_error) a h = absurd (ground (arith, h))
respond-fatal (tx_failed too_many_error) a h = absurd (ground (arith, h))
respond-fatal (tx_failed index_out_of_range) a h = absurd (ground (arith, h))
respond-fatal (invalid rule) a h = absurd (ground (arith, h))
respond-fatal (invalid_projection at rule) a h = absurd (ground (arith, h))
respond-fatal (oversize at n) a h = absurd (ground (arith, h))
respond-fatal body_too_large a h = absurd (ground (arith, h))
respond-fatal client_gone a h = absurd (ground (arith, h))

fatal-not_gone : (e : ApiError) → is_client_gone e ≡ true → is_fatal e ≡ false
unfolding is_fatal
fatal-not_gone client_gone h = refl
fatal-not_gone (store_failed e) h = absurd (ground (arith, h))
fatal-not_gone (write_failed e) h = absurd (ground (arith, h))
fatal-not_gone (tx_failed e) h = absurd (ground (arith, h))
fatal-not_gone (invalid rule) h = absurd (ground (arith, h))
fatal-not_gone (invalid_projection at rule) h = absurd (ground (arith, h))
fatal-not_gone (oversize at n) h = absurd (ground (arith, h))
fatal-not_gone body_too_large h = absurd (ground (arith, h))

-- What `handleErr` does with an error, for an answer that it gave and the server that it left.
pub record Handled (opts : Options) (context_done wrote_header : Bool) (e : ApiError) (a : Api)
    (given : Answer) (after : Api) : Type 0 where
  pub counts :
      (after.internal_errors ≡ counted 500 given a.internal_errors)
      × (after.storage_full_errors ≡ counted 507 given a.storage_full_errors)
  pub same_world : after.world ≡ a.world
  pub reported :
      after.fatal_reports
      ≡ a.fatal_reports + (if is_fatal e && opts.on_fatal_storage_error then 1 else 0)
  pub silent : (context_done || wrote_header) ≡ true → given ≡ no_answer
  pub hides_fatal :
      is_fatal e ≡ true
      → (context_done || wrote_header) ≡ false
      → given ≡ error_answer 500 internal_error

-- Every error is counted as it is answered: as an internal one exactly with a 500, as one of a full disk
-- exactly with a 507. An error that is fatal to the storage is reported once, also when nobody is
-- answered, and its answer is a plain 500. Nothing is answered once the request is done or the response
-- has started, and the registry and the store stay as they are.
pub handle_err-Handled :
    (opts : Options) (context_done wrote_header : Bool) (e : ApiError) (a : Api)
    → Handled opts context_done wrote_header e a
        (handle_err opts context_done wrote_header e a).0
        (handle_err opts context_done wrote_header e a).1
unfolding handle_err
handle_err-Handled opts context_done wrote_header e a =
    by_cases context_done (is_client_gone e) wrote_header
      (is_fatal e && opts.on_fatal_storage_error) refl refl refl refl
  where
    reported : Bool → Api
    reported b = if b then record a { fatal_reports = a.fatal_reports + 1 } else a

    made : Bool → Bool → Bool → Bool → Answer × Api
    made d g w b =
        if d || g
        then (no_answer, reported b)
        else if w
        then (no_answer, reported b)
        else respond e (reported b)

    Result : Bool → Answer × Api → Type 0
    Result b r =
        (is_fatal e && opts.on_fatal_storage_error) ≡ b
        → Handled opts context_done wrote_header e a r.0 r.1

    unanswered :
        (b : Bool)
        → (is_fatal e ≡ true → (context_done || wrote_header) ≡ true)
        → Result b (no_answer, reported b)
    unanswered true known fatal = record {
      counts = (refl, refl);
      same_world = refl;
      reported = ground (arith, fatal);
      silent = λ h. refl;
      hides_fatal = λ h k. absurd (ground (arith, known h, k));
    }
    unanswered false known fatal = record {
      counts = (refl, refl);
      same_world = refl;
      reported = ground (arith, fatal);
      silent = λ h. refl;
      hides_fatal = λ h k. absurd (ground (arith, known h, k));
    }

    answered :
        (b : Bool) → (context_done || wrote_header) ≡ false → Result b (respond e (reported b))
    answered true open_still fatal =
        let c = respond-Counts e (reported true) in
        record {
          counts = (c.internal_counted, c.full_counted);
          same_world = c.same_world;
          reported = ground (arith, fatal, c.same_reports);
          silent = λ h. absurd (ground (arith, open_still, h));
          hides_fatal = λ h k. respond-fatal e (reported true) h;
        }
    answered false open_still fatal =
        let c = respond-Counts e (reported false) in
        record {
          counts = (c.internal_counted, c.full_counted);
          same_world = c.same_world;
          reported = ground (arith, fatal, c.same_reports);
          silent = λ h. absurd (ground (arith, open_still, h));
          hides_fatal = λ h k. respond-fatal e (reported false) h;
        }

    by_cases :
        (d g w b : Bool)
        → context_done ≡ d
        → is_client_gone e ≡ g
        → wrote_header ≡ w
        → Result b (made d g w b)
    by_cases true g w b done gone started = unanswered b (λ h. ground (arith, done))
    by_cases false true w b done gone started =
        unanswered b (λ h. absurd (ground (arith, fatal-not_gone e gone, h)))
    by_cases false false true b done gone started = unanswered b (λ h. ground (arith, started))
    by_cases false false false b done gone started = answered b (ground (arith, done, started))
