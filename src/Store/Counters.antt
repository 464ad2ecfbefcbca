-- ===== src/Store/Counters.antt =====
-- The statements of an append leave the counters of the store alone.
use tamarackdb.Prelude.{
  ℕ, suc, ◌/◌, ◌≡◌, refl, Bool, true, false, List, [], ◌∷◌, map, length, if◌then◌else◌,
}
use tamarackdb.Prelude.Exec.{Result, ok}
use tamarackdb.Dcb.Event.{Event, PendingEvent}
use tamarackdb.Dcb.Query.{AppendCondition}
use tamarackdb.Store.Tables.{Tables, Env, Store, statement, driver_call, last_sequence}
use tamarackdb.Store.Batch.{
  event_row, identifier_rows, metadata_rows, insert_event_rows, insert_identifier_rows,
  insert_metadata_rows, batches, max_batch_variables, insert_chunks, exec_batch_insert,
  insert_events_batch, insert_identifiers_batch, insert_metadata_batch,
}
use tamarackdb.Store.Append.{
  resolve_without_query, check_fail_if_events_match_sql, check_condition, check_conditions,
  number_events, insert_events, write_events,
}
use tamarackdb.Store.Spec.{
  Keeps, Keeps-pure, Keeps-raise, Keeps-if, Keeps-bind, Keeps-statement, Keeps-driver_call,
  counters,
}
use tamarackdb.Store.Footprint.{IgnoresProjections}

module _ (env : Env) where
  pub counters-IgnoresProjections : IgnoresProjections counters
  counters-IgnoresProjections = record {
    calls = λ s n. refl;
    uuids = λ s n. refl;
    projections = λ s p. refl;
  }

  pub counters-statement :
      {A : Type 0} (run : Tables → Result ℕ (A × Tables)) → Keeps counters (statement env run)
  counters-statement run = Keeps-statement env run counters (λ s n. refl) (λ s a t h. refl)

  pub counters-check_condition : (c : AppendCondition) → Keeps counters (check_condition env c)
  unfolding check_condition
  counters-check_condition c = record {
    at =
        λ s. go (resolve_without_query c.fail_if_events_match c.after_sequence (last_sequence s)) s;
  }
    where
      go :
          (r : Bool × Bool) (s : Store)
          → counters
              (if r.1
                then (ok r.0, s)
                else check_fail_if_events_match_sql env c.fail_if_events_match c.after_sequence s).1
            ≡ counters s
      go (h, true) s = refl
      go (h, false) s = (counters-statement _).at s

  pub counters-check_conditions :
      (i : ℕ) (cs : List AppendCondition) → Keeps counters (check_conditions env i cs)
  unfolding check_conditions
  counters-check_conditions i [] = Keeps-pure tt
  counters-check_conditions i (c ∷ rest) =
      Keeps-bind (check_condition env c) _ (counters-check_condition c)
        λ h. Keeps-if h _ _ (counters-check_conditions (suc i) rest) (Keeps-raise _)

  counters-insert_chunks :
      {R : Type 0} (run : List R → Tables → Result ℕ (Unit {0} × Tables)) (chunks : List (List R))
      → Keeps counters (insert_chunks env run chunks)
  unfolding insert_chunks
  counters-insert_chunks run [] = Keeps-pure tt
  counters-insert_chunks run (chunk ∷ rest) =
      Keeps-bind (statement env (run chunk)) _ (counters-statement (run chunk))
        λ u. counters-insert_chunks run rest

  counters-exec_batch_insert :
      {R : Type 0} (run : List R → Tables → Result ℕ (Unit {0} × Tables)) (n : ℕ) (rows : List R)
      → Keeps counters (exec_batch_insert env run n rows)
  counters-exec_batch_insert run n rows =
      unfold exec_batch_insert in
      counters-insert_chunks run (batches (length rows) (max_batch_variables / n) rows)

  pub counters-insert_events_batch : (es : List Event) → Keeps counters (insert_events_batch env es)
  counters-insert_events_batch es =
      unfold insert_events_batch in
      counters-exec_batch_insert insert_event_rows 6 (map event_row es)

  pub counters-insert_identifiers_batch :
      (es : List Event) → Keeps counters (insert_identifiers_batch env es)
  counters-insert_identifiers_batch es =
      unfold insert_identifiers_batch in
      counters-exec_batch_insert insert_identifier_rows 3 (identifier_rows es)

  pub counters-insert_metadata_batch :
      (es : List Event) → Keeps counters (insert_metadata_batch env es)
  counters-insert_metadata_batch es =
      unfold insert_metadata_batch in
      counters-exec_batch_insert insert_metadata_rows 3 (metadata_rows es)

  counters-insert_events :
      (events : List PendingEvent) (start : ℕ) → Keeps counters (insert_events env events start)
  unfolding insert_events
  counters-insert_events [] start = Keeps-pure []
  counters-insert_events (e ∷ rest) start =
      let es = number_events start (e ∷ rest) in
      Keeps-bind (insert_events_batch env es) _ (counters-insert_events_batch es) λ a.
        Keeps-bind (insert_identifiers_batch env es) _ (counters-insert_identifiers_batch es) λ b.
          Keeps-bind (insert_metadata_batch env es) _ (counters-insert_metadata_batch es)
            λ c. Keeps-pure es

  pub counters-write_events :
      (events : List PendingEvent) (start : ℕ) → Keeps counters (write_events env events start)
  unfolding write_events
  counters-write_events events start =
      Keeps-bind (insert_events env events start) _ (counters-insert_events events start) λ r.
        Keeps-bind (driver_call env) _ (Keeps-driver_call env counters (λ s n. refl))
          λ u. Keeps-pure r
