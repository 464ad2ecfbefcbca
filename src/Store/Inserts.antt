-- ===== src/Store/Inserts.antt =====
-- What the batched inserts write: each table grows by exactly the rows given, in order.
use mathlib.Core.List.{append-nil, append_assoc}
use native.Mathlib.Nat.{le-div_iff_mul-le}
use tamarackdb.Prelude.{
  ℕ, zero, suc, ◌*◌, ◌/◌, ◌≤◌, ◌<◌, ◌≡◌, refl, ◌∙◌, sym, ap, List, [], ◌∷◌, ◌++◌, map, arith, eqb,
  length, length-drop_le, take, drop, take-append-drop, All, All-mono, any, Bool-cases, inl, inr,
}
use tamarackdb.Prelude.Exec.{Result, ok, err, and_then}
use tamarackdb.Dcb.Event.{Event}
use tamarackdb.Store.Tables.{EventRow, TagRow, Tables, Env, Store, statement}
use tamarackdb.Store.Batch.{
  event_row, identifier_rows, metadata_rows, insert_event_rows, insert_identifier_rows,
  insert_metadata_rows, batches, max_batch_variables, add_tag_rows, tag_row_beq, insert_chunks,
  exec_batch_insert, insert_events_batch, insert_identifiers_batch, insert_metadata_batch,
}
use tamarackdb.Store.Spec.{Spec, Spec-bind, Spec-statement}

module _ {ℓ} {A : Type ℓ} where
  unfoldable pub concat : List (List A) → List A
  concat [] = []
  concat (xs ∷ rest) = xs ++ concat rest

  length-take_le : (n : ℕ) (xs : List A) → length (take n xs) ≤ n
  length-take_le zero xs = omega arith
  length-take_le (suc n) [] = omega arith
  length-take_le (suc n) (x ∷ xs) = omega (arith, length-take_le n xs)

  -- Enough rounds give every row, in order, in chunks of at most `n`.
  concat-batches :
      (fuel n : ℕ) (rows : List A)
      → 0 < n
      → length rows ≤ fuel
      → concat (batches fuel n rows) ≡ rows
  unfolding concat batches
  concat-batches zero n [] h le = refl
  concat-batches zero n (r ∷ rows) h le = absurd (omega arith)
  concat-batches (suc fuel) n [] h le = refl
  concat-batches (suc fuel) zero (r ∷ rows) h le = absurd (omega arith)
  concat-batches (suc fuel) (suc n) (r ∷ rows) h le =
      ap (λ x. r ∷ (take n rows ++ x))
        (concat-batches fuel (suc n) (drop n rows) h (omega (arith, length-drop_le n rows)))
      ∙ ap (◌∷◌ r) (take-append-drop n rows)

  batches-All : (fuel n : ℕ) (rows : List A) → All (λ chunk. length chunk ≤ n) (batches fuel n rows)
  unfolding batches
  batches-All zero n rows = tt
  batches-All (suc fuel) n [] = tt
  batches-All (suc fuel) n (r ∷ rows) =
      (length-take_le n (r ∷ rows), batches-All fuel n (drop n (r ∷ rows)))

-- With at least one column for each row and at most `max_batch_variables`, the chunks of a batch hold
-- every row once, in order, and each binds at most `max_batch_variables` variables.
pub batches-concat :
    {A : Type 0} (cols_per_row : ℕ) (rows : List A)
    → 0 < cols_per_row
    → cols_per_row ≤ max_batch_variables
    → let chunks = batches (length rows) (max_batch_variables / cols_per_row) rows in
      (concat chunks ≡ rows)
      × All (λ chunk. length chunk * cols_per_row ≤ max_batch_variables) chunks
batches-concat cols_per_row rows h le = (
  concat-batches (length rows) (max_batch_variables / cols_per_row) rows
      ((le-div_iff_mul-le h).1 (omega arith)) (omega arith),
  All-mono (λ chunk. length chunk ≤ max_batch_variables / cols_per_row) _ _
      (λ chunk small. (le-div_iff_mul-le h).0 small)
      (batches-All (length rows) (max_batch_variables / cols_per_row) rows),
)

abbrev pub add_event_rows : List EventRow → Tables → Tables
add_event_rows rows t = record t { events = t.events ++ rows }

abbrev pub add_identifier_rows : List TagRow → Tables → Tables
add_identifier_rows rows t = record t { identifiers = t.identifiers ++ rows }

abbrev pub add_metadata_rows : List TagRow → Tables → Tables
add_metadata_rows rows t = record t { metadata = t.metadata ++ rows }

insert_event_rows-ok :
    (rows : List EventRow) (t t' : Tables) (u : Unit {0})
    → insert_event_rows rows t ≡ ok (u, t')
    → t' ≡ add_event_rows rows t
unfolding insert_event_rows
insert_event_rows-ok [] t t' u h = ground (arith, append-nil t.events)
insert_event_rows-ok (row ∷ rest) t t' u h =
    elim (Bool-cases (any (λ r. eqb r.sequence row.sequence) t.events)) [
      | inl clash ↦ absurd (ground arith)
      | inr free ↦
          insert_event_rows-ok rest (add_event_rows (row ∷ []) t) t' u (ground arith)
          ∙ ap (λ x. record t { events = x }) (append_assoc t.events (row ∷ []) rest)
    ]

add_tag_rows-ok :
    (events : List EventRow) (new rows rows' : List TagRow)
    → add_tag_rows events new rows ≡ ok rows'
    → rows' ≡ rows ++ new
unfolding add_tag_rows
add_tag_rows-ok events [] rows rows' h = ground (arith, append-nil rows)
add_tag_rows-ok events (row ∷ rest) rows rows' h = elim (Bool-cases (any (tag_row_beq row) rows)) [
  | inl clash ↦ absurd (ground arith)
  | inr free ↦ elim (Bool-cases (any (λ e. eqb e.sequence row.event_sequence) events)) [
    | inl known ↦
        add_tag_rows-ok events rest (rows ++ row ∷ []) rows' (ground arith)
        ∙ append_assoc rows (row ∷ []) rest
    | inr missing ↦ absurd (ground arith)
  ]
]

insert_identifier_rows-ok :
    (rows : List TagRow) (t t' : Tables) (u : Unit {0})
    → insert_identifier_rows rows t ≡ ok (u, t')
    → t' ≡ add_identifier_rows rows t
insert_identifier_rows-ok rows t t' u h =
    added (add_tag_rows t.events rows t.identifiers) (add_tag_rows-ok t.events rows t.identifiers)
      (unfold insert_identifier_rows in h)
  where
    added :
        (r : Result ℕ (List TagRow))
        → ((rows' : List TagRow) → r ≡ ok rows' → rows' ≡ t.identifiers ++ rows)
        → ◌≡◌ {A = Result ℕ (Unit {0} × Tables)}
            (and_then r (λ new. ok (tt, record t { identifiers = new })))
            (ok (u, t'))
        → t' ≡ add_identifier_rows rows t
    added (ok new) is h = ground (arith, is new refl)
    added (err e) is h = absurd (ground arith)

insert_metadata_rows-ok :
    (rows : List TagRow) (t t' : Tables) (u : Unit {0})
    → insert_metadata_rows rows t ≡ ok (u, t')
    → t' ≡ add_metadata_rows rows t
insert_metadata_rows-ok rows t t' u h =
    added (add_tag_rows t.events rows t.metadata) (add_tag_rows-ok t.events rows t.metadata)
      (unfold insert_metadata_rows in h)
  where
    added :
        (r : Result ℕ (List TagRow))
        → ((rows' : List TagRow) → r ≡ ok rows' → rows' ≡ t.metadata ++ rows)
        → ◌≡◌ {A = Result ℕ (Unit {0} × Tables)}
            (and_then r (λ new. ok (tt, record t { metadata = new })))
            (ok (u, t'))
        → t' ≡ add_metadata_rows rows t
    added (ok new) is h = ground (arith, is new refl)
    added (err e) is h = absurd (ground arith)

-- A way to insert rows that, where it succeeds, adds the rows it is given.
pub record Adds {R : Type 0} (run : List R → Tables → Result ℕ (Unit {0} × Tables))
    (add : List R → Tables → Tables) : Type 0 where
  pub none_added : (t : Tables) → add [] t ≡ t
  pub more_added : (xs ys : List R) (t : Tables) → add ys (add xs t) ≡ add (xs ++ ys) t
  pub succeeds :
      (xs : List R) (t t' : Tables) (u : Unit {0}) → run xs t ≡ ok (u, t') → t' ≡ add xs t

module _ (env : Env) {R : Type 0} {run : List R → Tables → Result ℕ (Unit {0} × Tables)}
    {add : List R → Tables → Tables} (adds : Adds run add) where
  Spec-insert_chunks :
      (s : Store) (chunks : List (List R))
      → Spec s (insert_chunks env run chunks) (λ u s'. s'.tables ≡ add (concat chunks) s.tables)
  unfolding insert_chunks concat
  Spec-insert_chunks s [] = record { ensures = λ u h. sym (adds.none_added s.tables) }
  Spec-insert_chunks s (chunk ∷ rest) =
      Spec-bind s (statement env (run chunk)) _ (Spec-statement env (run chunk) s) λ u s' _ done.
        record {
          ensures = λ v h.
              (Spec-insert_chunks s' rest).ensures v h
              ∙ ap (add (concat rest)) (adds.succeeds chunk s.tables s'.tables u done)
              ∙ adds.more_added chunk (concat rest) s.tables;
        }

  pub Spec-exec_batch_insert :
      (s : Store) (n : ℕ) (rows : List R)
      → 0 < n
      → n ≤ max_batch_variables
      → Spec s (exec_batch_insert env run n rows) (λ u s'. s'.tables ≡ add rows s.tables)
  unfolding exec_batch_insert
  Spec-exec_batch_insert s n rows pos le = record {
    ensures = λ u h.
        (Spec-insert_chunks s (batches (length rows) (max_batch_variables / n) rows)).ensures u h
        ∙ ap (λ x. add x s.tables) (batches-concat n rows pos le).0;
  }

pub events-Adds : Adds insert_event_rows add_event_rows
events-Adds = record {
  none_added = λ t. ap (λ x. record t { events = x }) (append-nil t.events);
  more_added = λ xs ys t. ap (λ x. record t { events = x }) (append_assoc t.events xs ys);
  succeeds = insert_event_rows-ok;
}

identifiers-Adds : Adds insert_identifier_rows add_identifier_rows
identifiers-Adds = record {
  none_added = λ t. ap (λ x. record t { identifiers = x }) (append-nil t.identifiers);
  more_added = λ xs ys t. ap (λ x. record t { identifiers = x }) (append_assoc t.identifiers xs ys);
  succeeds = insert_identifier_rows-ok;
}

metadata-Adds : Adds insert_metadata_rows add_metadata_rows
metadata-Adds = record {
  none_added = λ t. ap (λ x. record t { metadata = x }) (append-nil t.metadata);
  more_added = λ xs ys t. ap (λ x. record t { metadata = x }) (append_assoc t.metadata xs ys);
  succeeds = insert_metadata_rows-ok;
}

-- The tables with the rows of more events.
abbrev pub add_log : List Event → Tables → Tables
add_log es t = record t {
  events = t.events ++ map event_row es;
  identifiers = t.identifiers ++ identifier_rows es;
  metadata = t.metadata ++ metadata_rows es;
}

module _ (env : Env) (es : List Event) (s : Store) where
  pub Spec-insert_events_batch :
      Spec s
        (insert_events_batch env es)
        (λ u s'. s'.tables ≡ add_event_rows (map event_row es) s.tables)
  Spec-insert_events_batch =
      unfold insert_events_batch in
      Spec-exec_batch_insert env events-Adds s 6 (map event_row es) (omega arith) (omega arith)

  pub Spec-insert_identifiers_batch :
      Spec s
        (insert_identifiers_batch env es)
        (λ u s'. s'.tables ≡ add_identifier_rows (identifier_rows es) s.tables)
  Spec-insert_identifiers_batch =
      unfold insert_identifiers_batch in
      Spec-exec_batch_insert env identifiers-Adds s 3 (identifier_rows es) (omega arith)
        (omega arith)

  pub Spec-insert_metadata_batch :
      Spec s
        (insert_metadata_batch env es)
        (λ u s'. s'.tables ≡ add_metadata_rows (metadata_rows es) s.tables)
  Spec-insert_metadata_batch =
      unfold insert_metadata_batch in
      Spec-exec_batch_insert env metadata-Adds s 3 (metadata_rows es) (omega arith) (omega arith)

  -- The three batches, in the order of an append and of an import.
  pub batches_added :
      (s1 s2 s3 : Store)
      → s1.tables ≡ add_event_rows (map event_row es) s.tables
      → s2.tables ≡ add_identifier_rows (identifier_rows es) s1.tables
      → s3.tables ≡ add_metadata_rows (metadata_rows es) s2.tables
      → s3.tables ≡ add_log es s.tables
  batches_added s1 s2 s3 a b c =
      c
      ∙ ap (add_metadata_rows (metadata_rows es))
          (b ∙ ap (add_identifier_rows (identifier_rows es)) a)
