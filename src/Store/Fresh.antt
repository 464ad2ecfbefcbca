-- ===== src/Store/Fresh.antt =====
-- Rows that the primary keys and the foreign keys let in.
use mathlib.Core.List.{append-nil, append_assoc}
use tamarackdb.Prelude.{
  ℕ, ◌+◌, ◌≤◌, ◌<◌, ◌≡◌, refl, sym, subst, true, false, List, [], ◌∷◌, ◌++◌, map, arith, eqb, All,
  All-mono, All-append, any, any-append,
}
use tamarackdb.Prelude.Eq.{Eq, ◌==◌, contains}
use tamarackdb.Prelude.Exec.{ok}
use tamarackdb.Dcb.Event.{Event}
use tamarackdb.Dcb.Event.Rules.{Distinct}
use tamarackdb.Store.Tables.{EventRow, TagRow, Tables}
use tamarackdb.Store.Batch.{event_row, tag_rows, insert_event_rows, add_tag_rows, tag_row_beq}
use tamarackdb.Store.Log.{Above}

-- Rows that can be added one after the other.
abbrev pub FreshEvents : List EventRow → List EventRow → Type 0
FreshEvents [] rows = Unit
FreshEvents (new ∷ rest) rows =
    (any (λ r. eqb r.sequence new.sequence) rows ≡ false) × FreshEvents rest (rows ++ new ∷ [])

abbrev pub FreshTags : List EventRow → List TagRow → List TagRow → Type 0
FreshTags events [] rows = Unit
FreshTags events (new ∷ rest) rows =
    (any (tag_row_beq new) rows ≡ false)
    × (any (λ e. eqb e.sequence new.event_sequence) events ≡ true)
    × FreshTags events rest (rows ++ new ∷ [])

pub insert_event_rows-fresh :
    (new : List EventRow) (t : Tables)
    → FreshEvents new t.events
    → insert_event_rows new t ≡ ok (tt, record t { events = t.events ++ new })
unfolding insert_event_rows
insert_event_rows-fresh [] t h = ground (arith, append-nil t.events)
insert_event_rows-fresh (new ∷ rest) t h = ground (
  arith,
  h.0,
  insert_event_rows-fresh rest (record t { events = t.events ++ new ∷ [] }) h.1,
  append_assoc t.events (new ∷ []) rest,
)

pub add_tag_rows-fresh :
    (events : List EventRow) (new rows : List TagRow)
    → FreshTags events new rows
    → add_tag_rows events new rows ≡ ok (rows ++ new)
unfolding add_tag_rows
add_tag_rows-fresh events [] rows h = ground (arith, append-nil rows)
add_tag_rows-fresh events (new ∷ rest) rows h = ground (
  arith,
  h.0,
  h.1,
  add_tag_rows-fresh events rest (rows ++ new ∷ []) h.2,
  append_assoc rows (new ∷ []) rest,
)

pub FreshEvents-split :
    (xs ys rows : List EventRow)
    → FreshEvents (xs ++ ys) rows
    → FreshEvents xs rows × FreshEvents ys (rows ++ xs)
FreshEvents-split [] ys rows h = (tt, subst (FreshEvents ys) (sym (append-nil rows)) h)
FreshEvents-split (x ∷ xs) ys rows (here, rest) =
    let (first, second) = FreshEvents-split xs ys (rows ++ x ∷ []) rest in
    ((here, first), subst (FreshEvents ys) (append_assoc rows (x ∷ []) xs) second)

pub FreshTags-split :
    (events : List EventRow) (xs ys rows : List TagRow)
    → FreshTags events (xs ++ ys) rows
    → FreshTags events xs rows × FreshTags events ys (rows ++ xs)
FreshTags-split events [] ys rows h = (tt, subst (FreshTags events ys) (sym (append-nil rows)) h)
FreshTags-split events (x ∷ xs) ys rows (here, known, rest) =
    let (first, second) = FreshTags-split events xs ys (rows ++ x ∷ []) rest in
    ((here, known, first), subst (FreshTags events ys) (append_assoc rows (x ∷ []) xs) second)

FreshTags-append :
    (events : List EventRow) (xs ys rows : List TagRow)
    → FreshTags events xs rows
    → FreshTags events ys (rows ++ xs)
    → FreshTags events (xs ++ ys) rows
FreshTags-append events [] ys rows first second =
    subst (FreshTags events ys) (append-nil rows) second
FreshTags-append events (x ∷ xs) ys rows (here, known, first) second = (
  here,
  known,
  FreshTags-append events xs ys (rows ++ x ∷ []) first
      (subst (FreshTags events ys) (sym (append_assoc rows (x ∷ []) xs)) second),
)

any-below :
    (k : ℕ) (rows : List EventRow)
    → All (λ r. r.sequence < k) rows
    → any (λ r. eqb r.sequence k) rows ≡ false
unfolding any
any-below k [] h = refl
any-below k (r ∷ rows) h = ground (arith, h.0, any-below k rows h.1)

pub lt_le : (a b c : ℕ) → a < b → b ≤ c → a < c
lt_le a b c p q = omega arith

-- Events whose sequences rise from above those in the table.
pub Above-FreshEvents :
    (n : ℕ) (es : List Event) (rows : List EventRow)
    → Above n es
    → All (λ r. r.sequence < n + 1) rows
    → FreshEvents (map event_row es) rows
unfolding event_row
Above-FreshEvents n [] rows above below = tt
Above-FreshEvents n (e ∷ es) rows (here, above) below =
    let lower =
      All-mono _ _ rows (λ r h. lt_le r.sequence (n + 1) e.sequence h (omega (arith, here)))
        below in
    let further =
      All-mono (λ r. r.sequence < e.sequence) (λ r. r.sequence < e.sequence + 1) rows
        (λ r h. lt_le r.sequence e.sequence (e.sequence + 1) h (omega arith)) lower in
    (
      any-below e.sequence rows lower,
      Above-FreshEvents e.sequence es (rows ++ event_row e ∷ []) above
          (All-append _ rows (event_row e ∷ []) further (omega arith, tt)),
    )

module _ {A : Type 0} ⦃eq : Eq A⦄ (row : ℕ → A → TagRow)
    (sequence_of : (n : ℕ) (a : A) → (row n a).event_sequence ≡ n)
    (same_tag : (n : ℕ) (a b : A) → tag_row_beq (row n a) (row n b) ≡ (a == b)) where
  contains-All : (xs : List A) (x : A) → contains xs x ≡ false → All (λ a. (a == x) ≡ false) xs
  unfolding contains
  contains-All [] x h = tt
  contains-All (y ∷ ys) x h =
      (ground (arith, h, eq.beq_iff x y, eq.beq_iff y x), contains-All ys x (ground (arith, h)))

  FreshTags-event :
      (events : List EventRow) (k : ℕ) (tags : List A) (rows : List TagRow)
      → any (λ e. eqb e.sequence k) events ≡ true
      → Distinct tags
      → All (λ a. any (tag_row_beq (row k a)) rows ≡ false) tags
      → FreshTags events (map (row k) tags) rows
  unfolding any
  FreshTags-event events k [] rows known distinct apart = tt
  FreshTags-event events k (x ∷ xs) rows known (alone, distinct) (here, apart) = (
    here,
    subst (λ n. any (λ e. eqb e.sequence n) events ≡ true) (sym (sequence_of k x)) known,
    FreshTags-event events k xs (rows ++ row k x ∷ []) known distinct
        (still xs (contains-All xs x alone) apart),
  )
    where
      still :
          (ys : List A)
          → All (λ a. (a == x) ≡ false) ys
          → All (λ a. any (tag_row_beq (row k a)) rows ≡ false) ys
          → All (λ a. any (tag_row_beq (row k a)) (rows ++ row k x ∷ []) ≡ false) ys
      still [] other apart = tt
      still (y ∷ ys) other apart = (
        ground (
          arith,
          any-append (tag_row_beq (row k y)) rows (row k x ∷ []),
          same_tag k y x,
          other.0,
          apart.0,
        ),
        still ys other.1 apart.1,
      )

  each : {P : A → Type 0} → ((a : A) → P a) → (xs : List A) → All P xs
  each f [] = tt
  each f (x ∷ xs) = (f x, each f xs)

  any-row_below :
      (k : ℕ) (a : A) (rows : List TagRow)
      → All (λ r. r.event_sequence < k) rows
      → any (tag_row_beq (row k a)) rows ≡ false
  unfolding any
  any-row_below k a [] h = refl
  any-row_below k a (r ∷ rows) h = ground (arith, h.0, sequence_of k a, any-row_below k a rows h.1)

  rows_at : (k n : ℕ) (xs : List A) → k < n → All (λ r. r.event_sequence < n) (map (row k) xs)
  rows_at k n [] h = tt
  rows_at k n (x ∷ xs) h = (subst (λ m. m < n) (sym (sequence_of k x)) h, rows_at k n xs h)

  -- The tags of events whose sequences rise from above those in the table.
  pub FreshTags-log :
      (tags : Event → List A) (events : List EventRow) (n : ℕ) (es : List Event)
      (rows : List TagRow)
      → Above n es
      → All (λ e. any (λ r. eqb r.sequence e.sequence) events ≡ true) es
      → All (λ e. Distinct (tags e)) es
      → All (λ r. r.event_sequence < n + 1) rows
      → FreshTags events (tag_rows row tags es) rows
  FreshTags-log tags events n [] rows above known distinct below = tt
  FreshTags-log tags events n (e ∷ es) rows (here, above) (there, known) (own, distinct) below =
      let k = e.sequence in
      let lower =
        All-mono _ _ rows (λ r h. lt_le r.event_sequence (n + 1) k h (omega (arith, here))) below in
      let further =
        All-mono (λ r. r.event_sequence < k) (λ r. r.event_sequence < k + 1) rows
          (λ r h. lt_le r.event_sequence k (k + 1) h (omega arith)) lower in
      FreshTags-append events (map (row k) (tags e)) (tag_rows row tags es) rows
        (FreshTags-event events k (tags e) rows there own
          (each (λ a. any-row_below k a rows lower) (tags e)))
        (FreshTags-log tags events k es (rows ++ map (row k) (tags e)) above known distinct (
          All-append _ rows (map (row k) (tags e)) further
            (rows_at k (k + 1) (tags e) (omega arith))))

  pub tag_rows-below :
      (tags : Event → List A) (n : ℕ) (es : List Event)
      → All (λ e. e.sequence < n) es
      → All (λ r. r.event_sequence < n) (tag_rows row tags es)
  tag_rows-below tags n [] h = tt
  tag_rows-below tags n (e ∷ es) (here, rest) =
      All-append _ (map (row e.sequence) (tags e)) (tag_rows row tags es)
        (rows_at e.sequence n (tags e) here) (tag_rows-below tags n es rest)
