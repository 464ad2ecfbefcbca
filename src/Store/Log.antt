-- ===== src/Store/Log.antt =====
-- The abstract view of the event tables: one log of events, in the order of their sequences.
use tamarackdb.Prelude.{
  ℕ, ◌≤◌, ◌<◌, ◌≡◌, refl, sym, subst, ◌∙◌, Bool, false, ◌&&◌, List, [], ◌∷◌, map, arith, ltb, eqb,
  any, any-append, All, All-mono, All-both,
}
use tamarackdb.Prelude.Eq.{Eq, ◌==◌, Bytes, bytes_beq_iff, contains}
use tamarackdb.Dcb.Event.{identifier_eq, metadata_eq, Event}
use tamarackdb.Store.Tables.{EventRow, TagRow, Tables}
use tamarackdb.Store.Batch.{
  event_row, tag_rows, identifier_row, metadata_row, identifier_rows, metadata_rows,
}
use tamarackdb.Store.Sql.{tag_selected}

-- The sequences rise along the log, from above `n`.
abbrev pub Above : ℕ → List Event → Type 0
Above n [] = Unit {0}
Above n (e ∷ rest) = (n < e.sequence) × Above e.sequence rest

-- A row of `events` for each event, with its sequence, its time, its type and its payload.
pub data RowsOf : List Event → List EventRow → Type 0 where
  no_rows : RowsOf [] []
  one_more :
      {e : Event} {row : EventRow} {log : List Event} {rows : List EventRow}
      → row.sequence ≡ e.sequence
      → row.time ≡ e.time
      → row.typ ≡ e.event_data.typ
      → row.payload ≡ e.event_data.payload
      → RowsOf log rows
      → RowsOf (e ∷ log) (row ∷ rows)

event_row-RowsOf : (log : List Event) → RowsOf log (map event_row log)
unfolding event_row
event_row-RowsOf [] = no_rows
event_row-RowsOf (e ∷ log) = one_more refl refl refl refl (event_row-RowsOf log)

pub RowsOf-log :
    {log : List Event} {rows : List EventRow} → rows ≡ map event_row log → RowsOf log rows
RowsOf-log {log} e = subst (RowsOf log) (sym e) (event_row-RowsOf log)

-- The three tables hold exactly the rows of the log.
pub record Represents (t : Tables) (log : List Event) : Type 0 where
  pub rows : RowsOf log t.events
  pub events : t.events ≡ map event_row log
  pub identifiers : t.identifiers ≡ identifier_rows log
  pub metadata : t.metadata ≡ metadata_rows log

pub Above-mono : {m n : ℕ} (log : List Event) → m ≤ n → Above n log → Above m log
Above-mono [] h a = tt
Above-mono (e ∷ rest) h a = (omega arith, a.1)

lt_trans : (a b c : ℕ) → a < b → b < c → a < c
lt_trans a b c p q = omega arith

pub Above-All : (n : ℕ) (log : List Event) → Above n log → All (λ e. n < e.sequence) log
Above-All n [] a = tt
Above-All n (e ∷ rest) a = (
  a.0,
  All-mono _ _ rest (λ x h. lt_trans n e.sequence x.sequence a.0 h) (Above-All e.sequence rest a.1),
)

module _ {A : Type 0} ⦃eq : Eq A⦄ (row : ℕ → A → TagRow) (tags : Event → List A) (a : A)
    (p : TagRow → Bool) (live : ℕ → Bool)
    (hit : (n : ℕ) (x : A) → p (row n x) ≡ ((a == x) && live n)) where
  any-map_row : (n : ℕ) (xs : List A) → any p (map (row n) xs) ≡ (contains xs a && live n)
  unfolding any contains
  any-map_row n [] = refl
  any-map_row n (x ∷ xs) = ground (arith, hit n x, any-map_row n xs)

  any-tag_rows :
      (log : List Event)
      → any p (tag_rows row tags log) ≡ any (λ e. contains (tags e) a && live e.sequence) log
  unfolding any
  any-tag_rows [] = refl
  any-tag_rows (e ∷ rest) = ground (
    arith,
    any-append p (map (row e.sequence) (tags e)) (tag_rows row tags rest),
    any-map_row e.sequence (tags e),
    any-tag_rows rest,
  )

module _ {A : Type 0} ⦃eq : Eq A⦄ (tags : Event → List A) (a : A) (after : ℕ) where
  abbrev carried : ℕ → List Event → Bool
  carried n log = any (λ e. contains (tags e) a && (ltb after e.sequence && eqb e.sequence n)) log

  carried_below : (n k : ℕ) (log : List Event) → n ≤ k → Above k log → carried n log ≡ false
  unfolding any
  carried_below n k [] h above = refl
  carried_below n k (e ∷ rest) h above =
      ground (arith, carried_below n e.sequence rest (omega arith) above.1)

  carried_tail :
      (e x : Event) (rest : List Event)
      → e.sequence < x.sequence
      → carried x.sequence (e ∷ rest) ≡ carried x.sequence rest
  unfolding any
  carried_tail e x rest h = ground arith

  carried_head :
      (e : Event) (rest : List Event)
      → Above e.sequence rest
      → after < e.sequence
      → carried e.sequence (e ∷ rest) ≡ contains (tags e) a
  unfolding any
  carried_head e rest above h =
      ground (arith, carried_below e.sequence e.sequence rest (omega arith) above)

  -- Sequences differ, so an event carries exactly its own tags.
  pub carried_own :
      (k : ℕ) (log : List Event)
      → Above k log
      → All (λ e. after < e.sequence → carried e.sequence log ≡ contains (tags e) a) log
  carried_own k [] above = tt
  carried_own k (e ∷ rest) above = (
    (λ h. carried_head e rest above.1 h),
    All-mono _ _ rest (λ x h below. carried_tail e x rest h.0 ∙ h.1 below)
        (All-both _ _ rest (Above-All e.sequence rest above.1)
          (carried_own e.sequence rest above.1)),
  )

-- A subquery over a tag table selects an event exactly when the event carries the tag.
pub identifiers_selected :
    (log : List Event) (name value : Bytes) (after : ℕ)
    → Above 0 log
    → All
        (λ e.
          after < e.sequence
          → tag_selected (identifier_rows log) name value after e.sequence
            ≡ contains e.event_data.identifiers (record { name = name; value = value }))
        log
unfolding tag_selected identifier_rows
identifiers_selected log name value after above =
    All-mono _ _ log
      (λ e h below.
        any-tag_rows identifier_row (λ x. x.event_data.identifiers)
          (record { name = name; value = value }) _ (λ n. ltb after n && eqb n e.sequence)
          (λ n x. ground (
            arith,
            bytes_beq_iff x.name name,
            bytes_beq_iff name x.name,
            bytes_beq_iff x.value value,
            bytes_beq_iff value x.value,
          ))
          log
        ∙ h below)
      (carried_own (λ x. x.event_data.identifiers) (record { name = name; value = value }) after 0
        log above)

pub metadata_selected :
    (log : List Event) (name value : Bytes) (after : ℕ)
    → Above 0 log
    → All
        (λ e.
          after < e.sequence
          → tag_selected (metadata_rows log) name value after e.sequence
            ≡ contains e.event_data.metadata (record { name = name; value = value }))
        log
unfolding tag_selected metadata_rows
metadata_selected log name value after above =
    All-mono _ _ log
      (λ e h below.
        any-tag_rows metadata_row (λ x. x.event_data.metadata)
          (record { name = name; value = value }) _ (λ n. ltb after n && eqb n e.sequence)
          (λ n x. ground (
            arith,
            bytes_beq_iff x.name name,
            bytes_beq_iff name x.name,
            bytes_beq_iff x.value value,
            bytes_beq_iff value x.value,
          ))
          log
        ∙ h below)
      (carried_own (λ x. x.event_data.metadata) (record { name = name; value = value }) after 0 log
        above)
