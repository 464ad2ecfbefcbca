-- ===== src/Store/Holds.antt =====
-- What it means that a store holds a log of events, and that a condition holds of a log.
use mathlib.Core.List.{append-nil, append_assoc, map-append}
use tamarackdb.Prelude.{
  ℕ, ◌+◌, ◌-◌, ◌≤◌, ◌<◌, ◌≡◌, refl, ◌∙◌, sym, ap, subst, Bool, true, false, List, [], ◌∷◌, ◌++◌,
  map, arith, length, All, All-append, All-mono, any, none,
}
use tamarackdb.Dcb.Event.{Event, PendingEvent}
use tamarackdb.Dcb.Query.{Query, AppendCondition, validate, matches, query_is_none}
use tamarackdb.Store.Tables.{TagRow, Tables, Store}
use tamarackdb.Store.Batch.{event_row, tag_rows, identifier_rows, metadata_rows}
use tamarackdb.Store.Append.{number_events}
use tamarackdb.Store.Spec.{counters}
use tamarackdb.Store.Log.{Above, Represents, RowsOf-log}
use tamarackdb.Store.Selects.{wanted}
use tamarackdb.Store.Inserts.{add_log}

-- The store holds the log: the tables represent it, its sequences rise, and the counter is past them.
pub record Holds (s : Store) (log : List Event) : Type 0 where
  pub represents : Represents s.tables log
  pub above : Above 0 log
  pub below : All (λ e. e.sequence < s.next_seq) log
  pub started : 0 < s.next_seq

pub add_log-nil : (t : Tables) → t ≡ add_log [] t
unfolding identifier_rows metadata_rows
add_log-nil t = ground (arith, append-nil t.events, append-nil t.identifiers, append-nil t.metadata)

tag_rows-append :
    {A : Type 0} (row : ℕ → A → TagRow) (tags : Event → List A) (xs ys : List Event)
    → tag_rows row tags (xs ++ ys) ≡ tag_rows row tags xs ++ tag_rows row tags ys
tag_rows-append row tags [] ys = refl
tag_rows-append row tags (x ∷ xs) ys =
    ap (◌++◌ (map (row x.sequence) (tags x))) (tag_rows-append row tags xs ys)
    ∙ sym
        (append_assoc (map (row x.sequence) (tags x)) (tag_rows row tags xs) (tag_rows row tags ys))

pub Represents-add_log :
    {t : Tables} {log : List Event} (es : List Event)
    → Represents t log
    → Represents (add_log es t) (log ++ es)
unfolding identifier_rows metadata_rows
Represents-add_log {t} {log} es rep =
    let written : t.events ++ map event_row es ≡ map event_row (log ++ es) =
      ap (λ x. x ++ map event_row es) rep.events ∙ sym (map-append event_row log es) in
    record {
      rows = RowsOf-log written;
      events = written;
      identifiers =
          ap (λ x. x ++ identifier_rows es) rep.identifiers ∙ sym (tag_rows-append _ _ log es);
      metadata = ap (λ x. x ++ metadata_rows es) rep.metadata ∙ sym (tag_rows-append _ _ log es);
    }

pub number_events-Above :
    (n start : ℕ) (es : List PendingEvent) → n < start → Above n (number_events start es)
unfolding number_events
number_events-Above n start [] h = tt
number_events-Above n start (e ∷ es) h = (h, number_events-Above start (start + 1) es (omega arith))

number_events-below :
    (start bound : ℕ) (es : List PendingEvent)
    → start + length es ≤ bound
    → All (λ e. e.sequence < bound) (number_events start es)
unfolding number_events
number_events-below start bound [] h = tt
number_events-below start bound (e ∷ es) h =
    (omega arith, number_events-below (start + 1) bound es (omega arith))

Above-append :
    (n start : ℕ) (log : List Event) (es : List PendingEvent)
    → n < start
    → Above n log
    → All (λ e. e.sequence < start) log
    → Above n (log ++ number_events start es)
Above-append n start [] es h a b = number_events-Above n start es h
Above-append n start (x ∷ log) es h a b = (a.0, Above-append x.sequence start log es b.0 a.1 b.1)

-- The counter of the store after it gives out more sequences.
pub Holds-add :
    (s s' : Store) (log : List Event) (es : List PendingEvent)
    → Holds s log
    → Represents s'.tables (log ++ number_events s.next_seq es)
    → s'.next_seq ≡ s.next_seq + length es
    → Holds s' (log ++ number_events s.next_seq es)
Holds-add s s' log es held rep counted = record {
  represents = rep;
  above = Above-append 0 s.next_seq log es held.started held.above held.below;
  below =
      All-append _ log (number_events s.next_seq es)
        (All-mono _ _ log (λ e h. lt_of_lt e.sequence s.next_seq s'.next_seq h (omega arith))
          held.below)
        (number_events-below s.next_seq s'.next_seq es (omega arith));
  started = omega (arith, held.started);
}
  where
    lt_of_lt : (a b c : ℕ) → a < b → b ≤ c → a < c
    lt_of_lt a b c p q = omega arith

-- The condition holds of the log: no event after its position matches its query.
abbrev pub ConditionHolds : List Event → AppendCondition → Type 0
ConditionHolds log c = any (wanted c.fail_if_events_match c.after_sequence) log ≡ false

pub any-false {ℓ} :
    {A : Type ℓ} (p : A → Bool) (xs : List A) → All (λ x. p x ≡ false) xs → any p xs ≡ false
unfolding any
any-false p [] h = refl
any-false p (x ∷ xs) h = ground (arith, h.0, any-false p xs h.1)

pub none-matches :
    (q : Query) (after : ℕ) (e : Event) → query_is_none q ≡ true → wanted q after e ≡ false
unfolding matches
none-matches q after e h = ground arith

pub late-matches :
    (q : Query) (after next : ℕ) (e : Event)
    → after ≡ next - 1
    → e.sequence < next
    → wanted q after e ≡ false
late-matches q after next e h below = ground arith

pub Holds-same :
    (s s' : Store) (log : List Event)
    → s'.tables ≡ s.tables
    → counters s' ≡ counters s
    → Holds s log
    → Holds s' log
Holds-same s s' log t c held =
    let next : s'.next_seq ≡ s.next_seq = ap (λ (x : ℕ × ℕ). x.0) c in
    record {
      represents = subst (λ x. Represents x log) (sym t) held.represents;
      above = held.above;
      below = subst (λ n. All (λ e. e.sequence < n) log) (sym next) held.below;
      started = subst (λ n. 0 < n) (sym next) held.started;
    }

abbrev pub ValidConditions : List AppendCondition → Type 0
ValidConditions cs = All (λ c. validate c.fail_if_events_match ≡ none) cs
