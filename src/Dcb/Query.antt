-- ===== src/Dcb/Query.antt =====
-- internal/dcb/query.go: queries, their validation, the removal of duplicate items, and matching.
pub mod Sorting
pub mod Orders
pub mod Keys
pub mod Dedupe
mod Examples
use tamarackdb.Prelude.{
  ℕ, ◌+◌, ◌≡◌, Bool, true, false, ◌&&◌, ◌||◌, not, List, [], ◌∷◌, ◌++◌, map, Option, none, some,
  ltb, eqb, length, any, all, if◌then◌else◌, ◌↔◌, arith,
}
use tamarackdb.Prelude.Eq.{Eq, ◌==◌, Bytes, bytes_eq, bytes_beq, bytes_beq_iff, contains}
use tamarackdb.Dcb.Event.{Identifier, Metadata, identifier_eq, metadata_eq, EventData, first_error}

-- A nil axis is `none`.
pub record QueryItem : Type 0 where
  pub types : Option (List Bytes)
  pub identifiers : Option (List Identifier)
  pub metadata : Option (List Metadata)

abbrev pub max_query_items : ℕ
max_query_items = 100

abbrev pub max_query_item_values : ℕ
max_query_item_values = 100

pub data QueryError : Type 0 where
  empty_query empty_query_item empty_query_item_array query_too_large : QueryError

-- The elements of a slice that may be nil.
abbrev pub elements {ℓ} : {A : Type ℓ} → Option (List A) → List A
elements none = []
elements (some xs) = xs

abbrev pub is_nil {ℓ} : {A : Type ℓ} → Option A → Bool
is_nil none = true
is_nil (some a) = false

unfoldable pub validate_item : QueryItem → Option QueryError
validate_item i =
    if is_nil i.types && is_nil i.identifiers && is_nil i.metadata
    then some empty_query_item
    else if not (is_nil i.types) && eqb (length (elements i.types)) 0
    then some empty_query_item_array
    else if not (is_nil i.identifiers) && eqb (length (elements i.identifiers)) 0
    then some empty_query_item_array
    else if not (is_nil i.metadata) && eqb (length (elements i.metadata)) 0
    then some empty_query_item_array
    else if ltb max_query_item_values
        (length (elements i.types) + length (elements i.identifiers) + length (elements i.metadata))
    then some query_too_large
    else none

pub data QueryForm : Type 0 where
  form_items form_all form_none : QueryForm

pub record Query : Type 0 where
  pub form : QueryForm
  pub items : List QueryItem

abbrev pub is_all_form : QueryForm → Bool
is_all_form form_all = true
is_all_form _ = false

abbrev pub is_none_form : QueryForm → Bool
is_none_form form_none = true
is_none_form _ = false

-- `All` and `None` of a query.
abbrev pub query_is_all : Query → Bool
query_is_all q = is_all_form q.form

abbrev pub query_is_none : Query → Bool
query_is_none q = is_none_form q.form

abbrev pub query_all : Query
query_all = record { form = form_all; items = [] }

abbrev pub query_none : Query
query_none = record { form = form_none; items = [] }

-- Byte strings in the order of Go's `<`.
unfoldable pub bytes_ltb : Bytes → Bytes → Bool
bytes_ltb [] [] = false
bytes_ltb [] (y ∷ ys) = true
bytes_ltb (x ∷ xs) [] = false
bytes_ltb (x ∷ xs) (y ∷ ys) = ltb x y || eqb x y && bytes_ltb xs ys

-- `sort.Strings` and `sort.Slice` under the order `before`.
module _ {ℓ} {A : Type ℓ} (before : A → A → Bool) where
  unfoldable pub insert_sorted : A → List A → List A
  insert_sorted a [] = a ∷ []
  insert_sorted a (x ∷ xs) = if before x a then x ∷ insert_sorted a xs else a ∷ x ∷ xs

  unfoldable pub sort : List A → List A
  unfolding insert_sorted
  sort [] = []
  sort (x ∷ xs) = insert_sorted x (sort xs)

unfoldable pub identifier_before : Identifier → Identifier → Bool
unfolding bytes_ltb
identifier_before a b =
    if not (bytes_beq a.name b.name) then bytes_ltb a.name b.name else bytes_ltb a.value b.value

unfoldable pub metadata_before : Metadata → Metadata → Bool
unfolding bytes_ltb
metadata_before a b =
    if not (bytes_beq a.name b.name) then bytes_ltb a.name b.name else bytes_ltb a.value b.value

-- A line of the text of `queryItemKey`. `%q` is injective and its output holds no line feed, so two
-- texts are equal exactly when their lines are.
pub data KeyLine : Type 0 where
  type_line : Bytes → KeyLine
  identifier_line : Bytes → Bytes → KeyLine
  metadata_line : Bytes → Bytes → KeyLine

abbrev pub key_line_beq : KeyLine → KeyLine → Bool
key_line_beq (type_line a) (type_line b) = bytes_beq a b
key_line_beq (identifier_line a v) (identifier_line b w) = bytes_beq a b && bytes_beq v w
key_line_beq (metadata_line a v) (metadata_line b w) = bytes_beq a b && bytes_beq v w
key_line_beq _ _ = false

pub key_line_beq_iff : (a b : KeyLine) → (key_line_beq a b ≡ true) ↔ (a ≡ b)
key_line_beq_iff (type_line a) (type_line b) = ground (arith, bytes_beq_iff a b)
key_line_beq_iff (identifier_line a v) (identifier_line b w) =
    ground (arith, bytes_beq_iff a b, bytes_beq_iff v w)
key_line_beq_iff (metadata_line a v) (metadata_line b w) =
    ground (arith, bytes_beq_iff a b, bytes_beq_iff v w)
key_line_beq_iff _ _ = ground arith

instance abbrev pub key_line_eq : Eq KeyLine
key_line_eq = record { beq = key_line_beq; beq_iff = key_line_beq_iff }

unfoldable pub query_item_key : QueryItem → List KeyLine
unfolding sort identifier_before metadata_before
query_item_key item =
    map type_line (sort bytes_ltb (elements item.types))
    ++ (map (λ i. identifier_line i.name i.value)
          (sort identifier_before (elements item.identifiers))
        ++ map (λ m. metadata_line m.name m.value) (sort metadata_before (elements item.metadata)))

unfoldable pub keys_beq : List KeyLine → List KeyLine → Bool
keys_beq [] [] = true
keys_beq (x ∷ xs) (y ∷ ys) = key_line_beq x y && keys_beq xs ys
keys_beq _ _ = false

-- The loop of `dedupeQueryItems`: `seen` holds the keys of the items kept.
unfoldable pub dedupe_after : List (List KeyLine) → List QueryItem → List QueryItem
unfolding keys_beq any
dedupe_after seen [] = []
dedupe_after seen (item ∷ rest) =
    let key = query_item_key item in
    let skipped = dedupe_after seen rest in
    let kept = dedupe_after (key ∷ seen) rest in
    if any (keys_beq key) seen then skipped else item ∷ kept

unfoldable pub dedupe_query_items : List QueryItem → List QueryItem
unfolding dedupe_after
dedupe_query_items items = if ltb (length items) 2 then items else dedupe_after [] items

abbrev pub new_query : List QueryItem → Query
new_query items = record { form = form_items; items = dedupe_query_items items }

abbrev pub type_allowed : Option (List Bytes) → Bytes → Bool
type_allowed none t = true
type_allowed (some ts) t = contains ts t

unfoldable pub item_matches : QueryItem → EventData → Bool
unfolding contains all
item_matches i e =
    if not (type_allowed i.types e.typ)
    then false
    else if not (all (contains e.identifiers) (elements i.identifiers))
    then false
    else if not (all (contains e.metadata) (elements i.metadata))
    then false
    else true

abbrev pub matches_form : QueryForm → List QueryItem → EventData → Bool
matches_form form_all items e = true
matches_form form_none items e = false
matches_form form_items items e = any (λ i. item_matches i e) items

unfoldable pub matches : Query → EventData → Bool
unfolding item_matches any
matches q e = matches_form q.form q.items e

unfoldable pub validate_items : List QueryItem → Option QueryError
unfolding validate_item
validate_items [] = none
validate_items (i ∷ rest) = first_error (validate_item i) (validate_items rest)

abbrev pub validate_form : QueryForm → List QueryItem → Option QueryError
validate_form form_items items =
    if eqb (length items) 0
    then some empty_query
    else if ltb max_query_items (length items)
    then some query_too_large
    else validate_items items
validate_form _ items = none

unfoldable pub validate : Query → Option QueryError
unfolding validate_items
validate q = validate_form q.form q.items

-- What a transaction's commit checks for one decision.
pub record AppendCondition : Type 0 where
  pub fail_if_events_match : Query
  pub after_sequence : ℕ
