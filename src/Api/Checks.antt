-- ===== src/Api/Checks.antt =====
-- What the checks of a request let through.
use tamarackdb.Prelude.{
  ℕ, ◌+◌, ◌≤◌, ◌≡◌, ◌↔◌, refl, false, List, [], ◌∷◌, Option, none, some, arith, All, Bool-cases,
  inl, inr, sym, subst,
}
use tamarackdb.Prelude.Eq.{◌==◌, contains}
use tamarackdb.Prelude.Assoc.{lookup, insert, lookup-insert}
use tamarackdb.Prelude.Exec.{Result, ok, err, and_then}
use tamarackdb.Prelude.Int.{ℤ, pos, negsuc, ltb_ℤ}
use tamarackdb.Dcb.Event.Rules.{Distinct}
use tamarackdb.Projection.{Key, projection_key_eq}
use tamarackdb.Api.{ItemList, Place, ApiError}
use tamarackdb.Api.Requests.{
  refuse_oversize, require, unless_seen, Seen, Item, check_item, check_items,
}

-- A size is within a limit that is an `int`.
abbrev pub AtMost : ℕ → ℤ → Type 0
AtMost n (pos m) = n ≤ m
AtMost n (negsuc m) = ⊥

pub ltb_ℤ-AtMost_iff : (n : ℕ) (max : ℤ) → (ltb_ℤ max (pos n) ≡ false) ↔ AtMost n max
ltb_ℤ-AtMost_iff n (pos m) = ground arith
ltb_ℤ-AtMost_iff n (negsuc m) = ((λ h. ground (arith, h)), (λ h. absurd h))

-- A projection that passes on its own.
abbrev pub Passes : ℤ → Item → Type 0
Passes max p = (p.validated ≡ none) × AtMost p.item_size max

abbrev pub keys : List Item → List Key
keys [] = []
keys (p ∷ rest) = p.key ∷ keys rest

-- No key of the items is among those already seen.
abbrev pub Unseen : Seen → List Item → Type 0
Unseen seen items = All (λ p. lookup p.key seen ≡ none) items

module _ {A B : Type 0} where
  pub and_then_iff :
      (r : Result ApiError A) (f : A → Result ApiError B) (b : B)
      → (and_then r f ≡ ok b) ↔ ((a : A) × (r ≡ ok a) × (f a ≡ ok b))
  and_then_iff (ok a) f b = ((λ h. (a, refl, h)), (λ (a', same, h). ground (arith, same, h)))
  and_then_iff (err e) f b =
      ((λ h. absurd (ground (arith, h))), (λ (a, same, h). absurd (ground (arith, same))))

pub require_iff :
    {E : Type 0} (wrap : E → ApiError) (o : Option E) → (require wrap o ≡ ok tt) ↔ (o ≡ none)
require_iff wrap none = ((λ h. refl), (λ h. refl))
require_iff wrap (some e) = ((λ h. absurd (ground (arith, h))), (λ h. absurd (ground (arith, h))))

refuse_oversize_iff :
    (at : Place) (max : ℤ) (n : ℕ) → (refuse_oversize at max n ≡ ok tt) ↔ AtMost n max
refuse_oversize_iff at max n = elim (Bool-cases (ltb_ℤ max (pos n))) [
  | inl over ↦ (
    (λ h. absurd (ground (arith, over, h))),
    (λ h. absurd (ground (arith, over, (ltb_ℤ-AtMost_iff n max).1 h))),
  )
  | inr fits ↦ ((λ h. (ltb_ℤ-AtMost_iff n max).0 fits), (λ h. ground (arith, fits)))
]

unless_seen_iff : (at : Place) (o : Option Place) → (unless_seen at o ≡ ok tt) ↔ (o ≡ none)
unless_seen_iff at none = ((λ h. refl), (λ h. refl))
unless_seen_iff at (some first) =
    ((λ h. absurd (ground (arith, h))), (λ h. absurd (ground (arith, h))))

check_item_iff :
    (max : ℤ) (at : Place) (p : Item) (seen s : Seen)
    → (check_item max at p seen ≡ ok s)
      ↔ (Passes max p × (lookup p.key seen ≡ none) × (insert p.key at seen ≡ s))
unfolding check_item
check_item_iff max at p seen s = (
  (λ h.
      let (u, valid, h) = (and_then_iff _ _ s).0 h in
      let (u', fresh, h) = (and_then_iff _ _ s).0 h in
      let (u'', fits, h) = (and_then_iff _ _ s).0 h in
      (
        ((require_iff _ p.validated).0 valid, (refuse_oversize_iff at max p.item_size).0 fits),
        (unless_seen_iff at (lookup p.key seen)).0 fresh,
        ground (arith, h),
      )),
  (λ ((valid, fits), fresh, same). (and_then_iff _ _ s).1 (
    tt,
    (require_iff _ p.validated).1 valid,
    (and_then_iff _ _ s).1 (
      tt,
      (unless_seen_iff at (lookup p.key seen)).1 fresh,
      (and_then_iff _ _ s).1
          (tt, (refuse_oversize_iff at max p.item_size).1 fits, ground (arith, same)),
    ),
  )),
)

-- `seen` once a loop is done.
pub inserted : ItemList → ℕ → List Item → Seen → Seen
inserted op i [] seen = seen
inserted op i (p ∷ rest) seen = inserted op (i + 1) rest (insert p.key (op, i) seen)

lookup-insert-none :
    (k j : Key) (at : Place) (seen : Seen)
    → (lookup k (insert j at seen) ≡ none) ↔ (((k == j) ≡ false) × (lookup k seen ≡ none))
lookup-insert-none k j at seen =
    ground (
      arith,
      lookup-insert j k at seen,
      projection_key_eq.beq_iff j k,
      projection_key_eq.beq_iff k j,
    )

lookup-inserted :
    (k : Key) (op : ItemList) (i : ℕ) (items : List Item) (seen : Seen)
    → (lookup k (inserted op i items seen) ≡ none)
      ↔ ((contains (keys items) k ≡ false) × (lookup k seen ≡ none))
unfolding inserted contains
lookup-inserted k op i [] seen = ((λ h. (refl, h)), (λ h. h.1))
lookup-inserted k op i (p ∷ rest) seen = ground (
  arith,
  lookup-inserted k op (i + 1) rest (insert p.key (op, i) seen),
  lookup-insert-none k p.key (op, i) seen,
)

-- The keys of the items are not among these.
abbrev pub Apart : List Key → List Item → Type 0
Apart ks items = All (λ p. contains ks p.key ≡ false) items

pub Unseen-inserted :
    (op : ItemList) (i : ℕ) (items more : List Item) (seen : Seen)
    → Unseen (inserted op i items seen) more ↔ (Apart (keys items) more × Unseen seen more)
Unseen-inserted op i items [] seen = ((λ h. (tt, tt)), (λ h. tt))
Unseen-inserted op i items (p ∷ more) seen = (
  (λ (here, rest).
      let (apart, unseen) = (lookup-inserted p.key op i items seen).0 here in
      let (aparts, unseens) = (Unseen-inserted op i items more seen).0 rest in
      ((apart, aparts), (unseen, unseens))),
  (λ ((apart, aparts), (unseen, unseens)). (
    (lookup-inserted p.key op i items seen).1 (apart, unseen),
    (Unseen-inserted op i items more seen).1 (aparts, unseens),
  )),
)

Apart-single :
    (k : Key) (items : List Item) → Apart (k ∷ []) items ↔ (contains (keys items) k ≡ false)
unfolding contains
Apart-single k [] = ((λ h. refl), (λ h. tt))
Apart-single k (p ∷ rest) = (
  (λ (here, others). ground (
    arith,
    here,
    (Apart-single k rest).0 others,
    projection_key_eq.beq_iff k p.key,
    projection_key_eq.beq_iff p.key k,
  )),
  (λ h. (
    ground (arith, h, projection_key_eq.beq_iff k p.key, projection_key_eq.beq_iff p.key k),
    (Apart-single k rest).1 (ground (arith, h)),
  )),
)

-- What a loop lets through.
abbrev pub Fit : ℤ → Seen → List Item → Type 0
Fit max seen items = All (Passes max) items × Unseen seen items × Distinct (keys items)

pub check_items_iff :
    (max : ℤ) (op : ItemList) (i : ℕ) (items : List Item) (seen s : Seen)
    → (check_items max op i items seen ≡ ok s)
      ↔ (Fit max seen items × (inserted op i items seen ≡ s))
unfolding check_items inserted
check_items_iff max op i [] seen s =
    ((λ h. ((tt, tt, tt), ground (arith, h))), (λ h. ground (arith, h.1)))
check_items_iff max op i (p ∷ rest) seen s = (
  (λ h.
      let (s', first, h) = (and_then_iff _ (check_items max op (i + 1) rest) s).0 h in
      let (passes, fresh, same) = (check_item_iff max (op, i) p seen s').0 first in
      let ((pass, unseen, distinct), final) = (check_items_iff max op (i + 1) rest s' s).0 h in
      let (apart, others) =
        (Unseen-inserted op i (p ∷ []) rest seen).0
          (subst (λ x. Unseen x rest) (sym same) unseen) in
      (
        ((passes, pass), (fresh, others), ((Apart-single p.key rest).0 apart, distinct)),
        subst (λ x. inserted op (i + 1) rest x ≡ s) (sym same) final,
      )),
  (λ (((passes, pass), (fresh, others), (alone, distinct)), final).
      let here = insert p.key (op, i) seen in
      (and_then_iff _ (check_items max op (i + 1) rest) s).1 (
        here,
        (check_item_iff max (op, i) p seen here).1 (passes, fresh, refl),
        (check_items_iff max op (i + 1) rest here s).1 (
          (
            pass,
            (Unseen-inserted op i (p ∷ []) rest seen).1 ((Apart-single p.key rest).1 alone, others),
            distinct,
          ),
          final,
        ),
      )),
)
