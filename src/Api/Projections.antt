-- ===== src/Api/Projections.antt =====
-- What `validateWriteProjections` lets through.
use tamarackdb.Prelude.{
  ◌≡◌, ◌≢◌, ◌↔◌, refl, sym, subst, ap, false, List, [], ◌∷◌, ◌++◌, map, none, arith, All,
  All-append, Bool-cases, inl, inr,
}
use tamarackdb.Prelude.Eq.{contains}
use tamarackdb.Prelude.Assoc.{lookup}
use tamarackdb.Prelude.Exec.{ok, and_then}
use tamarackdb.Prelude.Int.{ℤ, pos, ltb_ℤ}
use tamarackdb.Dcb.Event.Rules.{Distinct}
use tamarackdb.Projection.{Key, Create, Replace, Delete, projection_key_eq, Writes, writes_len}
use tamarackdb.Projection.Rules.{IsKey, validate_writes_iff}
use tamarackdb.Api.{Options, create_list, replace_list, delete_list}
use tamarackdb.Api.Requests.{
  Item, Seen, check_items, create_item, replace_item, delete_item, projection_size,
  validate_projections, validate_write_projections,
}
use tamarackdb.Api.Checks.{
  AtMost, ltb_ℤ-AtMost_iff, Passes, keys, Fit, Unseen, Apart, inserted, Unseen-inserted,
  check_items_iff, and_then_iff,
}

-- A projection of a request, however it is written.
abbrev pub FitsCreate : ℤ → Create → Type 0
FitsCreate max c = IsKey c.key × (c.payload ≢ none) × AtMost (projection_size c.key c.payload) max

abbrev pub FitsReplace : ℤ → Replace → Type 0
FitsReplace max r =
    IsKey r.key
    × (r.version ≢ [])
    × (r.payload ≢ none)
    × AtMost (projection_size r.key r.payload) max

abbrev pub FitsDelete : ℤ → Delete → Type 0
FitsDelete max d = IsKey d.key × (d.version ≢ []) × AtMost (projection_size d.key none) max

abbrev pub written_keys : Writes → List Key
written_keys w =
    map (λ c. c.key) w.creates ++ (map (λ r. r.key) w.replaces ++ map (λ d. d.key) w.deletes)

pub record Accepted (opts : Options) (w : Writes) : Type 0 where
  pub few : AtMost (writes_len w) opts.max_projections_per_write
  pub creates_fit : All (FitsCreate opts.max_projection_size) w.creates
  pub replaces_fit : All (FitsReplace opts.max_projection_size) w.replaces
  pub deletes_fit : All (FitsDelete opts.max_projection_size) w.deletes
  pub distinct_keys : Distinct (written_keys w)

create_item-Passes : (max : ℤ) (c : Create) → Passes max (create_item c) ↔ FitsCreate max c
unfolding create_item
create_item-Passes max c =
    let rule =
      (validate_writes_iff c (record { key = c.key; version = []; payload = none })
        (record { key = c.key; version = [] })).0 in
    (
      (λ (valid, size). ((rule.0 valid).0, (rule.0 valid).1, size)),
      (λ (key, payload, size). (rule.1 (key, payload), size)),
    )

replace_item-Passes : (max : ℤ) (r : Replace) → Passes max (replace_item r) ↔ FitsReplace max r
unfolding replace_item
replace_item-Passes max r =
    let rule =
      (validate_writes_iff (record { key = r.key; payload = none }) r
        (record { key = r.key; version = [] })).1 in
    (
      (λ (valid, size). ((rule.0 valid).0, (rule.0 valid).1, (rule.0 valid).2, size)),
      (λ (key, version, payload, size). (rule.1 (key, version, payload), size)),
    )

delete_item-Passes : (max : ℤ) (d : Delete) → Passes max (delete_item d) ↔ FitsDelete max d
unfolding delete_item
delete_item-Passes max d =
    let rule =
      (validate_writes_iff (record { key = d.key; payload = none })
        (record { key = d.key; version = []; payload = none }) d).2 in
    (
      (λ (valid, size). ((rule.0 valid).0, (rule.0 valid).1, size)),
      (λ (key, version, size). (rule.1 (key, version), size)),
    )

module _ {A : Type 0} (item : A → Item) (key : A → Key) (P : A → Type 0) (max : ℤ) where
  All-map :
      ((a : A) → Passes max (item a) ↔ P a)
      → (xs : List A) → All (Passes max) (map item xs) ↔ All P xs
  All-map rule [] = ((λ h. tt), (λ h. tt))
  All-map rule (a ∷ xs) = (
    (λ (here, rest). ((rule a).0 here, (All-map rule xs).0 rest)),
    (λ (here, rest). ((rule a).1 here, (All-map rule xs).1 rest)),
  )

  keys-map : ((a : A) → (item a).key ≡ key a) → (xs : List A) → keys (map item xs) ≡ map key xs
  keys-map same [] = refl
  keys-map same (a ∷ xs) = ground (arith, same a, keys-map same xs)

keys-append : (xs ys : List Item) → keys (xs ++ ys) ≡ keys xs ++ keys ys
keys-append [] ys = refl
keys-append (x ∷ xs) ys = ap (◌∷◌ x.key) (keys-append xs ys)

contains-append :
    (xs ys : List Key) (k : Key)
    → (contains (xs ++ ys) k ≡ false) ↔ ((contains xs k ≡ false) × (contains ys k ≡ false))
unfolding contains
contains-append [] ys k = ((λ h. (refl, h)), (λ h. h.1))
contains-append (x ∷ xs) ys k = ground (arith, contains-append xs ys k)

Apart-none : (items : List Item) → Apart [] items
unfolding contains
Apart-none [] = tt
Apart-none (p ∷ rest) = (refl, Apart-none rest)

Apart-cons :
    (k : Key) (ks : List Key) (items : List Item)
    → Apart (k ∷ ks) items ↔ ((contains (keys items) k ≡ false) × Apart ks items)
unfolding contains
Apart-cons k ks [] = ((λ h. (refl, tt)), (λ h. tt))
Apart-cons k ks (p ∷ rest) = (
  (λ (here, others).
      let (alone, apart) = (Apart-cons k ks rest).0 others in
      (
        ground (
          arith,
          here,
          alone,
          projection_key_eq.beq_iff k p.key,
          projection_key_eq.beq_iff p.key k,
        ),
        (ground (arith, here), apart),
      )),
  (λ (alone, (here, apart)). (
    ground
        (arith, here, alone, projection_key_eq.beq_iff k p.key, projection_key_eq.beq_iff p.key k),
    (Apart-cons k ks rest).1 (ground (arith, alone), apart),
  )),
)

Distinct-append :
    (xs : List Key) (items : List Item)
    → Distinct (xs ++ keys items) ↔ (Distinct xs × Distinct (keys items) × Apart xs items)
Distinct-append [] items = ((λ d. (tt, d, Apart-none items)), (λ h. h.1))
Distinct-append (x ∷ xs) items = (
  (λ (alone, distinct).
      let (first, second, apart) = (Distinct-append xs items).0 distinct in
      let (here, there) = (contains-append xs (keys items) x).0 alone in
      ((here, first), second, (Apart-cons x xs items).1 (there, apart))),
  (λ ((here, first), second, apart).
      let (there, others) = (Apart-cons x xs items).0 apart in
      (
        (contains-append xs (keys items) x).1 (here, there),
        (Distinct-append xs items).1 (first, second, others),
      )),
)

All-split {ℓ κ} :
    {A : Type ℓ} (P : A → Type κ) (xs ys : List A) → All P (xs ++ ys) → All P xs × All P ys
All-split P [] ys h = (tt, h)
All-split P (x ∷ xs) ys (here, rest) =
    let (first, second) = All-split P xs ys rest in ((here, first), second)

Unseen-nil : (items : List Item) → Unseen [] items
unfolding lookup
Unseen-nil [] = tt
Unseen-nil (p ∷ rest) = (refl, Unseen-nil rest)

-- The three loops over one map.
loops_iff :
    (max : ℤ) (cs rs ds : List Item) (s : Seen)
    → ((Fit max [] cs
          × Fit max (inserted create_list 0 cs []) rs
          × Fit max (inserted replace_list 0 rs (inserted create_list 0 cs [])) ds)
        ↔ (All (Passes max) cs
            × All (Passes max) rs
            × All (Passes max) ds
            × Distinct (keys cs ++ (keys rs ++ keys ds))))
loops_iff max cs rs ds s = (
  (λ (
    (pass_c, unseen_c, distinct_c),
    (pass_r, unseen_r, distinct_r),
    (pass_d, unseen_d, distinct_d),
  ).
      let (apart_r, u) = (Unseen-inserted create_list 0 cs rs []).0 unseen_r in
      let (apart_d, u') =
        (Unseen-inserted replace_list 0 rs ds (inserted create_list 0 cs [])).0 unseen_d in
      let (apart_d', u'') = (Unseen-inserted create_list 0 cs ds []).0 u' in
      let tail = (Distinct-append (keys rs) ds).1 (distinct_r, distinct_d, apart_d) in
      (
        pass_c,
        pass_r,
        pass_d,
        subst (λ ks. Distinct (keys cs ++ ks)) (keys-append rs ds)
            ((Distinct-append (keys cs) (rs ++ ds)).1 (
              distinct_c,
              subst Distinct (sym (keys-append rs ds)) tail,
              All-append _ rs ds apart_r apart_d',
            )),
      )),
  (λ (pass_c, pass_r, pass_d, distinct).
      let (distinct_c, tail, apart) =
        (Distinct-append (keys cs) (rs ++ ds)).0
          (subst (λ ks. Distinct (keys cs ++ ks)) (sym (keys-append rs ds)) distinct) in
      let (distinct_r, distinct_d, apart_d) =
        (Distinct-append (keys rs) ds).0 (subst Distinct (keys-append rs ds) tail) in
      let (apart_r, apart_d') = All-split _ rs ds apart in
      (
        (pass_c, Unseen-nil cs, distinct_c),
        (pass_r, (Unseen-inserted create_list 0 cs rs []).1 (apart_r, Unseen-nil rs), distinct_r),
        (
          pass_d,
          (Unseen-inserted replace_list 0 rs ds (inserted create_list 0 cs [])).1
              (apart_d, (Unseen-inserted create_list 0 cs ds []).1 (apart_d', Unseen-nil ds)),
          distinct_d,
        ),
      )),
)

abbrev CheckedItems : ℤ → List Item → List Item → List Item → Type 0
CheckedItems max cs rs ds =
    Fit max [] cs
    × Fit max (inserted create_list 0 cs []) rs
    × Fit max (inserted replace_list 0 rs (inserted create_list 0 cs [])) ds

checked_iff :
    (max : ℤ) (cs rs ds : List Item)
    → (and_then (check_items max create_list 0 cs []) (λ s.
          and_then
            (check_items max replace_list 0 rs s)
            (λ s'. and_then (check_items max delete_list 0 ds s') (λ _. ok tt)))
        ≡ ok tt)
      ↔ CheckedItems max cs rs ds
checked_iff max cs rs ds = (
  (λ h.
      let (s, first, h) = (and_then_iff _ _ tt).0 h in
      let (s', second, h) = (and_then_iff _ _ tt).0 h in
      let (s'', third, h) = (and_then_iff _ _ tt).0 h in
      let (fit_c, same) = (check_items_iff max create_list 0 cs [] s).0 first in
      let (fit_r, same') = (check_items_iff max replace_list 0 rs s s').0 second in
      let (fit_d, same'') = (check_items_iff max delete_list 0 ds s' s'').0 third in
      (
        fit_c,
        subst (λ x. Fit max x rs) (sym same) fit_r,
        subst (λ x. Fit max (inserted replace_list 0 rs x) ds) (sym same)
            (subst (λ x. Fit max x ds) (sym same') fit_d),
      )),
  (λ (fit_c, fit_r, fit_d).
      let s = inserted create_list 0 cs [] in
      let s' = inserted replace_list 0 rs s in
      (and_then_iff _ _ tt).1 (
        s,
        (check_items_iff max create_list 0 cs [] s).1 (fit_c, refl),
        (and_then_iff _ _ tt).1 (
          s',
          (check_items_iff max replace_list 0 rs s s').1 (fit_r, refl),
          (and_then_iff _ _ tt).1 (
            inserted delete_list 0 ds s',
            (check_items_iff max delete_list 0 ds s' (inserted delete_list 0 ds s')).1
                (fit_d, refl),
            refl,
          ),
        ),
      )),
)

counted_iff :
    (opts : Options) (w : Writes)
    → (validate_write_projections opts w ≡ ok tt) ↔ (
        AtMost (writes_len w) opts.max_projections_per_write
        × (validate_projections opts.max_projection_size w ≡ ok tt))
unfolding validate_write_projections
counted_iff opts w = elim (Bool-cases (ltb_ℤ opts.max_projections_per_write (pos (writes_len w)))) [
  | inl over ↦ (
    (λ h. absurd (ground (arith, over, h))),
    (λ h. absurd (
        ground
          (arith, over, (ltb_ℤ-AtMost_iff (writes_len w) opts.max_projections_per_write).1 h.0))),
  )
  | inr fits ↦ (
    (λ h. (
      (ltb_ℤ-AtMost_iff (writes_len w) opts.max_projections_per_write).0 fits,
      ground (arith, fits, h),
    )),
    (λ h. ground (arith, fits, h.1)),
  )
]

append_parts :
    (a a' b b' c c' : List Key) → a ≡ a' → b ≡ b' → c ≡ c' → a ++ (b ++ c) ≡ a' ++ (b' ++ c')
append_parts a a' b b' c c' p q r = cc

item_keys :
    (max : ℤ) (w : Writes)
    → (keys (map create_item w.creates)
        ++ (keys (map replace_item w.replaces) ++ keys (map delete_item w.deletes)))
      ≡ written_keys w
unfolding create_item replace_item delete_item
item_keys max w =
    append_parts _ _ _ _ _ _
      (keys-map create_item (λ c. c.key) (FitsCreate max) max (λ c. refl) w.creates)
      (keys-map replace_item (λ r. r.key) (FitsReplace max) max (λ r. refl) w.replaces)
      (keys-map delete_item (λ d. d.key) (FitsDelete max) max (λ d. refl) w.deletes)

-- `validateWriteProjections` lets a request through exactly when its projections are at most
-- maxProjectionsPerWrite, each has a valid key, the version and the payload that its list requires and a
-- size within maxProjectionSize, and no two of the three lists name the same projection.
pub validate_write_projections-Accepted_iff :
    (opts : Options) (w : Writes) → (validate_write_projections opts w ≡ ok tt) ↔ Accepted opts w
unfolding validate_projections
validate_write_projections-Accepted_iff opts w =
    let max = opts.max_projection_size in
    let cs = map create_item w.creates in
    let rs = map replace_item w.replaces in
    let ds = map delete_item w.deletes in
    (
      (λ h.
          let (few, h) = (counted_iff opts w).0 h in
          let (pass_c, pass_r, pass_d, distinct) =
            (loops_iff max cs rs ds []).0 ((checked_iff max cs rs ds).0 h) in
          record {
            few = few;
            creates_fit =
                (All-map create_item (λ c. c.key) _ max (create_item-Passes max) w.creates).0
                  pass_c;
            replaces_fit =
                (All-map replace_item (λ r. r.key) _ max (replace_item-Passes max) w.replaces).0
                  pass_r;
            deletes_fit =
                (All-map delete_item (λ d. d.key) _ max (delete_item-Passes max) w.deletes).0
                  pass_d;
            distinct_keys = subst Distinct (item_keys max w) distinct;
          }),
      (λ a. (counted_iff opts w).1 (
        a.few,
        (checked_iff max cs rs ds).1 (
            (loops_iff max cs rs ds []).1 (
              (All-map create_item (λ c. c.key) _ max (create_item-Passes max) w.creates).1
                  a.creates_fit,
              (All-map replace_item (λ r. r.key) _ max (replace_item-Passes max) w.replaces).1
                  a.replaces_fit,
              (All-map delete_item (λ d. d.key) _ max (delete_item-Passes max) w.deletes).1
                  a.deletes_fit,
              subst Distinct (sym (item_keys max w)) a.distinct_keys,
            )),
      )),
    )
