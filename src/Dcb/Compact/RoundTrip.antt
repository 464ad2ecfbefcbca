-- ===== src/Dcb/Compact/RoundTrip.antt =====
-- What reading the compact shape of some tags gives back.
use mathlib.Core.List.{append-nil, append_assoc}
use tamarackdb.Prelude.{
  ◌≡◌, ◌≢◌, refl, sym, ap, ◌∙◌, Bool, true, false, List, [], ◌∷◌, ◌++◌, map, Option, none, some,
  arith, All, All-mono, All-append, Bool-cases, inl, inr, if◌then◌else◌,
}
use tamarackdb.Prelude.Eq.{Bytes, bytes_eq, ◌==◌, beq_refl}
use tamarackdb.Prelude.Assoc.{Assoc, lookup, insert, lookup-insert}
use tamarackdb.Prelude.Exec.{ok, and_then}
use tamarackdb.Dcb.Query.{insert_sorted, sort, bytes_ltb, elements, is_nil}
use tamarackdb.Dcb.Compact.{
  CompactValue, Pair, group, compact_value, marshal_compact, unmarshal_compact,
}

-- The values under a name, in order.
pub values : Bytes → List Pair → List Bytes
values n [] = []
values n ((m, v) ∷ rest) = let others = values n rest in if m == n then v ∷ others else others

abbrev Groups : Type 0
Groups = Assoc Bytes (List Bytes)

-- `vs` for each time that a name stands in a list.
pick : List Bytes → Bytes → List Bytes → List Bytes
pick vs n [] = []
pick vs n (m ∷ rest) = let others = pick vs n rest in if m == n then vs ++ others else others

-- The values of a name with one more.
abbrev added : Bytes → Bytes → Groups → List Bytes
added m v g = elements (lookup m g) ++ v ∷ []

lookup-added :
    (m n v : Bytes) (g : Groups)
    → (m == n) ≡ true
    → lookup n (insert m (added m v g) g) ≡ some (added m v g)
lookup-added m n v g same = ground (arith, lookup-insert m n (added m v g) g, same)

values_here :
    (m n v : Bytes) (rest : List Pair)
    → (m == n) ≡ true
    → v ∷ values n rest ≡ values n ((m, v) ∷ rest)
unfolding values
values_here m n v rest same = ground (arith, same)

lookup-group :
    (n : Bytes) (g : Groups) (o : List Bytes) (items : List Pair)
    → elements (lookup n (group g o items).0) ≡ elements (lookup n g) ++ values n items
unfolding group values
lookup-group n g o [] = sym (append-nil (elements (lookup n g)))
lookup-group n g o ((m, v) ∷ rest) =
    lookup-group n (insert m (added m v g) g) (if is_nil (lookup m g) then o ++ m ∷ [] else o) rest
    ∙ elim (Bool-cases (m == n)) [
      | inl same ↦
          let now : m ≡ n = (bytes_eq.beq_iff m n).0 same in
          ap (λ x. elements x ++ values n rest) (lookup-added m n v g same)
          ∙ append_assoc (elements (lookup m g)) (v ∷ []) (values n rest)
          ∙ ap (λ x. elements (lookup x g) ++ v ∷ values n rest) now
          ∙ ap (λ x. elements (lookup n g) ++ x) (values_here m n v rest same)
      | inr other ↦ ground (arith, lookup-insert m n (added m v g) g, other)
    ]

pick-append :
    (vs : List Bytes) (n : Bytes) (xs ys : List Bytes)
    → pick vs n (xs ++ ys) ≡ pick vs n xs ++ pick vs n ys
unfolding pick
pick-append vs n [] ys = refl
pick-append vs n (x ∷ xs) ys = elim (Bool-cases (x == n)) [
  | inl same ↦
      ground (arith, same, pick-append vs n xs ys, append_assoc vs (pick vs n xs) (pick vs n ys))
  | inr other ↦ ground (arith, other, pick-append vs n xs ys)
]

-- The names in order are those that have a group, each once.
abbrev Ordered : List Bytes → Bytes → Groups → List Bytes → Type 0
Ordered vs n g o = pick vs n o ≡ (if is_nil (lookup n g) then [] else vs)

Ordered-insert :
    (vs : List Bytes) (n m v : Bytes) (g : Groups) (o : List Bytes)
    → Ordered vs n g o
    → Ordered vs n (insert m (added m v g) g) (if is_nil (lookup m g) then o ++ m ∷ [] else o)
unfolding pick
Ordered-insert vs n m v g o h = elim (Bool-cases (m == n)) [
  | inl same ↦
      let now : lookup m g ≡ lookup n g = ap (λ x. lookup x g) ((bytes_eq.beq_iff m n).0 same) in
      elim (Bool-cases (is_nil (lookup m g))) [
        | inl absent ↦
            let empty : pick vs n o ≡ [] = ground (arith, h, now, absent) in
            let once : pick vs n (m ∷ []) ≡ vs = ground (arith, same, append-nil vs) in
            ground (
              arith,
              absent,
              lookup-insert m n (added m v g) g,
              same,
              pick-append vs n o (m ∷ []),
              empty,
              once,
            )
        | inr present ↦ ground (arith, present, lookup-insert m n (added m v g) g, same, h, now)
      ]
  | inr other ↦
      let none_of_it : pick vs n (m ∷ []) ≡ [] = ground (arith, other) in
      elim (Bool-cases (is_nil (lookup m g))) [
        | inl absent ↦ ground (
          arith,
          absent,
          lookup-insert m n (added m v g) g,
          other,
          pick-append vs n o (m ∷ []),
          none_of_it,
          append-nil (pick vs n o),
          h,
        )
        | inr present ↦ ground (arith, present, lookup-insert m n (added m v g) g, other, h)
      ]
]

group-Ordered :
    (vs : List Bytes) (n : Bytes) (g : Groups) (o : List Bytes) (items : List Pair)
    → Ordered vs n g o
    → Ordered vs n (group g o items).0 (group g o items).1
unfolding group
group-Ordered vs n g o [] h = h
group-Ordered vs n g o ((m, v) ∷ rest) h =
    group-Ordered vs n (insert m (added m v g) g) (if is_nil (lookup m g) then o ++ m ∷ [] else o)
      rest (Ordered-insert vs n m v g o h)

pick-insert_sorted :
    (vs : List Bytes) (n a : Bytes) (xs : List Bytes)
    → pick vs n (insert_sorted bytes_ltb a xs) ≡ pick vs n (a ∷ xs)
unfolding pick insert_sorted
pick-insert_sorted vs n a [] = refl
pick-insert_sorted vs n a (x ∷ xs) = elim (Bool-cases (bytes_ltb x a)) [
  | inl before ↦ ground (arith, before, pick-insert_sorted vs n a xs)
  | inr after ↦ ground (arith, after)
]

pick-sort :
    (vs : List Bytes) (n : Bytes) (xs : List Bytes) → pick vs n (sort bytes_ltb xs) ≡ pick vs n xs
unfolding sort pick
pick-sort vs n [] = refl
pick-sort vs n (x ∷ xs) =
    pick-insert_sorted vs n x (sort bytes_ltb xs)
    ∙ ap (λ others. if x == n then vs ++ others else others) (pick-sort vs n xs)

-- A name that has values.
abbrev Filled : Groups → Bytes → Type 0
Filled g n = elements (lookup n g) ≢ []

append-filled : (xs : List Bytes) (v : Bytes) → xs ++ v ∷ [] ≢ []
append-filled [] v h = absurd (cc)
append-filled (x ∷ xs) v h = absurd (cc)

Filled-insert :
    (m v : Bytes) (g : Groups) (n : Bytes) → Filled g n → Filled (insert m (added m v g) g) n
Filled-insert m v g n h = elim (Bool-cases (m == n)) [
  | inl same ↦ λ e.
      append-filled (elements (lookup m g)) v
        (ground (arith, e, lookup-insert m n (added m v g) g, same))
  | inr other ↦ λ e. h (ground (arith, e, lookup-insert m n (added m v g) g, other))
]

Filled-here : (m v : Bytes) (g : Groups) → Filled (insert m (added m v g) g) m
Filled-here m v g e =
    append-filled (elements (lookup m g)) v
      (ground (arith, e, lookup-insert m m (added m v g) g, beq_refl m))

group-Filled :
    (g : Groups) (o : List Bytes) (items : List Pair)
    → All (Filled g) o
    → All (Filled (group g o items).0) (group g o items).1
unfolding group
group-Filled g o [] h = h
group-Filled g o ((m, v) ∷ rest) h =
    group-Filled (insert m (added m v g) g) (if is_nil (lookup m g) then o ++ m ∷ [] else o) rest
      (more (is_nil (lookup m g)))
  where
    kept : All (Filled (insert m (added m v g) g)) o
    kept = All-mono _ _ o (Filled-insert m v g) h

    more : (b : Bool) → All (Filled (insert m (added m v g) g)) (if b then o ++ m ∷ [] else o)
    more true = All-append _ o (m ∷ []) kept (Filled-here m v g, tt)
    more false = kept

module _ (P : Bytes → Type 0) where
  All-insert_sorted :
      (a : Bytes) (xs : List Bytes) → P a → All P xs → All P (insert_sorted bytes_ltb a xs)
  unfolding insert_sorted
  All-insert_sorted a [] p h = (p, tt)
  All-insert_sorted a (x ∷ xs) p (here, others) =
      placed (bytes_ltb x a) (All-insert_sorted a xs p others)
    where
      placed :
          (b : Bool)
          → All P (insert_sorted bytes_ltb a xs)
          → All P (if b then x ∷ insert_sorted bytes_ltb a xs else a ∷ x ∷ xs)
      placed true later = (here, later)
      placed false later = (p, (here, others))

  All-sort : (xs : List Bytes) → All P xs → All P (sort bytes_ltb xs)
  unfolding sort
  All-sort [] h = tt
  All-sort (x ∷ xs) (here, others) =
      All-insert_sorted x (sort bytes_ltb xs) here (All-sort xs others)

-- The compact shape of the groups under some names.
abbrev written : Groups → List Bytes → List (Bytes × CompactValue)
written g names = map (λ name. (name, compact_value (elements (lookup name g)))) names

values-append : (n : Bytes) (xs ys : List Pair) → values n (xs ++ ys) ≡ values n xs ++ values n ys
unfolding values
values-append n [] ys = refl
values-append n ((m, v) ∷ xs) ys = ground (arith, values-append n xs ys)

values-map :
    (n m : Bytes) (vs : List Bytes) → values n (map (λ v. (m, v)) vs) ≡ (if m == n then vs else [])
unfolding values
values-map n m [] = ground arith
values-map n m (v ∷ vs) = ground (arith, values-map n m vs)

-- Reading a value that is written under a name.
read_value :
    (m : Bytes) (vs : List Bytes) (rest : List (Bytes × CompactValue)) (out : List Pair)
    → vs ≢ []
    → unmarshal_compact rest ≡ ok out
    → unmarshal_compact ((m, compact_value vs) ∷ rest) ≡ ok (map (λ v. (m, v)) vs ++ out)
unfolding unmarshal_compact
read_value m [] rest out filled h = absurd (filled refl)
read_value m (v ∷ []) rest out filled h = ap (λ r. and_then r (λ o. ok ((m, v) ∷ o))) h
read_value m (v ∷ w ∷ vs) rest out filled h =
    ap (λ r. and_then r (λ o. ok (map (λ x. (m, x)) (v ∷ w ∷ vs) ++ o))) h

abbrev ReadBack : Groups → List Bytes → Type 0
ReadBack g names =
    (out : List Pair) × (unmarshal_compact (written g names) ≡ ok out)
    × ((n : Bytes) → values n out ≡ pick (elements (lookup n g)) n names)

read_back : (g : Groups) (names : List Bytes) → All (Filled g) names → ReadBack g names
unfolding unmarshal_compact pick values
read_back g [] h = ([], refl, (λ n. refl))
read_back g (m ∷ names) (here, others) =
    let (out, done, same) = read_back g names others in
    let vs = elements (lookup m g) in
    (
      map (λ v. (m, v)) vs ++ out,
      read_value m vs (written g names) out here done,
      (λ n.
          values-append n (map (λ v. (m, v)) vs) out
          ∙ ap (λ x. x ++ values n out) (values-map n m vs)
          ∙ ap (λ x. (if m == n then vs else []) ++ x) (same n)
          ∙ elim (Bool-cases (m == n)) [
            | inl now ↦
                ap (λ x. (if x then vs else []) ++ pick (elements (lookup n g)) n names) now
                ∙ ap (λ x. elements (lookup x g) ++ pick (elements (lookup n g)) n names)
                    ((bytes_eq.beq_iff m n).0 now)
                ∙ picked n now
            | inr other ↦ ground (arith, other)
          ]),
    )
  where
    picked :
        (n : Bytes)
        → (m == n) ≡ true
        → elements (lookup n g) ++ pick (elements (lookup n g)) n names
          ≡ pick (elements (lookup n g)) n (m ∷ names)
    picked n now = ground (arith, now)

-- What is read back from the compact shape of some tags holds, under every name, the values that the tags
-- have under it, in their order.
pub unmarshal_compact-marshal_compact :
    (items : List Pair)
    → (out : List Pair) × (unmarshal_compact (marshal_compact items) ≡ ok out)
      × ((n : Bytes) → values n out ≡ values n items)
unfolding marshal_compact pick
unmarshal_compact-marshal_compact items =
    let (out, done, same) =
      read_back grouped.0 (sort bytes_ltb grouped.1)
        (All-sort (Filled grouped.0) grouped.1 (group-Filled [] [] items tt)) in
    (
      out,
      done,
      (λ n.
          let vs = elements (lookup n grouped.0) in
          same n
          ∙ pick-sort vs n grouped.1
          ∙ in_order n (lookup n grouped.0) (group-Ordered vs n [] [] items refl)
          ∙ lookup-group n [] [] items),
    )
  where
    grouped : Groups × List Bytes
    grouped = group [] [] items

    in_order :
        (n : Bytes) (o : Option (List Bytes))
        → pick (elements o) n grouped.1 ≡ (if is_nil o then [] else elements o)
        → pick (elements o) n grouped.1 ≡ elements o
    in_order n none h = h
    in_order n (some vs) h = h
