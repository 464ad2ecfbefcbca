-- ===== src/Dcb/Query/Orders.antt =====
-- Sorting gives the same list for every order of the elements.
use mathlib.Core.List.{Permᴰ}
use tamarackdb.Prelude.{
  ◌≡◌, refl, ◌∙◌, ap, Bool, true, false, not, List, [], ◌∷◌, arith, if◌then◌else◌,
}
use tamarackdb.Prelude.Eq.{Bytes, bytes_beq, bytes_beq_iff}
use tamarackdb.Dcb.Event.{Identifier, Metadata}
use tamarackdb.Dcb.Query.{bytes_ltb, insert_sorted, sort, identifier_before, metadata_before}

-- A strict linear order.
pub record Linear {ℓ} {A : Type ℓ} (before : A → A → Bool) : Type ℓ where
  pub asymmetric : (a b : A) → before a b ≡ true → before b a ≡ false
  pub connected : (a b : A) → before a b ≡ false → before b a ≡ false → a ≡ b
  pub cut : (a x b : A) → before x a ≡ false → before x b ≡ true → before a b ≡ true

module _ {ℓ} {A : Type ℓ} {before : A → A → Bool} (linear : Linear before) where
  insert_sorted-swap :
      (a b : A) (xs : List A)
      → insert_sorted before a (insert_sorted before b xs)
        ≡ insert_sorted before b (insert_sorted before a xs)
  unfolding insert_sorted
  insert_sorted-swap a b [] =
      ground (arith, linear.asymmetric a b, linear.asymmetric b a, linear.connected a b)
  insert_sorted-swap a b (x ∷ xs) = ground (
    arith,
    linear.asymmetric a b,
    linear.asymmetric b a,
    linear.connected a b,
    linear.cut a x b,
    linear.cut b x a,
    linear.asymmetric x a,
    linear.asymmetric x b,
    insert_sorted-swap a b xs,
  )

  pub sort-Permᴰ : {xs ys : List A} → Permᴰ xs ys → sort before xs ≡ sort before ys
  unfolding sort
  sort-Permᴰ Permᴰ.nil = refl
  sort-Permᴰ (Permᴰ.cons {a = a} {l₂ = ys} e p) =
      ap (insert_sorted before a) (sort-Permᴰ p)
      ∙ ap (λ x. insert_sorted before x (sort before ys)) e
  sort-Permᴰ (Permᴰ.swap {a = a} {b = b} {a' = a'} {l = xs} e f) =
      insert_sorted-swap a b (sort before xs)
      ∙ ap (λ x. insert_sorted before x (insert_sorted before a (sort before xs))) f
      ∙ ap (λ x. insert_sorted before a' (insert_sorted before x (sort before xs))) e
  sort-Permᴰ (Permᴰ.trans p q) = sort-Permᴰ p ∙ sort-Permᴰ q

bytes_ltb-asymmetric : (a b : Bytes) → bytes_ltb a b ≡ true → bytes_ltb b a ≡ false
unfolding bytes_ltb
bytes_ltb-asymmetric [] [] h = refl
bytes_ltb-asymmetric [] (y ∷ ys) h = refl
bytes_ltb-asymmetric (x ∷ xs) [] h = absurd (ground (arith, h))
bytes_ltb-asymmetric (x ∷ xs) (y ∷ ys) h = ground (arith, h, bytes_ltb-asymmetric xs ys)

bytes_ltb-connected : (a b : Bytes) → bytes_ltb a b ≡ false → bytes_ltb b a ≡ false → a ≡ b
unfolding bytes_ltb
bytes_ltb-connected [] [] h k = refl
bytes_ltb-connected [] (y ∷ ys) h k = absurd (ground (arith, h))
bytes_ltb-connected (x ∷ xs) [] h k = absurd (ground (arith, k))
bytes_ltb-connected (x ∷ xs) (y ∷ ys) h k = ground (arith, h, k, bytes_ltb-connected xs ys)

bytes_ltb-cut :
    (a x b : Bytes) → bytes_ltb x a ≡ false → bytes_ltb x b ≡ true → bytes_ltb a b ≡ true
unfolding bytes_ltb
bytes_ltb-cut a [] [] h k = absurd (ground (arith, k))
bytes_ltb-cut a (x ∷ xs) [] h k = absurd (ground (arith, k))
bytes_ltb-cut [] x (b ∷ bs) h k = refl
bytes_ltb-cut (a ∷ rest) [] (b ∷ bs) h k = absurd (ground (arith, h))
bytes_ltb-cut (a ∷ rest) (x ∷ xs) (b ∷ bs) h k = ground (arith, h, k, bytes_ltb-cut rest xs bs)

pub bytes_ltb-Linear : Linear bytes_ltb
bytes_ltb-Linear = record {
  asymmetric = bytes_ltb-asymmetric;
  connected = bytes_ltb-connected;
  cut = bytes_ltb-cut;
}

-- Pairs in the order of their names, then of their values.
module _ {A : Type 0} (name value : A → Bytes)
    (same : (a b : A) → name a ≡ name b → value a ≡ value b → a ≡ b) where
  abbrev by_name : A → A → Bool
  by_name a b =
      if not (bytes_beq (name a) (name b))
      then bytes_ltb (name a) (name b)
      else bytes_ltb (value a) (value b)

  by_name-Linear : Linear by_name
  by_name-Linear = record {
    asymmetric = λ a b h. ground (
      arith,
      h,
      bytes_beq_iff (name a) (name b),
      bytes_beq_iff (name b) (name a),
      bytes_ltb-asymmetric (name a) (name b),
      bytes_ltb-asymmetric (value a) (value b),
    );
    connected = λ a b h k. ground (
      arith,
      h,
      k,
      bytes_beq_iff (name a) (name b),
      bytes_beq_iff (name b) (name a),
      bytes_ltb-connected (name a) (name b),
      bytes_ltb-connected (value a) (value b),
      same a b,
    );
    cut = λ a x b h k. ground (
      arith,
      h,
      k,
      bytes_beq_iff (name x) (name a),
      bytes_beq_iff (name x) (name b),
      bytes_beq_iff (name a) (name b),
      bytes_ltb-cut (name a) (name x) (name b),
      bytes_ltb-connected (name x) (name a),
      bytes_ltb-asymmetric (name a) (name x),
      bytes_ltb-cut (value a) (value x) (value b),
    );
  }

pub identifier_before-Linear : Linear identifier_before
identifier_before-Linear =
    unfold identifier_before in
    by_name-Linear (λ (i : Identifier). i.name) (λ i. i.value) λ a b e f. ground (arith, e, f)

pub metadata_before-Linear : Linear metadata_before
metadata_before-Linear =
    unfold metadata_before in
    by_name-Linear (λ (m : Metadata). m.name) (λ m. m.value) λ a b e f. ground (arith, e, f)
