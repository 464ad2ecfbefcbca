-- ===== src/Dcb/Query/Sorting.antt =====
-- Sorting keeps the elements: no test over all or some of them changes.
use tamarackdb.Prelude.{◌≡◌, refl, ◌∙◌, ap, Bool, ◌&&◌, ◌||◌, List, [], ◌∷◌, arith, any, all}
use tamarackdb.Prelude.Eq.{Eq, ◌==◌, contains}
use tamarackdb.Dcb.Query.{insert_sorted, sort}

module _ {ℓ} {A : Type ℓ} (before : A → A → Bool) where
  all-insert_sorted :
      (p : A → Bool) (a : A) (xs : List A) → all p (insert_sorted before a xs) ≡ (p a && all p xs)
  unfolding all insert_sorted
  all-insert_sorted p a [] = refl
  all-insert_sorted p a (x ∷ xs) = ground (arith, all-insert_sorted p a xs)

  any-insert_sorted :
      (p : A → Bool) (a : A) (xs : List A) → any p (insert_sorted before a xs) ≡ (p a || any p xs)
  unfolding any insert_sorted
  any-insert_sorted p a [] = refl
  any-insert_sorted p a (x ∷ xs) = ground (arith, any-insert_sorted p a xs)

  pub all-sort : (p : A → Bool) (xs : List A) → all p (sort before xs) ≡ all p xs
  unfolding sort all
  all-sort p [] = refl
  all-sort p (x ∷ xs) = all-insert_sorted p x (sort before xs) ∙ ap (λ b. p x && b) (all-sort p xs)

  pub any-sort : (p : A → Bool) (xs : List A) → any p (sort before xs) ≡ any p xs
  unfolding sort any
  any-sort p [] = refl
  any-sort p (x ∷ xs) = any-insert_sorted p x (sort before xs) ∙ ap (λ b. p x || b) (any-sort p xs)

pub contains-any {ℓ} :
    {A : Type ℓ} ⦃e : Eq A⦄ (xs : List A) (a : A) → contains xs a ≡ any (λ x. a == x) xs
unfolding contains any
contains-any [] a = refl
contains-any ⦃e⦄ (x ∷ xs) a = ap (λ b. e.beq a x || b) (contains-any xs a)
