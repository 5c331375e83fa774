-- ===== src/Common/Tested.antt =====
-- Laws of the Boolean tests `all`, `any` and `select` on lists.
use mathlib.Core.Path.{◌≡◌, refl}
use mathlib.Core.Bool.{Bool, true, false, not, ◌&&◌, ◌||◌}
use mathlib.Core.List.{List, [], ◌∷◌, ◌++◌}
use native.Mathlib.Omega.{arith}
use pichost.Common.Lists.{all, any, select}

module _ {A : Type 0} where
  pub all-imp :
      (p q : A → Bool)
      → ((x : A) → p x ≡ true → q x ≡ true)
      → (xs : List A) → all p xs ≡ true
      → all q xs ≡ true
  all-imp p q f [] h = refl
  all-imp p q f (x ∷ xs) h = ground (arith, f x, all-imp p q f xs)

  pub all-imp₂ :
      (p q s : A → Bool)
      → ((x : A) → p x ≡ true → q x ≡ true → s x ≡ true)
      → (xs : List A) → all p xs ≡ true
      → all q xs ≡ true
      → all s xs ≡ true
  all-imp₂ p q s f [] h k = refl
  all-imp₂ p q s f (x ∷ xs) h k = ground (arith, f x, all-imp₂ p q s f xs)

  pub all-select : (p q : A → Bool) (xs : List A) → all p xs ≡ true → all p (select q xs) ≡ true
  all-select p q [] h = refl
  all-select p q (x ∷ xs) h = ground (arith, all-select p q xs)

  pub all-selected : (q : A → Bool) (xs : List A) → all q (select q xs) ≡ true
  all-selected q [] = refl
  all-selected q (x ∷ xs) = ground (arith, all-selected q xs)

  pub all-none : (p : A → Bool) (xs : List A) → any p xs ≡ false → all (λ x. not (p x)) xs ≡ true
  all-none p [] h = refl
  all-none p (x ∷ xs) h = ground (arith, all-none p xs)

  pub any-split :
      (p q : A → Bool) (xs : List A)
      → any p xs ≡ true
      → (any p (select q xs) || any p (select (λ x. not (q x)) xs)) ≡ true
  any-split p q [] h = absurd (ground (arith, h))
  any-split p q (x ∷ xs) h = ground (arith, any-split p q xs)

  pub any-imp :
      (p q : A → Bool)
      → ((x : A) → p x ≡ true → q x ≡ true)
      → (xs : List A) → any p xs ≡ true
      → any q xs ≡ true
  any-imp p q f [] h = h
  any-imp p q f (x ∷ xs) h = ground (arith, f x, any-imp p q f xs)

  pub any-select :
      (p q : A → Bool)
      → ((x : A) → p x ≡ true → q x ≡ true)
      → (xs : List A) → any p xs ≡ true
      → any p (select q xs) ≡ true
  any-select p q f [] h = h
  any-select p q f (x ∷ xs) h = ground (arith, f x, any-select p q f xs)

  pub any-append : (p : A → Bool) (xs ys : List A) → any p (xs ++ ys) ≡ (any p xs || any p ys)
  any-append p [] ys = refl
  any-append p (x ∷ xs) ys = ground (arith, any-append p xs ys)

  pub all-append : (p : A → Bool) (xs ys : List A) → all p (xs ++ ys) ≡ (all p xs && all p ys)
  all-append p [] ys = refl
  all-append p (x ∷ xs) ys = ground (arith, all-append p xs ys)
