-- ===== src/Base/Select.antt =====
-- Selections and searches over tables as lists of rows, and lists put together.
use mathlib.Core.Path.{◌≡◌, refl, ap}
use mathlib.Core.List.{List, [], ◌∷◌, ◌++◌, map}
use mathlib.Core.Bool.{Bool, true, false}
use mathlib.Core.Option.{some}
use mathlib.Core.Logic.{inl, inr}
use native.Mathlib.Omega.{arith}
use asas.Base.Tests.{Bool-cases, is_some}
use asas.Base.Lists.{All, length}
use asas.Base.Table.{first_where, select_where}

module _ {ℓ} {A : Type ℓ} where
  pub select_where-append :
      (p : A → Bool) (xs ys : List A)
      → select_where p (xs ++ ys) ≡ select_where p xs ++ select_where p ys
  unfolding select_where
  select_where-append p [] ys = refl
  select_where-append p (x ∷ xs) ys = ground (arith, select_where-append p xs ys)

  pub select_where-none :
      (p : A → Bool) (xs : List A) → All (λ x. p x ≡ false) xs → select_where p xs ≡ []
  unfolding select_where
  select_where-none p [] h = refl
  select_where-none p (x ∷ xs) h = ground (arith, h.0, select_where-none p xs h.1)

  pub append_nil : (xs : List A) → xs ++ [] ≡ xs
  append_nil [] = refl
  append_nil (x ∷ xs) = ap (λ ys. x ∷ ys) (append_nil xs)

  -- What is found stays found when rows are added.
  pub first_where-append :
      (p : A → Bool) (xs ys : List A)
      → is_some (first_where p xs) ≡ true
      → is_some (first_where p (xs ++ ys)) ≡ true
  unfolding first_where
  first_where-append p [] ys h = absurd (ground (arith, h))
  first_where-append p (x ∷ xs) ys h = ground (arith, h, first_where-append p xs ys)

  pub first_where_here :
      (p : A → Bool) (x : A) (xs : List A) → p x ≡ true → is_some (first_where p (x ∷ xs)) ≡ true
  unfolding first_where
  first_where_here p x xs h = ground (arith, h)

  pub first_where-between :
      (p : A → Bool) (xs : List A) (y : A) (ys : List A)
      → is_some (first_where p (xs ++ ys)) ≡ true
      → is_some (first_where p (xs ++ y ∷ ys)) ≡ true
  unfolding first_where
  first_where-between p [] y ys h = ground (arith, h)
  first_where-between p (x ∷ xs) y ys h = ground (arith, h, first_where-between p xs y ys)

  pub first_where-later :
      (p : A → Bool) (xs ys : List A)
      → is_some (first_where p ys) ≡ true
      → is_some (first_where p (xs ++ ys)) ≡ true
  unfolding first_where
  first_where-later p [] ys h = h
  first_where-later p (x ∷ xs) ys h = ground (arith, h, first_where-later p xs ys h)

  -- What a search among selected rows finds is a row of the table.
  pub first_where-select_where :
      (q p r : A → Bool) (xs : List A) (x : A)
      → first_where q (select_where p xs) ≡ some x
      → ((y : A) → p y ≡ true → q y ≡ true → y ≡ x → r y ≡ true)
      → is_some (first_where r xs) ≡ true
  unfolding first_where select_where
  first_where-select_where q p r [] x h k = absurd (ground (arith, h))
  first_where-select_where q p r (y ∷ ys) x h k = elim (Bool-cases (p y)) [
    | inr miss ↦
        ground (arith, miss, first_where-select_where q p r ys x (ground (arith, h, miss)) k)
    | inl hit ↦ elim (Bool-cases (q y)) [
      | inl e ↦ ground (arith, k y hit e (ground (arith, h, hit, e)))
      | inr e ↦ ground (arith, first_where-select_where q p r ys x (ground (arith, h, hit, e)) k)
    ]
  ]

pub append_assoc {ℓ} : {A : Type ℓ} (xs ys zs : List A) → xs ++ (ys ++ zs) ≡ xs ++ ys ++ zs
append_assoc [] ys zs = refl
append_assoc (x ∷ xs) ys zs = ap (λ ws. x ∷ ws) (append_assoc xs ys zs)

pub length-map {ℓ κ} :
    {A : Type ℓ} {B : Type κ} (f : A → B) (xs : List A) → length (map f xs) ≡ length xs
length-map f [] = refl
length-map f (x ∷ xs) = omega (arith, length-map f xs)
