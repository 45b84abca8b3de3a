-- ===== src/Base/Table.antt =====
-- A database table as a list of rows: conditional updates with a row count, and look-ups.
use Prim.Native.Nat.{ℕ, suc, ◌+◌, ◌≤◌, ◌<◌}
use mathlib.Core.Path.{◌≡◌, refl, subst}
use mathlib.Core.List.{List, [], ◌∷◌, ◌++◌}
use mathlib.Core.Bool.{Bool, true, false, not, ◌&&◌}
use mathlib.Core.Option.{Option, none, some}
use native.Mathlib.Omega.{arith}
use mathlib.Core.Logic.{inl, inr}
use asas.Base.Tests.{if◌then◌else◌, Bool-cases, is_some}
use asas.Base.Lists.{All}

module _ {ℓ} {A : Type ℓ} where
  -- UPDATE … SET f WHERE p
  unfoldable pub update_where : (A → Bool) → (A → A) → List A → List A
  update_where p f [] = []
  update_where p f (x ∷ xs) = (if p x then f x else x) ∷ update_where p f xs

  -- The rows that a condition selects, counted: `result.rowcount`.
  unfoldable pub count_where : (A → Bool) → List A → ℕ
  count_where p [] = 0
  count_where p (x ∷ xs) = let rest = count_where p xs in if p x then suc rest else rest

  -- The one row that was found is written.
  unfoldable pub update_first : (A → Bool) → (A → A) → List A → List A
  update_first p f [] = []
  update_first p f (x ∷ xs) = let rest = update_first p f xs in if p x then f x ∷ xs else x ∷ rest

  unfoldable pub select_where : (A → Bool) → List A → List A
  select_where p [] = []
  select_where p (x ∷ xs) = let rest = select_where p xs in if p x then x ∷ rest else rest

  -- SELECT … WHERE p, `.first()`
  unfoldable pub first_where : (A → Bool) → List A → Option A
  first_where p [] = none
  first_where p (x ∷ xs) = let rest = first_where p xs in if p x then some x else rest

  -- Where no row is selected an update writes nothing.
  pub update_where-none :
      (p : A → Bool) (f : A → A) (xs : List A) → count_where p xs ≡ 0 → update_where p f xs ≡ xs
  unfolding update_where count_where
  update_where-none p f [] h = refl
  update_where-none p f (x ∷ xs) h = ground (arith, update_where-none p f xs)

  pub count_where-append :
      (p : A → Bool) (xs ys : List A)
      → count_where p (xs ++ ys) ≡ count_where p xs + count_where p ys
  unfolding count_where
  count_where-append p [] ys = omega arith
  count_where-append p (x ∷ xs) ys = ground (arith, count_where-append p xs ys)

  -- Counting by a condition that the update can only falsify.
  pub count_where-update-le :
      (q p : A → Bool) (f : A → A) (xs : List A)
      → ((x : A) → p x ≡ true → q (f x) ≡ true → q x ≡ true)
      → count_where q (update_where p f xs) ≤ count_where q xs
  unfolding update_where count_where
  count_where-update-le q p f [] h = omega arith
  count_where-update-le q p f (x ∷ xs) h = ground (arith, h x, count_where-update-le q p f xs h)

  -- The rows of a stronger condition are no more.
  pub count_where_mono :
      (q p : A → Bool) (xs : List A)
      → ((x : A) → q x ≡ true → p x ≡ true)
      → count_where q xs ≤ count_where p xs
  unfolding count_where
  count_where_mono q p [] h = omega arith
  count_where_mono q p (x ∷ xs) h = ground (arith, h x, count_where_mono q p xs h)

  -- A row that is found is a row of the table.
  pub count_where-first :
      (p : A → Bool) (xs : List A) (x : A) → first_where p xs ≡ some x → 0 < count_where p xs
  unfolding first_where count_where
  count_where-first p [] x h = ground arith
  count_where-first p (y ∷ ys) x h = ground (arith, count_where-first p ys x)

  pub first_where-count :
      (p : A → Bool) (xs : List A) → first_where p xs ≡ none → count_where p xs ≡ 0
  unfolding first_where count_where
  first_where-count p [] h = refl
  first_where-count p (x ∷ xs) h = ground (arith, first_where-count p xs)

  -- A search over a list whose last item qualifies finds something.
  pub first_where-last :
      (p : A → Bool) (xs : List A) (y : A)
      → p y ≡ true
      → is_some (first_where p (xs ++ y ∷ [])) ≡ true
  unfolding first_where
  first_where-last p [] y h = ground (arith, h)
  first_where-last p (x ∷ xs) y h = ground (arith, first_where-last p xs y h)

  -- Where nothing qualifies, an item that does is found once it is added.
  pub first_where-added :
      (p : A → Bool) (xs : List A) (y : A)
      → count_where p xs ≡ 0
      → p y ≡ true
      → first_where p (xs ++ y ∷ []) ≡ some y
  unfolding first_where count_where
  first_where-added p [] y h k = ground (arith, k)
  first_where-added p (x ∷ xs) y h k = ground (arith, first_where-added p xs y)

  pub first_where-holds :
      (p : A → Bool) (xs : List A) (x : A) → first_where p xs ≡ some x → p x ≡ true
  unfolding first_where
  first_where-holds p [] x h = ground arith
  first_where-holds p (y ∷ ys) x h = ground (arith, first_where-holds p ys x)

  -- Counting by a condition that the update leaves as it was.
  pub count_where-update :
      (q p : A → Bool) (f : A → A) (xs : List A)
      → ((x : A) → p x ≡ true → q (f x) ≡ q x)
      → count_where q (update_where p f xs) ≡ count_where q xs
  unfolding update_where count_where
  count_where-update q p f [] h = refl
  count_where-update q p f (x ∷ xs) h = ground (arith, h x, count_where-update q p f xs h)

  -- Counting by a condition that fails on whatever the update has written.
  pub count_where-clears :
      (q p : A → Bool) (f : A → A) (xs : List A)
      → ((x : A) → p x ≡ true → q (f x) ≡ false)
      → ((x : A) → p x ≡ false → q x ≡ false)
      → count_where q (update_where p f xs) ≡ 0
  unfolding update_where count_where
  count_where-clears q p f [] h k = refl
  count_where-clears q p f (x ∷ xs) h k = ground (arith, h x, k x, count_where-clears q p f xs h k)

  -- Counting by a condition that the update makes true, and that no other row meets.
  pub count_where-marks :
      (q p : A → Bool) (f : A → A) (xs : List A)
      → ((x : A) → p x ≡ true → q (f x) ≡ true)
      → ((x : A) → p x ≡ false → q x ≡ false)
      → count_where q (update_where p f xs) ≡ count_where p xs
  unfolding update_where count_where
  count_where-marks q p f [] h k = refl
  count_where-marks q p f (x ∷ xs) h k = ground (arith, h x, k x, count_where-marks q p f xs h k)

  -- Where the update falsifies a condition, what still meets it was not selected.
  pub count_where-cleared :
      (q p : A → Bool) (f : A → A) (xs : List A)
      → ((x : A) → p x ≡ true → q (f x) ≡ false)
      → count_where q (update_where p f xs) ≡ count_where (λ x. q x && not (p x)) xs
  unfolding update_where count_where
  count_where-cleared q p f [] h = refl
  count_where-cleared q p f (x ∷ xs) h = ground (arith, h x, count_where-cleared q p f xs h)

  pub count_where-split :
      (q p : A → Bool) (xs : List A)
      → count_where q xs ≡ count_where (λ x. q x && p x) xs + count_where (λ x. q x && not (p x)) xs
  unfolding count_where
  count_where-split q p [] = refl
  count_where-split q p (x ∷ xs) = ground (arith, count_where-split q p xs)

  pub count_where-hit :
      (q p : A → Bool) (xs : List A) (x : A)
      → first_where q xs ≡ some x
      → p x ≡ true
      → 0 < count_where (λ y. q y && p y) xs
  unfolding first_where count_where
  count_where-hit q p [] x h k = ground arith
  count_where-hit q p (y ∷ ys) x h k = ground (arith, count_where-hit q p ys x)

module _ {ℓ κ} {A : Type ℓ} (P : A → Type κ) where
  -- An invariant of the rows is kept by an update that keeps it on the rows that it selects.
  pub All-update_where :
      (p : A → Bool) (f : A → A) (xs : List A)
      → ((x : A) → P x → p x ≡ true → P (f x))
      → All P xs
      → All P (update_where p f xs)
  unfolding update_where
  All-update_where p f [] keep h = tt
  All-update_where p f (x ∷ xs) keep h = (step (p x) refl, All-update_where p f xs keep h.1)
    where
      step : (b : Bool) → p x ≡ b → P (if b then f x else x)
      step true e = keep x h.0 e
      step false e = h.0

  pub first_where-All :
      (p : A → Bool) (xs : List A) (x : A) → All P xs → first_where p xs ≡ some x → P x
  unfolding first_where
  first_where-All p [] x h e = absurd (ground arith)
  first_where-All p (y ∷ ys) x h e = elim (Bool-cases (p y)) [
    | inl hit ↦ subst P (ground arith) h.0
    | inr miss ↦ first_where-All p ys x h.1 (ground arith)
  ]
