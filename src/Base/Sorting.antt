-- ===== src/Base/Sorting.antt =====
-- ORDER BY: a stable insertion sort by a Boolean order, `first a b` when `a` may stand before `b`.
use Prim.Native.Nat.{suc}
use mathlib.Core.Path.{◌≡◌, refl}
use mathlib.Core.List.{List, [], ◌∷◌}
use mathlib.Core.Bool.{Bool, true, false}
use mathlib.Core.Logic.{inl, inr}
use native.Mathlib.Omega.{arith}
use asas.Base.Tests.{if◌then◌else◌, Bool-cases}
use asas.Base.Lists.{All, All-map, length}
use asas.Base.Table.{count_where}

module _ {ℓ} {A : Type ℓ} (first : A → A → Bool) where
  unfoldable pub placed : A → List A → List A
  placed n [] = n ∷ []
  placed n (m ∷ ms) = let rest = placed n ms in if first n m then n ∷ m ∷ ms else m ∷ rest

  unfoldable pub sort_by : List A → List A
  unfolding placed
  sort_by [] = []
  sort_by (n ∷ ns) = placed n (sort_by ns)

  count_where-placed :
      (p : A → Bool) (n : A) (ns : List A) → count_where p (placed n ns) ≡ count_where p (n ∷ ns)
  unfolding placed count_where
  count_where-placed p n [] = refl
  count_where-placed p n (m ∷ ms) = ground (arith, count_where-placed p n ms)

  pub count_where-sort_by :
      (p : A → Bool) (ns : List A) → count_where p (sort_by ns) ≡ count_where p ns
  unfolding sort_by count_where
  count_where-sort_by p [] = refl
  count_where-sort_by p (n ∷ ns) =
      ground (arith, count_where-placed p n (sort_by ns), count_where-sort_by p ns)

  length-placed : (n : A) (ns : List A) → length (placed n ns) ≡ suc (length ns)
  unfolding placed
  length-placed n [] = refl
  length-placed n (m ∷ ms) = ground (arith, length-placed n ms)

  pub length-sort_by : (ns : List A) → length (sort_by ns) ≡ length ns
  unfolding sort_by
  length-sort_by [] = refl
  length-sort_by (n ∷ ns) = ground (arith, length-placed n (sort_by ns), length-sort_by ns)

  All-placed {κ} : (P : A → Type κ) (n : A) (ns : List A) → P n → All P ns → All P (placed n ns)
  unfolding placed
  All-placed P n [] h hs = (h, tt)
  All-placed P n (m ∷ ms) h hs = elim (Bool-cases (first n m)) [
    | inl e ↦ rw e (h, hs)
    | inr e ↦ rw e (hs.0, All-placed P n ms h hs.1)
  ]

  pub All-sort_by {κ} : (P : A → Type κ) (ns : List A) → All P ns → All P (sort_by ns)
  unfolding sort_by
  All-sort_by P [] h = tt
  All-sort_by P (n ∷ ns) h = All-placed P n (sort_by ns) h.0 (All-sort_by P ns h.1)

  -- Each item may stand before all that come after it.
  abbrev pub IsSortedBy : List A → Type 0
  IsSortedBy [] = Unit
  IsSortedBy (n ∷ ns) = All (λ m. first n m ≡ true) ns × IsSortedBy ns

  module _ (total : (a b : A) → first a b ≡ false → first b a ≡ true)
      (trans : (a b c : A) → first a b ≡ true → first b c ≡ true → first a c ≡ true) where
    placed-IsSortedBy : (n : A) (ns : List A) → IsSortedBy ns → IsSortedBy (placed n ns)
    unfolding placed
    placed-IsSortedBy n [] h = (tt, tt)
    placed-IsSortedBy n (m ∷ ms) h = elim (Bool-cases (first n m)) [
      | inl e ↦ rw e (
        (e, All-map (λ k. first m k ≡ true) (λ k. first n k ≡ true) ms (λ k. trans n m k e) h.0),
        h,
      )
      | inr e ↦
          rw e
            (All-placed (λ k. first m k ≡ true) n ms (total n m e) h.0, placed-IsSortedBy n ms h.1)
    ]

    pub sort_by-IsSortedBy : (ns : List A) → IsSortedBy (sort_by ns)
    unfolding sort_by
    sort_by-IsSortedBy [] = tt
    sort_by-IsSortedBy (n ∷ ns) = placed-IsSortedBy n (sort_by ns) (sort_by-IsSortedBy ns)
