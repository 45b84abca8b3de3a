-- ===== src/Workflow/Tables.antt =====
-- Rows by their place, and settled instances with an active execution, packages/asas-workflow.
use asas.Base.{
  ℕ, zero, suc, ◌≡◌, ◌≤◌, ◌<◌, refl, Bool, true, some, List, [], ◌∷◌, arith, first_where,
  count_where,
}
use asas.Workflow.Model.{InstanceStatus, Walk}
use asas.Workflow.Operations.{row_at, update_at}
use asas.Workflow.Settled.{active, IsSettledAs}

module _ {ℓ} {A : Type ℓ} where
  pub row_at-count :
      (q : A → Bool) (n : ℕ) (xs : List A) (x : A)
      → row_at n xs ≡ some x
      → q x ≡ true
      → 0 < count_where q xs
  unfolding row_at count_where
  row_at-count q n [] x h k = absurd (ground (arith, h))
  row_at-count q zero (y ∷ ys) x h k = ground (arith, h, k)
  row_at-count q (suc n) (y ∷ ys) x h k = ground (arith, row_at-count q n ys x h k)

  pub count_where-update_at-le :
      (q : A → Bool) (n : ℕ) (f : A → A) (xs : List A)
      → ((x : A) → q (f x) ≡ true → q x ≡ true)
      → count_where q (update_at n f xs) ≤ count_where q xs
  unfolding update_at count_where
  count_where-update_at-le q n f [] h = omega arith
  count_where-update_at-le q zero f (x ∷ xs) h = ground (arith, h x)
  count_where-update_at-le q (suc n) f (x ∷ xs) h =
      ground (arith, count_where-update_at-le q n f xs h)

  pub count_where-found :
      (p q : A → Bool) (xs : List A) (x : A)
      → first_where p xs ≡ some x
      → q x ≡ true
      → 0 < count_where q xs
  unfolding first_where count_where
  count_where-found p q [] x h k = absurd (ground (arith, h))
  count_where-found p q (y ∷ ys) x h k = ground (arith, h, k, count_where-found p q ys x)

-- A settled instance with an active execution runs.
pub active-running :
    (s : InstanceStatus) (w : Walk)
    → IsSettledAs s w
    → 0 < count_where active w.executions
    → s ≡ InstanceStatus.running
active-running InstanceStatus.running w h k = refl
active-running InstanceStatus.completed w (q, _, _) k = absurd (omega (arith, q.idle, k))
active-running InstanceStatus.canceled w (q, _) k = absurd (omega (arith, q.idle, k))
active-running InstanceStatus.error w (q, _, _) k = absurd (omega (arith, q.idle, k))
