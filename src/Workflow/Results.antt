-- ===== src/Workflow/Results.antt =====
-- What a call of packages/asas-workflow that may be refused brings about when it is not.
use asas.Base.{◌≡◌, refl, subst, Bool, true, false, Option, none, some, if◌then◌else◌}
use asas.Workflow.Model.{EngineError, Result, ok, refused, require, found, ◌>>=◌, ◌>>◌}

-- A refusal brings about nothing.
abbrev pub Brings {ℓ κ} : {A : Type ℓ} → (A → Type κ) → Result A → Type κ
Brings P (ok a) = P a
Brings P (refused e) = Unit

module _ {ℓ κ} {A : Type ℓ} where
  pub ok-Brings : (P : A → Type κ) (m : Result A) (a : A) → Brings P m → m ≡ ok a → P a
  ok-Brings P m a h e = subst (Brings P) e h

  pub Brings-mono {μ} :
      (P : A → Type κ) (Q : A → Type μ) (m : Result A)
      → ((a : A) → P a → Q a)
      → Brings P m
      → Brings Q m
  Brings-mono P Q (ok a) f h = f a h
  Brings-mono P Q (refused e) f h = tt

  pub require-Brings :
      (P : A → Type κ) (b : Bool) (e : EngineError) (m : Result A)
      → (b ≡ true → Brings P m)
      → Brings P (require b e >> m)
  require-Brings P true e m h = h refl
  require-Brings P false e m h = tt

  pub if-Brings :
      (P : A → Type κ) (b : Bool) (m n : Result A)
      → (b ≡ true → Brings P m)
      → (b ≡ false → Brings P n)
      → Brings P (if b then m else n)
  if-Brings P true m n h k = h refl
  if-Brings P false m n h k = k refl

module _ {ℓ κ μ} {A : Type ℓ} {B : Type κ} where
  pub found-Brings :
      (P : B → Type μ) (e : EngineError) (o : Option A) (f : A → Result B)
      → ((a : A) → o ≡ some a → Brings P (f a))
      → Brings P (found e o >>= f)
  found-Brings P e none f h = tt
  found-Brings P e (some a) f h = h a refl

  pub bind-Brings {ν} :
      (Q : A → Type ν) (P : B → Type μ) (m : Result A) (f : A → Result B)
      → Brings Q m
      → ((a : A) → Q a → Brings P (f a))
      → Brings P (m >>= f)
  bind-Brings Q P (ok a) f q h = h a q
  bind-Brings Q P (refused e) f q h = tt

  -- Whatever the first call answers.
  pub any-Brings :
      (P : B → Type μ) (m : Result A) (f : A → Result B)
      → ((a : A) → Brings P (f a))
      → Brings P (m >>= f)
  any-Brings P (ok a) f h = h a
  any-Brings P (refused e) f h = tt
