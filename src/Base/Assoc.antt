-- ===== src/Base/Assoc.antt =====
-- Python's `dict` as a list of pairs in insertion order, over a test of keys.
use mathlib.Core.Path.{◌≡◌, refl}
use mathlib.Core.Logic.{◌↔◌}
use mathlib.Core.List.{List, [], ◌∷◌}
use mathlib.Core.Bool.{Bool, true}
use mathlib.Core.Option.{Option, none, some}
use native.Mathlib.Omega.{arith}
use mathlib.Core.Logic.{inl, inr}
use asas.Base.Tests.{if◌then◌else◌, Bool-cases}

-- The entries that a test lets stay: `del d[k]` in a loop over the others.
unfoldable pub keep_if {ℓ κ} :
    {K : Type ℓ} {V : Type κ} → (K → V → Bool) → List (K × V) → List (K × V)
keep_if p [] = []
keep_if p ((j, w) ∷ m) = let rest = keep_if p m in if p j w then (j, w) ∷ rest else rest

module _ {ℓ κ} {K : Type ℓ} {V : Type κ} (same : K → K → Bool) where
  -- `d.get(k)`
  unfoldable pub get_key : K → List (K × V) → Option V
  get_key k [] = none
  get_key k ((j, v) ∷ m) = let rest = get_key k m in if same j k then some v else rest

  -- `d[k] = v`: a key that is there keeps its place.
  unfoldable pub put_key : K → V → List (K × V) → List (K × V)
  put_key k v [] = (k, v) ∷ []
  put_key k v ((j, w) ∷ m) =
      let rest = put_key k v m in if same j k then (j, v) ∷ m else (j, w) ∷ rest

  module _ (same_iff : (a b : K) → (same a b ≡ true) ↔ (a ≡ b)) where
    pub get_key-put_key :
        (k j : K) (v : V) (m : List (K × V))
        → get_key j (put_key k v m) ≡ (if same k j then some v else get_key j m)
    unfolding get_key put_key
    get_key-put_key k j v [] = ground arith
    get_key-put_key k j v ((i, w) ∷ m) =
        ground (arith, same_iff i k, same_iff i j, same_iff k j, get_key-put_key k j v m)

-- Each key stands once.
abbrev pub HasDistinctKeys {ℓ κ} :
    {K : Type ℓ} {V : Type κ} → (K → K → Bool) → List (K × V) → Type κ
HasDistinctKeys same [] = Unit
HasDistinctKeys same ((j, w) ∷ m) = (get_key same j m ≡ none) × HasDistinctKeys same m

module _ {ℓ κ} {K : Type ℓ} {V : Type κ} (same : K → K → Bool)
    (same_iff : (a b : K) → (same a b ≡ true) ↔ (a ≡ b)) where
  pub put_key-HasDistinctKeys :
      (k : K) (v : V) (m : List (K × V))
      → HasDistinctKeys same m
      → HasDistinctKeys same (put_key same k v m)
  unfolding get_key put_key
  put_key-HasDistinctKeys k v [] h = (refl, tt)
  put_key-HasDistinctKeys k v ((j, w) ∷ m) h = elim (Bool-cases (same j k)) [
    | inl e ↦ rw e h
    | inr e ↦ rw e (
      ground (arith, e, get_key-put_key same same_iff k j v m, same_iff k j, same_iff j k),
      put_key-HasDistinctKeys k v m h.1,
    )
  ]

module _ {ℓ κ} {K : Type ℓ} {V : Type κ} (same : K → K → Bool) (p : K → V → Bool) where
  pub get_key-keep_none :
      (k : K) (m : List (K × V)) → get_key same k m ≡ none → get_key same k (keep_if p m) ≡ none
  unfolding get_key keep_if
  get_key-keep_none k [] h = refl
  get_key-keep_none k ((j, w) ∷ m) h = ground (arith, get_key-keep_none k m)

  pub keep_if-HasDistinctKeys :
      (m : List (K × V)) → HasDistinctKeys same m → HasDistinctKeys same (keep_if p m)
  unfolding keep_if
  keep_if-HasDistinctKeys [] h = tt
  keep_if-HasDistinctKeys ((j, w) ∷ m) h = elim (Bool-cases (p j w)) [
    | inl e ↦ rw e (get_key-keep_none j m h.0, keep_if-HasDistinctKeys m h.1)
    | inr e ↦ rw e (keep_if-HasDistinctKeys m h.1)
  ]
