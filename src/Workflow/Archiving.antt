-- ===== src/Workflow/Archiving.antt =====
-- The active version of a key, as rows of packages/asas-workflow are added and archived.
use asas.Base.{
  update_first, ◌≤◌, ◌≡◌, refl, subst, String, Bool, true, false, none, some, List, [], ◌∷◌, ◌++◌,
  arith, str_eq, Bool-cases, inl, inr, eq_iff, ==_iff, count_where,
}
use asas.Workflow.Definitions.{Version, serves, get_active_definition}
use asas.Workflow.Publishing.{archive, is_row}

module _ (key : String) where
  pub unserved :
      (vs : List Version) → get_active_definition key vs ≡ none → count_where (serves key) vs ≡ 0
  unfolding get_active_definition count_where
  unserved [] h = refl
  unserved (v ∷ vs) h = ground (arith, h, unserved vs)

  pub active-none :
      (vs : List Version) → count_where (serves key) vs ≡ 0 → get_active_definition key vs ≡ none
  unfolding get_active_definition count_where
  active-none [] h = refl
  active-none (v ∷ vs) h = ground (arith, h, active-none vs)

  -- A version that is added is the active one when there was none.
  pub active-added :
      (vs : List Version) (v : Version)
      → count_where (serves key) vs ≡ 0
      → serves key v ≡ true
      → get_active_definition key (vs ++ v ∷ []) ≡ some v
  unfolding get_active_definition count_where
  active-added [] v h k = ground (arith, k)
  active-added (u ∷ vs) v h k = ground (arith, h, active-added vs v)

  pub active-passed :
      (vs : List Version) (v : Version)
      → serves key v ≡ false
      → get_active_definition key (vs ++ v ∷ []) ≡ get_active_definition key vs
  unfolding get_active_definition
  active-passed [] v k = ground (arith, k)
  active-passed (u ∷ vs) v k = rw (active-passed vs v k) refl

  -- Archiving a row of another key.
  pub active-update_first :
      (p : Version → Bool) (vs : List Version)
      → ((x : Version) → p x ≡ true → str_eq x.graph.key key ≡ false)
      → get_active_definition key (update_first p archive vs) ≡ get_active_definition key vs
  unfolding get_active_definition update_first
  active-update_first p [] h = refl
  active-update_first p (v ∷ vs) h = elim (Bool-cases (p v)) [
    | inl hit ↦ ground (arith, hit, h v hit)
    | inr miss ↦ rw miss (rw (active-update_first p vs h) refl)
  ]

  pub count-update_first :
      (p : Version → Bool) (vs : List Version)
      → count_where (serves key) (update_first p archive vs) ≤ count_where (serves key) vs
  unfolding count_where update_first
  count-update_first p [] = omega arith
  count-update_first p (v ∷ vs) = ground (arith, count-update_first p vs)

  -- Archiving the only active row of the key leaves none.
  pub archived_none :
      (vs : List Version) (a : Version)
      → count_where (serves key) vs ≤ 1
      → get_active_definition key vs ≡ some a
      → count_where (serves key) (update_first (is_row key a) archive vs) ≡ 0
  unfolding get_active_definition count_where update_first
  archived_none [] a one h = absurd (ground (arith, h))
  archived_none (v ∷ vs) a one h = elim (Bool-cases (serves key v)) [
    | inl hit ↦
        let rest : count_where (serves key) vs ≡ 0 = ground (arith, one, hit) in
        let same : v ≡ a = ground (arith, h, hit, active-none vs rest) in
        let row : is_row key a v ≡ true =
          subst (λ (b : Version). is_row key b v ≡ true) same
            (ground (arith, hit, (==_iff v.version v.version).1 refl)) in
        rw row (ground (arith, rest))
    | inr miss ↦
        let rest = archived_none vs a (ground (arith, one, miss)) (ground (arith, h, miss)) in
        ground (arith, miss, rest)
  ]

-- No key has two active versions.
abbrev pub HasOneActive : List Version → Type 0
HasOneActive vs = (key : String) → count_where (serves key) vs ≤ 1

pub other_key :
    (k key : String) (v : Version)
    → str_eq k key ≡ false
    → serves k v ≡ true
    → str_eq v.graph.key key ≡ false
other_key k key v h e = rw ((eq_iff v.graph.key k).0 (ground (arith, e))) h
