-- ===== src/Workflow/Bindings.antt =====
-- What binding a subject to a variant does, packages/asas-workflow/src/asas_workflow/definitions.py.
use asas.Base.{
  update_first, ◌≡◌, ◌≤◌, ◌⊎◌, inl, inr, refl, sym, ap, ◌∙◌, String, Bool, true, Option, none, some,
  List, [], ◌∷◌, str_eq, first_where, arith, eq_iff, ==_iff, Option-cases, Bool-cases,
  first_where-added, first_where-count, count_where, count_where-first, first_where-holds, subst,
}
use asas.Workflow.Definitions.{
  Version, ProcessBinding, Slot, bound, serves, get_active_definition, is_active_definition, fills,
  get_binding, remove_first, rebind, new_binding, put_binding, set_binding, bound_definition,
  resolve_definition, or_default, bound_version, if_serving,
}

module _ {ℓ} {A : Type ℓ} (p : A → Bool) where
  first_where-update_first :
      (f : A → A) (xs : List A) (x : A)
      → first_where p xs ≡ some x
      → p (f x) ≡ true
      → first_where p (update_first p f xs) ≡ some (f x)
  unfolding first_where update_first
  first_where-update_first f [] x h k = absurd (ground (arith, h))
  first_where-update_first f (y ∷ ys) x h k = elim (Bool-cases (p y)) [
    | inl hit ↦ ground (arith, h, k, hit)
    | inr miss ↦ ground (arith, miss, h, k, first_where-update_first f ys x)
  ]

  first_where-remove_first :
      (xs : List A) → count_where p xs ≤ 1 → first_where p (remove_first p xs) ≡ none
  unfolding first_where remove_first count_where
  first_where-remove_first [] h = refl
  first_where-remove_first (y ∷ ys) h = elim (Bool-cases (p y)) [
    | inl hit ↦ elim (Option-cases (first_where p ys)) [
      | inl e ↦ ground (arith, hit, e)
      | inr (x, e) ↦ absurd (ground (arith, h, hit, count_where-first p ys x e))
    ]
    | inr miss ↦ ground (arith, h, miss, first_where-remove_first ys)
  ]

-- A definition that is found is active and has the key.
pub get_active_definition-serves :
    (key : String) (vs : List Version) (v : Version)
    → get_active_definition key vs ≡ some v
    → serves key v ≡ true
unfolding get_active_definition
get_active_definition-serves key [] v h = absurd (ground (arith, h))
get_active_definition-serves key (u ∷ vs) v h =
    ground (arith, h, get_active_definition-serves key vs v)

module _ (vs : List Version) (s : Slot) where
  slot_fills : (key : String) → fills s (new_binding s key) ≡ true
  slot_fills key = ground (
    arith,
    (eq_iff s.entity_type s.entity_type).1 refl,
    (eq_iff s.purpose s.purpose).1 refl,
    (==_iff s.entity_id s.entity_id).1 refl,
  )

  -- After `put_binding` the slot holds the key.
  put_binding-holds :
      (key : String) (bs : List ProcessBinding)
      → (b : ProcessBinding) × (get_binding s (put_binding s key bs) ≡ some b)
        × (b.definition_key ≡ key)
  unfolding get_binding put_binding
  put_binding-holds key bs = elim (Option-cases (first_where (fills s) bs)) [
    | inl e ↦ (
      new_binding s key,
      rw e (
          first_where-added (fills s) bs (new_binding s key) (first_where-count (fills s) bs e)
            (slot_fills key)),
      refl,
    )
    | inr (b, e) ↦ (
      rebind key b,
      rw e (
          first_where-update_first (fills s) (rebind key) bs b e
            (first_where-holds (fills s) bs b e)),
      refl,
    )
  ]

  bound_definition-put :
      (bs : List ProcessBinding) (key : String) (v : Version)
      → get_active_definition key vs ≡ some v
      → str_eq v.graph.purpose s.purpose ≡ true
      → bound_definition vs (put_binding s key bs) s ≡ some v
  unfolding bound_definition bound_version
  bound_definition-put bs key v e q =
      let (b, here, same) = put_binding-holds key bs in
      ap (bound_version vs s.purpose) here
      ∙ ap (λ (k : String). if_serving s.purpose (get_active_definition k vs)) same
      ∙ ap (if_serving s.purpose) e
      ∙ ground (arith, q)

  -- A binding that was accepted decides what the subject's next instance opens on: the active version
  -- of the key, which there is and which serves the purpose.
  pub set_binding-resolves :
      (bs bs' : List ProcessBinding) (key : String)
      → set_binding vs bs s (some key) ≡ bound bs'
      → (v : Version) × (resolve_definition vs bs' s.purpose (some (s.entity_type, s.entity_id))
          ≡ some v)
        × (get_active_definition key vs ≡ some v)
        × (v.graph.purpose ≡ s.purpose)
  unfolding set_binding resolve_definition bound_definition
  set_binding-resolves bs bs' key h = elim (Option-cases (get_active_definition key vs)) [
    | inl e ↦ absurd (ground (arith, h, e))
    | inr (v, e) ↦ elim (Bool-cases (str_eq v.graph.purpose s.purpose)) [
      | inl q ↦
          let table : put_binding s key bs ≡ bs' = ground (arith, h, e, q) in
          (
            v,
            subst
                (λ (t : List ProcessBinding).
                  or_default (bound_definition vs t s) (get_active_definition s.purpose vs)
                  ≡ some v)
                table (rw (bound_definition-put bs key v e q) refl),
            e,
            (eq_iff v.graph.purpose s.purpose).0 q,
          )
      | inr q ↦ absurd (ground (arith, h, e, q))
    ]
  ]

  -- Clearing the binding of a subject that has one at most for the purpose brings the subject back to
  -- the purpose's default.
  pub set_binding-clears :
      (bs bs' : List ProcessBinding)
      → count_where (fills s) bs ≤ 1
      → set_binding vs bs s none ≡ bound bs'
      → resolve_definition vs bs' s.purpose (some (s.entity_type, s.entity_id))
        ≡ get_active_definition s.purpose vs
  unfolding set_binding resolve_definition bound_definition bound_version get_binding
  set_binding-clears bs bs' one h =
      let table : remove_first (fills s) bs ≡ bs' = ground (arith, h) in
      subst
        (λ (t : List ProcessBinding).
          or_default (bound_definition vs t s) (get_active_definition s.purpose vs)
          ≡ get_active_definition s.purpose vs)
        table
        (ap
          (λ (o : Option ProcessBinding).
            or_default (bound_version vs s.purpose o) (get_active_definition s.purpose vs))
          (first_where-remove_first (fills s) bs one))

  bound_version-serves :
      (o : Option ProcessBinding) (v : Version)
      → bound_version vs s.purpose o ≡ some v
      → (is_active_definition v.status ≡ true) × (v.graph.purpose ≡ s.purpose)
  unfolding bound_version
  bound_version-serves none v h = absurd (ground (arith, h))
  bound_version-serves (some b) v h =
      elim (Option-cases (get_active_definition b.definition_key vs)) [
        | inl e ↦ absurd (ground (arith, h, e))
        | inr (u, e) ↦ elim (Bool-cases (str_eq u.graph.purpose s.purpose)) [
          | inl q ↦
              let same : u ≡ v = ground (arith, h, e, q) in
              let serving = get_active_definition-serves b.definition_key vs u e in
              (
                ground (arith, serving, same),
                sym (ap (λ (x : Version). x.graph.purpose) same)
                    ∙ (eq_iff u.graph.purpose s.purpose).0 q,
              )
          | inr q ↦ absurd (ground (arith, h, e, q))
        ]
      ]

  -- Whatever the bindings hold, a definition that is resolved is active, and it serves the purpose or
  -- has the purpose's name as its key.
  pub resolve_definition-serves :
      (bs : List ProcessBinding) (v : Version)
      → resolve_definition vs bs s.purpose (some (s.entity_type, s.entity_id)) ≡ some v
      → (is_active_definition v.status ≡ true)
        × ((v.graph.purpose ≡ s.purpose) ⊎ (v.graph.key ≡ s.purpose))
  unfolding resolve_definition bound_definition
  resolve_definition-serves bs v h = elim (Option-cases (bound_definition vs bs s)) [
    | inl e ↦
        let own : get_active_definition s.purpose vs ≡ some v = ground (arith, h, e) in
        let serving = get_active_definition-serves s.purpose vs v own in
        (ground (arith, serving), inr ((eq_iff v.graph.key s.purpose).0 (ground (arith, serving))))
    | inr (u, e) ↦
        let same : u ≡ v = ground (arith, h, e) in
        let (on, for_) =
          bound_version-serves (get_binding s bs) v
            (unfold bound_definition in (e ∙ ap some same)) in
        (on, inl for_)
  ]
