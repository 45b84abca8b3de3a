-- ===== src/Workflow/Ensuring.antt =====
-- What `ensure_definition` of packages/asas-workflow/src/asas_workflow/definitions.py leaves behind.
use asas.Base.{
  update_first, ◌≤◌, ◌≡◌, ◌⊎◌, refl, sym, ap, ◌∙◌, subst, String, true, false, Option, some, List,
  [], ◌∷◌, ◌++◌, arith, str_eq, Bool-cases, Option-cases, inl, inr, eq_iff, count_where,
  count_where-append,
}
use asas.Workflow.Specs.{DefinitionSpec, Registry}
use asas.Workflow.Definitions.{Version, serves, get_active_definition}
use asas.Workflow.Checks.{Problem}
use asas.Workflow.Validation.{validate_definition}
use asas.Workflow.Publishing.{
  archive, is_row, archive_active, ensured, next_version, publish, published, ensure_definition,
}
use asas.Workflow.Archiving.{
  unserved, active-added, active-passed, active-update_first, count-update_first, archived_none,
  HasOneActive, other_key,
}

module _ (r : Registry) (spec_hash : DefinitionSpec → String) where
  -- The key's active version has the digest of the spec.
  abbrev pub IsCurrent : List Version → DefinitionSpec → Type 0
  IsCurrent vs spec =
      (v : Version) × (get_active_definition spec.key vs ≡ some v) × (v.spec_hash ≡ spec_hash spec)

  pub ensure-IsCurrent :
      (spec : DefinitionSpec) (vs : List Version) (v : Version)
      → get_active_definition spec.key vs ≡ some v
      → v.spec_hash ≡ spec_hash spec
      → ensure_definition r spec_hash spec vs ≡ ensured v vs
  unfolding ensure_definition
  ensure-IsCurrent spec vs v h e =
      rw (h, ensure_definition) (rw ((eq_iff v.spec_hash (spec_hash spec)).1 e) refl)

  -- What is published: the next version, after the others of which none is active for its key.
  pub record IsPublished (spec : DefinitionSpec) (vs : List Version) (v : Version)
      (vs' : List Version) : Type 0 where
    pub earlier : List Version
    pub rows : vs' ≡ earlier ++ v ∷ []
    pub version_ : v ≡ next_version spec_hash spec vs
    pub inactive : count_where (serves spec.key) earlier ≡ 0
    pub others : (key : String) → count_where (serves key) earlier ≤ count_where (serves key) vs
    pub kept :
        (key : String)
        → str_eq spec.key key ≡ false
        → get_active_definition key earlier ≡ get_active_definition key vs

  pub publish-IsPublished :
      (spec : DefinitionSpec) (vs : List Version) (v : Version) (vs' : List Version)
      (ps : List Problem)
      → HasOneActive vs
      → publish r spec_hash spec vs ps ≡ ensured v vs'
      → IsPublished spec vs v vs'
  unfolding publish archive_active
  publish-IsPublished spec vs v vs' (p ∷ ps) one h = absurd (ground (arith, h))
  publish-IsPublished spec vs v vs' [] one h =
      let key = spec.key in
      let next : next_version spec_hash spec vs ≡ v = ground (arith, h) in
      let rows : archive_active key (get_active_definition key vs) vs
            ++ next_version spec_hash spec vs ∷ []
          ≡ vs' =
        ground (arith, h) in
      elim (Option-cases (get_active_definition key vs)) [
        | inl e ↦ record {
          earlier = vs;
          rows =
              sym rows
              ∙ ap
                  (λ (o : Option Version).
                    archive_active key o vs ++ next_version spec_hash spec vs ∷ [])
                  e
              ∙ ap (λ (w : Version). vs ++ w ∷ []) next;
          version_ = sym next;
          inactive = unserved key vs e;
          others = λ k. omega arith;
          kept = λ k h. refl;
        }
        | inr (a, e) ↦ record {
          earlier = update_first (is_row key a) archive vs;
          rows =
              sym rows
              ∙ ap
                  (λ (o : Option Version).
                    archive_active key o vs ++ next_version spec_hash spec vs ∷ [])
                  e
              ∙ ap (λ (w : Version). (update_first (is_row key a) archive vs) ++ w ∷ []) next;
          version_ = sym next;
          inactive = archived_none key vs a (one key) e;
          others = λ k. count-update_first k (is_row key a) vs;
          kept = λ k differs.
              active-update_first k (is_row key a) vs
                (λ x row. other_key key k x differs (ground (arith, row)));
        }
      ]

  -- `ensure_definition` returns the rows as they are, or it publishes.
  pub ensure-cases :
      (spec : DefinitionSpec) (vs : List Version) (v : Version) (vs' : List Version)
      → HasOneActive vs
      → ensure_definition r spec_hash spec vs ≡ ensured v vs'
      → ((vs' ≡ vs) × (get_active_definition spec.key vs ≡ some v) × (v.spec_hash ≡ spec_hash spec))
        ⊎ IsPublished spec vs v vs'
  unfolding ensure_definition
  ensure-cases spec vs v vs' one h = elim (Option-cases (get_active_definition spec.key vs)) [
    | inl e ↦ inr (
        publish-IsPublished spec vs v vs' (validate_definition r (some vs) spec) one
          (ground (arith, h, e)))
    | inr (a, e) ↦ elim (Bool-cases (str_eq a.spec_hash (spec_hash spec))) [
      | inl same ↦
          let va : a ≡ v = ground (arith, h, e, same) in
          let rows : vs ≡ vs' = ground (arith, h, e, same) in
          inl (
            sym rows,
            e ∙ ap some va,
            subst (λ (b : Version). b.spec_hash ≡ spec_hash spec) va
                ((eq_iff a.spec_hash (spec_hash spec)).0 same),
          )
      | inr new ↦ inr (
          publish-IsPublished spec vs v vs' (validate_definition r (some vs) spec) one
            (ground (arith, h, e, new)))
    ]
  ]

  module _ (spec : DefinitionSpec) (vs : List Version) (v : Version) (vs' : List Version) where
    pub published-serves : v ≡ next_version spec_hash spec vs → serves spec.key v ≡ true
    unfolding next_version published
    published-serves e =
        subst (λ (w : Version). serves spec.key w ≡ true) (sym e)
          (ground (arith, (eq_iff spec.key spec.key).1 refl))

    pub published-hash : v ≡ next_version spec_hash spec vs → v.spec_hash ≡ spec_hash spec
    unfolding next_version
    published-hash e = ap (λ (w : Version). w.spec_hash) e

    pub published-others :
        (key : String)
        → str_eq spec.key key ≡ false
        → v ≡ next_version spec_hash spec vs
        → serves key v ≡ false
    unfolding next_version published
    published-others key differs e =
        subst (λ (w : Version). serves key w ≡ false) (sym e) (ground (arith, differs))

    pub IsPublished-HasOneActive : HasOneActive vs → IsPublished spec vs v vs' → HasOneActive vs'
    unfolding count_where
    IsPublished-HasOneActive one p key =
        subst (λ rows. count_where (serves key) rows ≤ 1) (sym p.rows)
          (rw (count_where-append (serves key) p.earlier (v ∷ []))
            (elim (Bool-cases (str_eq spec.key key)) [
              | inl same ↦
                  let none_ : count_where (serves key) p.earlier ≡ 0 =
                    subst (λ (k : String). count_where (serves k) p.earlier ≡ 0)
                      ((eq_iff spec.key key).0 same) p.inactive in
                  ground (arith, none_)
              | inr differs ↦
                  ground (arith, published-others key differs p.version_, p.others key, one key)
            ]))

    -- `ensure_definition` leaves the version that it returns as the key's active one, with the spec's
    -- digest; no key gets a second active version; and done again it changes nothing.
    pub ensure_definition-again :
        HasOneActive vs
        → ensure_definition r spec_hash spec vs ≡ ensured v vs'
        → (get_active_definition spec.key vs' ≡ some v)
          × (v.spec_hash ≡ spec_hash spec)
          × HasOneActive vs'
          × (ensure_definition r spec_hash spec vs' ≡ ensured v vs')
    ensure_definition-again one h = elim (ensure-cases spec vs v vs' one h) [
      | inl (same, active_, hash) ↦
          let now =
            subst (λ rows. get_active_definition spec.key rows ≡ some v) (sym same) active_ in
          (now, hash, subst HasOneActive (sym same) one, ensure-IsCurrent spec vs' v now hash)
      | inr p ↦
          let now =
            subst (λ rows. get_active_definition spec.key rows ≡ some v) (sym p.rows)
              (active-added spec.key p.earlier v p.inactive (published-serves p.version_)) in
          let hash = published-hash p.version_ in
          (now, hash, IsPublished-HasOneActive one p, ensure-IsCurrent spec vs' v now hash)
    ]

    pub ensure-others :
        (key : String)
        → HasOneActive vs
        → ensure_definition r spec_hash spec vs ≡ ensured v vs'
        → str_eq spec.key key ≡ false
        → get_active_definition key vs' ≡ get_active_definition key vs
    ensure-others key one h differs = elim (ensure-cases spec vs v vs' one h) [
      | inl (same, active_, hash) ↦ ap (get_active_definition key) same
      | inr p ↦
          ap (get_active_definition key) p.rows
          ∙ active-passed key p.earlier v (published-others key differs p.version_)
          ∙ p.kept key differs
    ]
