-- ===== src/Workflow/Seeding.antt =====
-- What `seed_definitions` of packages/asas-workflow/src/asas_workflow/definitions.py leaves behind.
use asas.Base.{
  eq_iff, str_eq, Bool-cases, ◌≡◌, ◌⊎◌, refl, sym, ap, ◌∙◌, subst, String, false, Option, none,
  some, List, [], ◌∷◌, map, arith, All, inl, inr, first_where,
}
use asas.Workflow.Specs.{DefinitionSpec, Registry, among}
use asas.Workflow.Definitions.{Version, get_active_definition}
use asas.Workflow.Checks.{Problem}
use asas.Workflow.Validation.{has_duplicate}
use asas.Workflow.Publishing.{
  register_definition, Ensured, invalid, ensured, ensure_definition, seed_definitions,
}
use asas.Workflow.Archiving.{HasOneActive}
use asas.Workflow.Ensuring.{IsCurrent, ensure-IsCurrent, ensure_definition-again, ensure-others}

abbrev pub spec_keys : List DefinitionSpec → List String
spec_keys specs = map (λ s. s.key) specs

among-register_definition :
    (k : String) (spec : DefinitionSpec) (specs : List DefinitionSpec)
    → str_eq spec.key k ≡ false
    → among k (spec_keys (register_definition spec specs)) ≡ among k (spec_keys specs)
unfolding register_definition first_where
among-register_definition k spec [] h = ground (arith, h)
among-register_definition k spec (s ∷ specs) h = elim (Bool-cases (str_eq s.key spec.key)) [
  | inl e ↦ rw (e, (eq_iff s.key spec.key).0 e) refl
  | inr e ↦ ground (arith, e, among-register_definition k spec specs h)
]

-- No two registered specs have one key.
pub has_duplicate-register_definition :
    (spec : DefinitionSpec) (specs : List DefinitionSpec)
    → has_duplicate (spec_keys specs) ≡ false
    → has_duplicate (spec_keys (register_definition spec specs)) ≡ false
unfolding register_definition has_duplicate
has_duplicate-register_definition spec [] h = refl
has_duplicate-register_definition spec (s ∷ specs) h = elim (Bool-cases (str_eq s.key spec.key)) [
  | inl e ↦ rw e (
      subst (λ (k : String). has_duplicate (k ∷ spec_keys specs) ≡ false)
        ((eq_iff s.key spec.key).0 e) h)
  | inr e ↦
      let differs : str_eq spec.key s.key ≡ false =
        ground (arith, e, eq_iff s.key spec.key, eq_iff spec.key s.key) in
      rw e (
        ground (
          arith,
          h,
          among-register_definition s.key spec specs differs,
          has_duplicate-register_definition spec specs,
        ))
]

Ensured-cases :
    (o : Ensured)
    → ((ps : List Problem) × (o ≡ invalid ps))
      ⊎ ((v : Version) × (rows : List Version) × (o ≡ ensured v rows))
Ensured-cases (invalid ps) = inl (ps, refl)
Ensured-cases (ensured v rows) = inr (v, rows, refl)

module _ (r : Registry) (spec_hash : DefinitionSpec → String) where
  -- What a spec does to the rows, and then the others.
  abbrev then_seed :
      List DefinitionSpec → List Version → Ensured → List Version × Option (List Problem)
  then_seed specs vs (invalid ps) = (vs, some ps)
  then_seed specs vs (ensured v rows) = seed_definitions r spec_hash specs rows

  -- A key that no spec of the list has keeps its active version.
  seed_definitions-others :
      (specs : List DefinitionSpec) (vs : List Version) (key : String)
      → HasOneActive vs
      → among key (spec_keys specs) ≡ false
      → get_active_definition key (seed_definitions r spec_hash specs vs).0
        ≡ get_active_definition key vs
  unfolding seed_definitions first_where
  seed_definitions-others [] vs key one apart = refl
  seed_definitions-others (spec ∷ specs) vs key one apart =
      elim (Ensured-cases (ensure_definition r spec_hash spec vs)) [
        | inl (ps, e) ↦ ap (λ o. get_active_definition key (then_seed specs vs o).0) e
        | inr (v, rows, e) ↦
            let (_, _, one', _) = ensure_definition-again r spec_hash spec vs v rows one e in
            ap (λ o. get_active_definition key (then_seed specs vs o).0) e
            ∙ seed_definitions-others specs rows key one' (ground (arith, apart))
            ∙ ensure-others r spec_hash spec vs v rows key one e (ground (arith, apart))
      ]

  -- A seeding that goes through leaves each spec current, and no key with two active versions.
  seed_definitions-IsCurrent :
      (specs : List DefinitionSpec) (vs vs' : List Version)
      → HasOneActive vs
      → has_duplicate (spec_keys specs) ≡ false
      → seed_definitions r spec_hash specs vs ≡ (vs', none)
      → All (IsCurrent r spec_hash vs') specs × HasOneActive vs'
  unfolding seed_definitions has_duplicate
  seed_definitions-IsCurrent [] vs vs' one apart h = (tt, subst HasOneActive (ap (λ p. p.0) h) one)
  seed_definitions-IsCurrent (spec ∷ specs) vs vs' one apart h =
      elim (Ensured-cases (ensure_definition r spec_hash spec vs)) [
        | inl (ps, e) ↦ absurd (ground (arith, ap (then_seed specs vs) (sym e) ∙ h))
        | inr (v, rows, e) ↦
            let done : seed_definitions r spec_hash specs rows ≡ (vs', none) =
              ap (then_seed specs vs) (sym e) ∙ h in
            let (now, hash, one', _) = ensure_definition-again r spec_hash spec vs v rows one e in
            let (rest, last) =
              seed_definitions-IsCurrent specs rows vs' one' (ground (arith, apart)) done in
            let still = seed_definitions-others specs rows spec.key one' (ground (arith, apart)) in
            (
              (
                (
                  v,
                  subst
                      (λ (p : List Version × Option (List Problem)).
                        get_active_definition spec.key p.0 ≡ some v)
                      done (still ∙ now),
                  hash,
                ),
                rest,
              ),
              last,
            )
      ]

  seed_definitions-noop :
      (specs : List DefinitionSpec) (vs : List Version)
      → All (IsCurrent r spec_hash vs) specs
      → seed_definitions r spec_hash specs vs ≡ (vs, none)
  unfolding seed_definitions
  seed_definitions-noop [] vs h = refl
  seed_definitions-noop (spec ∷ specs) vs ((v, now, hash), rest) =
      rw (ensure-IsCurrent r spec_hash spec vs v now hash, seed_definitions)
        (seed_definitions-noop specs vs rest)

  -- Where no key has two active versions before, and no two of the specs have one key: a seeding that
  -- goes through leaves no key with two active versions and each spec's digest on its key's active
  -- version, and a second one changes nothing.
  pub seed_definitions-again :
      (specs : List DefinitionSpec) (vs vs' : List Version)
      → HasOneActive vs
      → has_duplicate (spec_keys specs) ≡ false
      → seed_definitions r spec_hash specs vs ≡ (vs', none)
      → All (IsCurrent r spec_hash vs') specs
        × HasOneActive vs'
        × (seed_definitions r spec_hash specs vs' ≡ (vs', none))
  seed_definitions-again specs vs vs' one apart h =
      let (current, one') = seed_definitions-IsCurrent specs vs vs' one apart h in
      (current, one', seed_definitions-noop specs vs' current)
