-- ===== src/Access/Grants.antt =====
-- What the action permissions of packages/asas-access promise.
use asas.Base.{
  ℕ, ◌≡◌, ◌↔◌, ◌⊎◌, inl, inr, refl, String, true, false, Option, List, [], ◌∷◌, ◌++◌, arith, str_eq,
  ◌&&◌, Bool-cases,
}
use asas.Access.Principals.{User, Sources, member, held_principals}
use asas.Access.Actions.{
  ActionPermission, Catalog, role_admin, counts, allowed_principals, answer, meets, org_of,
  holds_action, action_allowed_for,
}

-- A grant of the verb that counts for the organisation, to a principal that is held.
abbrev pub IsGrant : String → Option ℕ → List String → ActionPermission → Type 0
IsGrant verb org held g =
    (str_eq g.permission verb && counts org g.org_id && member g.principal held) ≡ true

-- Some row is such a grant.
abbrev pub HasGrant : String → Option ℕ → List String → List ActionPermission → Type 0
HasGrant verb org held [] = ⊥
HasGrant verb org held (g ∷ gs) = IsGrant verb org held g ⊎ HasGrant verb org held gs

meets_iff :
    (verb : String) (org : Option ℕ) (held : List String) (gs : List ActionPermission)
    → (meets (allowed_principals gs verb org) held ≡ true) ↔ HasGrant verb org held gs
unfolding meets allowed_principals
meets_iff verb org held [] = ((λ h. absurd (ground (arith, h))), (λ h. absurd h))
meets_iff verb org held (g ∷ gs) =
    let rest = meets_iff verb org held gs in
    (
      (λ h.
          elim (Bool-cases
            (str_eq g.permission verb && counts org g.org_id && member g.principal held)) [
              | inl granted ↦ inl granted
              | inr no_ ↦ inr (rest.0 (ground (arith, h, no_)))
            ]),
      (λ h. elim h [
        | inl granted ↦ ground (arith, granted)
        | inr later ↦ let met = rest.1 later in ground (arith, met)
      ]),
    )

module _ {R : Type 0} (s : Sources R) (c : Catalog) (user : Option User) (verb entity_type : String)
    (record_ : Option R) where
  abbrev holds : List String
  holds = held_principals s user entity_type record_

  -- A known action is allowed exactly to who holds the admin role, which no configuration can take
  -- away, and to who holds a principal that a row of the action grants it to, a platform default or a
  -- row of the user's own organisation; without such a row the admins alone may.
  pub action_allowed_for_iff :
      member verb c.actions ≡ true
      → (action_allowed_for s c user verb entity_type record_ ≡ answer true)
        ↔ ((member role_admin holds ≡ true) ⊎ HasGrant verb (org_of user) holds c.grants)
  unfolding action_allowed_for holds_action
  action_allowed_for_iff known =
      let same = meets_iff verb (org_of user) holds c.grants in
      (
        (λ h. elim (Bool-cases (member role_admin holds)) [
          | inl admin ↦ inl admin
          | inr no_ ↦ inr (same.0 (ground (arith, h, known, no_)))
        ]),
        (λ h. elim h [
          | inl admin ↦ ground (arith, admin, known)
          | inr granted ↦ let met = same.1 granted in ground (arith, met, known)
        ]),
      )

  allowed_principals-other :
      (gs : List ActionPermission) (g : ActionPermission)
      → counts (org_of user) g.org_id ≡ false
      → allowed_principals (gs ++ g ∷ []) verb (org_of user)
        ≡ allowed_principals gs verb (org_of user)
  unfolding allowed_principals
  allowed_principals-other [] g h = ground (arith, h)
  allowed_principals-other (x ∷ gs) g h = ground (arith, h, allowed_principals-other gs g h)

  -- A grant row of another organisation changes no answer for this user.
  pub other_org_grant :
      (g : ActionPermission)
      → counts (org_of user) g.org_id ≡ false
      → action_allowed_for s
          (record c { grants = c.grants ++ g ∷ [] })
          user
          verb
          entity_type
          record_
        ≡ action_allowed_for s c user verb entity_type record_
  unfolding action_allowed_for holds_action
  other_org_grant g h = rw (allowed_principals-other c.grants g h) refl
