-- ===== src/Lookups/Kept.antt =====
-- A second run of `seed_org_lookups`, packages/asas-lookups/src/asas_lookups/seeding.py.
use asas.Base.{
  append_nil, ℕ, ◌+◌, ◌≡◌, refl, sym, ap, ◌∙◌, subst, Bool, true, false, List, [], ◌∷◌, ◌++◌, map,
  All, All-map, Bool-cases, inl, inr, arith, length, select_where,
}
use asas.Lookups.Model.{LookupType, LookupValue, Store, is_org}
use asas.Lookups.OrgSeeding.{
  is_template, is_own, hand_of, hand_for, new_rows, is_nil, bumped, Seeded, seed_types,
  seed_org_lookups, Hand, linked,
}
use asas.Lookups.Copies.{HasAll, HasAll-append, hand_of-HasAll, copies_of-none, is_owned}
use asas.Lookups.Owning.{IsOwnRow, seed_types-IsExtended, hand_for_org, hand_for_platform}

-- Of an organisation's type, the organisation has a row for each template.
abbrev pub IsComplete : ℕ → List LookupValue → LookupType → Type 0
IsComplete org_id vs t = is_org t.scope ≡ true → HasAll org_id t.id vs

bumped-IsComplete :
    (org_id : ℕ) (vs : List LookupValue) (b : Bool) (t : LookupType)
    → IsComplete org_id vs t
    → IsComplete org_id vs (bumped b t)
bumped-IsComplete org_id vs true t h = h
bumped-IsComplete org_id vs false t h = h

seed_types-IsComplete :
    (org_id : ℕ) (ts : List LookupType) (vs : List LookupValue) (next : ℕ)
    → All
        (IsComplete org_id (seed_types org_id ts vs next).values)
        (seed_types org_id ts vs next).types
unfolding seed_types
seed_types-IsComplete org_id [] vs next = tt
seed_types-IsComplete org_id (t ∷ ts) vs next =
    let h = hand_for org_id t vs next in
    let rest = seed_types-IsExtended org_id ts (vs ++ new_rows h) (next + length h.copies) in
    let later : All (λ v. is_owned org_id v ≡ true) rest.added =
      All-map (IsOwnRow org_id _) (λ v. is_owned org_id v ≡ true) rest.added (λ v own. own.0)
        rest.own in
    (
      bumped-IsComplete org_id _ (is_nil h.copies) t (λ e.
          subst (HasAll org_id t.id) (sym rest.kept) (
            HasAll-append org_id t.id (vs ++ new_rows h) rest.added later (
              subst (λ g. HasAll org_id t.id (vs ++ new_rows g)) (hand_for_org org_id t vs next e)
                (hand_of-HasAll org_id t.id vs next).1))),
      seed_types-IsComplete org_id ts (vs ++ new_rows h) (next + length h.copies),
    )

complete-none :
    (org_id : ℕ) (t : LookupType) (vs : List LookupValue) (next : ℕ)
    → IsComplete org_id vs t
    → (hand_for org_id t vs next).copies ≡ []
unfolding hand_of
complete-none org_id t vs next h = elim (Bool-cases (is_org t.scope)) [
  | inl e ↦
      ap (λ (g : Hand). g.copies) (sym (hand_for_org org_id t vs next e))
      ∙ copies_of-none org_id t.id (select_where (is_own org_id t.id) vs) next
          (select_where (is_template t.id) vs) (h e)
  | inr e ↦ ap (λ (g : Hand). g.copies) (sym (hand_for_platform org_id t vs next e))
]

plus_zero : (n : ℕ) → n + 0 ≡ n
plus_zero n = omega arith

-- One type's turn before the others'.
abbrev joined : List (LookupValue × LookupValue) → Seeded → LookupType → Seeded
joined cs rest t = record {
  types = bumped (is_nil cs) t ∷ rest.types;
  values = rest.values;
  next = rest.next;
  created = length cs + rest.created;
}

seed_types-noop :
    (org_id : ℕ) (ts : List LookupType) (vs : List LookupValue) (next : ℕ)
    → All (IsComplete org_id vs) ts
    → seed_types org_id ts vs next ≡ record { types = ts; values = vs; next = next; created = 0 }
unfolding seed_types new_rows
seed_types-noop org_id [] vs next h = refl
seed_types-noop org_id (t ∷ ts) vs next h =
    let hand = hand_for org_id t vs next in
    let none_ = complete-none org_id t vs next h.0 in
    ap (λ cs. joined cs (seed_types org_id ts (vs ++ map (linked hand) cs) (next + length cs)) t)
      none_
    ∙ ap (λ ws. joined [] (seed_types org_id ts ws (next + 0)) t) (append_nil vs)
    ∙ ap (λ n. joined [] (seed_types org_id ts vs n) t) (plus_zero next)
    ∙ ap (λ r. joined [] r t) (seed_types-noop org_id ts vs next h.1)

-- Once it is seeded an organisation has a row for each template of each type of an organisation's
-- scope, and a second seeding creates nothing and changes nothing.
pub seed_org_lookups-again :
    (org_id : ℕ) (st : Store)
    → All
        (IsComplete org_id (seed_org_lookups org_id st).0.values)
        (seed_org_lookups org_id st).0.types
      × (seed_org_lookups org_id (seed_org_lookups org_id st).0
          ≡ ((seed_org_lookups org_id st).0, 0))
unfolding seed_org_lookups
seed_org_lookups-again org_id st =
    let r = seed_types org_id st.types st.values st.next_value in
    let complete = seed_types-IsComplete org_id st.types st.values st.next_value in
    (
      complete,
      ap
          (λ (q : Seeded). (
            record {
              types = q.types;
              values = q.values;
              next_type = st.next_type;
              next_value = q.next;
            },
            q.created,
          ))
          (seed_types-noop org_id r.types r.values r.next complete),
    )
