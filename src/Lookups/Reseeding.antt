-- ===== src/Lookups/Reseeding.antt =====
-- Seeding a type over the rows that are there, packages/asas-lookups/src/asas_lookups/seeding.py.
use asas.Base.{
  ℕ, suc, ◌≡◌, inl, inr, String, Bool, true, false, List, [], ◌∷◌, ◌||◌, first_where,
  first_where-holds, Fields, Bool-cases, Option-cases, if◌then◌else◌,
}
use asas.Lookups.Model.{LookupValue, LookupType, Store}
use asas.Lookups.Types.{TypeEnsured, type_ready, not_open, scope_differs}
use asas.Lookups.OrgSeeding.{is_nil}
use asas.Lookups.Values.{
  SeedValue, Wrote, is_platform_row, healed, heal, new_value, ensure_value, missing, has_fields,
  topped_up, backfill, backfill_meta,
}
use asas.Lookups.TypeSeeding.{
  dangling, linked_to, refused, dangling_pointer, seeded, Linked, link_pass, order_of, topped,
  seed_values, TypeSeeded,
}
use asas.Lookups.Keeping.{
  IsKeptIn, IsKeptIn-refl, IsKeptIn-trans, IsKeptIn-append, update_first-IsKeptIn, platform_row,
  healed-IsKept, topped_up-IsKept,
}

-- The one or the other result.
either-IsKeptIn :
    (us : List LookupValue) (b : Bool) (x y : Wrote)
    → IsKeptIn us x.values
    → IsKeptIn us y.values
    → IsKeptIn us (if b then x else y).values
either-IsKeptIn us true x y hx hy = hx
either-IsKeptIn us false x y hx hy = hy

module _ (type_id : ℕ) where
  ensure_value-IsKeptIn :
      (s : SeedValue) (order : ℕ) (vs : List LookupValue) (next : ℕ)
      → IsKeptIn vs (ensure_value type_id s order vs next).values
  unfolding ensure_value heal
  ensure_value-IsKeptIn s order vs next =
      let p = is_platform_row type_id s.code in
      elim (Option-cases (first_where p vs)) [
        | inl e ↦ rw (e, ensure_value) (IsKeptIn-append vs (new_value type_id s order next ∷ []))
        | inr (v, e) ↦ elim (Bool-cases (is_nil v.translations)) [
          | inl bare ↦
              rw (e, ensure_value)
                (rw bare (
                  update_first-IsKeptIn p (healed s) vs v e (
                    healed-IsKept s v bare
                      (platform_row type_id s.code v (first_where-holds p vs v e)))))
          | inr labelled ↦ rw (e, ensure_value) (rw labelled (IsKeptIn-refl vs))
        ]
      ]

  backfill_meta-IsKeptIn :
      (code : String) (meta : Fields) (vs : List LookupValue)
      → IsKeptIn vs (backfill_meta type_id code meta vs).0
  unfolding backfill_meta backfill
  backfill_meta-IsKeptIn code meta vs =
      let p = is_platform_row type_id code in
      elim (Option-cases (first_where p vs)) [
        | inl e ↦ rw (e, backfill_meta) (IsKeptIn-refl vs)
        | inr (v, e) ↦ elim (Bool-cases (has_fields (missing v.meta meta))) [
          | inl some_ ↦
              rw (e, backfill_meta)
                (rw some_ (
                  update_first-IsKeptIn p (topped_up meta) vs v e (
                    topped_up-IsKept meta v
                      (platform_row type_id code v (first_where-holds p vs v e)))))
          | inr none_ ↦ rw (e, backfill_meta) (rw none_ (IsKeptIn-refl vs))
        ]
      ]

  -- The other rows after one is linked.
  abbrev then_link : List SeedValue → Bool → Linked → Linked
  then_link ss before dangling = dangling
  then_link ss before (linked_to us set) = link_pass type_id ss us (before || set)

pub seed_values-IsKeptIn :
    (t : LookupType) (ss : List SeedValue) (index : ℕ) (w : Wrote)
    → IsKeptIn w.values (seed_values t ss index w).values
unfolding seed_values
seed_values-IsKeptIn t [] index w = IsKeptIn-refl w.values
seed_values-IsKeptIn t (s ∷ ss) index w =
    let order = order_of t.default_sort s.sort_order index in
    let e = ensure_value t.id s order w.values w.next in
    let one = topped t.id s e in
    let next = record one { changed = w.changed || one.changed } in
    let here = ensure_value-IsKeptIn t.id s order w.values w.next in
    IsKeptIn-trans w.values one.values (seed_values t ss (suc index) next).values
      (either-IsKeptIn w.values e.changed e
        (record e {
          values = (backfill_meta t.id s.code s.meta e.values).0;
          changed = (backfill_meta t.id s.code s.meta e.values).1;
        })
        here
        (IsKeptIn-trans w.values e.values (backfill_meta t.id s.code s.meta e.values).0 here
          (backfill_meta-IsKeptIn t.id s.code s.meta e.values)))
      (seed_values-IsKeptIn t ss (suc index) next)

-- The tables that a seeding leaves: after a refusal of the type they are as they were.
abbrev pub left_by : Store → TypeSeeded → Store
left_by st refused = st
left_by st (dangling_pointer st') = st'
left_by st (seeded st') = st'

-- Only the types differ.
abbrev OnlyTypes : Store → TypeEnsured → Type 0
OnlyTypes st not_open = Unit
OnlyTypes st scope_differs = Unit
OnlyTypes st (type_ready t st') = st'.values ≡ st.values
