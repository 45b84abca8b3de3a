-- ===== src/Lookups/Owning.antt =====
-- Whose rows `seed_org_lookups` of packages/asas-lookups/src/asas_lookups/seeding.py adds, and where
-- their pointers lead.
use asas.Base.{
  append_nil, first_where-append, first_where-later, first_where-select_where, append_assoc,
  length-map, ℕ, ◌+◌, ◌==◌, ◌≡◌, refl, sym, ap, ◌∙◌, subst, Bool, true, false, Option, none, some,
  List, [], ◌∷◌, ◌++◌, map, ◌&&◌, is_some, same_num_iff, first_where, select_where, All, All-map,
  All-append, Bool-cases, Option-cases, inl, inr, arith, ==_iff, length, length-append,
}
use asas.Lookups.Model.{LookupValue, LookupType, Store, is_org}
use asas.Lookups.OrgSeeding.{
  is_template, is_own, has_code, has_row_id, copied, own_row, Hand, org_row_for, linked, hand_of,
  hand_for, new_rows, seed_types, seed_org_lookups, no_hand,
}
use asas.Lookups.Copies.{is_owned, IsCopy, copies_of-IsCopy}

abbrev pub is_row : ℕ → ℕ → LookupValue → Bool
is_row org_id id v = v.id == id && is_owned org_id v

-- A pointer that is set leads to a row of the organisation.
abbrev pub points : ℕ → List LookupValue → Option ℕ → Bool
points org_id vs none = true
points org_id vs (some id) = is_some (first_where (is_row org_id id) vs)

-- A row of the organisation whose pointers lead to rows of the organisation.
abbrev pub IsOwnRow : ℕ → List LookupValue → LookupValue → Type 0
IsOwnRow org_id all v =
    (is_owned org_id v ≡ true)
    × (points org_id all v.parent_id ≡ true)
    × (points org_id all v.superseded_by_id ≡ true)

points-append :
    (org_id : ℕ) (vs ws : List LookupValue) (o : Option ℕ)
    → points org_id vs o ≡ true
    → points org_id (vs ++ ws) o ≡ true
points-append org_id vs ws none h = refl
points-append org_id vs ws (some id) h = first_where-append (is_row org_id id) vs ws h

module _ (org_id type_id : ℕ) (h : Hand) where
  copied-row :
      (id j : ℕ) (cs : List (LookupValue × LookupValue))
      → All (IsCopy org_id type_id) cs
      → copied id cs ≡ some j
      → is_some (first_where (is_row org_id j) (map (linked h) cs)) ≡ true
  unfolding copied first_where
  copied-row id j [] owned e = absurd (ground (arith, e))
  copied-row id j ((tmpl, copy) ∷ cs) ((type_is, org_is), rest) e =
      let here = (same_num_iff copy.org_id (some org_id)).1 org_is in
      elim (Bool-cases (tmpl.id == id)) [
        | inl hit ↦ ground (arith, here, (==_iff copy.id j).1 (ground (arith, e, hit)))
        | inr miss ↦ ground (arith, copied-row id j cs rest (ground (arith, e, miss)))
      ]

module _ (org_id type_id : ℕ) (vs : List LookupValue) (next : ℕ) where
  own_row-points :
      (tmpl : Option LookupValue)
      → points org_id vs (own_row (select_where (is_own org_id type_id) vs) tmpl) ≡ true
  own_row-points none = refl
  own_row-points (some tmpl) =
      elim (Option-cases
        (first_where (has_code tmpl.code) (select_where (is_own org_id type_id) vs))) [
          | inl e ↦ rw e refl
          | inr (v, e) ↦ rw e (
              first_where-select_where (has_code tmpl.code) (is_own org_id type_id)
                (is_row org_id v.id) vs v e
                (λ y own code same.
                  ground (arith, own, (==_iff y.id v.id).1 (ap (λ (u : LookupValue). u.id) same))))
        ]

  org_row_for-points :
      (o : Option ℕ)
      → points org_id
          (vs ++ new_rows (hand_of org_id type_id vs next))
          (org_row_for (hand_of org_id type_id vs next) o)
        ≡ true
  unfolding hand_of new_rows org_row_for
  org_row_for-points none = refl
  org_row_for-points (some id) =
      let h = hand_of org_id type_id vs next in
      elim (Option-cases (copied id h.copies)) [
        | inr (j, e) ↦ rw e (
            first_where-later (is_row org_id j) vs (map (linked h) h.copies) (
              copied-row org_id type_id h id j h.copies
                (copies_of-IsCopy org_id type_id (select_where (is_own org_id type_id) vs) next
                  (select_where (is_template type_id) vs))
                e))
        | inl e ↦ rw e (
            points-append org_id vs (new_rows h) _
              (own_row-points (first_where (has_row_id id) h.templates)))
      ]

  map-IsOwnRow :
      (cs : List (LookupValue × LookupValue))
      → All (IsCopy org_id type_id) cs
      → All
          (IsOwnRow org_id (vs ++ new_rows (hand_of org_id type_id vs next)))
          (map (linked (hand_of org_id type_id vs next)) cs)
  map-IsOwnRow [] h = tt
  map-IsOwnRow ((tmpl, copy) ∷ cs) ((_, org_is), rest) = (
    (
      (same_num_iff copy.org_id (some org_id)).1 org_is,
      org_row_for-points tmpl.parent_id,
      org_row_for-points tmpl.superseded_by_id,
    ),
    map-IsOwnRow cs rest,
  )

  hand_of-IsOwnRow :
      All
        (IsOwnRow org_id (vs ++ new_rows (hand_of org_id type_id vs next)))
        (new_rows (hand_of org_id type_id vs next))
  unfolding new_rows hand_of
  hand_of-IsOwnRow = map-IsOwnRow (hand_of org_id type_id vs next).copies (
      copies_of-IsCopy org_id type_id (select_where (is_own org_id type_id) vs) next
        (select_where (is_template type_id) vs))

pub hand_for_org :
    (org_id : ℕ) (t : LookupType) (vs : List LookupValue) (next : ℕ)
    → is_org t.scope ≡ true
    → hand_of org_id t.id vs next ≡ hand_for org_id t vs next
unfolding hand_for
hand_for_org org_id t vs next e = rw e refl

pub hand_for_platform :
    (org_id : ℕ) (t : LookupType) (vs : List LookupValue) (next : ℕ)
    → is_org t.scope ≡ false
    → no_hand ≡ hand_for org_id t vs next
unfolding hand_for
hand_for_platform org_id t vs next e = rw e refl

hand_for-IsOwnRow :
    (org_id : ℕ) (t : LookupType) (vs : List LookupValue) (next : ℕ)
    → All
        (IsOwnRow org_id (vs ++ new_rows (hand_for org_id t vs next)))
        (new_rows (hand_for org_id t vs next))
unfolding hand_for new_rows
hand_for-IsOwnRow org_id t vs next = elim (Bool-cases (is_org t.scope)) [
  | inl e ↦
      subst (λ h. All (IsOwnRow org_id (vs ++ new_rows h)) (new_rows h))
        (hand_for_org org_id t vs next e) (hand_of-IsOwnRow org_id t.id vs next)
  | inr e ↦
      subst (λ h. All (IsOwnRow org_id (vs ++ new_rows h)) (new_rows h))
        (hand_for_platform org_id t vs next e) tt
]

-- What seeding adds to the rows.
pub record IsExtended (org_id : ℕ) (vs rows : List LookupValue) (created : ℕ) : Type 0 where
  pub added : List LookupValue
  pub kept : rows ≡ vs ++ added
  pub own : All (IsOwnRow org_id rows) added
  pub count : length added ≡ created

pub seed_types-IsExtended :
    (org_id : ℕ) (ts : List LookupType) (vs : List LookupValue) (next : ℕ)
    → IsExtended org_id vs
        (seed_types org_id ts vs next).values
        (seed_types org_id ts vs next).created
unfolding seed_types new_rows
seed_types-IsExtended org_id [] vs next = record {
  added = [];
  kept = sym (append_nil vs);
  own = tt;
  count = refl;
}
seed_types-IsExtended org_id (t ∷ ts) vs next =
    let h = hand_for org_id t vs next in
    let r = seed_types org_id ts (vs ++ new_rows h) (next + length h.copies) in
    let rest = seed_types-IsExtended org_id ts (vs ++ new_rows h) (next + length h.copies) in
    let here : All (IsOwnRow org_id r.values) (new_rows h) =
      subst (λ ws. All (IsOwnRow org_id ws) (new_rows h)) (sym rest.kept)
        (All-map (IsOwnRow org_id (vs ++ new_rows h))
          (IsOwnRow org_id (vs ++ new_rows h ++ rest.added)) (new_rows h)
          (λ v own. (
            own.0,
            points-append org_id (vs ++ new_rows h) rest.added v.parent_id own.1,
            points-append org_id (vs ++ new_rows h) rest.added v.superseded_by_id own.2,
          ))
          (hand_for-IsOwnRow org_id t vs next)) in
    record {
      added = new_rows h ++ rest.added;
      kept = rest.kept ∙ sym (append_assoc vs (new_rows h) rest.added);
      own = All-append (IsOwnRow org_id r.values) (new_rows h) rest.added here rest.own;
      count = omega (
        arith,
        length-append (new_rows h) rest.added,
        length-map (linked h) h.copies,
        rest.count,
      );
    }

-- Seeding an organisation keeps every row as it is and adds as many as it says. Each of those is the
-- organisation's, and its parent and its successor, where set, are rows of the organisation.
pub seed_org_lookups-IsExtended :
    (org_id : ℕ) (st : Store)
    → IsExtended org_id st.values
        (seed_org_lookups org_id st).0.values
        (seed_org_lookups org_id st).1
unfolding seed_org_lookups
seed_org_lookups-IsExtended org_id st =
    seed_types-IsExtended org_id st.types st.values st.next_value
