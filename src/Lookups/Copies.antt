-- ===== src/Lookups/Copies.antt =====
-- What one type's copies are, in packages/asas-lookups/src/asas_lookups/seeding.py: the rows that
-- `seed_org_lookups` makes of the type's templates.
use asas.Base.{
  select_where-append, select_where-none, append_nil, first_where-append, first_where_here,
  first_where-between, first_where-later, ℕ, suc, ◌==◌, ◌≡◌, refl, sym, ap, ◌∙◌, subst, Bool, true,
  false, Option, none, some, List, [], ◌∷◌, ◌++◌, map, ◌&&◌, is_some, same_num, same_num_iff,
  first_where, select_where, All, All-map, Bool-cases, inl, inr, arith, eq_iff, ==_iff,
}
use asas.Lookups.Model.{LookupValue}
use asas.Lookups.OrgSeeding.{
  is_template, is_own, has_code, copy_of, copies_of, Hand, linked, hand_of, new_rows,
}

-- Rows of an organisation.
abbrev pub is_owned : ℕ → LookupValue → Bool
is_owned org_id v = same_num v.org_id (some org_id)

abbrev pub HasRow : List LookupValue → LookupValue → Type 0
HasRow own tmpl = is_some (first_where (has_code tmpl.code) own) ≡ true

-- The organisation has a row for each of the type's templates.
abbrev pub HasAll : ℕ → ℕ → List LookupValue → Type 0
HasAll org_id type_id vs =
    All (HasRow (select_where (is_own org_id type_id) vs)) (select_where (is_template type_id) vs)

not_both :
    (b : Bool) (org_id : ℕ) (o : Option ℕ)
    → same_num o (some org_id) ≡ true
    → b && same_num o none ≡ false
not_both b org_id none h = absurd (ground (arith, h))
not_both b org_id (some i) h = ground arith

module _ (org_id type_id : ℕ) where
  templates-append :
      (vs rows : List LookupValue)
      → All (λ v. is_owned org_id v ≡ true) rows
      → select_where (is_template type_id) vs ≡ select_where (is_template type_id) (vs ++ rows)
  templates-append vs rows owned = sym (
      select_where-append (is_template type_id) vs rows
      ∙ ap (λ ws. select_where (is_template type_id) vs ++ ws)
          (select_where-none (is_template type_id) rows (
            All-map (λ v. is_owned org_id v ≡ true) (λ v. is_template type_id v ≡ false) rows
              (λ v o. not_both (v.type_id == type_id) org_id v.org_id o) owned))
      ∙ append_nil (select_where (is_template type_id) vs))

  -- More rows of the organisation.
  pub HasAll-append :
      (vs rows : List LookupValue)
      → All (λ v. is_owned org_id v ≡ true) rows
      → HasAll org_id type_id vs
      → HasAll org_id type_id (vs ++ rows)
  HasAll-append vs rows owned h =
      let own = select_where (is_own org_id type_id) vs in
      let more = select_where (is_own org_id type_id) rows in
      let whole : All (HasRow (own ++ more)) (select_where (is_template type_id) vs) =
        All-map (HasRow own) (HasRow (own ++ more)) (select_where (is_template type_id) vs)
          (λ tmpl. first_where-append (has_code tmpl.code) own more) h in
      subst (All (HasRow (select_where (is_own org_id type_id) (vs ++ rows))))
        (templates-append vs rows owned)
        (subst (λ ws. All (HasRow ws) (select_where (is_template type_id) vs))
          (sym (select_where-append (is_own org_id type_id) vs rows)) whole)

  -- With a row for each template there is nothing to copy.
  pub copies_of-none :
      (own : List LookupValue) (id : ℕ) (tmpls : List LookupValue)
      → All (HasRow own) tmpls
      → copies_of org_id type_id own id tmpls ≡ []
  unfolding copies_of
  copies_of-none own id [] h = refl
  copies_of-none own id (t ∷ ts) h = rw (h.0, copies_of) (copies_of-none own id ts h.1)

  -- A template is passed over, or it is copied.
  pub copies_of-skips :
      (own : List LookupValue) (id : ℕ) (t : LookupValue) (ts : List LookupValue)
      → is_some (first_where (has_code t.code) own) ≡ true
      → copies_of org_id type_id own id ts ≡ copies_of org_id type_id own id (t ∷ ts)
  unfolding copies_of
  copies_of-skips own id t ts e = rw (e, copies_of) refl

  pub copies_of-copies :
      (own : List LookupValue) (id : ℕ) (t : LookupValue) (ts : List LookupValue)
      → is_some (first_where (has_code t.code) own) ≡ false
      → (t, copy_of org_id type_id id t) ∷ copies_of org_id type_id own (suc id) ts
        ≡ copies_of org_id type_id own id (t ∷ ts)
  unfolding copies_of
  copies_of-copies own id t ts e = rw (e, copies_of) refl

  -- Each template has a row already, or a copy; `f` is what the second pass does to a copy.
  copies_of-HasRow :
      (f : LookupValue × LookupValue → LookupValue)
      → ((p : LookupValue × LookupValue) → (f p).code ≡ p.1.code)
      → (own : List LookupValue) (id : ℕ) (tmpls : List LookupValue)
      → All (HasRow (own ++ map f (copies_of org_id type_id own id tmpls))) tmpls
  unfolding copies_of copy_of
  copies_of-HasRow f keeps own id [] = tt
  copies_of-HasRow f keeps own id (t ∷ ts) =
      elim (Bool-cases (is_some (first_where (has_code t.code) own))) [
        | inl e ↦
            subst (λ cs. All (HasRow (own ++ map f cs)) (t ∷ ts)) (copies_of-skips own id t ts e)
              (
                first_where-append (has_code t.code) own
                    (map f (copies_of org_id type_id own id ts)) e,
                copies_of-HasRow f keeps own id ts,
              )
        | inr e ↦
            let p : LookupValue × LookupValue = (t, copy_of org_id type_id id t) in
            let cs = copies_of org_id type_id own (suc id) ts in
            subst (λ cs. All (HasRow (own ++ map f cs)) (t ∷ ts)) (copies_of-copies own id t ts e)
              (
                first_where-later (has_code t.code) own (f p ∷ map f cs) (
                    first_where_here (has_code t.code) (f p) (map f cs)
                      ((eq_iff (f p).code t.code).1 (keeps p))),
                All-map (HasRow (own ++ map f cs)) (HasRow (own ++ f p ∷ map f cs)) ts
                    (λ u. first_where-between (has_code u.code) own (f p) (map f cs))
                    (copies_of-HasRow f keeps own (suc id) ts),
              )
      ]

  -- What the copies are: rows of the organisation and the type, without pointers.
  abbrev pub IsCopy : LookupValue × LookupValue → Type 0
  IsCopy (tmpl, copy) = (copy.type_id ≡ type_id) × (copy.org_id ≡ some org_id)

  pub copies_of-IsCopy :
      (own : List LookupValue) (id : ℕ) (tmpls : List LookupValue)
      → All IsCopy (copies_of org_id type_id own id tmpls)
  unfolding copies_of copy_of
  copies_of-IsCopy own id [] = tt
  copies_of-IsCopy own id (t ∷ ts) =
      elim (Bool-cases (is_some (first_where (has_code t.code) own))) [
        | inl e ↦ subst (All IsCopy) (copies_of-skips own id t ts e) (copies_of-IsCopy own id ts)
        | inr e ↦
            subst (All IsCopy) (copies_of-copies own id t ts e)
              ((refl, refl), copies_of-IsCopy own (suc id) ts)
      ]

  map-own :
      (f : LookupValue × LookupValue → LookupValue)
      → ((p : LookupValue × LookupValue)
          → ((f p).type_id ≡ p.1.type_id) × ((f p).org_id ≡ p.1.org_id))
      → (cs : List (LookupValue × LookupValue)) → All IsCopy cs
      → (select_where (is_own org_id type_id) (map f cs) ≡ map f cs)
        × All (λ v. is_owned org_id v ≡ true) (map f cs)
  unfolding select_where
  map-own f keeps [] h = (refl, tt)
  map-own f keeps (c ∷ cs) h =
      let (type_same, org_same) = keeps c in
      let ((type_is, org_is), rest) = h in
      let (all_own, all_owned) = map-own f keeps cs rest in
      let typed = (==_iff (f c).type_id type_id).1 (type_same ∙ type_is) in
      let owned = (same_num_iff (f c).org_id (some org_id)).1 (org_same ∙ org_is) in
      (ground (arith, typed, owned, all_own), (owned, all_owned))

module _ (org_id : ℕ) (h : Hand) where
  linked_keeps :
      (p : LookupValue × LookupValue)
      → ((linked h p).type_id ≡ p.1.type_id)
        × ((linked h p).org_id ≡ p.1.org_id)
        × ((linked h p).code ≡ p.1.code)
        × ((linked h p).id ≡ p.1.id)
  linked_keeps p = (refl, refl, refl, refl)

module _ (org_id type_id : ℕ) (vs : List LookupValue) (next : ℕ) where
  -- The new rows of a type are the organisation's, and with them it has a row for each template.
  pub hand_of-HasAll :
      All (λ v. is_owned org_id v ≡ true) (new_rows (hand_of org_id type_id vs next))
      × HasAll org_id type_id (vs ++ new_rows (hand_of org_id type_id vs next))
  unfolding hand_of new_rows
  hand_of-HasAll =
      let h = hand_of org_id type_id vs next in
      let own = select_where (is_own org_id type_id) vs in
      let templates = select_where (is_template type_id) vs in
      let rows = map (linked h) (copies_of org_id type_id own next templates) in
      let (all_own, all_owned) =
        map-own org_id type_id (linked h)
          (λ p. ((linked_keeps org_id h p).0, (linked_keeps org_id h p).1))
          (copies_of org_id type_id own next templates)
          (copies_of-IsCopy org_id type_id own next templates) in
      let has =
        copies_of-HasRow org_id type_id (linked h) (λ p. (linked_keeps org_id h p).2) own next
          templates in
      let whole : select_where (is_own org_id type_id) (vs ++ rows) ≡ own ++ rows =
        select_where-append (is_own org_id type_id) vs rows ∙ ap (λ ws. own ++ ws) all_own in
      (
        all_owned,
        subst (All (HasRow (select_where (is_own org_id type_id) (vs ++ rows))))
            (templates-append org_id type_id vs rows all_owned)
            (subst (λ ws. All (HasRow ws) templates) (sym whole) has),
      )
