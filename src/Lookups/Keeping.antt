-- ===== src/Lookups/Keeping.antt =====
-- What a row keeps when its type is seeded again, packages/asas-lookups/src/asas_lookups/seeding.py.
use asas.Base.{
  ℕ, ◌≡◌, inl, inr, refl, sym, ap, ◌∙◌, subst, String, Bool, true, false, Option, none, some, List,
  [], ◌∷◌, ◌++◌, is_some, str_eq, first_where, update_first, Fields, end, field, Json, get_field,
  put_field, eq_iff, arith, Bool-cases, Option-cases,
}
use asas.Lookups.Model.{LookupValue}
use asas.Lookups.OrgSeeding.{is_nil}
use asas.Lookups.Values.{SeedValue, healed, missing, with_fields, topped_up, is_platform_row}
use asas.Lookups.TypeSeeding.{with_pointers, pointer}

-- The columns that no seeding writes.
abbrev pub fixed : LookupValue → LookupValue
fixed v = record v {
  parent_id = none;
  superseded_by_id = none;
  meta = Fields.end;
  translations = [];
  aliases = [];
}

-- A later state of a row: the labels and aliases stay once there are labels, a pointer stays once it is
-- set, a field of meta keeps its value, the other columns stay, and an organisation's row stays whole.
pub record IsKept (v w : LookupValue) : Type 0 where
  pub columns : fixed w ≡ fixed v
  pub labels :
      is_nil v.translations ≡ false → (w.translations ≡ v.translations) × (w.aliases ≡ v.aliases)
  pub parent : is_some v.parent_id ≡ true → w.parent_id ≡ v.parent_id
  pub successor : is_some v.superseded_by_id ≡ true → w.superseded_by_id ≡ v.superseded_by_id
  pub fields : (k : String) (j : Json) → get_field k v.meta ≡ some j → get_field k w.meta ≡ some j
  pub whole : is_some v.org_id ≡ true → w ≡ v

pub IsKept-refl : (v : LookupValue) → IsKept v v
IsKept-refl v = record {
  columns = refl;
  labels = λ h. (refl, refl);
  parent = λ h. refl;
  successor = λ h. refl;
  fields = λ k j h. h;
  whole = λ h. refl;
}

pub IsKept-trans : (u v w : LookupValue) → IsKept u v → IsKept v w → IsKept u w
IsKept-trans u v w a b = record {
  columns = b.columns ∙ a.columns;
  labels = λ h.
      let same = a.labels h in
      let more = b.labels (ap is_nil same.0 ∙ h) in (more.0 ∙ same.0, more.1 ∙ same.1);
  parent = λ h. b.parent (ap is_some (a.parent h) ∙ h) ∙ a.parent h;
  successor = λ h. b.successor (ap is_some (a.successor h) ∙ h) ∙ a.successor h;
  fields = λ k j h. b.fields k j (a.fields k j h);
  whole = λ h. b.whole (ap (λ (x : LookupValue). is_some x.org_id) (a.whole h) ∙ h) ∙ a.whole h;
}

-- Each row is kept in its place; others may follow.
abbrev pub IsKeptIn : List LookupValue → List LookupValue → Type 0
IsKeptIn [] ws = Unit
IsKeptIn (v ∷ vs) [] = ⊥
IsKeptIn (v ∷ vs) (w ∷ ws) = IsKept v w × IsKeptIn vs ws

pub IsKeptIn-refl : (vs : List LookupValue) → IsKeptIn vs vs
IsKeptIn-refl [] = tt
IsKeptIn-refl (v ∷ vs) = (IsKept-refl v, IsKeptIn-refl vs)

pub IsKeptIn-trans :
    (us vs ws : List LookupValue) → IsKeptIn us vs → IsKeptIn vs ws → IsKeptIn us ws
IsKeptIn-trans [] vs ws a b = tt
IsKeptIn-trans (u ∷ us) [] ws a b = absurd a
IsKeptIn-trans (u ∷ us) (v ∷ vs) [] a b = absurd b
IsKeptIn-trans (u ∷ us) (v ∷ vs) (w ∷ ws) a b =
    (IsKept-trans u v w a.0 b.0, IsKeptIn-trans us vs ws a.1 b.1)

pub IsKeptIn-append : (vs ws : List LookupValue) → IsKeptIn vs (vs ++ ws)
IsKeptIn-append [] ws = tt
IsKeptIn-append (v ∷ vs) ws = (IsKept-refl v, IsKeptIn-append vs ws)

pub update_first-IsKeptIn :
    (p : LookupValue → Bool) (f : LookupValue → LookupValue) (vs : List LookupValue)
    (v : LookupValue)
    → first_where p vs ≡ some v
    → IsKept v (f v)
    → IsKeptIn vs (update_first p f vs)
unfolding first_where update_first
update_first-IsKeptIn p f [] v h k = tt
update_first-IsKeptIn p f (u ∷ us) v h k = elim (Bool-cases (p u)) [
  | inl hit ↦
      let same : v ≡ u = ground (arith, h, hit) in
      rw hit (subst (λ (x : LookupValue). IsKept x (f x)) same k, IsKeptIn-refl us)
  | inr miss ↦ rw miss (IsKept-refl u, update_first-IsKeptIn p f us v (ground (arith, h, miss)) k)
]

-- A platform row is no organisation's.
pub platform_row :
    (type_id : ℕ) (code : String) (v : LookupValue)
    → is_platform_row type_id code v ≡ true
    → is_some v.org_id ≡ false
platform_row type_id code v h = elim (Option-cases v.org_id) [
  | inl e ↦ rw e refl
  | inr (i, e) ↦ absurd (ground (arith, h, e))
]

pub healed-IsKept :
    (s : SeedValue) (v : LookupValue)
    → is_nil v.translations ≡ true
    → is_some v.org_id ≡ false
    → IsKept v (healed s v)
unfolding healed
healed-IsKept s v bare platform_ = record {
  columns = refl;
  labels = λ h. absurd (ground (arith, h, bare));
  parent = λ h. refl;
  successor = λ h. refl;
  fields = λ k j h. h;
  whole = λ h. absurd (ground (arith, h, platform_));
}

get_field-missing :
    (current meta : Fields) (k : String) (j : Json)
    → get_field k current ≡ some j
    → get_field k (missing current meta) ≡ none
unfolding missing get_field
get_field-missing current end k j h = refl
get_field-missing current (field i v rest) k j h =
    let later = get_field-missing current rest k j h in
    elim (Bool-cases (is_some (get_field i current))) [
      | inl e ↦ rw e later
      | inr e ↦ elim (Bool-cases (str_eq i k)) [
        | inl same ↦
            let here : is_some (get_field k current) ≡ false =
              subst (λ (l : String). is_some (get_field l current) ≡ false) ((eq_iff i k).0 same)
                e in
            absurd (ground (arith, here, h))
        | inr differs ↦ rw e (rw differs later)
      ]
    ]

get_field-put_field :
    (k i : String) (v : Json) (d : Fields)
    → str_eq i k ≡ false
    → get_field k (put_field i v d) ≡ get_field k d
unfolding get_field put_field
get_field-put_field k i v end h = ground (arith, h)
get_field-put_field k i v (field j w rest) h = elim (Bool-cases (str_eq j i)) [
  | inl e ↦
      let other : str_eq j k ≡ false =
        subst (λ (l : String). str_eq l k ≡ false) (sym ((eq_iff j i).0 e)) h in
      ground (arith, e, h, other)
  | inr e ↦ ground (arith, e, get_field-put_field k i v rest h)
]

get_field-with_fields :
    (k : String) (current more : Fields)
    → get_field k more ≡ none
    → get_field k (with_fields current more) ≡ get_field k current
unfolding with_fields get_field
get_field-with_fields k current end h = refl
get_field-with_fields k current (field i v rest) h = elim (Bool-cases (str_eq i k)) [
  | inl e ↦ absurd (ground (arith, h, e))
  | inr e ↦
      get_field-with_fields k (put_field i v current) rest (ground (arith, h, e))
      ∙ get_field-put_field k i v current e
]

pub topped_up-IsKept :
    (meta : Fields) (v : LookupValue) → is_some v.org_id ≡ false → IsKept v (topped_up meta v)
unfolding topped_up
topped_up-IsKept meta v platform_ = record {
  columns = refl;
  labels = λ h. (refl, refl);
  parent = λ h. refl;
  successor = λ h. refl;
  fields = λ k j h.
      get_field-with_fields k v.meta (missing v.meta meta) (get_field-missing v.meta meta k j h)
      ∙ h;
  whole = λ h. absurd (ground (arith, h, platform_));
}

-- A pointer that is set stays.
pub pointer_kept :
    (type_id : ℕ) (vs : List LookupValue) (target : Option String) (current after : Option ℕ)
    → pointer type_id vs target current ≡ some after
    → is_some current ≡ true
    → after ≡ current
unfolding pointer
pointer_kept type_id vs none current after h e = ground (arith, h)
pointer_kept type_id vs (some t) current after h e = ground (arith, h, e)

pub with_pointers-IsKept :
    (v : LookupValue) (parent successor : Option ℕ)
    → is_some v.org_id ≡ false
    → (is_some v.parent_id ≡ true → parent ≡ v.parent_id)
    → (is_some v.superseded_by_id ≡ true → successor ≡ v.superseded_by_id)
    → IsKept v (with_pointers parent successor v)
with_pointers-IsKept v parent successor platform_ a b = record {
  columns = refl;
  labels = λ h. (refl, refl);
  parent = a;
  successor = b;
  fields = λ k j h. h;
  whole = λ h. absurd (ground (arith, h, platform_));
}
