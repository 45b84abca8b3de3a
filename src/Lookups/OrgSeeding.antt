-- ===== src/Lookups/OrgSeeding.antt =====
-- `seed_org_lookups` of packages/asas-lookups/src/asas_lookups/seeding.py. A look-up by code or by id
-- takes the first of the rows, of which the table has one at most.
use asas.Base.{
  ℕ, suc, ◌+◌, ◌==◌, String, Bool, true, false, Option, none, some, List, [], ◌∷◌, ◌++◌, map, ◌&&◌,
  is_some, if◌then◌else◌, str_eq, same_num, first_where, select_where, length,
}
use asas.Lookups.Model.{LookupType, LookupValue, Store, is_org}

abbrev pub is_template : ℕ → LookupValue → Bool
is_template type_id v = v.type_id == type_id && same_num v.org_id none

abbrev pub is_own : ℕ → ℕ → LookupValue → Bool
is_own org_id type_id v = v.type_id == type_id && same_num v.org_id (some org_id)

abbrev pub has_code : String → LookupValue → Bool
has_code code v = str_eq v.code code

abbrev pub has_row_id : ℕ → LookupValue → Bool
has_row_id id v = v.id == id

-- The row with its labels and its aliases, but without its pointers.
unfoldable pub copy_of : ℕ → ℕ → ℕ → LookupValue → LookupValue
copy_of org_id type_id id tmpl = record tmpl {
  id = id;
  type_id = type_id;
  org_id = some org_id;
  parent_id = none;
  superseded_by_id = none;
}

-- The templates that the organisation has no code of, each with its copy.
unfoldable pub copies_of :
    ℕ → ℕ → List LookupValue → ℕ → List LookupValue → List (LookupValue × LookupValue)
unfolding copy_of first_where
copies_of org_id type_id own id [] = []
copies_of org_id type_id own id (tmpl ∷ tmpls) =
    elim (is_some (first_where (has_code tmpl.code) own)) [
      | true ↦ copies_of org_id type_id own id tmpls
      | false ↦ (tmpl, copy_of org_id type_id id tmpl) ∷ copies_of org_id type_id own (suc id) tmpls
    ]

-- `copies.get(template_id)`, as the copy's id.
unfoldable pub copied : ℕ → List (LookupValue × LookupValue) → Option ℕ
copied id [] = none
copied id ((tmpl, copy) ∷ cs) =
    let rest = copied id cs in if tmpl.id == id then some copy.id else rest

abbrev pub id_of : Option LookupValue → Option ℕ
id_of none = none
id_of (some v) = some v.id

abbrev pub own_row : List LookupValue → Option LookupValue → Option ℕ
own_row own none = none
own_row own (some tmpl) = id_of (first_where (has_code tmpl.code) own)

abbrev pub or_id : Option ℕ → Option ℕ → Option ℕ
or_id none o = o
or_id (some id) o = some id

-- What the seeding of a type has at hand: the templates, the organisation's rows, and the copies.
pub record Hand : Type 0 where
  pub templates : List LookupValue
  pub own : List LookupValue
  pub copies : List (LookupValue × LookupValue)

-- The organisation's row for a template's id.
unfoldable pub org_row_for : Hand → Option ℕ → Option ℕ
unfolding copied first_where
org_row_for h none = none
org_row_for h (some id) =
    or_id (copied id h.copies) (own_row h.own (first_where (has_row_id id) h.templates))

-- The second pass over a copy.
abbrev pub linked : Hand → LookupValue × LookupValue → LookupValue
linked h (tmpl, copy) = record copy {
  parent_id = org_row_for h tmpl.parent_id;
  superseded_by_id = org_row_for h tmpl.superseded_by_id;
}

unfoldable pub hand_of : ℕ → ℕ → List LookupValue → ℕ → Hand
unfolding select_where copies_of
hand_of org_id type_id values next =
    let templates = select_where (is_template type_id) values in
    let own = select_where (is_own org_id type_id) values in
    record {
      templates = templates;
      own = own;
      copies = copies_of org_id type_id own next templates;
    }

abbrev pub is_nil {ℓ} : {A : Type ℓ} → List A → Bool
is_nil [] = true
is_nil (x ∷ xs) = false

-- A type's version rises when a row was created.
abbrev pub bumped : Bool → LookupType → LookupType
bumped true t = t
bumped false t = record t { version = suc t.version }

abbrev pub no_hand : Hand
no_hand = record { templates = []; own = []; copies = [] }

-- Only types of an organisation's scope are copied.
unfoldable pub hand_for : ℕ → LookupType → List LookupValue → ℕ → Hand
unfolding hand_of
hand_for org_id t values next = if is_org t.scope then hand_of org_id t.id values next else no_hand

unfoldable pub new_rows : Hand → List LookupValue
unfolding org_row_for
new_rows h = map (linked h) h.copies

-- The tables as they are left, and how many values were created.
pub record Seeded : Type 0 where
  pub types : List LookupType
  pub values : List LookupValue
  pub next : ℕ
  pub created : ℕ

unfoldable pub seed_types : ℕ → List LookupType → List LookupValue → ℕ → Seeded
unfolding hand_for new_rows
seed_types org_id [] values next = record { types = []; values = values; next = next; created = 0 }
seed_types org_id (t ∷ ts) values next =
    let h = hand_for org_id t values next in
    let rest = seed_types org_id ts (values ++ new_rows h) (next + length h.copies) in
    record {
      types = bumped (is_nil h.copies) t ∷ rest.types;
      values = rest.values;
      next = rest.next;
      created = length h.copies + rest.created;
    }

unfoldable pub seed_org_lookups : ℕ → Store → Store × ℕ
unfolding seed_types
seed_org_lookups org_id st =
    let r = seed_types org_id st.types st.values st.next_value in
    (record st { types = r.types; values = r.values; next_value = r.next }, r.created)
