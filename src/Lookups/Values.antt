-- ===== src/Lookups/Values.antt =====
-- How packages/asas-lookups/src/asas_lookups/seeding.py seeds one value: `ensure_value` and
-- `_backfill_meta`. The labels of one value have different languages.
use asas.Base.{
  ℕ, suc, String, Bool, true, false, Option, none, some, List, [], ◌∷◌, ◌++◌, not, ◌&&◌, is_some,
  if◌then◌else◌, str_eq, first_where, select_where, update_first, Fields, end, field, get_field,
  put_field,
}
use asas.Lookups.Model.{LookupStatus, active, LookupTranslation, LookupAlias, LookupValue}
use asas.Lookups.OrgSeeding.{is_template, has_code, is_nil}

pub record SeedValue : Type 0 where
  pub code : String
  pub translations : List LookupTranslation
  pub aliases : List LookupAlias
  pub meta : Fields
  pub status : Option LookupStatus
  pub is_default : Bool
  pub sort_order : Option ℕ
  pub valid_from : Option ℕ
  pub valid_to : Option ℕ
  pub parent_code : Option String
  pub superseded_by : Option String

-- The values, the next id, and whether something was written.
pub record Wrote : Type 0 where
  pub values : List LookupValue
  pub next : ℕ
  pub changed : Bool

abbrev pub is_platform_row : ℕ → String → LookupValue → Bool
is_platform_row type_id code v = is_template type_id v && has_code code v

abbrev pub is_alias : String → LookupAlias → Bool
is_alias name a = str_eq a.alias name

-- The labels and the aliases of a row that a seed has left without labels.
unfoldable pub healed : SeedValue → LookupValue → LookupValue
unfolding first_where select_where
healed s v = record v {
  translations = s.translations;
  aliases =
      v.aliases
      ++ select_where (λ a. not (is_some (first_where (is_alias a.alias) v.aliases))) s.aliases;
}

abbrev pub or_active : Option LookupStatus → LookupStatus
or_active none = active
or_active (some s) = s

unfoldable pub new_value : ℕ → SeedValue → ℕ → ℕ → LookupValue
new_value type_id s order id = record {
  id = id;
  type_id = type_id;
  org_id = none;
  code = s.code;
  parent_id = none;
  status = or_active s.status;
  is_default = s.is_default;
  sort_order = order;
  valid_from = s.valid_from;
  valid_to = s.valid_to;
  superseded_by_id = none;
  meta = s.meta;
  translations = s.translations;
  aliases = s.aliases;
}

unfoldable pub heal : ℕ → SeedValue → LookupValue → List LookupValue → ℕ → Wrote
unfolding healed update_first
heal type_id s v vs next =
    if is_nil v.translations
    then record {
      values = update_first (is_platform_row type_id s.code) (healed s) vs;
      next = next;
      changed = true;
    }
    else record { values = vs; next = next; changed = false }

unfoldable pub ensure_value : ℕ → SeedValue → ℕ → List LookupValue → ℕ → Wrote
unfolding first_where heal new_value
ensure_value type_id s order vs next = elim (first_where (is_platform_row type_id s.code) vs) [
  | none ↦ record {
    values = vs ++ new_value type_id s order next ∷ [];
    next = suc next;
    changed = true;
  }
  | some v ↦ heal type_id s v vs next
]

-- The fields of `meta` whose keys a row lacks.
unfoldable pub missing : Fields → Fields → Fields
unfolding get_field
missing current end = end
missing current (field k j rest) =
    let more = missing current rest in
    if is_some (get_field k current) then more else field k j more

unfoldable pub with_fields : Fields → Fields → Fields
unfolding put_field
with_fields current end = current
with_fields current (field k j rest) = with_fields (put_field k j current) rest

abbrev pub has_fields : Fields → Bool
has_fields end = false
has_fields (field k j rest) = true

unfoldable pub topped_up : Fields → LookupValue → LookupValue
unfolding missing with_fields
topped_up meta v = record v { meta = with_fields v.meta (missing v.meta meta) }

unfoldable pub backfill :
    ℕ → String → Fields → LookupValue → List LookupValue → List LookupValue × Bool
unfolding topped_up update_first
backfill type_id code meta v vs =
    if has_fields (missing v.meta meta)
    then (update_first (is_platform_row type_id code) (topped_up meta) vs, true)
    else (vs, false)

unfoldable pub backfill_meta : ℕ → String → Fields → List LookupValue → List LookupValue × Bool
unfolding first_where backfill
backfill_meta type_id code meta vs = elim (first_where (is_platform_row type_id code) vs) [
  | none ↦ (vs, false)
  | some v ↦ backfill type_id code meta v vs
]
