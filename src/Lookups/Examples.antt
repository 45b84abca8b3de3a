-- ===== src/Lookups/Examples.antt =====
-- The theorems on packages/asas-lookups at a small tree of units that is copied to an organisation, and
-- tests.
use asas.Base.{◌≡◌, refl, String, true, false, none, some, List, [], ◌∷◌, All, Fields, field, str}
use asas.Lookups.Model.{
  active, by_label, platform, org, LookupType, LookupTranslation, LookupValue, Store,
}
use asas.Lookups.Types.{TypeArgs, ensure_type, not_open, scope_differs}
use asas.Lookups.OrgSeeding.{seed_org_lookups}
use asas.Lookups.Values.{SeedValue}
use asas.Lookups.TypeSeeding.{TypeSeeded, seed_type}
use asas.Lookups.Owning.{IsExtended, seed_org_lookups-IsExtended}
use asas.Lookups.Kept.{IsComplete, seed_org_lookups-again}

abbrev units : LookupType
units = record {
  id = 1;
  key = "unit";
  name = "Unit";
  description = none;
  is_open = true;
  is_hierarchical = true;
  code_system = none;
  scope = org;
  default_sort = by_label;
  version = 1;
}

abbrev english : String → List LookupTranslation
english label = record { lang = "en"; label = label; short_label = none } ∷ []

abbrev sales : LookupValue
sales = record {
  id = 2;
  type_id = 1;
  org_id = none;
  code = "sales";
  parent_id = some 1;
  status = active;
  is_default = false;
  sort_order = 0;
  valid_from = none;
  valid_to = none;
  superseded_by_id = none;
  meta = Fields.end;
  translations = english "Sales";
  aliases = [];
}

abbrev head : LookupValue
head = record sales {
  id = 1;
  code = "head";
  parent_id = none;
  translations = english "Head office";
}

-- Organisation 7 has its own head office, under another name.
abbrev own_head : LookupValue
own_head = record head { id = 3; org_id = some 7; translations = english "Centre" }

abbrev start : Store
start = record {
  types = units ∷ [];
  values = head ∷ sales ∷ own_head ∷ [];
  next_type = 2;
  next_value = 4;
}

abbrev seeded : Store
seeded = record {
  types = record units { version = 2 } ∷ [];
  values =
      head ∷ sales ∷ own_head ∷ record sales { id = 4; org_id = some 7; parent_id = some 3 } ∷ [];
  next_type = 2;
  next_value = 5;
}

-- Sales is copied under the organisation's own head office.
copied_once : seed_org_lookups 7 start ≡ (seeded, 1)
unfolding seed_org_lookups
copied_once = refl

seed_org_lookups-again_example :
    All (IsComplete 7 (seed_org_lookups 7 start).0.values) (seed_org_lookups 7 start).0.types
    × (seed_org_lookups 7 (seed_org_lookups 7 start).0 ≡ ((seed_org_lookups 7 start).0, 0))
seed_org_lookups-again_example = seed_org_lookups-again 7 start

seed_org_lookups-IsExtended_example :
    IsExtended 7 start.values (seed_org_lookups 7 start).0.values (seed_org_lookups 7 start).1
seed_org_lookups-IsExtended_example = seed_org_lookups-IsExtended 7 start

abbrev skills : TypeArgs
skills = record {
  key = "skill";
  name = none;
  description = none;
  is_open = true;
  is_hierarchical = false;
  code_system = none;
  default_sort = by_label;
  scope = some org;
}

-- The file names sales with another label and a colour, and a new code under it.
abbrev file : List SeedValue
file =
    record {
      code = "sales";
      translations = english "Selling";
      aliases = [];
      meta = field "colour" (str "red") Fields.end;
      status = none;
      is_default = false;
      sort_order = none;
      valid_from = none;
      valid_to = none;
      parent_code = none;
      superseded_by = none;
    }
    ∷ record {
      code = "field";
      translations = english "Field sales";
      aliases = [];
      meta = Fields.end;
      status = none;
      is_default = false;
      sort_order = none;
      valid_from = none;
      valid_to = none;
      parent_code = some "sales";
      superseded_by = none;
    }
    ∷ []

abbrev unit_args : TypeArgs
unit_args = record skills { key = "unit"; scope = none }

-- The label of sales stays and the colour comes in.
reseeded :
    seed_type unit_args file start
    ≡ TypeSeeded.seeded (record {
      types = record units { version = 2 } ∷ [];
      values =
          head
          ∷ record sales { meta = field "colour" (str "red") Fields.end }
          ∷ own_head
          ∷ record sales {
            id = 4;
            code = "field";
            parent_id = some 2;
            translations = english "Field sales";
          }
          ∷ [];
      next_type = 2;
      next_value = 5;
    })
unfolding seed_type
reseeded = refl

refusals :
    (ensure_type (record skills { scope = none }) start ≡ not_open)
    × (ensure_type (record skills { key = "unit"; is_open = false; scope = some platform }) start
        ≡ scope_differs)
unfolding ensure_type
refusals = (refl, refl)
