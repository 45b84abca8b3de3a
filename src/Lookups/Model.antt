-- ===== src/Lookups/Model.antt =====
-- The rows of packages/asas-lookups/src/asas_lookups/models.py. A value carries its translations and
-- aliases, which the database deletes with it; dates are numbers of days.
use asas.Base.{ℕ, String, Bool, true, false, Option, List, Fields}

pub data LookupStatus : Type 0 where
  active deprecated : LookupStatus

pub data SortMode : Type 0 where
  by_label by_sort_order : SortMode

pub data TypeScope : Type 0 where
  platform org : TypeScope

abbrev pub is_org : TypeScope → Bool
is_org platform = false
is_org org = true

abbrev pub same_scope : TypeScope → TypeScope → Bool
same_scope platform platform = true
same_scope org org = true
same_scope a b = false

pub record LookupType : Type 0 where
  pub id : ℕ
  pub key : String
  pub name : String
  pub description : Option String
  pub is_open : Bool
  pub is_hierarchical : Bool
  pub code_system : Option String
  pub scope : TypeScope
  pub default_sort : SortMode
  pub version : ℕ

pub record LookupTranslation : Type 0 where
  pub lang : String
  pub label : String
  pub short_label : Option String

pub record LookupAlias : Type 0 where
  pub alias : String
  pub lang : Option String

pub record LookupValue : Type 0 where
  pub id : ℕ
  pub type_id : ℕ
  pub org_id : Option ℕ
  pub code : String
  pub parent_id : Option ℕ
  pub status : LookupStatus
  pub is_default : Bool
  pub sort_order : ℕ
  pub valid_from : Option ℕ
  pub valid_to : Option ℕ
  pub superseded_by_id : Option ℕ
  pub meta : Fields
  pub translations : List LookupTranslation
  pub aliases : List LookupAlias

-- The tables, and the ids that are given next.
pub record Store : Type 0 where
  pub types : List LookupType
  pub values : List LookupValue
  pub next_type : ℕ
  pub next_value : ℕ
