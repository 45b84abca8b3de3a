-- ===== src/Access/Principals.antt =====
-- packages/asas-access/src/asas_access/principals.py. The host's sources and resolvers are parameters;
-- `none` is what one answers that raises. Sets are lists.
use asas.Base.{
  ℕ, String, Bool, false, Option, none, some, List, [], ◌∷◌, ◌++◌, if◌then◌else◌, str_eq, ◌||◌,
}

pub record User : Type 0 where
  pub role : Option String
  pub org_id : Option ℕ

-- The registries, over the host's records `R`.
pub record Sources (R : Type 0) : Type 0 where
  pub global_sources : List (User → Option (List String))
  pub resolvers : List ((String × String) × (User → Option R → Option Bool))
  pub record_sources : List (String × (User → R → Option (List String)))

-- `x in xs`
unfoldable pub member : String → List String → Bool
member x [] = false
member x (y ∷ ys) = str_eq y x || member x ys

abbrev pub role_of : Option String → List String
role_of none = []
role_of (some r) = r ∷ []

-- A source that raises contributes nothing.
abbrev pub or_nothing : Option (List String) → List String
or_nothing none = []
or_nothing (some xs) = xs

unfoldable pub from_globals : List (User → Option (List String)) → User → List String
from_globals [] u = []
from_globals (f ∷ fs) u = or_nothing (f u) ++ from_globals fs u

abbrev pub or_no : Option Bool → Bool
or_no none = false
or_no (some b) = b

module _ {R : Type 0} where
  unfoldable pub from_resolvers :
      List ((String × String) × (User → Option R → Option Bool))
      → String
      → User
      → Option R
      → List String
  from_resolvers [] entity_type u record_ = []
  from_resolvers (((et, principal), f) ∷ rest) entity_type u record_ =
      let others = from_resolvers rest entity_type u record_ in
      if str_eq et entity_type
      then (if or_no (f u record_) then principal ∷ others else others)
      else others

  unfoldable pub from_records :
      List (String × (User → R → Option (List String))) → String → User → R → List String
  from_records [] entity_type u r = []
  from_records ((et, f) ∷ rest) entity_type u r =
      let others = from_records rest entity_type u r in
      if str_eq et entity_type then or_nothing (f u r) ++ others else others

  abbrev pub with_record :
      List (String × (User → R → Option (List String))) → String → User → Option R → List String
  with_record sources entity_type u none = []
  with_record sources entity_type u (some r) = from_records sources entity_type u r

  -- Anonymous users hold nothing.
  unfoldable pub held_principals : Sources R → Option User → String → Option R → List String
  unfolding from_globals from_resolvers from_records
  held_principals s none entity_type record_ = []
  held_principals s (some u) entity_type record_ =
      role_of u.role
      ++ from_globals s.global_sources u
      ++ from_resolvers s.resolvers entity_type u record_
      ++ with_record s.record_sources entity_type u record_
