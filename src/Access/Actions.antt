-- ===== src/Access/Actions.antt =====
-- packages/asas-access/src/asas_access/actions.py: who may take which action. The grant cache is read as
-- the table that it holds.
use asas.Base.{
  ℕ, String, Bool, true, false, Option, none, some, List, [], ◌∷◌, ◌++◌, if◌then◌else◌, str_eq,
  ◌||◌, ◌&&◌, not, same_num,
}
use asas.Access.Principals.{User, Sources, member, held_principals}

pub record ActionPermission : Type 0 where
  pub permission : String
  pub principal : String
  pub org_id : Option ℕ

pub record Catalog : Type 0 where
  pub actions : List String
  pub record_actions : List String
  pub grants : List ActionPermission

abbrev pub role_admin : String
role_admin = "admin"

abbrev pub action_scope : String
action_scope = "__action__"

unfoldable pub register_actions : Catalog → List String → Bool → Catalog
register_actions c verbs record_scoped = record c {
  actions = c.actions ++ verbs;
  record_actions = if record_scoped then c.record_actions ++ verbs else c.record_actions;
}

-- A row that counts for the organisation: its own or a platform default.
abbrev pub counts : Option ℕ → Option ℕ → Bool
counts org none = true
counts org (some o) = same_num org (some o)

unfoldable pub allowed_principals : List ActionPermission → String → Option ℕ → List String
allowed_principals [] verb org = []
allowed_principals (g ∷ gs) verb org =
    let rest = allowed_principals gs verb org in
    if str_eq g.permission verb && counts org g.org_id then g.principal ∷ rest else rest

-- A ValueError, or the answer.
pub data Answer : Type 0 where
  unknown_action record_scoped_action : Answer
  answer : Bool → Answer

-- `bool(allowed & held)`
unfoldable pub meets : List String → List String → Bool
unfolding member
meets [] held = false
meets (p ∷ ps) held = member p held || meets ps held

abbrev pub org_of : Option User → Option ℕ
org_of none = none
org_of (some u) = u.org_id

unfoldable pub holds_action : Catalog → String → Option ℕ → List String → Bool
unfolding allowed_principals meets
holds_action c verb org held =
    member role_admin held || meets (allowed_principals c.grants verb org) held

module _ {R : Type 0} where
  unfoldable pub action_allowed : Sources R → Catalog → Option User → String → Answer
  unfolding holds_action held_principals
  action_allowed s c user verb =
      if not (member verb c.actions)
      then unknown_action
      else if member verb c.record_actions
      then record_scoped_action
      else answer (holds_action c verb (org_of user) (held_principals s user action_scope none))

  unfoldable pub action_allowed_for :
      Sources R → Catalog → Option User → String → String → Option R → Answer
  unfolding holds_action held_principals
  action_allowed_for s c user verb entity_type record_ =
      if not (member verb c.actions)
      then unknown_action
      else answer (holds_action c verb (org_of user) (held_principals s user entity_type record_))
