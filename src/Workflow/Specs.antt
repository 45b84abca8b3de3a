-- ===== src/Workflow/Specs.antt =====
-- The specs of packages/asas-workflow/src/asas_workflow/definitions.py, the registrations they are
-- checked against (registry.py), and the fields and the shape of a condition (conditions.py).
-- A clause is always a dict with a string field, which may be empty.
use asas.Base.{
  ◌==◌, String, Bool, true, false, Option, none, some, List, [], ◌∷◌, ◌++◌, map, not, ◌&&◌, ◌||◌,
  if◌then◌else◌, str_eq, is_some, first_where, get_key,
}
use Prim.Native.Char.{code}
use asas.Workflow.Conditions.{Op, other, Clause, Condition, all, any, single, split_dots}
use asas.Workflow.Model.{NodeType, Config}

pub record NodeSpec : Type 0 where
  pub key : String
  pub name : String
  pub type_ : NodeType
  pub config : Config

pub record TransitionSpec : Type 0 where
  pub from_key : String
  pub to_key : String
  pub condition : Option Condition

pub record DefinitionSpec : Type 0 where
  pub key : String
  pub name : String
  pub entity_type : String
  pub nodes : List NodeSpec
  pub transitions : List TransitionSpec
  pub data_fields : List String
  pub purpose : Option String

abbrev pub stated : Option String → Bool
stated none = false
stated (some s) = not (str_eq s "")

abbrev pub text_of : Option String → String
text_of none = ""
text_of (some s) = s

-- `purpose or key`
unfoldable pub resolved_purpose : DefinitionSpec → String
resolved_purpose spec = if stated spec.purpose then text_of spec.purpose else spec.key

abbrev pub is_text : String → String → Bool
is_text k s = str_eq s k

abbrev pub among : String → List String → Bool
among k keys = is_some (first_where (is_text k) keys)

-- What the host has registered; a namespace may come with a check of its parameter.
pub record Registry : Type 0 where
  pub assignees : List String
  pub namespaces : List (String × Option (String → Option String))
  pub handlers : List String

-- `principal.split(":", 1)`, the parameter absent without a colon.
unfoldable pub split_principal : String → String × Option String
split_principal String.[] = (String.[], none)
split_principal (String.◌∷◌ c s) =
    let (namespace, param) = split_principal s in
    if code c == 58 then (String.[], some s) else (String.◌∷◌ c namespace, param)

module _ (r : Registry) where
  unfoldable pub has_assignee_resolver : String → Bool
  unfolding split_principal first_where get_key
  has_assignee_resolver principal =
      let (namespace, param) = split_principal principal in
      among principal r.assignees
      || (stated param && is_some (get_key str_eq namespace r.namespaces))

  abbrev pub checked : Option (String → Option String) → String → Option String
  checked none param = none
  checked (some check) param = check param

  unfoldable pub check_principal_param : String → Option String
  unfolding split_principal get_key
  check_principal_param principal =
      let (namespace, param) = split_principal principal in
      elim param [
        | none ↦ none
        | some p ↦ elim (get_key str_eq namespace r.namespaces) [
          | none ↦ none
          | some check ↦ checked check p
        ]
      ]

abbrev pub clauses_of : Condition → List Clause
clauses_of (all cs) = cs
clauses_of (any cs) = cs
clauses_of (single c) = c ∷ []

unfoldable pub condition_fields : Option Condition → List String
condition_fields none = []
condition_fields (some c) = map (λ k. k.path) (clauses_of c)

abbrev pub is_unknown : Op → Bool
is_unknown op = elim op [ other name ↦ true | _ ↦ false ]

-- A group without clauses, a clause without a field, or with an operator that is none.
pub data Misshape : Type 0 where
  empty_group no_field bad_op : Misshape

unfoldable pub clause_problems : List Clause → List Misshape
clause_problems [] = []
clause_problems (c ∷ cs) =
    (if str_eq c.path "" then no_field ∷ [] else [])
    ++ (if is_unknown c.op then bad_op ∷ [] else [])
    ++ clause_problems cs

unfoldable pub check_condition_shape : Option Condition → List Misshape
unfolding clause_problems
check_condition_shape none = []
check_condition_shape (some c) = elim (clauses_of c) [
  | [] ↦ empty_group ∷ []
  | k ∷ ks ↦ clause_problems (k ∷ ks)
]

-- `nodes.<known_key>.<anything>`
abbrev pub is_result : List String → List String → Bool
is_result keys (root ∷ key ∷ rest ∷ more) = str_eq root "nodes" && among key keys
is_result keys parts = false

unfoldable pub drop_known : List String → List String → List String → List String
unfolding split_dots first_where
drop_known declared keys [] = []
drop_known declared keys (f ∷ fs) =
    let rest = drop_known declared keys fs in
    if among f declared || is_result keys (split_dots f) then rest else f ∷ rest

unfoldable pub unknown_condition_fields : Option Condition → List String → List String → List String
unfolding condition_fields drop_known
unknown_condition_fields condition declared keys =
    drop_known declared keys (condition_fields condition)
