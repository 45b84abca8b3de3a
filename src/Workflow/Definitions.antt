-- ===== src/Workflow/Definitions.antt =====
-- Which definition an instance opens on, packages/asas-workflow/src/asas_workflow/definitions.py: the
-- active version of a key, the bindings of subjects, and `resolve_definition`.
use asas.Base.{
  update_first, ℕ, ◌==◌, leb, String, Bool, true, false, Option, none, some, List, [], ◌∷◌, ◌++◌,
  if◌then◌else◌, str_eq, ◌&&◌, not, first_where, is_some,
}
use asas.Workflow.Model.{ProcessDefinition}

pub data DefinitionStatus : Type 0 where
  draft active archived : DefinitionStatus

abbrev pub is_active_definition : DefinitionStatus → Bool
is_active_definition s = elim s [ active ↦ true | _ ↦ false ]

pub record Version : Type 0 where
  pub graph : ProcessDefinition
  pub version : ℕ
  pub status : DefinitionStatus
  pub spec_hash : String

pub record ProcessBinding : Type 0 where
  pub entity_type : String
  pub entity_id : ℕ
  pub purpose : String
  pub definition_key : String

abbrev pub serves : String → Version → Bool
serves key v = str_eq v.graph.key key && is_active_definition v.status

abbrev pub newer : Version → Option Version → Version
newer v none = v
newer v (some u) = if leb u.version v.version then v else u

-- The newest of the active versions of a key.
unfoldable pub get_active_definition : String → List Version → Option Version
get_active_definition key [] = none
get_active_definition key (v ∷ vs) =
    let rest = get_active_definition key vs in if serves key v then some (newer v rest) else rest

-- A subject and a purpose.
pub record Slot : Type 0 where
  pub entity_type : String
  pub entity_id : ℕ
  pub purpose : String

abbrev pub fills : Slot → ProcessBinding → Bool
fills s b =
    str_eq b.entity_type s.entity_type && b.entity_id == s.entity_id && str_eq b.purpose s.purpose

unfoldable pub get_binding : Slot → List ProcessBinding → Option ProcessBinding
unfolding first_where
get_binding s bs = first_where (fills s) bs

-- The one row that was found is deleted.
unfoldable pub remove_first {ℓ} : {A : Type ℓ} → (A → Bool) → List A → List A
remove_first p [] = []
remove_first p (x ∷ xs) = let rest = remove_first p xs in if p x then xs else x ∷ rest

abbrev pub rebind : String → ProcessBinding → ProcessBinding
rebind key b = record b { definition_key = key }

abbrev pub new_binding : Slot → String → ProcessBinding
new_binding s key = record {
  entity_type = s.entity_type;
  entity_id = s.entity_id;
  purpose = s.purpose;
  definition_key = key;
}

-- A ValueError, or the table.
pub data Bound : Type 0 where
  no_definition wrong_purpose : Bound
  bound : List ProcessBinding → Bound

unfoldable pub put_binding : Slot → String → List ProcessBinding → List ProcessBinding
unfolding get_binding update_first
put_binding s key bs =
    if is_some (get_binding s bs)
    then update_first (fills s) (rebind key) bs
    else bs ++ new_binding s key ∷ []

unfoldable pub set_binding : List Version → List ProcessBinding → Slot → Option String → Bound
unfolding get_active_definition put_binding remove_first
set_binding vs bs s none = bound (remove_first (fills s) bs)
set_binding vs bs s (some key) = elim (get_active_definition key vs) [
  | none ↦ no_definition
  | some v ↦
      if not (str_eq v.graph.purpose s.purpose) then wrong_purpose else bound (put_binding s key bs)
]

abbrev pub if_serving : String → Option Version → Option Version
if_serving purpose none = none
if_serving purpose (some v) = if str_eq v.graph.purpose purpose then some v else none

unfoldable pub bound_version : List Version → String → Option ProcessBinding → Option Version
unfolding get_active_definition
bound_version vs purpose none = none
bound_version vs purpose (some b) = if_serving purpose (get_active_definition b.definition_key vs)

-- The bound variant, if it is active and serves the purpose.
unfoldable pub bound_definition : List Version → List ProcessBinding → Slot → Option Version
unfolding get_binding bound_version
bound_definition vs bs s = bound_version vs s.purpose (get_binding s bs)

abbrev pub or_default : Option Version → Option Version → Option Version
or_default none default = default
or_default (some v) default = some v

-- Without a subject, or with a stale binding, the purpose's default.
unfoldable pub resolve_definition :
    List Version → List ProcessBinding → String → Option (String × ℕ) → Option Version
unfolding bound_definition get_active_definition
resolve_definition vs bs purpose none = get_active_definition purpose vs
resolve_definition vs bs purpose (some (entity_type, entity_id)) =
    or_default
      (bound_definition vs bs
        (record { entity_type = entity_type; entity_id = entity_id; purpose = purpose }))
      (get_active_definition purpose vs)
