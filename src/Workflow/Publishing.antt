-- ===== src/Workflow/Publishing.antt =====
-- How a spec becomes a version, packages/asas-workflow/src/asas_workflow/definitions.py:
-- `ensure_definition` and `seed_definitions`. The digest of a spec (SHA-256 of its JSON) is a parameter;
-- when a version was published is left out.
use asas.Base.{
  update_first, ℕ, suc, ◌==◌, String, Bool, Option, none, some, List, [], ◌∷◌, ◌++◌, map, ◌&&◌,
  if◌then◌else◌, str_eq, max,
}
use asas.Workflow.Model.{ProcessNode, ProcessTransition, ProcessDefinition}
use asas.Workflow.Specs.{NodeSpec, TransitionSpec, DefinitionSpec, Registry, resolved_purpose}
use asas.Workflow.Definitions.{DefinitionStatus, archived, Version, serves, get_active_definition}
use asas.Workflow.Checks.{Problem}
use asas.Workflow.Validation.{validate_definition}

-- The specs registered, one for each key: a dict of them by key, as the list of its values.
unfoldable pub register_definition : DefinitionSpec → List DefinitionSpec → List DefinitionSpec
register_definition spec [] = spec ∷ []
register_definition spec (s ∷ specs) =
    let rest = register_definition spec specs in
    if str_eq s.key spec.key then spec ∷ specs else s ∷ rest

abbrev pub no_specs : List DefinitionSpec
no_specs = []

abbrev pub process_node : NodeSpec → ProcessNode
process_node n = record { node_key = n.key; type_ = n.type_; config = n.config }

-- `sort_order` is the place in the spec.
unfoldable pub numbered : ℕ → List TransitionSpec → List ProcessTransition
numbered i [] = []
numbered i (t ∷ ts) =
    record {
      from_node_key = t.from_key;
      to_node_key = t.to_key;
      sort_order = i;
      condition = t.condition;
    }
    ∷ numbered (suc i) ts

unfoldable pub published : DefinitionSpec → ProcessDefinition
unfolding resolved_purpose numbered
published spec = record {
  key = spec.key;
  purpose = resolved_purpose spec;
  entity_type = spec.entity_type;
  nodes = map process_node spec.nodes;
  transitions = numbered 0 spec.transitions;
}

-- 0 when the key has no version.
unfoldable pub latest_version : String → List Version → ℕ
latest_version key [] = 0
latest_version key (v ∷ vs) =
    let rest = latest_version key vs in if str_eq v.graph.key key then max v.version rest else rest

abbrev pub archive : Version → Version
archive v = record v { status = archived }

abbrev pub is_row : String → Version → Version → Bool
is_row key a v = serves key v && v.version == a.version

unfoldable pub archive_active : String → Option Version → List Version → List Version
unfolding update_first
archive_active key none vs = vs
archive_active key (some a) vs = update_first (is_row key a) archive vs

-- A ValueError with its problems, or the version that is active and the rows.
pub data Ensured : Type 0 where
  invalid : List Problem → Ensured
  ensured : Version → List Version → Ensured

module _ (spec_hash : DefinitionSpec → String) where
  unfoldable pub next_version : DefinitionSpec → List Version → Version
  unfolding published latest_version
  next_version spec vs = record {
    graph = published spec;
    version = suc (latest_version spec.key vs);
    status = DefinitionStatus.active;
    spec_hash = spec_hash spec;
  }

module _ (r : Registry) (spec_hash : DefinitionSpec → String) where
  unfoldable pub publish : DefinitionSpec → List Version → List Problem → Ensured
  unfolding next_version archive_active get_active_definition
  publish spec vs (p ∷ ps) = invalid (p ∷ ps)
  publish spec vs [] =
      let v = next_version spec_hash spec vs in
      ensured v (archive_active spec.key (get_active_definition spec.key vs) vs ++ v ∷ [])

  unfoldable pub ensure_definition : DefinitionSpec → List Version → Ensured
  unfolding publish validate_definition get_active_definition
  ensure_definition spec vs = elim (get_active_definition spec.key vs) [
    | none ↦ publish spec vs (validate_definition r (some vs) spec)
    | some a ↦
        if str_eq a.spec_hash (spec_hash spec)
        then ensured a vs
        else publish spec vs (validate_definition r (some vs) spec)
  ]

  -- The rows, and the problems of the spec that ended it; what was seeded before stays.
  unfoldable pub seed_definitions :
      List DefinitionSpec → List Version → List Version × Option (List Problem)
  unfolding ensure_definition
  seed_definitions [] vs = (vs, none)
  seed_definitions (spec ∷ specs) vs = elim (ensure_definition spec vs) [
    | invalid ps ↦ (vs, some ps)
    | ensured v rows ↦ seed_definitions specs rows
  ]
