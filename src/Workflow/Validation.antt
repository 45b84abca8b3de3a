-- ===== src/Workflow/Validation.antt =====
-- `validate_definition` of packages/asas-workflow/src/asas_workflow/definitions.py. The fuel of a
-- closure is more than its seeds and its edges, which Workflow.Reaching shows to be enough.
use asas.Base.{
  select_where, suc, ◌+◌, ◌==◌, String, Bool, false, Option, none, some, List, [], ◌∷◌, ◌++◌, map,
  not, ◌||◌, if◌then◌else◌, str_eq, is_some, length, first_where,
}
use asas.Workflow.Actions.{is_approval}
use asas.Workflow.Specs.{NodeSpec, DefinitionSpec, Registry, resolved_purpose, among}
use asas.Workflow.Closure.{Edges, reversed, closure}
use asas.Workflow.Definitions.{Version, get_active_definition}
use asas.Workflow.Checks.{
  Problem, duplicate_keys, no_end, start_count, unreachable, stuck, entity_type_differs, when, flat,
  is_empty, is_start_type, is_end, key_of, check_node, check_config, check_transition, check_outs,
}

unfoldable pub has_duplicate : List String → Bool
unfolding first_where
has_duplicate [] = false
has_duplicate (k ∷ ks) = among k ks || has_duplicate ks

abbrev pub keys_of : (NodeSpec → Bool) → DefinitionSpec → List String
keys_of p spec = map key_of (select_where p spec.nodes)

abbrev pub start_keys : DefinitionSpec → List String
start_keys spec = keys_of (λ n. is_start_type n.type_) spec

abbrev pub end_keys : DefinitionSpec → List String
end_keys spec = keys_of (λ n. is_end n.type_) spec

abbrev pub approval_keys : DefinitionSpec → List String
approval_keys spec = keys_of (λ n. is_approval n.type_) spec

abbrev pub edges_of : DefinitionSpec → Edges
edges_of spec = map (λ t. (t.from_key, t.to_key)) spec.transitions

abbrev pub or_nothing : Option (List String) → List String
or_nothing none = []
or_nothing (some ks) = ks

unfoldable pub closure_of : Edges → List String → List String
unfolding closure
closure_of edges seeds = or_nothing (closure (suc (length seeds + length edges)) edges seeds)

unfoldable pub minus : List String → List String → List String
unfolding select_where
minus ks known = select_where (λ k. not (among k known)) ks

abbrev pub reachable : DefinitionSpec → String → List String
reachable spec first = closure_of (edges_of spec) (first ∷ [])

abbrev pub can_finish : DefinitionSpec → List String
can_finish spec = closure_of (reversed (edges_of spec)) (end_keys spec) ++ approval_keys spec

abbrev pub when_some : (List String → Problem) → List String → List Problem
when_some problem [] = []
when_some problem (k ∷ ks) = problem (k ∷ ks) ∷ []

unfoldable pub check_reach : DefinitionSpec → List String → List Problem
unfolding closure_of minus reversed
check_reach spec [] = []
check_reach spec (first ∷ more) =
    when_some unreachable (minus (map key_of spec.nodes) (reachable spec first))
    ++ when_some stuck (minus (reachable spec first) (can_finish spec))

unfoldable pub check_graph : Registry → Bool → DefinitionSpec → List Problem
unfolding has_duplicate select_where flat check_config check_transition check_outs
check_graph r with_session spec =
    when (has_duplicate (map key_of spec.nodes)) duplicate_keys
    ++ when (not (length (start_keys spec) == 1)) (start_count (length (start_keys spec)))
    ++ when (is_empty (end_keys spec)) no_end
    ++ flat (check_node r with_session) spec.nodes
    ++ flat (check_transition spec) spec.transitions
    ++ flat (check_outs spec) spec.nodes

abbrev pub against_default : DefinitionSpec → Option Version → List Problem
against_default spec none = []
against_default spec (some v) =
    when (not (str_eq v.graph.entity_type spec.entity_type))
      (entity_type_differs spec.entity_type v.graph.entity_type)

-- A variant runs on the entity type of its purpose's default.
unfoldable pub check_variant : Option (List Version) → DefinitionSpec → List Problem
unfolding get_active_definition resolved_purpose
check_variant none spec = []
check_variant (some versions) spec =
    if str_eq (resolved_purpose spec) spec.key
    then []
    else against_default spec (get_active_definition (resolved_purpose spec) versions)

-- The problems that a ValueError lists; it is raised when there are some.
unfoldable pub validate_definition :
    Registry → Option (List Version) → DefinitionSpec → List Problem
unfolding check_graph check_reach check_variant
validate_definition r session spec =
    let problems = check_graph r (is_some session) spec in
    problems
    ++ (if is_empty problems then check_reach spec (start_keys spec) else [])
    ++ check_variant session spec
