-- ===== src/Workflow/Checks.antt =====
-- The checks of `validate_definition` of packages/asas-workflow/src/asas_workflow/definitions.py on
-- single nodes and transitions, as the problems they list. What a message sorts is in the order of the
-- spec here.
use asas.Base.{
  select_where, ℕ, leb, String, Bool, true, false, Option, none, some, List, [], ◌∷◌, ◌++◌, map,
  not, ◌&&◌, ◌||◌, if◌then◌else◌, str_eq, is_some, length,
}
use asas.Workflow.Model.{NodeType, start, approval, system, notify, request_info, end, Config}
use asas.Workflow.Actions.{is_approval}
use asas.Workflow.Specs.{
  NodeSpec, TransitionSpec, DefinitionSpec, Registry, stated, text_of, among, has_assignee_resolver,
  check_principal_param, Misshape, check_condition_shape, unknown_condition_fields,
}

pub data Problem : Type 0 where
  duplicate_keys no_end : Problem
  start_count : ℕ → Problem
  no_principals bad_quorum no_handler no_prompt no_event no_outcome : String → Problem
  -- a node and a principal
  unregistered : String → String → Problem
  bad_param : String → String → String → Problem
  -- a transition's ends
  unknown_node : String → String → Problem
  misshaped : String → String → Misshape → Problem
  undeclared : String → String → String → Problem
  end_leaves dead_end no_default default_not_last two_defaults : String → Problem
  unreachable stuck : List String → Problem
  entity_type_differs : String → String → Problem

abbrev pub when : Bool → Problem → List Problem
when true p = p ∷ []
when false p = []

abbrev pub is_empty {ℓ} : {A : Type ℓ} → List A → Bool
is_empty [] = true
is_empty (x ∷ xs) = false

unfoldable pub flat {ℓ κ} : {A : Type ℓ} {B : Type κ} → (A → List B) → List A → List B
flat f [] = []
flat f (x ∷ xs) = f x ++ flat f xs

-- The checks of a parameter ask the database, so they are made with a session only.
module _ (r : Registry) (with_session : Bool) where
  abbrev pub param_problem : String → String → Option String → List Problem
  param_problem key principal none = []
  param_problem key principal (some problem) =
      when (not (str_eq problem "")) (bad_param key principal problem)

  unfoldable pub check_principal : String → String → List Problem
  unfolding has_assignee_resolver check_principal_param
  check_principal key principal =
      if not (has_assignee_resolver r principal)
      then unregistered key principal ∷ []
      else if with_session
      then param_problem key principal (check_principal_param r principal)
      else []

  abbrev pub is_quorum : Option String → Bool
  is_quorum none = true
  is_quorum (some q) = str_eq q "any" || str_eq q "all"

  unfoldable pub check_approval : String → Config → List Problem
  unfolding flat check_principal
  check_approval key cfg =
      (if is_empty cfg.principals
        then no_principals key ∷ []
        else flat (check_principal key) cfg.principals)
      ++ when (not (is_quorum cfg.quorum)) (bad_quorum key)

  unfoldable pub check_request_info : String → Config → List Problem
  unfolding check_principal
  check_request_info key cfg =
      when (not (stated cfg.prompt)) (no_prompt key)
      ++ (if stated cfg.principal
          then check_principal key (text_of cfg.principal)
          else unregistered key "" ∷ [])

  unfoldable pub check_config : String → Config → NodeType → List Problem
  unfolding check_approval check_request_info
  check_config key cfg start = []
  check_config key cfg approval = check_approval key cfg
  check_config key cfg system =
      when (not (stated cfg.handler_key && among (text_of cfg.handler_key) r.handlers))
        (no_handler key)
  check_config key cfg request_info = check_request_info key cfg
  check_config key cfg notify = when (not (stated cfg.event)) (no_event key)
  check_config key cfg end = when (not (stated cfg.outcome)) (no_outcome key)

  abbrev pub check_node : NodeSpec → List Problem
  check_node n = check_config n.key n.config n.type_

abbrev pub is_start_type : NodeType → Bool
is_start_type start = true
is_start_type _ = false

abbrev pub is_end : NodeType → Bool
is_end end = true
is_end _ = false

abbrev pub key_of : NodeSpec → String
key_of n = n.key

abbrev pub is_conditional : TransitionSpec → Bool
is_conditional t = is_some t.condition

abbrev pub is_default : TransitionSpec → Bool
is_default t = not (is_some t.condition)

-- The last node with a key, as a dict comprehension keeps it.
unfoldable pub by_key : String → List NodeSpec → Option NodeSpec
by_key k [] = none
by_key k (n ∷ ns) =
    let later = by_key k ns in
    elim later [ none ↦ if str_eq n.key k then some n else none | some m ↦ some m ]

abbrev pub leaves_end : Option NodeSpec → Bool
leaves_end none = false
leaves_end (some n) = is_end n.type_

abbrev pub is_known : List NodeSpec → TransitionSpec → Bool
is_known nodes t = is_some (by_key t.from_key nodes) && is_some (by_key t.to_key nodes)

-- Such a transition is listed under its source.
abbrev pub is_listed : List NodeSpec → TransitionSpec → Bool
is_listed nodes t = is_known nodes t && not (leaves_end (by_key t.from_key nodes))

unfoldable pub check_transition : DefinitionSpec → TransitionSpec → List Problem
unfolding by_key check_condition_shape unknown_condition_fields
check_transition spec t =
    if not (is_known spec.nodes t)
    then unknown_node t.from_key t.to_key ∷ []
    else if leaves_end (by_key t.from_key spec.nodes)
    then end_leaves t.from_key ∷ []
    else map (misshaped t.from_key t.to_key) (check_condition_shape t.condition)
      ++ map (undeclared t.from_key t.to_key)
          (unknown_condition_fields t.condition spec.data_fields (map key_of spec.nodes))

-- `out[key]`
unfoldable pub outs : DefinitionSpec → String → List TransitionSpec
unfolding select_where by_key
outs spec key = select_where (λ t. is_listed spec.nodes t && str_eq t.from_key key) spec.transitions

unfoldable pub ends_conditional : List TransitionSpec → Bool
ends_conditional [] = false
ends_conditional (t ∷ []) = is_conditional t
ends_conditional (t ∷ u ∷ ts) = ends_conditional (u ∷ ts)

unfoldable pub check_branches : String → Bool → List TransitionSpec → List Problem
unfolding select_where ends_conditional
check_branches key approves [] = dead_end key ∷ []
check_branches key approves (t ∷ ts) =
    let conditional = select_where is_conditional (t ∷ ts) in
    let defaults = select_where is_default (t ∷ ts) in
    when (not (is_empty conditional) && is_empty defaults && not approves) (no_default key)
    ++ when (not (is_empty defaults) && ends_conditional (t ∷ ts)) (default_not_last key)
    ++ when (not (leb (length defaults) 1)) (two_defaults key)

unfoldable pub check_outs : DefinitionSpec → NodeSpec → List Problem
unfolding outs check_branches
check_outs spec n =
    if is_end n.type_ then [] else check_branches n.key (is_approval n.type_) (outs spec n.key)
