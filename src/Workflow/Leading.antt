-- ===== src/Workflow/Leading.antt =====
-- A walk of packages/asas-workflow on a definition that was validated finds a way on: `_select_next` of engine.py.
use asas.Base.{
  select_where, ◌≡◌, refl, ◌∙◌, subst, String, true, false, Option, some, List, [], ◌∷◌, ◌++◌, map,
  arith, leb, not, ◌&&◌, str_eq, All, All-map, Bool-cases, Option-cases, inl, inr, is_some, eq_iff,
  Fields, length,
}
use asas.Workflow.Graph.{node_of, transitions_from, first_match, select_next}
use asas.Workflow.Actions.{is_approval}
use asas.Workflow.Specs.{NodeSpec, TransitionSpec, DefinitionSpec, Registry}
use asas.Workflow.Definitions.{Version}
use asas.Workflow.Checks.{
  is_empty, is_end, is_default, is_conditional, is_listed, is_known, by_key, outs, check_branches,
  check_outs, check_transition, no_default, when, default_not_last, two_defaults, ends_conditional,
}
use asas.Workflow.Validation.{validate_definition}
use asas.Workflow.Validated.{append_empty, when_empty, validate_definition-parts}
use asas.Workflow.Publishing.{process_node, numbered, published}
use asas.Workflow.Ways.{first_match-default, transitions_from-Leads, first_match-Leads}

-- The nodes of the version are those of the spec.
node_of-published :
    (k : String) (ns : List NodeSpec)
    → is_some (node_of k (map process_node ns)) ≡ is_some (by_key k ns)
unfolding node_of by_key
node_of-published k [] = refl
node_of-published k (n ∷ ns) = ground (arith, node_of-published k ns)

by_key-All {ℓ} :
    (P : NodeSpec → Type ℓ) (k : String) (ns : List NodeSpec) (n : NodeSpec)
    → All P ns
    → by_key k ns ≡ some n
    → P n × (n.key ≡ k)
unfolding by_key
by_key-All P k [] n h e = absurd (ground (arith, e))
by_key-All P k (m ∷ ns) n h e = elim (Option-cases (by_key k ns)) [
  | inr (l, later) ↦ by_key-All P k ns n h.1 (later ∙ ground (arith, later, e))
  | inl none_ ↦ elim (Bool-cases (str_eq m.key k)) [
    | inl hit ↦
        let same : m ≡ n = ground (arith, none_, hit, e) in
        (subst P same h.0, subst (λ (l : NodeSpec). l.key ≡ k) same ((eq_iff m.key k).0 hit))
    | inr miss ↦ absurd (ground (arith, none_, miss, e))
  ]
]

check_transition-known :
    (spec : DefinitionSpec) (t : TransitionSpec)
    → check_transition spec t ≡ []
    → is_some (by_key t.to_key spec.nodes) ≡ true
unfolding check_transition
check_transition-known spec t h = elim (Bool-cases (is_known spec.nodes t)) [
  | inl e ↦ ground (arith, e)
  | inr e ↦ absurd (ground (arith, e, h))
]

some_default :
    (t : TransitionSpec) (ts : List TransitionSpec)
    → (not (is_empty (select_where is_conditional (t ∷ ts)))
        && is_empty (select_where is_default (t ∷ ts))
        && not false)
      ≡ false
    → is_empty (select_where is_default (t ∷ ts)) ≡ false
unfolding select_where
some_default t ts h = ground (arith, h)

-- A node that neither ends nor approves has a default.
check_branches-default :
    (key : String) (ts : List TransitionSpec)
    → check_branches key false ts ≡ []
    → is_empty (select_where is_default ts) ≡ false
unfolding check_branches
check_branches-default key [] h = absurd (ground (arith, h))
check_branches-default key (t ∷ ts) h =
    let conditional = select_where is_conditional (t ∷ ts) in
    let defaults = select_where is_default (t ∷ ts) in
    let (first_two, last) =
      append_empty
        (when (not (is_empty conditional) && is_empty defaults && not false) (no_default key)
          ++ when (not (is_empty defaults) && ends_conditional (t ∷ ts)) (default_not_last key))
        (when (not (leb (length defaults) 1)) (two_defaults key)) h in
    let (first, second) =
      append_empty
        (when (not (is_empty conditional) && is_empty defaults && not false) (no_default key))
        (when (not (is_empty defaults) && ends_conditional (t ∷ ts)) (default_not_last key))
        first_two in
    some_default t ts (when_empty _ (no_default key) first)

-- A definition that the validation accepts leads on: from each of its nodes but approvals and ends the
-- engine selects a transition, whatever the instance's data, and it goes to a node of the definition.
pub select_next_found :
    (r : Registry) (session : Option (List Version)) (spec : DefinitionSpec) (data_ : Fields)
    (key : String) (n : NodeSpec)
    → validate_definition r session spec ≡ []
    → by_key key spec.nodes ≡ some n
    → is_end n.type_ ≡ false
    → is_approval n.type_ ≡ false
    → (next : String) × (select_next (published spec) key data_ true ≡ some next)
      × (is_some (node_of next (published spec).nodes) ≡ true)
unfolding select_next published check_outs outs
select_next_found r session spec data_ key n h found not_end not_approval =
    let (graph, _) = validate_definition-parts r session spec h in
    let (checked, same) =
      by_key-All (λ m. check_outs spec m ≡ []) key spec.nodes n graph.branches found in
    let default_ =
      check_branches-default n.key (outs spec n.key)
        (ground (arith, not_end, not_approval, checked)) in
    let here =
      first_match-default data_ (λ t. is_listed spec.nodes t && str_eq t.from_key n.key) n.key 0
        spec.transitions (λ t e. ground (arith, e)) default_ in
    let goes_on =
      subst
        (λ k.
          is_some (first_match true data_ (transitions_from k (numbered 0 spec.transitions)))
          ≡ true)
        same here in
    let known =
      transitions_from-Leads (λ k. is_some (by_key k spec.nodes) ≡ true) key 0 spec.transitions
        (All-map _ _ spec.transitions (check_transition-known spec) graph.transitions) in
    elim (Option-cases
      (first_match true data_ (transitions_from key (numbered 0 spec.transitions)))) [
        | inl e ↦ absurd (ground (arith, e, goes_on))
        | inr (next, e) ↦ (
          next,
          e,
          node_of-published next spec.nodes
              ∙ first_match-Leads (λ k. is_some (by_key k spec.nodes) ≡ true) data_
                  (transitions_from key (numbered 0 spec.transitions)) next known e,
        )
      ]
