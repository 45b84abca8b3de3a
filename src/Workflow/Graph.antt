-- ===== src/Workflow/Graph.antt =====
-- How packages/asas-workflow/src/asas_workflow/engine.py reads a definition: its nodes by key, and the
-- transition that a walk takes.
use asas.Base.{
  leb, String, Bool, Option, none, some, List, [], ◌∷◌, Fields, if◌then◌else◌, str_eq, ◌&&◌, ◌||◌,
  is_some,
}
use asas.Workflow.Conditions.{evaluate}
use asas.Workflow.Model.{ProcessNode, ProcessTransition, ProcessDefinition}

-- `_nodes_by_key(definition).get(key)`: the last of the nodes with that key.
unfoldable pub node_of : String → List ProcessNode → Option ProcessNode
node_of key [] = none
node_of key (n ∷ ns) =
    let later = node_of key ns in
    elim later [ none ↦ if str_eq n.node_key key then some n else none | some m ↦ some m ]

-- Before the first that does not sort before it, so that equal ones keep their order.
unfoldable pub insert_sorted : ProcessTransition → List ProcessTransition → List ProcessTransition
insert_sorted t [] = t ∷ []
insert_sorted t (u ∷ us) =
    let rest = insert_sorted t us in if leb t.sort_order u.sort_order then t ∷ u ∷ us else u ∷ rest

unfoldable pub transitions_from : String → List ProcessTransition → List ProcessTransition
unfolding insert_sorted
transitions_from key [] = []
transitions_from key (t ∷ ts) =
    let rest = transitions_from key ts in
    if str_eq t.from_node_key key then insert_sorted t rest else rest

abbrev pub eligible : Bool → Fields → ProcessTransition → Bool
eligible include_default data_ t =
    (include_default || is_some t.condition) && evaluate t.condition data_

unfoldable pub first_match : Bool → Fields → List ProcessTransition → Option String
unfolding evaluate
first_match include_default data_ [] = none
first_match include_default data_ (t ∷ ts) =
    let rest = first_match include_default data_ ts in
    if eligible include_default data_ t then some t.to_node_key else rest

unfoldable pub select_next : ProcessDefinition → String → Fields → Bool → Option String
unfolding transitions_from first_match
select_next d key data_ include_default =
    first_match include_default data_ (transitions_from key d.transitions)
