-- ===== src/Workflow/Walks.antt =====
-- The walk of packages/asas-workflow/src/asas_workflow/engine.py: _run_from, whose loop runs on fuel.
use asas.Base.{
  ℕ, zero, suc, String, true, Option, none, some, List, [], ◌∷◌, Fields, field, arr, str, Items,
  nil, cons,
}
use Prim.Native.Nat.{Ordering}
use Prim.Native.String.{compare as compare_str}
use asas.Workflow.Model.{
  NodeType, ProcessNode, ProcessDefinition, Walk, handler_raised, Result, ok, refused, raised,
  bad_definition, endless, found, merged, ◌>>=◌,
}
use asas.Workflow.Graph.{node_of}
use asas.Workflow.Rows.{Host, new_execution, complete_execution, complete_instance, fail_instance}
use asas.Workflow.Nodes.{advance_or_fail, activate_approval, activate_request_info}

unfoldable pub insert_key : String → List String → List String
insert_key k [] = k ∷ []
insert_key k (j ∷ rest) =
    let later = insert_key k rest in
    elim (compare_str k j) [ Ordering.gt ↦ j ∷ later | _ ↦ k ∷ j ∷ rest ]

-- `sorted(produced.keys())`
unfoldable pub sorted_keys : Fields → List String
unfolding insert_key
sorted_keys Fields.end = []
sorted_keys (field k v rest) = insert_key k (sorted_keys rest)

abbrev pub texts : List String → Items
texts [] = nil
texts (k ∷ ks) = cons (str k) (texts ks)

abbrev pub enter : ProcessNode → Walk → Walk
enter node w =
    let i = w.instance in
    new_execution node (record w { instance = record i { current_node_key = some node.node_key } })

abbrev pub with_data : Fields → Walk → Walk
with_data data_ w = let i = w.instance in record w { instance = record i { data_ = data_ } }

abbrev pub produce : ℕ → Fields → Walk → Walk
produce id produced w =
    complete_execution id (field "produced" (arr (texts (sorted_keys produced))) Fields.end)
      (with_data (merged w.instance.data_ produced) w)

-- What a system handler returned, or that it raised.
unfoldable pub after_handler :
    Host
    → ProcessDefinition
    → ProcessNode
    → ℕ
    → Walk
    → Option Fields
    → Result (Walk × Option String)
unfolding advance_or_fail fail_instance complete_execution merged sorted_keys
after_handler host d node id w none = ok (fail_instance (some id) handler_raised w, none)
after_handler host d node id w (some produced) =
    advance_or_fail host d node true (produce id produced w)

-- The work of a node of each type, whose execution `id` has just been added.
unfoldable pub visit :
    Host → ProcessDefinition → ProcessNode → ℕ → Walk → NodeType → Result (Walk × Option String)
unfolding advance_or_fail complete_execution complete_instance activate_approval
    activate_request_info after_handler
visit host d node id w NodeType.start =
    advance_or_fail host d node true (complete_execution id Fields.end w)
visit host d node id w NodeType.notify =
    advance_or_fail host d node true (complete_execution id Fields.end w)
visit host d node id w NodeType.system = do
  handler ← found raised (host.system_handler node.config.handler_key)
  after_handler host d node id w (handler w.instance)
visit host d node id w NodeType.approval = do
  parked ← activate_approval host id node w
  ok (parked, none)
visit host d node id w NodeType.request_info = do
  parked ← activate_request_info host id node w
  ok (parked, none)
visit host d node id w NodeType.end = do
  outcome ← found raised node.config.outcome
  closed ← complete_instance host d outcome (complete_execution id Fields.end w)
  ok (closed, none)

-- The walk stops, or goes on at the next node.
abbrev pub follow {ℓ} : {A : Type ℓ} → (String → Walk → A) → (Walk → A) → Walk × Option String → A
follow go stop (w, none) = stop w
follow go stop (w, some k) = go k w

unfoldable pub run_from : Host → ProcessDefinition → ℕ → String → Walk → Result Walk
unfolding node_of visit new_execution
run_from host d zero key w = refused endless
run_from host d (suc fuel) key w = do
  node ← found bad_definition (node_of key d.nodes)
  step ← visit host d node w.next_id (enter node w) node.type_
  follow (run_from host d fuel) ok step
