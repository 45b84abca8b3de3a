-- ===== src/Workflow/Rows.antt =====
-- The changes of rows in packages/asas-workflow/src/asas_workflow/engine.py: `_new_execution`,
-- `_complete_execution`, `_complete_instance`, `_fail_instance` and the look-ups of a decision.
use asas.Base.{
  ℕ, suc, ◌+◌, ◌==◌, max, String, Bool, Option, none, some, List, [], ◌∷◌, ◌++◌, Fields,
  if◌then◌else◌, str_eq, ◌&&◌, update_where, first_where,
}
use asas.Workflow.Model.{
  InstanceStatus, ExecutionStatus, AssigneeStatus, InfoRequestStatus, ProcessNode,
  ProcessDefinition, ProcessInstance, NodeExecution, NodeAssignee, InfoRequest, Walk, Failure,
  Result, ok, raised, require, ◌>>◌, is_requested, is_pending, is_active,
}

-- The host's registrations. `none` is an exception, as for a name that is not registered; the callback
-- of a purpose that has none answers `true`, and one that raises `false`.
pub record Host : Type 0 where
  pub resolve_assignees : String → String → ℕ → Option (List ℕ)
  pub resolve_floor : Option ℕ → Option (List ℕ)
  pub system_handler : Option String → Option (ProcessInstance → Option Fields)
  pub completion_callback : String → ProcessInstance → String → Bool

-- The largest `seq` of the node's executions, 0 without one.
unfoldable pub last_seq : String → List NodeExecution → ℕ
last_seq key [] = 0
last_seq key (e ∷ es) =
    let rest = last_seq key es in if str_eq e.node_key key then max e.seq rest else rest

abbrev pub fresh_execution : ProcessNode → Walk → NodeExecution
fresh_execution node w = record {
  id = w.next_id;
  node_key = node.node_key;
  node_type = node.type_;
  seq = last_seq node.node_key w.executions + 1;
  status = ExecutionStatus.active;
  result = Fields.end;
  error_ = none;
}

unfoldable pub new_execution : ProcessNode → Walk → Walk
unfolding last_seq
new_execution node w = record w {
  executions = w.executions ++ fresh_execution node w ∷ [];
  next_id = suc w.next_id;
}

abbrev pub execution_has_id : ℕ → NodeExecution → Bool
execution_has_id id e = e.id == id

abbrev pub asks_now : ℕ → InfoRequest → Bool
asks_now id a = a.execution_id == id && is_pending a.status

abbrev pub waits : ℕ → NodeAssignee → Bool
waits id a = a.execution_id == id && is_requested a.status

abbrev pub release : NodeAssignee → NodeAssignee
release a = record a { status = AssigneeStatus.not_required }

abbrev pub withdraw : InfoRequest → InfoRequest
withdraw a = record a { status = InfoRequestStatus.withdrawn }

abbrev pub complete_row : Fields → NodeExecution → NodeExecution
complete_row result e = record e { status = ExecutionStatus.completed; result = result }

abbrev pub fail_row : Failure → NodeExecution → NodeExecution
fail_row f e = record e { status = ExecutionStatus.error; error_ = some f }

unfoldable pub complete_execution : ℕ → Fields → Walk → Walk
unfolding update_where
complete_execution id result w = record w {
  executions = update_where (execution_has_id id) (complete_row result) w.executions;
  assignees = update_where (waits id) release w.assignees;
  asks = update_where (asks_now id) withdraw w.asks;
}

abbrev pub text_or : String → String → String
text_or a b = if str_eq a "" then b else a

abbrev pub closed : String → Walk → Walk
closed outcome w =
    let i = w.instance in
    record w {
      instance = record i {
        status = InstanceStatus.completed;
        outcome = some outcome;
        current_node_key = none;
      };
    }

-- The owner's callback is part of the call: if it raises, nothing is kept.
unfoldable pub complete_instance : Host → ProcessDefinition → String → Walk → Result Walk
complete_instance host d outcome w = do
  require (host.completion_callback (text_or d.purpose d.key) (closed outcome w).instance outcome)
      raised
  ok (closed outcome w)

unfoldable pub fail_execution : Option ℕ → Failure → List NodeExecution → List NodeExecution
unfolding update_where
fail_execution none f es = es
fail_execution (some id) f es = update_where (execution_has_id id) (fail_row f) es

unfoldable pub fail_instance : Option ℕ → Failure → Walk → Walk
unfolding fail_execution
fail_instance id f w =
    let i = w.instance in
    record w {
      executions = fail_execution id f w.executions;
      instance = record i { status = InstanceStatus.error; error_ = some f };
    }

-- `_load_active_execution`
unfoldable pub active_execution : Walk → Option NodeExecution
unfolding first_where
active_execution w = first_where (λ e. is_active e.status) w.executions

abbrev pub asked : ℕ → ℕ → NodeAssignee → Bool
asked id actor a = waits id a && a.member_id == actor

-- `_assignee_of`
unfoldable pub assignee_of : ℕ → ℕ → Walk → Option NodeAssignee
unfolding first_where
assignee_of id actor w = first_where (asked id actor) w.assignees
