-- ===== src/Workflow/Operations.antt =====
-- Opening a walk, and what else is done to one, packages/asas-workflow/src/asas_workflow/engine.py:
-- `open_instance`, `request_info`, `answer_info`, `cancel`, `retry` and `reassign`. A row that the
-- caller holds is given by its place in its table.
use asas.Base.{
  ℕ, zero, suc, ◌==◌, String, Bool, true, false, Option, none, some, List, [], ◌∷◌, ◌++◌, Fields,
  field, Json, num, str, arr, obj, Items, nil, cons, pos, if◌then◌else◌, str_eq, not, ◌||◌, is_some,
  same_num, first_where, get_field, put_field, bool,
}
use asas.Workflow.Model.{
  NodeType, InstanceStatus, AssigneeStatus, InfoRequestStatus, asks_info, is_requested, is_pending,
  is_running, is_error, ProcessNode, ProcessDefinition, NodeExecution, NodeAssignee, InfoRequest,
  Walk, Result, ok, not_running, not_pending, not_approval, not_assignee, raised, not_allowed,
  question_required, not_asked, answer_required, not_initiator, not_error, no_node, unknown_process,
  entity_mismatch, is_active, require, found, ◌>>=◌, ◌>>◌,
}
use asas.Workflow.Graph.{node_of}
use asas.Workflow.Rows.{
  Host, complete_execution, active_execution, assignee_of, release, execution_has_id,
}
use asas.Workflow.Nodes.{advance_or_fail, ask_row}
use asas.Workflow.Walks.{run_from}
use asas.Workflow.Actions.{
  is_blank, is_approval, is_request_info, resume, record_result, decision_row,
}

module _ {ℓ} {A : Type ℓ} where
  unfoldable pub row_at : ℕ → List A → Option A
  row_at n [] = none
  row_at zero (x ∷ xs) = some x
  row_at (suc n) (x ∷ xs) = row_at n xs

  unfoldable pub update_at : ℕ → (A → A) → List A → List A
  update_at n f [] = []
  update_at zero f (x ∷ xs) = f x ∷ xs
  update_at (suc n) f (x ∷ xs) = x ∷ update_at n f xs

-- The arguments of `open_instance`; `org_id` is the one given or the resolver's.
pub record Opening : Type 0 where
  pub entity_type : String
  pub entity_id : ℕ
  pub data_ : Fields
  pub initiated_by : Option ℕ
  pub org_id : Option ℕ

abbrev pub is_start : ProcessNode → Bool
is_start n = elim n.type_ [ NodeType.start ↦ true | _ ↦ false ]

abbrev pub opened : Opening → Walk
opened x = record {
  instance = record {
    org_id = x.org_id;
    entity_type = x.entity_type;
    entity_id = x.entity_id;
    data_ = x.data_;
    status = InstanceStatus.running;
    outcome = none;
    current_node_key = none;
    error_ = none;
    initiated_by = x.initiated_by;
  };
  executions = [];
  assignees = [];
  decisions = [];
  asks = [];
  next_id = 1;
}

-- On the definition that the process key, or the purpose and the binding, resolved to. That the caller
-- passes exactly one of the two is not modelled.
unfoldable pub open_instance : Host → ℕ → Option ProcessDefinition → Opening → Result Walk
unfolding first_where run_from
open_instance host fuel resolved x = do
  d ← found unknown_process resolved
  require (str_eq d.entity_type x.entity_type) entity_mismatch
  start ← found raised (first_where is_start d.nodes)
  run_from host d fuel start.node_key (opened x)

abbrev pub allows : Option Bool → Bool
allows o = elim o [ none ↦ true | some b ↦ b ]

unfoldable pub request_info : ProcessDefinition → ℕ → ℕ → String → Bool → Walk → Result Walk
unfolding active_execution assignee_of is_blank node_of
request_info d actor asked_of question is_admin w = do
  require (is_running w.instance.status) not_running
  e ← found not_pending (active_execution w)
  require (is_approval e.node_type) not_approval
  node ← found raised (node_of e.node_key d.nodes)
  require (allows node.config.allow_request_info) not_allowed
  require (is_some (assignee_of e.id actor w) || is_admin) not_assignee
  require (not (is_blank question)) question_required
  ok (record w {
    decisions = w.decisions ++ decision_row e.id actor none asks_info (some question) ∷ [];
    asks = w.asks ++ ask_row e.id actor question asked_of ∷ [];
  })

abbrev pub listed_items : Option Json → Items
listed_items none = nil
listed_items (some v) = elim v [ arr xs ↦ xs | _ ↦ nil ]

abbrev pub append_item : Items → Json → Items
append_item nil x = cons x nil
append_item (cons y ys) x = cons y (append_item ys x)

abbrev pub answer_entry : String → String → String → ℕ → Json
answer_entry key question answer actor = obj (
    field "node_key" (str key) (
      field "question" (str question)
        (field "answer" (str answer) (field "answered_by" (num (pos actor)) Fields.end))))

unfoldable pub with_answer : Fields → Json → Fields
unfolding get_field put_field
with_answer data_ entry =
    put_field "info_requests"
      (arr (append_item (listed_items (get_field "info_requests" data_)) entry)) data_

abbrev pub answered_row : String → InfoRequest → InfoRequest
answered_row answer a = record a { answer = some answer; status = InfoRequestStatus.answered }

-- The ask is answered and its answer joins the process data.
unfoldable pub note_answer : ℕ → NodeExecution → InfoRequest → ℕ → String → Walk → Walk
unfolding update_at with_answer
note_answer n e ask actor answer w =
    let i = w.instance in
    record w {
      asks = update_at n (answered_row answer) w.asks;
      instance = record i {
        data_ = with_answer i.data_ (answer_entry e.node_key ask.question answer actor);
      };
    }

abbrev pub answer_result : String → ℕ → Fields
answer_result answer actor =
    field "answer" (str answer) (field "answered_by" (num (pos actor)) Fields.end)

unfoldable pub answer_info :
    Host → ProcessDefinition → ℕ → ℕ → ℕ → String → Bool → Walk → Result Walk
unfolding row_at is_blank first_where note_answer record_result advance_or_fail run_from node_of
answer_info host d fuel n actor answer is_admin w = do
  ask ← found raised (row_at n w.asks)
  require (is_pending ask.status) not_pending
  require (actor == ask.asked_of || is_admin) not_asked
  require (not (is_blank answer)) answer_required
  e ← found raised (first_where (execution_has_id ask.execution_id) w.executions)
  require (is_running w.instance.status) not_running
  let noted = note_answer n e ask actor answer w
  if not (is_request_info e.node_type) then ok noted else do
    node ← found raised (node_of e.node_key d.nodes)
    step ←
        advance_or_fail host d node true
          (record_result e.id node.node_key (answer_result answer actor) noted)
    resume host d fuel step

abbrev pub canceled_result : Fields
canceled_result = field "canceled" (bool true) Fields.end

-- Each active execution of the instance is completed.
unfoldable pub complete_active : List NodeExecution → Walk → Walk
unfolding complete_execution
complete_active [] w = w
complete_active (e ∷ es) w =
    complete_active es (if is_active e.status then complete_execution e.id canceled_result w else w)

abbrev pub canceled_walk : Walk → Walk
canceled_walk w =
    let i = w.instance in
    record w { instance = record i { status = InstanceStatus.canceled; current_node_key = none } }

unfoldable pub cancel : ℕ → Bool → Walk → Result Walk
unfolding complete_active
cancel actor is_admin w = do
  require (is_running w.instance.status) not_running
  require (same_num w.instance.initiated_by (some actor) || is_admin) not_initiator
  ok (canceled_walk (complete_active w.executions w))

abbrev pub restarted : Walk → Walk
restarted w =
    let i = w.instance in
    record w { instance = record i { status = InstanceStatus.running; error_ = none } }

unfoldable pub retry : Host → ProcessDefinition → ℕ → Walk → Result Walk
unfolding run_from
retry host d fuel w = do
  require (is_error w.instance.status) not_error
  key ← found no_node w.instance.current_node_key
  run_from host d fuel key (restarted w)

-- The row of the member who takes over.
abbrev pub replacement : NodeAssignee → ℕ → NodeAssignee
replacement row member = record {
  execution_id = row.execution_id;
  member_id = member;
  via_principal = row.via_principal;
  status = AssigneeStatus.requested;
  reassigned_from = some row.member_id;
}

unfoldable pub reassign : ℕ → ℕ → Walk → Result Walk
unfolding row_at first_where update_at
reassign n member w = do
  row ← found raised (row_at n w.assignees)
  require (is_requested row.status) not_pending
  e ← found raised (first_where (execution_has_id row.execution_id) w.executions)
  require (is_active e.status) not_pending
  ok (record w { assignees = update_at n release w.assignees ++ replacement row member ∷ [] })
