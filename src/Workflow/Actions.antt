-- ===== src/Workflow/Actions.antt =====
-- What members do to a parked instance, packages/asas-workflow/src/asas_workflow/engine.py: `decide`,
-- `request_info`, `answer_info`, `cancel`, `retry` and `reassign`. `refused` leaves nothing committed.
use asas.Base.{
  update_first, ℕ, ◌==◌, leb, String, Bool, true, false, Option, none, some, List, [], ◌∷◌, ◌++◌,
  Fields, field, num, str, pos, if◌then◌else◌, str_eq, ◌&&◌, not, ◌||◌, is_some, same_num,
  first_where,
}
use Prim.Native.Char.{code}
use asas.Workflow.Model.{
  NodeType, AssigneeStatus, Verdict, positive, negative, is_final, is_positive, is_required,
  is_running, verdict_value, ProcessNode, ProcessDefinition, NodeExecution, NodeAssignee,
  NodeDecision, Walk, Result, ok, not_running, not_pending, not_approval, bad_verdict,
  self_approval, not_assignee, comment_required, duplicate, raised, merge_result, require, found,
  ◌>>=◌, ◌>>◌,
}
use asas.Workflow.Graph.{node_of}
use asas.Workflow.Rows.{Host, complete_execution, active_execution, assignee_of, asked}
use asas.Workflow.Nodes.{advance_or_fail}
use asas.Workflow.Walks.{run_from, follow, with_data}

-- The whitespace of `str.strip`.
abbrev pub is_space : ℕ → Bool
is_space n =
    (leb 9 n && leb n 13)
    || (leb 28 n && leb n 32)
    || n == 133
    || n == 160
    || n == 5760
    || (leb 8192 n && leb n 8202)
    || n == 8232
    || n == 8233
    || n == 8239
    || n == 8287
    || n == 12288

-- `not text.strip()`
unfoldable pub is_blank : String → Bool
is_blank String.[] = true
is_blank (String.◌∷◌ c s) = is_space (code c) && is_blank s

abbrev pub or_blank : Option String → String
or_blank none = ""
or_blank (some s) = s

abbrev pub is_approval : NodeType → Bool
is_approval t = elim t [ NodeType.approval ↦ true | _ ↦ false ]

abbrev pub is_request_info : NodeType → Bool
is_request_info t = elim t [ NodeType.request_info ↦ true | _ ↦ false ]

-- A final verdict of the actor on the execution: the rows of the partial unique index.
abbrev pub decided_by : ℕ → ℕ → NodeDecision → Bool
decided_by id actor d = d.execution_id == id && d.actor_id == actor && is_final d.verdict

abbrev pub approves : ℕ → ℕ → NodeDecision → Bool
approves id actor d = d.execution_id == id && d.actor_id == actor && is_positive d.verdict

-- An assignee who is required and has not approved.
abbrev pub lacks : ℕ → List NodeDecision → NodeAssignee → Bool
lacks id ds a =
    a.execution_id == id
    && is_required a.status
    && not (is_some (first_where (approves id a.member_id) ds))

-- `_all_assignees_decided_positive`
unfoldable pub all_decided_positive : ℕ → Walk → Bool
unfolding first_where
all_decided_positive id w = not (is_some (first_where (lacks id w.decisions) w.assignees))

unfoldable pub any_suffices : Option String → Bool
any_suffices none = true
any_suffices (some q) = str_eq q "any"

-- The walk goes on at the node that was picked.
abbrev pub resume : Host → ProcessDefinition → ℕ → Walk × Option String → Result Walk
resume host d fuel step = follow (run_from host d fuel) ok step

-- The result of a node that members completed: on the execution and in the process data.
unfoldable pub record_result : ℕ → String → Fields → Walk → Walk
unfolding complete_execution merge_result
record_result id key result w =
    let done = complete_execution id result w in
    with_data (merge_result done.instance.data_ key result) done

abbrev pub verdict_result : Verdict → ℕ → Fields
verdict_result v actor =
    field "verdict" (str (verdict_value v)) (field "decided_by" (num (pos actor)) Fields.end)

unfoldable pub finish_approval :
    Host → ProcessDefinition → ℕ → ProcessNode → ℕ → Verdict → ℕ → Walk → Result Walk
unfolding advance_or_fail record_result run_from
finish_approval host d fuel node id v actor w = do
  step ←
      advance_or_fail host d node (is_positive v)
        (record_result id node.node_key (verdict_result v actor) w)
  resume host d fuel step

abbrev pub decision_row : ℕ → ℕ → Option ℕ → Verdict → Option String → NodeDecision
decision_row id actor on_behalf_of v comment = record {
  execution_id = id;
  actor_id = actor;
  on_behalf_of = on_behalf_of;
  verdict = v;
  comment = comment;
}

abbrev pub settle_row : NodeAssignee → NodeAssignee
settle_row a = record a { status = AssigneeStatus.decided }

-- The decision is added and the actor's row, if there is one, is settled.
unfoldable pub note_decision : ℕ → NodeDecision → Walk → Walk
unfolding update_first
note_decision id row w = record w {
  decisions = w.decisions ++ row ∷ [];
  assignees = update_first (asked id row.actor_id) settle_row w.assignees;
}

-- The arguments of `decide`.
pub record Decision : Type 0 where
  pub actor_id : ℕ
  pub verdict : Verdict
  pub comment : Option String
  pub actor_is_admin : Bool
  pub on_behalf_of : Option ℕ

-- What `decide` checks, and the execution that it decides.
unfoldable pub may_decide : Decision → Walk → Result NodeExecution
unfolding active_execution assignee_of is_blank
may_decide x w = do
  require (is_running w.instance.status) not_running
  e ← found not_pending (active_execution w)
  require (is_approval e.node_type) not_approval
  require (is_final x.verdict) bad_verdict
  require (not (same_num w.instance.initiated_by (some x.actor_id))) self_approval
  require (is_some (assignee_of e.id x.actor_id w) || x.actor_is_admin) not_assignee
  require (is_positive x.verdict || not (is_blank (or_blank x.comment))) comment_required
  ok e

-- The flush: the partial unique index refuses a second final verdict of the actor.
unfoldable pub add_decision : ℕ → Decision → Walk → Result Walk
unfolding note_decision first_where
add_decision id x w = do
  require (not (is_some (first_where (decided_by id x.actor_id) w.decisions))) duplicate
  ok (note_decision id (decision_row id x.actor_id x.on_behalf_of x.verdict x.comment) w)

-- A negative verdict is a veto; a positive one completes the node when the quorum is met.
unfoldable pub settle_node :
    Host → ProcessDefinition → ℕ → ProcessNode → ℕ → Decision → Walk → Result Walk
unfolding any_suffices all_decided_positive finish_approval
settle_node host d fuel node id x w =
    if not (is_positive x.verdict)
    then finish_approval host d fuel node id negative x.actor_id w
    else if any_suffices node.config.quorum || all_decided_positive id w
    then finish_approval host d fuel node id positive x.actor_id w
    else ok w

unfoldable pub decide : Host → ProcessDefinition → ℕ → Decision → Walk → Result Walk
unfolding may_decide add_decision settle_node node_of
decide host d fuel x w = do
  e ← may_decide x w
  noted ← add_decision e.id x w
  node ← found raised (node_of e.node_key d.nodes)
  settle_node host d fuel node e.id x noted
