-- ===== src/Workflow/Examples.antt =====
-- The theorems on packages/asas-workflow at a process with one approval, and tests.
use asas.Base.{
  same_num, ◌⊎◌, ℕ, ◌≡◌, ◌≢◌, ◌≤◌, refl, String, true, false, none, some, [], ◌∷◌, Fields, ◌++◌,
  count_where, str_eq, if◌then◌else◌, arith, All,
}
use asas.Workflow.Conditions.{single, eq}
use asas.Base.{bool}
use asas.Workflow.Model.{
  NodeType, InstanceStatus, Verdict, positive, negative, Config, ProcessNode, ProcessDefinition,
  Walk, NodeExecution, ExecutionStatus, Result, ok, refused, self_approval, not_assignee, endless,
}
use asas.Workflow.Rows.{Host, active_execution}
use asas.Workflow.Walks.{run_from}
use asas.Workflow.Nodes.{activate_approval}
use asas.Workflow.Actions.{Decision, decide, decided_by, decision_row, any_suffices}
use asas.Workflow.Operations.{Opening, opened, open_instance}
use asas.Workflow.Settled.{IsSettled}
use asas.Workflow.Runs.{Step, History, opens, then_, decides, History-IsSettled, History-IsLawful}
use asas.Workflow.Termination.{run_from_terminates}
use asas.Workflow.Outcomes.{terminal_final}
use asas.Workflow.Quorum.{decide_waits}
use asas.Workflow.Graph.{node_of}
use asas.Workflow.Approvers.{IsNotInitiator, activate_approval-IsNotInitiator}

abbrev bare : Config
bare = record {
  principals = [];
  quorum = none;
  allow_request_info = none;
  handler_key = none;
  principal = none;
  prompt = none;
  event = none;
  outcome = none;
}

abbrev review : ProcessDefinition
review = record {
  key = "change";
  purpose = "change";
  entity_type = "project";
  nodes =
      record { node_key = "start"; type_ = NodeType.start; config = bare }
      ∷ record {
        node_key = "review";
        type_ = NodeType.approval;
        config = record bare { principals = "lead" ∷ "sponsor" ∷ []; quorum = some "all" };
      }
      ∷ record {
        node_key = "done";
        type_ = NodeType.end;
        config = record bare { outcome = some "approved" };
      }
      ∷ [];
  transitions =
      record { from_node_key = "start"; to_node_key = "review"; sort_order = 0; condition = none }
      ∷ record { from_node_key = "review"; to_node_key = "done"; sort_order = 0; condition = none }
      ∷ [];
}

-- Member 1 leads and opens, 2 and 3 sponsor, 9 is the floor.
abbrev office : Host
office = record {
  resolve_assignees = λ principal entity_type entity_id.
      some (if str_eq principal "lead" then 1 ∷ [] else 3 ∷ 2 ∷ []);
  resolve_floor = λ org. some (9 ∷ []);
  system_handler = λ key. none;
  completion_callback = λ purpose instance outcome. true;
}

abbrev request : Opening
request = record {
  entity_type = "project";
  entity_id = 7;
  data_ = Fields.end;
  initiated_by = some 1;
  org_id = none;
}

abbrev by_member_ : ℕ → Verdict → Decision
by_member_ m v = record {
  actor_id = m;
  verdict = v;
  comment = some "no";
  actor_is_admin = false;
  on_behalf_of = none;
}

abbrev value_or : Walk → Result Walk → Walk
value_or w r = elim r [ ok u ↦ u | refused e ↦ w ]

parked : Walk
unfolding open_instance
parked = value_or (opened request) (open_instance office 5 (some review) request)

half : Walk
unfolding decide
half = value_or parked (decide office review 5 (by_member_ 2 positive) parked)

approved : Walk
unfolding decide
approved = value_or half (decide office review 5 (by_member_ 3 positive) half)

half-History : History office review half
unfolding parked half open_instance decide
half-History = then_ (opens 5 request refl) (decides 5 (by_member_ 2 positive) refl)

History-IsSettled_example : IsSettled half
History-IsSettled_example = History-IsSettled office review half-History

History-IsLawful_example :
    (count_where (decided_by 2 1) half.decisions ≤ 1)
    × ((same_num half.instance.initiated_by (some 1) ≡ false)
        ⊎ (count_where (decided_by 2 1) half.decisions ≡ 0))
History-IsLawful_example = History-IsLawful office review half-History 2 1

vetoed :
    (decide office review 5 (by_member_ 1 positive) parked ≡ refused self_approval)
    × (decide office review 5 (by_member_ 4 positive) parked ≡ refused not_assignee)
unfolding parked open_instance decide
vetoed = (refl, refl)

outcomes :
    (half.instance.status ≡ InstanceStatus.running)
    × (approved.instance.outcome ≡ some "approved")
    × ((value_or half (decide office review 5 (by_member_ 3 negative) half)).instance.outcome
        ≡ some "rejected")
unfolding approved half parked open_instance decide
outcomes = (refl, refl, refl)

approved-History : History office review approved
unfolding approved half parked open_instance decide
approved-History = then_ half-History (decides 5 (by_member_ 3 positive) refl)

terminal_final_example : ¬ Step office review approved half
terminal_final_example =
    terminal_final office review approved half approved-History
      (unfold approved half parked open_instance decide in refl)
      (unfold approved half parked open_instance decide in refl)

abbrev rank : String → ℕ
rank s = if str_eq s "start" then 2 else if str_eq s "review" then 1 else 0

run_from_terminates_example : run_from office review 3 "start" (opened request) ≢ refused endless
run_from_terminates_example =
    run_from_terminates office review rank
      ((λ n known pass. omega arith), ((λ n known pass. omega arith), tt)) 3 "start"
      (opened request) (omega arith)

abbrev review_node : ProcessNode
review_node = record {
  node_key = "review";
  type_ = NodeType.approval;
  config = record bare { principals = "lead" ∷ [] };
}

-- The one lead has opened the process, so the floor is asked.
floored : Walk
unfolding activate_approval
floored = value_or (opened request) (activate_approval office 1 review_node (opened request))

activate_approval-IsNotInitiator_example : All (IsNotInitiator (some 1)) floored.assignees
activate_approval-IsNotInitiator_example =
    activate_approval-IsNotInitiator office 1 review_node (opened request) floored
      (unfold floored activate_approval in refl) tt

-- A definition whose notify node comes back to itself where its condition does not match.
abbrev looping : ProcessDefinition
looping = record {
  key = "remind";
  purpose = "remind";
  entity_type = "project";
  nodes =
      record { node_key = "start"; type_ = NodeType.start; config = bare }
      ∷ record { node_key = "remind"; type_ = NodeType.notify; config = bare }
      ∷ record {
        node_key = "done";
        type_ = NodeType.end;
        config = record bare { outcome = some "seen" };
      }
      ∷ [];
  transitions =
      record { from_node_key = "start"; to_node_key = "remind"; sort_order = 0; condition = none }
      ∷ record {
        from_node_key = "remind";
        to_node_key = "done";
        sort_order = 1;
        condition = some (single (record { path = "seen"; op = eq; value = bool true }));
      }
      ∷ record {
        from_node_key = "remind";
        to_node_key = "remind";
        sort_order = 2;
        condition = none;
      }
      ∷ [];
}

reminds_on : open_instance office 20 (some looping) request ≡ refused endless
unfolding open_instance
reminds_on = refl

-- Two sponsors are asked; the first approves, and the review waits for the second.
abbrev review_config : ProcessNode
review_config = record {
  node_key = "review";
  type_ = NodeType.approval;
  config = record bare { principals = "lead" ∷ "sponsor" ∷ []; quorum = some "all" };
}

abbrev review_row : NodeExecution
review_row = record {
  id = 2;
  node_key = "review";
  node_type = NodeType.approval;
  seq = 1;
  status = ExecutionStatus.active;
  result = Fields.end;
  error_ = none;
}

decide_waits_example :
    (half.instance ≡ parked.instance)
    × (half.executions ≡ parked.executions)
    × (half.decisions ≡ parked.decisions ++ decision_row 2 2 none positive (some "no") ∷ [])
decide_waits_example =
    decide_waits office review 5 (by_member_ 2 positive) parked half review_row review_config 3
      (unfold half parked open_instance decide in refl)
      (unfold active_execution parked open_instance in refl) (unfold node_of in refl)
      (unfold any_suffices in refl) refl (λ h. ground (arith, h))
      (unfold parked open_instance count_where in omega arith)
      (unfold parked open_instance count_where in refl)
