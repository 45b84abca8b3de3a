-- ===== src/Workflow/Nodes.antt =====
-- How a node is left and how one that waits is activated, packages/asas-workflow/src/asas_workflow/engine.py: _advance_or_fail, _activate_approval and _activate_request_info.
use asas.Base.{
  ℕ, ◌==◌, leb, String, Bool, true, false, Option, none, some, List, [], ◌∷◌, ◌++◌, if◌then◌else◌,
  is_some, map, same_num, first_where,
}
use asas.Workflow.Model.{
  AssigneeStatus, InfoRequestStatus, ProcessNode, ProcessDefinition, ProcessInstance, NodeAssignee,
  InfoRequest, Walk, no_transition, empty_resolution, Result, ok, raised, found, ◌>>=◌,
}
use asas.Workflow.Graph.{select_next}
use asas.Workflow.Rows.{Host, complete_instance, fail_instance}

abbrev pub rejected_outcome : String
rejected_outcome = "rejected"

abbrev pub admin_floor : String
admin_floor = "admin_floor"

-- The next node, if the walk goes on: the one that was picked, or a termination.
unfoldable pub advance_to :
    Host
    → ProcessDefinition
    → ProcessNode
    → Bool
    → Walk
    → Option String
    → Result (Walk × Option String)
unfolding complete_instance fail_instance
advance_to host d node positive w (some next) = ok (w, some next)
advance_to host d node true w none = ok (fail_instance none (no_transition node.node_key) w, none)
advance_to host d node false w none = do
  closed ← complete_instance host d rejected_outcome w
  ok (closed, none)

unfoldable pub advance_or_fail :
    Host → ProcessDefinition → ProcessNode → Bool → Walk → Result (Walk × Option String)
unfolding select_next advance_to
advance_or_fail host d node positive w =
    advance_to host d node positive w (select_next d node.node_key w.instance.data_ positive)

-- Members with the principal that produced them, in the order of the dict.
abbrev pub Resolved : Type 0
Resolved = List (ℕ × String)

abbrev pub knows : ℕ → ℕ × String → Bool
knows m r = r.0 == m

-- `resolved.setdefault(member_id, principal)` for each member.
unfoldable pub set_defaults : String → List ℕ → Resolved → Resolved
unfolding first_where
set_defaults principal [] acc = acc
set_defaults principal (m ∷ ms) acc =
    set_defaults principal ms
      (if is_some (first_where (knows m) acc) then acc else acc ++ (m, principal) ∷ [])

unfoldable pub resolve_all : Host → ProcessInstance → List String → Resolved → Result Resolved
unfolding set_defaults
resolve_all host i [] acc = ok acc
resolve_all host i (p ∷ ps) acc = do
  members ← found raised (host.resolve_assignees p i.entity_type i.entity_id)
  resolve_all host i ps (set_defaults p members acc)

-- `resolved.pop(initiated_by, None)`
unfoldable pub without : Option ℕ → Resolved → Resolved
without initiator [] = []
without initiator ((m, p) ∷ rs) =
    let rest = without initiator rs in if same_num initiator (some m) then rest else (m, p) ∷ rest

unfoldable pub insert_member : ℕ × String → Resolved → Resolved
insert_member r [] = r ∷ []
insert_member r (s ∷ rest) =
    let later = insert_member r rest in if leb r.0 s.0 then r ∷ s ∷ rest else s ∷ later

-- `sorted(resolved.items())`
unfoldable pub by_member : Resolved → Resolved
unfolding insert_member
by_member [] = []
by_member (r ∷ rs) = insert_member r (by_member rs)

abbrev pub assignee_row : ℕ → ℕ × String → NodeAssignee
assignee_row id (m, p) = record {
  execution_id = id;
  member_id = m;
  via_principal = p;
  status = AssigneeStatus.requested;
  reassigned_from = none;
}

abbrev pub ask_row : ℕ → ℕ → String → ℕ → InfoRequest
ask_row id asked_by question m = record {
  execution_id = id;
  asked_by = asked_by;
  asked_of = m;
  question = question;
  answer = none;
  status = InfoRequestStatus.pending;
}

abbrev pub or_else : Resolved → Resolved → Resolved
or_else [] fallback = fallback
or_else (r ∷ rs) fallback = r ∷ rs

-- Nobody to ask is an error; otherwise the rows of those who are.
unfoldable pub assign : ℕ → String → Resolved → Walk → Walk
unfolding fail_instance by_member
assign id key [] w = fail_instance (some id) (empty_resolution key) w
assign id key (r ∷ rs) w = record w {
  assignees = w.assignees ++ map (assignee_row id) (by_member (r ∷ rs));
}

-- The floor is asked only when nobody was resolved.
abbrev pub floor_if_empty : Host → ProcessInstance → Resolved → Result (List ℕ)
floor_if_empty host i [] = found raised (host.resolve_floor i.org_id)
floor_if_empty host i (r ∷ rs) = ok []

unfoldable pub activate_approval : Host → ℕ → ProcessNode → Walk → Result Walk
unfolding resolve_all without assign set_defaults
activate_approval host id node w =
    let i = w.instance in
    do
      resolved ← resolve_all host i node.config.principals []
      floor ← floor_if_empty host i (without i.initiated_by resolved)
      ok (
          assign id node.node_key
            (or_else (without i.initiated_by resolved)
              (without i.initiated_by (set_defaults admin_floor floor [])))
            w)

abbrev pub initiator_or_zero : Option ℕ → ℕ
initiator_or_zero none = 0
initiator_or_zero (some m) = m

abbrev pub ask_of_all : ℕ → String → Resolved → Walk → Walk
ask_of_all id question rs w = record w {
  asks =
      w.asks
      ++ map (λ r. ask_row id (initiator_or_zero w.instance.initiated_by) question r.0)
          (by_member rs);
}

unfoldable pub ask_resolved : ℕ → ProcessNode → Resolved → Walk → Result Walk
unfolding assign by_member
ask_resolved id node [] w = ok (assign id node.node_key [] w)
ask_resolved id node (r ∷ rs) w = do
  question ← found raised node.config.prompt
  ok (ask_of_all id question (r ∷ rs) (assign id node.node_key (r ∷ rs) w))

unfoldable pub activate_request_info : Host → ℕ → ProcessNode → Walk → Result Walk
unfolding ask_resolved set_defaults
activate_request_info host id node w =
    let i = w.instance in
    do
      principal ← found raised node.config.principal
      members ← found raised (host.resolve_assignees principal i.entity_type i.entity_id)
      floor ← floor_if_empty host i (set_defaults principal members [])
      ask_resolved id node
          (or_else (set_defaults principal members []) (set_defaults principal floor [])) w
