-- ===== src/Workflow/Activation.antt =====
-- What activating a node that waits for members leaves, packages/asas-workflow/src/asas_workflow/engine.py.
use asas.Base.{
  ℕ, ◌≡◌, refl, String, true, none, [], ◌∷◌, arith, count_where, ==_iff, count_where-append,
  first_where-added, map,
}
use asas.Workflow.Model.{InstanceStatus, NodeExecution, Walk, ProcessNode, raised, empty_resolution}
use asas.Workflow.Results.{Brings, found-Brings}
use asas.Workflow.Rows.{active_execution, new_execution, fresh_execution}
use asas.Workflow.Nodes.{
  Resolved, assign, by_member, assignee_row, ask_row, ask_resolved, ask_of_all, initiator_or_zero,
}
use asas.Workflow.Walks.{enter}
use asas.Workflow.Settled.{
  active, elsewhere, pends_elsewhere, IsQuiet, IsEntered, awaits, parked-IsSettled,
  fail_instance-IsQuiet, count-nowhere, count-pends_nowhere,
}
use asas.Workflow.Stages.{IsStage}

-- Nobody but the assignees of an execution is asked by what `assign` adds.
pub count-assignee_rows :
    (id : ℕ) (rs : Resolved) → count_where (elsewhere id) (map (assignee_row id) rs) ≡ 0
unfolding count_where
count-assignee_rows id [] = refl
count-assignee_rows id ((m, p) ∷ rs) =
    ground (arith, count-assignee_rows id rs, (==_iff id id).1 refl)

pub count-ask_rows :
    (id by : ℕ) (question : String) (rs : Resolved)
    → count_where (pends_elsewhere id) (map (λ r. ask_row id by question r.0) rs) ≡ 0
unfolding count_where
count-ask_rows id by question [] = refl
count-ask_rows id by question (r ∷ rs) =
    ground (arith, count-ask_rows id by question rs, (==_iff id id).1 refl)

module _ (w : Walk) (e : NodeExecution) (entered : IsEntered w e)
    (manned : awaits e.node_type ≡ true)
    (running : w.instance.status ≡ InstanceStatus.running) where
  pub assign-IsStage : (key : String) (rs : Resolved) → IsStage w (assign e.id key rs w, none)
  unfolding assign
  assign-IsStage key [] = (
    (
      fail_instance-IsQuiet w e entered (empty_resolution key),
      ground (arith, entered.current),
      refl,
    ),
    (refl, refl),
  )
  assign-IsStage key (r ∷ rs) = (
    parked-IsSettled _ e running (record {
      first = unfold active_execution in entered.first;
      alone = entered.alone;
      current = entered.current;
      manned = manned;
      asked_here = omega (
        arith,
        count_where-append (elsewhere e.id) w.assignees
            (map (assignee_row e.id) (by_member (r ∷ rs))),
        count-nowhere e.id w.assignees entered.unasked,
        count-assignee_rows e.id (by_member (r ∷ rs)),
      );
      pends_here = count-pends_nowhere e.id w.asks entered.answered;
    }),
    (refl, refl),
  )

  pub asks-IsStage :
      (key question : String) (r : ℕ × String) (rs : Resolved)
      → IsStage w (ask_of_all e.id question (r ∷ rs) (assign e.id key (r ∷ rs) w), none)
  unfolding assign
  asks-IsStage key question r rs = (
    parked-IsSettled _ e running (record {
      first = unfold active_execution in entered.first;
      alone = entered.alone;
      current = entered.current;
      manned = manned;
      asked_here = omega (
        arith,
        count_where-append (elsewhere e.id) w.assignees
            (map (assignee_row e.id) (by_member (r ∷ rs))),
        count-nowhere e.id w.assignees entered.unasked,
        count-assignee_rows e.id (by_member (r ∷ rs)),
      );
      pends_here = omega (
        arith,
        count_where-append (pends_elsewhere e.id) w.asks (
            map (λ r. ask_row e.id (initiator_or_zero w.instance.initiated_by) question r.0)
              (by_member (r ∷ rs))),
        count-pends_nowhere e.id w.asks entered.answered,
        count-ask_rows e.id (initiator_or_zero w.instance.initiated_by) question
            (by_member (r ∷ rs)),
      );
    }),
    (refl, refl),
  )

  pub ask_resolved-IsStage :
      (node : ProcessNode) (rs : Resolved)
      → Brings (λ w'. IsStage w (w', none)) (ask_resolved e.id node rs w)
  unfolding ask_resolved
  ask_resolved-IsStage node [] = assign-IsStage node.node_key []
  ask_resolved-IsStage node (r ∷ rs) =
      found-Brings (λ (w' : Walk). IsStage w (w', none)) raised node.config.prompt _
        (λ question _. asks-IsStage node.node_key question r rs)

pub enter-IsEntered :
    (node : ProcessNode) (w : Walk) → IsQuiet w → IsEntered (enter node w) (fresh_execution node w)
unfolding new_execution active_execution count_where
enter-IsEntered node w q = record {
  first = first_where-added active w.executions (fresh_execution node w) q.idle refl;
  alone =
      omega (arith, q.idle, count_where-append active w.executions (fresh_execution node w ∷ []));
  current = refl;
  unasked = q.unasked;
  answered = q.answered;
}
