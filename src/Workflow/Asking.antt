-- ===== src/Workflow/Asking.antt =====
-- That request_info of packages/asas-workflow/src/asas_workflow/engine.py leaves an instance settled.
use asas.Base.{
  ℕ, ◌≡◌, refl, subst, String, Bool, true, none, some, [], ◌∷◌, ◌++◌, not, ◌||◌, is_some, arith,
  count_where, ==_iff, count_where-append,
}
use asas.Workflow.Model.{
  InstanceStatus, NodeExecution, Walk, is_running, asks_info, ProcessDefinition, raised,
  not_running, not_pending, not_approval, not_assignee, not_allowed, question_required,
}
use asas.Workflow.Results.{Brings, require-Brings, found-Brings}
use asas.Workflow.Graph.{node_of}
use asas.Workflow.Rows.{active_execution, assignee_of}
use asas.Workflow.Nodes.{ask_row}
use asas.Workflow.Actions.{decided_by, decision_row, is_approval, is_blank}
use asas.Workflow.Operations.{request_info, allows}
use asas.Workflow.Settled.{pends_elsewhere, IsParked, IsSettledAs, parked-IsSettled}
use asas.Workflow.Lawful.{IsSound}
use asas.Workflow.Deciding.{running-IsParked, is_running-eq}

module _ (w : Walk) (sound : IsSound w) where
  pub IsParked-now : is_running w.instance.status ≡ true → (e : NodeExecution) × IsParked w e
  IsParked-now runs = subst (λ s. IsSettledAs s w) (is_running-eq w.instance.status runs) sound.0

  module _ (running : w.instance.status ≡ InstanceStatus.running) (e : NodeExecution)
      (p : IsParked w e) where
    pub request_info-step :
        (actor asked_of : ℕ) (question : String)
        → IsSound (record w {
          decisions = w.decisions ++ decision_row e.id actor none asks_info (some question) ∷ [];
          asks = w.asks ++ ask_row e.id actor question asked_of ∷ [];
        })
    unfolding count_where
    request_info-step actor asked_of question = (
      parked-IsSettled _ e running (record {
        first = unfold active_execution in p.first;
        alone = p.alone;
        current = p.current;
        manned = p.manned;
        asked_here = p.asked_here;
        pends_here = ground (
          arith,
          p.pends_here,
          (==_iff e.id e.id).1 refl,
          count_where-append (pends_elsewhere e.id) w.asks
              (ask_row e.id actor question asked_of ∷ []),
        );
      }),
      record {
        no_self = λ id m h. ground (
          arith,
          sound.1.no_self id m h,
          count_where-append (decided_by id m) w.decisions
              (decision_row e.id actor none asks_info (some question) ∷ []),
        );
        single = λ id m. ground (
          arith,
          sound.1.single id m,
          count_where-append (decided_by id m) w.decisions
              (decision_row e.id actor none asks_info (some question) ∷ []),
        );
      },
    )

  pub request_info-IsSound :
      (d : ProcessDefinition) (actor asked_of : ℕ) (question : String) (is_admin : Bool)
      → Brings IsSound (request_info d actor asked_of question is_admin w)
  unfolding request_info
  request_info-IsSound d actor asked_of question is_admin =
      require-Brings IsSound (is_running w.instance.status) not_running _ (λ runs.
        found-Brings IsSound not_pending (active_execution w) _ (λ e here.
          require-Brings IsSound (is_approval e.node_type) not_approval _ (λ _.
            found-Brings IsSound raised (node_of e.node_key d.nodes) _ (λ node _.
              require-Brings IsSound (allows node.config.allow_request_info) not_allowed _ (λ _.
                require-Brings IsSound (is_some (assignee_of e.id actor w) || is_admin) not_assignee
                  _
                  (λ _. require-Brings IsSound (not (is_blank question)) question_required _ (λ _.
                    let running = is_running-eq w.instance.status runs in
                    request_info-step running e (running-IsParked w e sound.0 running here) actor
                      asked_of question)))))))
