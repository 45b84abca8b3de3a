-- ===== src/Workflow/Answering.antt =====
-- That answer_info, retry and open_instance of packages/asas-workflow/src/asas_workflow/engine.py leave an instance settled.
use asas.Base.{
  ℕ, ◌≡◌, ◌==◌, refl, sym, subst, String, Bool, true, Option, some, not, ◌||◌, arith, first_where,
  count_where, ==_iff, Bool-cases, inl, inr, first_where-holds, str_eq,
}
use asas.Workflow.Model.{
  InstanceStatus, NodeExecution, InfoRequest, Walk, is_pending, is_running, is_error,
  ProcessDefinition, ok, raised, ◌>>=◌, entity_mismatch, unknown_process, not_running, not_pending,
  not_asked, answer_required, not_error, no_node,
}
use asas.Workflow.Results.{Brings, require-Brings, found-Brings, if-Brings, Brings-mono}
use asas.Workflow.Graph.{node_of}
use asas.Workflow.Rows.{Host, active_execution, execution_has_id}
use asas.Workflow.Nodes.{advance_or_fail}
use asas.Workflow.Walks.{run_from, follow}
use asas.Workflow.Actions.{is_blank, is_request_info, record_result}
use asas.Workflow.Operations.{
  Opening, opened, is_start, open_instance, answer_info, note_answer, answer_result, row_at, retry,
  answered_row, restarted,
}
use asas.Workflow.Settled.{pends_elsewhere, IsQuiet, IsParked, IsSettledAs, parked-IsSettled}
use asas.Workflow.Progress.{Settles, run_from-Settles}
use asas.Workflow.Lawful.{IsSound, Keeps-IsLawful, Settles-IsSound, completed-Settles}
use asas.Workflow.Deciding.{is_running-eq}
use asas.Workflow.Tables.{row_at-count, count_where-update_at-le}
use asas.Workflow.Asking.{IsParked-now}

module _ (host : Host) (d : ProcessDefinition) (fuel : ℕ) (w : Walk) (sound : IsSound w) where
  pub note_answer-IsParked :
      (n : ℕ) (e e' : NodeExecution) (ask : InfoRequest) (actor : ℕ) (answer : String)
      → IsParked w e
      → IsParked (note_answer n e' ask actor answer w) e
  unfolding note_answer active_execution
  note_answer-IsParked n e e' ask actor answer p = record {
    first = p.first;
    alone = p.alone;
    current = p.current;
    manned = p.manned;
    asked_here = p.asked_here;
    pends_here = omega (
      arith,
      p.pends_here,
      count_where-update_at-le (pends_elsewhere e.id) n (answered_row answer) w.asks
          (λ a h. absurd (ground (arith, h))),
    );
  }

  -- The pending ask stands on the execution at which the instance is parked.
  pub ask-here :
      (n : ℕ) (ask : InfoRequest) (e e' : NodeExecution)
      → IsParked w e
      → row_at n w.asks ≡ some ask
      → is_pending ask.status ≡ true
      → first_where (execution_has_id ask.execution_id) w.executions ≡ some e'
      → e'.id ≡ e.id
  ask-here n ask e e' p at pending_now found_ = elim (Bool-cases (ask.execution_id == e.id)) [
    | inl same ↦ ground (
      arith,
      same,
      ==_iff ask.execution_id e.id,
      ==_iff e'.id ask.execution_id,
      first_where-holds (execution_has_id ask.execution_id) w.executions e' found_,
    )
    | inr differs ↦ absurd (
        ground (
          arith,
          p.pends_here,
          pending_now,
          differs,
          row_at-count (pends_elsewhere e.id) n w.asks ask at,
        ))
  ]

  pub answer_info-IsSound :
      (n actor : ℕ) (answer : String) (is_admin : Bool)
      → Brings IsSound (answer_info host d fuel n actor answer is_admin w)
  unfolding answer_info
  answer_info-IsSound n actor answer is_admin =
      found-Brings IsSound raised (row_at n w.asks) _ (λ ask at.
        require-Brings IsSound (is_pending ask.status) not_pending _ (λ pending_now.
          require-Brings IsSound (actor == ask.asked_of || is_admin) not_asked _ (λ _.
            require-Brings IsSound (not (is_blank answer)) answer_required _ (λ _.
              found-Brings IsSound raised
                (first_where (execution_has_id ask.execution_id) w.executions) _
                (λ e' found_.
                  require-Brings IsSound (is_running w.instance.status) not_running _ (λ runs.
                    let (e, p) = IsParked-now w sound runs in
                    let running = is_running-eq w.instance.status runs in
                    let u = note_answer n e' ask actor answer w in
                    let parked = note_answer-IsParked n e e' ask actor answer p in
                    let same = ask-here n ask e e' p at pending_now found_ in
                    let lawful = Keeps-IsLawful w u (unfold note_answer in (refl, refl)) sound.1 in
                    if-Brings IsSound (not (is_request_info e'.node_type)) _ _
                      (λ _. (parked-IsSettled u e (unfold note_answer in running) parked, lawful))
                      (λ _. found-Brings IsSound raised (node_of e'.node_key d.nodes) _ (λ node _.
                        Brings-mono (Settles u) IsSound _ (λ v. Settles-IsSound u v lawful)
                          (subst
                            (λ (id : ℕ). Brings (Settles u) (
                              advance_or_fail host d node true
                                (record_result id node.node_key (answer_result answer actor) u)
                              >>= follow (run_from host d fuel) ok))
                            (sym same)
                            (completed-Settles host d fuel u e parked
                              (unfold note_answer in running) node true node.node_key
                              (answer_result answer actor)))))))))))

  pub restarted-Brings :
      (s : InstanceStatus) → IsSettledAs s w → is_error s ≡ true → IsQuiet (restarted w)
  restarted-Brings InstanceStatus.running h k = absurd (ground (arith, k))
  restarted-Brings InstanceStatus.completed h k = absurd (ground (arith, k))
  restarted-Brings InstanceStatus.canceled h k = absurd (ground (arith, k))
  restarted-Brings InstanceStatus.error (q, _, _) k = record {
    idle = q.idle;
    unasked = q.unasked;
    answered = q.answered;
  }

  pub retry-IsSound : Brings IsSound (retry host d fuel w)
  unfolding retry
  retry-IsSound = require-Brings IsSound (is_error w.instance.status) not_error _ (λ failed.
      found-Brings IsSound no_node w.instance.current_node_key _ (λ key _.
        let u = restarted w in
        Brings-mono (Settles u) IsSound (run_from host d fuel key u)
          (λ v. Settles-IsSound u v (Keeps-IsLawful w u (refl, refl) sound.1))
          (run_from-Settles host d fuel key u (restarted-Brings w.instance.status sound.0 failed)
            refl)))

pub open_instance-IsSound :
    (host : Host) (fuel : ℕ) (resolved : Option ProcessDefinition) (x : Opening)
    → Brings IsSound (open_instance host fuel resolved x)
unfolding open_instance count_where
open_instance-IsSound host fuel resolved x = found-Brings IsSound unknown_process resolved _ (λ d _.
    require-Brings IsSound (str_eq d.entity_type x.entity_type) entity_mismatch _ (λ _.
      found-Brings IsSound raised (first_where is_start d.nodes) _ (λ start _.
        Brings-mono (Settles (opened x)) IsSound (run_from host d fuel start.node_key (opened x))
          (λ v.
            Settles-IsSound (opened x) v
              (record { no_self = λ id m h. refl; single = λ id m. omega arith }))
          (run_from-Settles host d fuel start.node_key (opened x)
            (record { idle = refl; unasked = refl; answered = refl }) refl))))
