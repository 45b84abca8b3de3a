-- ===== src/Workflow/Progress.antt =====
-- :That the walk of packages/asas-workflow/src/asas_workflow/engine.py leaves an instance settled.
use asas.Base.{
  ℕ, zero, suc, ◌≡◌, refl, ◌∙◌, String, true, Option, none, some, [], Fields, field, arr, arith,
}
use asas.Workflow.Model.{
  NodeType, InstanceStatus, NodeExecution, Walk, ProcessNode, ProcessDefinition, Result, ok, raised,
  handler_raised, bad_definition, found, merged, ◌>>=◌,
}
use asas.Workflow.Results.{Brings, found-Brings, bind-Brings, any-Brings, Brings-mono}
use asas.Workflow.Graph.{node_of}
use asas.Workflow.Rows.{
  Host, complete_execution, fail_instance, new_execution, complete_instance, fresh_execution,
}
use asas.Workflow.Nodes.{
  advance_or_fail, activate_approval, activate_request_info, resolve_all, floor_if_empty, without,
  or_else, set_defaults,
}
use asas.Workflow.Walks.{
  enter, visit, run_from, with_data, texts, sorted_keys, follow, after_handler,
}
use asas.Workflow.Settled.{IsQuiet, IsEntered, entered-IsQuiet, fail_instance-IsQuiet}
use asas.Workflow.Stages.{
  Keeps, IsUnderway, IsStage, complete_instance-IsSettled, advance_or_fail-IsStage,
}
use asas.Workflow.Activation.{assign-IsStage, ask_resolved-IsStage, enter-IsEntered}

pub IsStage-later :
    (w u : Walk) (step : Walk × Option String) → Keeps w u → IsStage u step → IsStage w step
IsStage-later w u (v, none) (a, b) (s, (c, e)) = (s, (c ∙ a, e ∙ b))
IsStage-later w u (v, some k) (a, b) (s, (c, e)) = (s, (c ∙ a, e ∙ b))

module _ (host : Host) (d : ProcessDefinition) (node : ProcessNode) (w : Walk) (e : NodeExecution)
    (entered : IsEntered w e) (running : w.instance.status ≡ InstanceStatus.running) where
  -- The execution is completed, then the walk goes on from a state with the same members' rows.
  completed-IsStage :
      (result data_ : Fields)
      → Brings
          (IsStage w)
          (advance_or_fail host d node true (complete_execution e.id result (with_data data_ w)))
  unfolding complete_execution
  completed-IsStage result data_ =
      let u = complete_execution e.id result (with_data data_ w) in
      let q = entered-IsQuiet w e entered result in
      Brings-mono (IsStage u) (IsStage w) (advance_or_fail host d node true u)
        (λ step. IsStage-later w u step (refl, refl))
        (advance_or_fail-IsStage host d node true u (
          record { idle = q.idle; unasked = q.unasked; answered = q.answered },
          running,
          ground (arith, entered.current),
        ))

  after_handler-IsStage :
      (answer : Option Fields) → Brings (IsStage w) (after_handler host d node e.id w answer)
  unfolding after_handler fail_instance
  after_handler-IsStage none =
      let q = fail_instance-IsQuiet w e entered handler_raised in
      (
        (
          record { idle = q.idle; unasked = q.unasked; answered = q.answered },
          ground (arith, entered.current),
          refl,
        ),
        (refl, refl),
      )
  after_handler-IsStage (some produced) =
      completed-IsStage (field "produced" (arr (texts (sorted_keys produced))) Fields.end)
        (merged w.instance.data_ produced)

  park-IsStage :
      (m : Result Walk)
      → Brings (λ w'. IsStage w (w', none)) m
      → Brings (IsStage w) (m >>= λ w'. ok (w', none))
  park-IsStage m h =
      bind-Brings (λ (w' : Walk). IsStage w (w', none)) (IsStage w) m (λ w'. ok (w', none)) h
        (λ w' s. s)

  approval-IsStage :
      e.node_type ≡ NodeType.approval
      → Brings (λ w'. IsStage w (w', none)) (activate_approval host e.id node w)
  unfolding activate_approval
  approval-IsStage typed =
      any-Brings (λ (w' : Walk). IsStage w (w', none))
        (resolve_all host w.instance node.config.principals []) _
        (λ resolved.
          any-Brings (λ (w' : Walk). IsStage w (w', none))
            (floor_if_empty host w.instance (without w.instance.initiated_by resolved)) _
            (λ floor. assign-IsStage w e entered (rw typed refl) running node.node_key _))

  request_info-IsStage :
      e.node_type ≡ NodeType.request_info
      → Brings (λ w'. IsStage w (w', none)) (activate_request_info host e.id node w)
  unfolding activate_request_info
  request_info-IsStage typed =
      found-Brings (λ (w' : Walk). IsStage w (w', none)) raised node.config.principal _
        (λ principal _.
          any-Brings (λ (w' : Walk). IsStage w (w', none))
            (found raised
              (host.resolve_assignees principal w.instance.entity_type w.instance.entity_id))
            _
            (λ members.
              any-Brings (λ (w' : Walk). IsStage w (w', none))
                (floor_if_empty host w.instance (set_defaults principal members [])) _
                (λ floor.
                  ask_resolved-IsStage w e entered (rw typed refl) running node (
                    or_else (set_defaults principal members [])
                      (set_defaults principal floor [])))))

  end-IsStage :
      (outcome : String)
      → Brings
          (λ w'. IsStage w (w', none))
          (complete_instance host d outcome (complete_execution e.id Fields.end w))
  unfolding complete_execution
  end-IsStage outcome =
      let u = complete_execution e.id Fields.end w in
      Brings-mono (λ w'. IsStage u (w', none)) (λ w'. IsStage w (w', none))
        (complete_instance host d outcome u) (λ w'. IsStage-later w u (w', none) (refl, refl))
        (complete_instance-IsSettled host d outcome u (entered-IsQuiet w e entered Fields.end))

  pub visit-IsStage :
      (t : NodeType) → e.node_type ≡ t → Brings (IsStage w) (visit host d node e.id w t)
  unfolding visit
  visit-IsStage NodeType.start typed = completed-IsStage Fields.end w.instance.data_
  visit-IsStage NodeType.notify typed = completed-IsStage Fields.end w.instance.data_
  visit-IsStage NodeType.system typed =
      any-Brings (IsStage w) (found raised (host.system_handler node.config.handler_key))
        (λ handler. after_handler host d node e.id w (handler w.instance))
        (λ handler. after_handler-IsStage (handler w.instance))
  visit-IsStage NodeType.approval typed =
      park-IsStage (activate_approval host e.id node w) (approval-IsStage typed)
  visit-IsStage NodeType.request_info typed =
      park-IsStage (activate_request_info host e.id node w) (request_info-IsStage typed)
  visit-IsStage NodeType.end typed =
      found-Brings (IsStage w) raised node.config.outcome _ (λ outcome _.
        park-IsStage (complete_instance host d outcome (complete_execution e.id Fields.end w))
          (end-IsStage outcome))

-- What a call that starts in `w` may leave: a settled instance with the same decisions.
abbrev pub Settles : Walk → Walk → Type 0
Settles w w' = IsStage w (w', none)

pub follow-Settles :
    (go : String → Walk → Result Walk) (w : Walk) (step : Walk × Option String)
    → ((k : String) (u : Walk) → IsUnderway u → Brings (Settles u) (go k u))
    → IsStage w step
    → Brings (Settles w) (follow go ok step)
follow-Settles go w (u, none) goes h = h
follow-Settles go w (u, some k) goes (underway, keeps) =
    Brings-mono (Settles u) (Settles w) (go k u) (λ v. IsStage-later w u (v, none) keeps)
      (goes k u underway)

module _ (host : Host) (d : ProcessDefinition) where
  pub run_from-Settles :
      (fuel : ℕ) (key : String) (w : Walk)
      → IsQuiet w
      → w.instance.status ≡ InstanceStatus.running
      → Brings (Settles w) (run_from host d fuel key w)
  unfolding run_from new_execution
  run_from-Settles zero key w q running = tt
  run_from-Settles (suc fuel) key w q running =
      found-Brings (Settles w) bad_definition (node_of key d.nodes) _ (λ node _.
        let u = enter node w in
        bind-Brings (IsStage u) (Settles w) (visit host d node w.next_id u node.type_)
          (follow (run_from host d fuel) ok)
          (visit-IsStage host d node u (fresh_execution node w) (enter-IsEntered node w q) running
            node.type_ refl)
          (λ step stage.
            Brings-mono (Settles u) (Settles w) (follow (run_from host d fuel) ok step)
              (λ v. IsStage-later w u (v, none) (refl, refl))
              (follow-Settles (run_from host d fuel) u step
                (λ k v under. run_from-Settles fuel k v under.0 under.1) stage)))
