-- ===== src/Workflow/Deciding.antt =====
-- That decide of packages/asas-workflow/src/asas_workflow/engine.py leaves an instance settled and its decisions lawful.
use asas.Base.{
  some_unique, ℕ, ◌≡◌, refl, sym, subst, true, false, none, some, [], ◌∷◌, not, ◌||◌, is_some,
  arith, first_where, count_where, ==_iff, count_where-append, first_where-count, same_num,
  same_num_iff,
}
use asas.Workflow.Model.{
  InstanceStatus, NodeExecution, NodeDecision, Walk, is_final, is_positive, ProcessNode,
  ProcessDefinition, ok, raised, is_running, not_running, not_pending, not_approval, bad_verdict,
  self_approval, not_assignee, comment_required, duplicate,
}
use asas.Workflow.Results.{Brings, require-Brings, found-Brings, bind-Brings, Brings-mono}
use asas.Workflow.Graph.{node_of}
use asas.Workflow.Rows.{Host, active_execution, assignee_of, asked}
use asas.Workflow.Actions.{
  Decision, may_decide, add_decision, settle_node, decide, decided_by, decision_row, note_decision,
  settle_row, is_approval, is_blank, or_blank,
}
use asas.Workflow.Settled.{elsewhere, IsParked, IsSettled, IsSettledAs}
use asas.Workflow.Progress.{Settles}
use asas.Workflow.Lawful.{
  IsLawful, IsSound, Settles-IsSound, settle_node-Settles, count_where-update_first-le,
}

-- The execution that may be decided, by whom, and with what.
pub record IsDecidable (x : Decision) (w : Walk) (e : NodeExecution) : Type 0 where
  pub runs : is_running w.instance.status ≡ true
  pub here : active_execution w ≡ some e
  pub approval_ : is_approval e.node_type ≡ true
  pub final : is_final x.verdict ≡ true
  pub other : same_num w.instance.initiated_by (some x.actor_id) ≡ false
  pub entitled : (is_some (assignee_of e.id x.actor_id w) || x.actor_is_admin) ≡ true
  pub reasoned : (is_positive x.verdict || not (is_blank (or_blank x.comment))) ≡ true

-- `may_decide` lets a decision through only where all its guards hold.
pub may_decide-IsDecidable : (x : Decision) (w : Walk) → Brings (IsDecidable x w) (may_decide x w)
unfolding may_decide
may_decide-IsDecidable x w =
    require-Brings (IsDecidable x w) (is_running w.instance.status) not_running _ (λ runs.
      found-Brings (IsDecidable x w) not_pending (active_execution w) _ (λ e here.
        require-Brings (IsDecidable x w) (is_approval e.node_type) not_approval _ (λ approval_.
          require-Brings (IsDecidable x w) (is_final x.verdict) bad_verdict _ (λ final.
            require-Brings (IsDecidable x w)
              (not (same_num w.instance.initiated_by (some x.actor_id))) self_approval _
              (λ other.
                require-Brings (IsDecidable x w)
                  (is_some (assignee_of e.id x.actor_id w) || x.actor_is_admin) not_assignee _
                  (λ entitled.
                    require-Brings (IsDecidable x w)
                      (is_positive x.verdict || not (is_blank (or_blank x.comment)))
                      comment_required _
                      (λ reasoned. record {
                        runs = runs;
                        here = here;
                        approval_ = approval_;
                        final = final;
                        other = ground (arith, other);
                        entitled = entitled;
                        reasoned = reasoned;
                      })))))))

module _ (w : Walk) (e : NodeExecution) (x : Decision) where
  note_decision-IsParked :
      (row : NodeDecision) → IsParked w e → IsParked (note_decision e.id row w) e
  unfolding note_decision active_execution
  note_decision-IsParked row p = record {
    first = p.first;
    alone = p.alone;
    current = p.current;
    manned = p.manned;
    asked_here = omega (
      arith,
      p.asked_here,
      count_where-update_first-le (elsewhere e.id) (asked e.id row.actor_id) settle_row w.assignees
          (λ a h. absurd (ground (arith, h))),
    );
    pends_here = p.pends_here;
  }

  -- One more decision, of an actor who had none on the execution and is not the initiator.
  note_decision-IsLawful :
      (row : NodeDecision)
      → IsLawful w
      → same_num w.instance.initiated_by (some row.actor_id) ≡ false
      → row.execution_id ≡ e.id
      → first_where (decided_by e.id row.actor_id) w.decisions ≡ none
      → IsLawful (note_decision e.id row w)
  unfolding note_decision count_where
  note_decision-IsLawful row l other own fresh = record {
    no_self = λ id m h. ground (
      arith,
      count_where-append (decided_by id m) w.decisions (row ∷ []),
      l.no_self id m h,
      other,
      h,
      ==_iff row.actor_id m,
      same_num_iff w.instance.initiated_by (some row.actor_id),
    );
    single = λ id m. ground (
      arith,
      count_where-append (decided_by id m) w.decisions (row ∷ []),
      l.single id m,
      own,
      ==_iff row.execution_id id,
      ==_iff row.actor_id m,
      first_where-count (decided_by e.id row.actor_id) w.decisions fresh,
    );
  }

abbrev pub decision_of : ℕ → Decision → NodeDecision
decision_of id x = decision_row id x.actor_id x.on_behalf_of x.verdict x.comment

add_decision-Brings :
    (P : Walk → Type 0) (id : ℕ) (x : Decision) (w : Walk)
    → (first_where (decided_by id x.actor_id) w.decisions ≡ none
        → P (note_decision id (decision_of id x) w))
    → Brings P (add_decision id x w)
unfolding add_decision
add_decision-Brings P id x w h =
    require-Brings P (not (is_some (first_where (decided_by id x.actor_id) w.decisions))) duplicate
      (ok (note_decision id (decision_of id x) w)) (λ fresh. h (ground (arith, fresh)))

-- A settled instance that runs is parked at the active execution.
pub running-IsParked :
    (w : Walk) (e : NodeExecution)
    → IsSettled w
    → w.instance.status ≡ InstanceStatus.running
    → active_execution w ≡ some e
    → IsParked w e
running-IsParked w e settled running here =
    let (found_, p) = subst (λ s. IsSettledAs s w) running settled in
    subst (IsParked w) (some_unique (active_execution w) _ e p.first here) p

pub is_running-eq : (s : InstanceStatus) → is_running s ≡ true → s ≡ InstanceStatus.running
is_running-eq s h = ground (arith, h)

module _ (host : Host) (d : ProcessDefinition) (fuel : ℕ) (x : Decision) (w : Walk) where
  -- The decision is on the walk before the node is settled.
  pub decide-noted :
      (P : Walk → Type 0)
      → ((e : NodeExecution) (node : ProcessNode)
          → IsDecidable x w e
          → first_where (decided_by e.id x.actor_id) w.decisions ≡ none
          → node_of e.node_key d.nodes ≡ some node
          → Brings P
              (settle_node host d fuel node e.id x (note_decision e.id (decision_of e.id x) w)))
      → Brings P (decide host d fuel x w)
  unfolding decide
  decide-noted P h =
      bind-Brings (IsDecidable x w) P (may_decide x w) _ (may_decide-IsDecidable x w) (λ e may.
        bind-Brings
          (λ (u : Walk).
            (first_where (decided_by e.id x.actor_id) w.decisions ≡ none)
            × (u ≡ note_decision e.id (decision_of e.id x) w))
          P (add_decision e.id x w) _ (add_decision-Brings _ e.id x w (λ fresh. (fresh, refl)))
          (λ u (fresh, same). found-Brings P raised (node_of e.node_key d.nodes) _ (λ node known.
            subst (λ v. Brings P (settle_node host d fuel node e.id x v)) (sym same)
              (h e node may fresh known))))

  pub decide-IsSound : IsSound w → Brings IsSound (decide host d fuel x w)
  decide-IsSound (settled, lawful) = decide-noted IsSound (λ e node may fresh known.
      let u = note_decision e.id (decision_of e.id x) w in
      let running = is_running-eq w.instance.status may.runs in
      let parked =
        note_decision-IsParked w e x (decision_of e.id x)
          (running-IsParked w e settled running may.here) in
      let keeps = note_decision-IsLawful w e x (decision_of e.id x) lawful may.other refl fresh in
      Brings-mono (Settles u) IsSound (settle_node host d fuel node e.id x u)
        (λ v. Settles-IsSound u v keeps)
        (settle_node-Settles host d fuel u e parked (unfold note_decision in running) node x))
