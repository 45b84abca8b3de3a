-- ===== src/Workflow/Lawful.antt =====
-- Lawful decisions, and how a node that members complete goes on, packages/asas-workflow/src/asas_workflow/engine.py.
use asas.Base.{
  update_first, ℕ, ◌≡◌, ◌≤◌, refl, sym, ◌∙◌, String, Bool, true, none, some, List, [], ◌∷◌, Fields,
  not, ◌||◌, arith, count_where,
}
use asas.Workflow.Model.{
  InstanceStatus, NodeExecution, Walk, Verdict, positive, negative, is_positive, ProcessNode,
  ProcessDefinition, ok, ◌>>=◌,
}
use asas.Workflow.Results.{Brings, bind-Brings, if-Brings, Brings-mono}
use asas.Workflow.Rows.{Host, complete_execution}
use asas.Workflow.Nodes.{advance_or_fail}
use asas.Workflow.Walks.{run_from, follow}
use asas.Workflow.Actions.{
  Decision, settle_node, finish_approval, record_result, verdict_result, decided_by, any_suffices,
  all_decided_positive,
}
use asas.Workflow.Settled.{IsParked, IsSettled, parked-IsQuiet, parked-IsSettled}
use asas.Workflow.Stages.{Keeps, IsStage, advance_or_fail-IsStage}
use asas.Workflow.Progress.{Settles, IsStage-later, follow-Settles, run_from-Settles}

pub record IsLawful (w : Walk) : Type 0 where
  pub no_self :
      (id m : ℕ) → w.instance.initiated_by ≡ some m → count_where (decided_by id m) w.decisions ≡ 0
  pub single : (id m : ℕ) → count_where (decided_by id m) w.decisions ≤ 1

abbrev pub IsSound : Walk → Type 0
IsSound w = IsSettled w × IsLawful w

pub Keeps-IsLawful : (w u : Walk) → Keeps w u → IsLawful w → IsLawful u
Keeps-IsLawful w u (same, initiator) l = record {
  no_self = λ id m h. rw same (l.no_self id m (sym initiator ∙ h));
  single = λ id m. rw same (l.single id m);
}

pub Settles-IsSound : (w u : Walk) → IsLawful w → Settles w u → IsSound u
Settles-IsSound w u l (settled, keeps) = (settled, Keeps-IsLawful w u keeps l)

module _ (host : Host) (d : ProcessDefinition) (fuel : ℕ) (w : Walk) (e : NodeExecution)
    (parked : IsParked w e) (running : w.instance.status ≡ InstanceStatus.running) where
  -- Members complete the node of the active execution, and the walk goes on.
  pub completed-Settles :
      (node : ProcessNode) (forward : Bool) (key : String) (result : Fields)
      → Brings (Settles w) (
          advance_or_fail host d node forward (record_result e.id key result w)
          >>= follow (run_from host d fuel) ok)
  unfolding record_result complete_execution
  completed-Settles node forward key result =
      let u = record_result e.id key result w in
      let q = parked-IsQuiet w e result parked in
      bind-Brings (IsStage u) (Settles w) (advance_or_fail host d node forward u)
        (follow (run_from host d fuel) ok)
        (advance_or_fail-IsStage host d node forward u (
          record { idle = q.idle; unasked = q.unasked; answered = q.answered },
          running,
          ground (arith, parked.current),
        ))
        (λ step stage.
          Brings-mono (Settles u) (Settles w) (follow (run_from host d fuel) ok step)
            (λ v. IsStage-later w u (v, none) (refl, refl))
            (follow-Settles (run_from host d fuel) u step
              (λ k v under. run_from-Settles host d fuel k v under.0 under.1) stage))

  pub finish_approval-Settles :
      (node : ProcessNode) (v : Verdict) (actor : ℕ)
      → Brings (Settles w) (finish_approval host d fuel node e.id v actor w)
  unfolding finish_approval
  finish_approval-Settles node v actor =
      completed-Settles node (is_positive v) node.node_key (verdict_result v actor)

  pub settle_node-Settles :
      (node : ProcessNode) (x : Decision)
      → Brings (Settles w) (settle_node host d fuel node e.id x w)
  unfolding settle_node
  settle_node-Settles node x =
      if-Brings (Settles w) (not (is_positive x.verdict)) _ _
        (λ _. finish_approval-Settles node negative x.actor_id)
        (λ _.
          if-Brings (Settles w) (any_suffices node.config.quorum || all_decided_positive e.id w) _ _
            (λ _. finish_approval-Settles node positive x.actor_id)
            (λ _. (parked-IsSettled w e running parked, (refl, refl))))

module _ {ℓ} {A : Type ℓ} where
  -- Counting by a condition that the update of a row can only falsify.
  pub count_where-update_first-le :
      (q p : A → Bool) (f : A → A) (xs : List A)
      → ((x : A) → q (f x) ≡ true → q x ≡ true)
      → count_where q (update_first p f xs) ≤ count_where q xs
  unfolding update_first count_where
  count_where-update_first-le q p f [] h = omega arith
  count_where-update_first-le q p f (x ∷ xs) h =
      ground (arith, h x, count_where-update_first-le q p f xs h)
