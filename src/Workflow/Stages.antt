-- ===== src/Workflow/Stages.antt =====
-- The stages between two nodes of a walk, packages/asas-workflow/src/asas_workflow/engine.py: _advance_or_fail and _complete_instance.
use asas.Base.{◌≡◌, refl, String, Bool, true, false, Option, none, some, is_some}
use asas.Workflow.Model.{InstanceStatus, Walk, ProcessNode, ProcessDefinition, ok, raised}
use asas.Workflow.Results.{Brings, require-Brings, bind-Brings}
use asas.Workflow.Graph.{select_next}
use asas.Workflow.Rows.{Host, fail_execution, fail_instance, complete_instance, text_or, closed}
use asas.Workflow.Nodes.{advance_or_fail, rejected_outcome, advance_to}
use asas.Workflow.Settled.{IsQuiet, IsSettled}

abbrev pub Keeps : Walk → Walk → Type 0
Keeps w w' = (w'.decisions ≡ w.decisions) × (w'.instance.initiated_by ≡ w.instance.initiated_by)

-- Between two nodes.
abbrev pub IsUnderway : Walk → Type 0
IsUnderway w =
    IsQuiet w
    × (w.instance.status ≡ InstanceStatus.running)
    × (is_some w.instance.current_node_key ≡ true)

abbrev pub IsStage : Walk → Walk × Option String → Type 0
IsStage w (w', none) = IsSettled w' × Keeps w w'
IsStage w (w', some k) = IsUnderway w' × Keeps w w'

module _ (host : Host) (d : ProcessDefinition) where
  pub complete_instance-IsSettled :
      (outcome : String) (w : Walk)
      → IsQuiet w
      → Brings (λ w'. IsStage w (w', none)) (complete_instance host d outcome w)
  unfolding complete_instance
  complete_instance-IsSettled outcome w q =
      require-Brings (λ (w' : Walk). IsStage w (w', none))
        (host.completion_callback (text_or d.purpose d.key) (closed outcome w).instance outcome)
        raised (ok (closed outcome w))
        (λ _. (
          (record { idle = q.idle; unasked = q.unasked; answered = q.answered }, refl, refl),
          (refl, refl),
        ))

  pub advance_to-IsStage :
      (node : ProcessNode) (positive : Bool) (w : Walk) (picked : Option String)
      → IsUnderway w
      → Brings (IsStage w) (advance_to host d node positive w picked)
  unfolding advance_to fail_instance fail_execution
  advance_to-IsStage node positive w (some k) u = (u, (refl, refl))
  advance_to-IsStage node true w none (q, running, current) = (
    (record { idle = q.idle; unasked = q.unasked; answered = q.answered }, current, refl),
    (refl, refl),
  )
  advance_to-IsStage node false w none (q, running, current) =
      bind-Brings (λ (w' : Walk). IsStage w (w', none)) (IsStage w)
        (complete_instance host d rejected_outcome w) (λ w'. ok (w', none))
        (complete_instance-IsSettled rejected_outcome w q) (λ w' s. s)

  pub advance_or_fail-IsStage :
      (node : ProcessNode) (positive : Bool) (w : Walk)
      → IsUnderway w
      → Brings (IsStage w) (advance_or_fail host d node positive w)
  unfolding advance_or_fail
  advance_or_fail-IsStage node positive w u =
      advance_to-IsStage node positive w (select_next d node.node_key w.instance.data_ positive) u
