-- ===== src/Workflow/Settled.antt =====
-- The states that a walk of packages/asas-workflow may be left in, and what completing an execution
-- does to them.
use asas.Base.{
  ℕ, ◌≡◌, ◌==◌, refl, sym, subst, Bool, true, false, none, some, List, Fields, ◌&&◌, not, is_some,
  arith, first_where, count_where, ==_iff, count_where-cleared, count_where-split, count_where-hit,
  count_where_mono,
}
use asas.Workflow.Model.{
  NodeType, InstanceStatus, NodeExecution, NodeAssignee, InfoRequest, Walk, is_active, is_requested,
  is_pending, Failure,
}
use asas.Workflow.Rows.{
  complete_execution, fail_execution, active_execution, execution_has_id, waits, asks_now, release,
  withdraw, complete_row, fail_row, fail_instance,
}

abbrev pub active : NodeExecution → Bool
active e = is_active e.status

abbrev pub requested_ : NodeAssignee → Bool
requested_ a = is_requested a.status

abbrev pub pending_ : InfoRequest → Bool
pending_ a = is_pending a.status

abbrev pub elsewhere : ℕ → NodeAssignee → Bool
elsewhere id a = is_requested a.status && not (a.execution_id == id)

abbrev pub pends_elsewhere : ℕ → InfoRequest → Bool
pends_elsewhere id a = is_pending a.status && not (a.execution_id == id)

-- Nothing is active, nobody is asked.
pub record IsQuiet (w : Walk) : Type 0 where
  pub idle : count_where active w.executions ≡ 0
  pub unasked : count_where requested_ w.assignees ≡ 0
  pub answered : count_where pending_ w.asks ≡ 0

abbrev pub awaits : NodeType → Bool
awaits t = elim t [ NodeType.approval ↦ true | NodeType.request_info ↦ true | _ ↦ false ]

-- One execution is active, of the current node, which waits for members; only it asks anybody.
pub record IsParked (w : Walk) (e : NodeExecution) : Type 0 where
  pub first : active_execution w ≡ some e
  pub alone : count_where active w.executions ≡ 1
  pub current : w.instance.current_node_key ≡ some e.node_key
  pub manned : awaits e.node_type ≡ true
  pub asked_here : count_where (elsewhere e.id) w.assignees ≡ 0
  pub pends_here : count_where (pends_elsewhere e.id) w.asks ≡ 0

abbrev pub IsSettledAs : InstanceStatus → Walk → Type 0
IsSettledAs InstanceStatus.running w = (e : NodeExecution) × IsParked w e
IsSettledAs InstanceStatus.completed w =
    IsQuiet w × (w.instance.current_node_key ≡ none) × (is_some w.instance.outcome ≡ true)
IsSettledAs InstanceStatus.canceled w = IsQuiet w × (w.instance.current_node_key ≡ none)
IsSettledAs InstanceStatus.error w =
    IsQuiet w × (is_some w.instance.current_node_key ≡ true) × (is_some w.instance.error_ ≡ true)

abbrev pub IsSettled : Walk → Type 0
IsSettled w = IsSettledAs w.instance.status w

-- The only active execution is the one that has its id.
alone-id :
    (es : List NodeExecution) (e : NodeExecution)
    → first_where active es ≡ some e
    → count_where active es ≡ 1
    → count_where (λ x. active x && not (execution_has_id e.id x)) es ≡ 0
alone-id es e first alone = omega (
  arith,
  count_where-split active (execution_has_id e.id) es,
  count_where-hit active (execution_has_id e.id) es e first ((==_iff e.id e.id).1 refl),
)

module _ (id : ℕ) (result : Fields) (w : Walk) where
  -- Completing the one execution that is active and asks leaves nothing open.
  pub complete_execution-IsQuiet :
      count_where (λ e. active e && not (execution_has_id id e)) w.executions ≡ 0
      → count_where (elsewhere id) w.assignees ≡ 0
      → count_where (pends_elsewhere id) w.asks ≡ 0
      → IsQuiet (complete_execution id result w)
  unfolding complete_execution
  complete_execution-IsQuiet alone asked pends = record {
    idle = omega (
      arith,
      alone,
      count_where-cleared active (execution_has_id id) (complete_row result) w.executions
          (λ x h. refl),
    );
    unasked = omega (
      arith,
      count_where-cleared requested_ (waits id) release w.assignees (λ x h. refl),
      count_where_mono (λ a. requested_ a && not (waits id a)) (elsewhere id) w.assignees
          (λ a h. ground (arith, h)),
    );
    answered = omega (
      arith,
      count_where-cleared pending_ (asks_now id) withdraw w.asks (λ x h. refl),
      count_where_mono (λ a. pending_ a && not (asks_now id a)) (pends_elsewhere id) w.asks
          (λ a h. ground (arith, h)),
    );
  }

pub parked-IsQuiet :
    (w : Walk) (e : NodeExecution) (result : Fields)
    → IsParked w e
    → IsQuiet (complete_execution e.id result w)
unfolding active_execution
parked-IsQuiet w e result p =
    complete_execution-IsQuiet e.id result w (alone-id w.executions e p.first p.alone) p.asked_here
      p.pends_here

-- An execution that has just been added to a quiet walk.
pub record IsEntered (w : Walk) (e : NodeExecution) : Type 0 where
  pub first : active_execution w ≡ some e
  pub alone : count_where active w.executions ≡ 1
  pub current : w.instance.current_node_key ≡ some e.node_key
  pub unasked : count_where requested_ w.assignees ≡ 0
  pub answered : count_where pending_ w.asks ≡ 0

pub count-nowhere :
    (id : ℕ) (as_ : List NodeAssignee)
    → count_where requested_ as_ ≡ 0
    → count_where (elsewhere id) as_ ≡ 0
count-nowhere id as_ h =
    omega (arith, h, count_where_mono (elsewhere id) requested_ as_ (λ a k. ground (arith, k)))

pub count-pends_nowhere :
    (id : ℕ) (asks : List InfoRequest)
    → count_where pending_ asks ≡ 0
    → count_where (pends_elsewhere id) asks ≡ 0
count-pends_nowhere id asks h =
    omega (arith, h, count_where_mono (pends_elsewhere id) pending_ asks (λ a k. ground (arith, k)))

module _ (w : Walk) (e : NodeExecution) (entered : IsEntered w e) where
  pub entered-IsQuiet : (result : Fields) → IsQuiet (complete_execution e.id result w)
  unfolding active_execution
  entered-IsQuiet result =
      complete_execution-IsQuiet e.id result w (alone-id w.executions e entered.first entered.alone)
        (count-nowhere e.id w.assignees entered.unasked)
        (count-pends_nowhere e.id w.asks entered.answered)

  pub fail_instance-IsQuiet : (f : Failure) → IsQuiet (fail_instance (some e.id) f w)
  unfolding fail_instance fail_execution active_execution
  fail_instance-IsQuiet f = record {
    idle = omega (
      arith,
      alone-id w.executions e entered.first entered.alone,
      count_where-cleared active (execution_has_id e.id) (fail_row f) w.executions (λ x h. refl),
    );
    unasked = entered.unasked;
    answered = entered.answered;
  }

pub parked-IsSettled :
    (w : Walk) (e : NodeExecution)
    → w.instance.status ≡ InstanceStatus.running
    → IsParked w e
    → IsSettled w
parked-IsSettled w e running p = subst (λ s. IsSettledAs s w) (sym running) (e, p)
