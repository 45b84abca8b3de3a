-- ===== src/Workflow/Acting.antt =====
-- :That cancel and reassign of packages/asas-workflow/src/asas_workflow/engine.py leave an instance settled.
use asas.Base.{
  ℕ, ◌≡◌, refl, sym, ap, ◌∙◌, subst, Bool, true, some, List, [], ◌∷◌, ◌++◌, ◌||◌, arith,
  first_where, count_where, Bool-cases, inl, inr, count_where-append, same_num,
}
use asas.Workflow.Model.{
  NodeExecution, NodeAssignee, Walk, is_requested, is_running, is_active, raised, not_running,
  not_pending, not_initiator,
}
use asas.Workflow.Results.{Brings, require-Brings, found-Brings}
use asas.Workflow.Rows.{complete_execution, active_execution, execution_has_id, release}
use asas.Workflow.Operations.{
  row_at, update_at, complete_active, canceled_result, cancel, reassign, canceled_walk, replacement,
}
use asas.Workflow.Settled.{active, elsewhere, IsParked, parked-IsQuiet, parked-IsSettled}
use asas.Workflow.Lawful.{IsSound, Keeps-IsLawful}
use asas.Workflow.Tables.{row_at-count, count_where-update_at-le, count_where-found, active-running}
use asas.Workflow.Asking.{IsParked-now}

complete_active-none :
    (es : List NodeExecution) (w : Walk) → count_where active es ≡ 0 → complete_active es w ≡ w
unfolding complete_active count_where
complete_active-none [] w h = refl
complete_active-none (e ∷ es) w h = elim (Bool-cases (active e)) [
  | inl hit ↦ absurd (ground (arith, h, hit))
  | inr miss ↦ rw miss (complete_active-none es w (ground (arith, h, miss)))
]

-- Where one execution is active, the loop completes it.
complete_active-one :
    (es : List NodeExecution) (w : Walk) (e : NodeExecution)
    → first_where active es ≡ some e
    → count_where active es ≡ 1
    → complete_active es w ≡ complete_execution e.id canceled_result w
unfolding complete_active count_where first_where
complete_active-one [] w e h k = absurd (ground (arith, h))
complete_active-one (x ∷ es) w e h k = elim (Bool-cases (active x)) [
  | inl hit ↦ rw hit (
      complete_active-none es (complete_execution x.id canceled_result w) (ground (arith, k, hit))
      ∙ ap (λ (y : NodeExecution). complete_execution y.id canceled_result w) {x = x} {y = e}
          (ground (arith, h, hit)))
  | inr miss ↦
      rw miss (complete_active-one es w e (ground (arith, h, miss)) (ground (arith, k, miss)))
]

module _ (w : Walk) (sound : IsSound w) where
  pub cancel-IsSound : (actor : ℕ) (is_admin : Bool) → Brings IsSound (cancel actor is_admin w)
  unfolding cancel
  cancel-IsSound actor is_admin =
      require-Brings IsSound (is_running w.instance.status) not_running _ (λ runs.
        require-Brings IsSound (same_num w.instance.initiated_by (some actor) || is_admin)
          not_initiator _
          (λ _.
            let (e, p) = IsParked-now w sound runs in
            let u = complete_execution e.id canceled_result w in
            let q = parked-IsQuiet w e canceled_result p in
            subst (λ (v : Walk). IsSound (canceled_walk v))
              (sym
                (complete_active-one w.executions w e (unfold active_execution in p.first) p.alone))
              (
                (record { idle = q.idle; unasked = q.unasked; answered = q.answered }, refl),
                Keeps-IsLawful w (canceled_walk u) (unfold complete_execution in (refl, refl))
                    sound.1,
              )))

  reassign-IsParked :
      (e : NodeExecution) (n member : ℕ) (row : NodeAssignee)
      → IsParked w e
      → row_at n w.assignees ≡ some row
      → is_requested row.status ≡ true
      → IsParked
          (record w { assignees = update_at n release w.assignees ++ replacement row member ∷ [] })
          e
  unfolding active_execution count_where
  reassign-IsParked e n member row p at asked_ = record {
    first = p.first;
    alone = p.alone;
    current = p.current;
    manned = p.manned;
    asked_here = ground (
      arith,
      p.asked_here,
      asked_,
      row_at-count (elsewhere e.id) n w.assignees row at,
      count_where-append (elsewhere e.id) (update_at n release w.assignees)
          (replacement row member ∷ []),
      count_where-update_at-le (elsewhere e.id) n release w.assignees
          (λ a h. absurd (ground (arith, h))),
    );
    pends_here = p.pends_here;
  }

  pub reassign-IsSound : (n member : ℕ) → Brings IsSound (reassign n member w)
  unfolding reassign
  reassign-IsSound n member = found-Brings IsSound raised (row_at n w.assignees) _ (λ row at.
      require-Brings IsSound (is_requested row.status) not_pending _ (λ asked_.
        found-Brings IsSound raised (first_where (execution_has_id row.execution_id) w.executions) _
          (λ e' found_. require-Brings IsSound (is_active e'.status) not_pending _ (λ on.
            let running = active-running w.instance.status w sound.0 (
              count_where-found (execution_has_id row.execution_id) active w.executions e' found_
                on) in
            let (e, p) = IsParked-now w sound (rw running refl) in
            (
              parked-IsSettled _ e running (reassign-IsParked e n member row p at asked_),
              Keeps-IsLawful w _ (refl, refl) sound.1,
            )))))
