-- ===== src/Workflow/Outcomes.antt =====
-- What ends an instance of packages/asas-workflow.
use asas.Base.{◌≡◌, refl, true, false, arith, ◌==◌, not, ◌||◌, first_where}
use asas.Workflow.Model.{
  Walk, ProcessDefinition, Result, ok, refused, is_running, is_error, raised, not_pending,
  not_running, not_asked, answer_required, not_error, is_requested, is_pending, is_active,
}
use asas.Workflow.Results.{Brings, ok-Brings, require-Brings, found-Brings}
use asas.Workflow.Rows.{Host, execution_has_id}
use asas.Workflow.Actions.{decide, is_blank}
use asas.Workflow.Operations.{request_info, answer_info, cancel, retry, reassign, row_at}
use asas.Workflow.Settled.{active, IsSettled}
use asas.Workflow.Deciding.{decide-noted}
use asas.Workflow.Tables.{active-running, count_where-found}
use asas.Workflow.Runs.{
  Step, History, decides, asks, answers, cancels, retries, reassigns, History-IsSound,
}

-- A fact that does not depend on the answer.
always-Brings {ℓ κ} : {A : Type ℓ} {X : Type κ} (m : Result A) → X → Brings (λ a. X) m
always-Brings (ok a) x = x
always-Brings (refused e) x = tt

module _ (host : Host) (d : ProcessDefinition) (w : Walk) where
  abbrev Runs : Walk → Type 0
  Runs u = is_running w.instance.status ≡ true

  abbrev RunsOrFailed : Walk → Type 0
  RunsOrFailed u = (is_running w.instance.status || is_error w.instance.status) ≡ true

  -- Whatever acts on an instance needs it to run, but `retry`, which needs it to be in error.
  Step-open :
      (u : Walk)
      → IsSettled w
      → Step host d w u
      → (is_running w.instance.status || is_error w.instance.status) ≡ true
  unfolding request_info answer_info cancel retry reassign
  Step-open u s (decides fuel x h) =
      let runs =
        ok-Brings Runs (decide host d fuel x w) u
          (decide-noted host d fuel x w Runs (λ e node may fresh known. always-Brings _ may.runs))
          h in
      ground (arith, runs)
  Step-open u s (asks actor asked_of question is_admin h) =
      let runs =
        ok-Brings Runs (request_info d actor asked_of question is_admin w) u
          (require-Brings Runs (is_running w.instance.status) not_running _
            (λ r. always-Brings _ r))
          h in
      ground (arith, runs)
  Step-open u s (answers fuel n actor answer is_admin h) =
      let runs =
        ok-Brings Runs (answer_info host d fuel n actor answer is_admin w) u
          (found-Brings Runs raised (row_at n w.asks) _ (λ ask _.
            require-Brings Runs (is_pending ask.status) not_pending _ (λ _.
              require-Brings Runs (actor == ask.asked_of || is_admin) not_asked _ (λ _.
                require-Brings Runs (not (is_blank answer)) answer_required _ (λ _.
                  found-Brings Runs raised
                    (first_where (execution_has_id ask.execution_id) w.executions) _
                    (λ e _.
                      require-Brings Runs (is_running w.instance.status) not_running _
                        (λ r. always-Brings _ r)))))))
          h in
      ground (arith, runs)
  Step-open u s (cancels actor is_admin h) =
      let runs =
        ok-Brings Runs (cancel actor is_admin w) u
          (require-Brings Runs (is_running w.instance.status) not_running _
            (λ r. always-Brings _ r))
          h in
      ground (arith, runs)
  Step-open u s (retries fuel h) =
      ok-Brings RunsOrFailed (retry host d fuel w) u
        (require-Brings RunsOrFailed (is_error w.instance.status) not_error _ (λ r.
          always-Brings {X = (is_running w.instance.status || is_error w.instance.status) ≡ true} _
            (ground (arith, r))))
        h
  Step-open u s (reassigns n member h) =
      ok-Brings RunsOrFailed (reassign n member w) u
        (found-Brings RunsOrFailed raised (row_at n w.assignees) _ (λ row _.
          require-Brings RunsOrFailed (is_requested row.status) not_pending _ (λ _.
            found-Brings RunsOrFailed raised
              (first_where (execution_has_id row.execution_id) w.executions) _
              (λ e here. require-Brings RunsOrFailed (is_active e.status) not_pending _ (λ on.
                rw
                  (active-running w.instance.status w s (
                    count_where-found (execution_has_id row.execution_id) active w.executions e here
                      on))
                  refl)))))
        h

-- Completed and canceled are final: after any history, nothing that anybody does, a decision, an
-- answer to a request, a cancellation, a retry or a reassignment, is accepted any more.
pub terminal_final :
    (host : Host) (d : ProcessDefinition) (w u : Walk)
    → History host d w
    → is_running w.instance.status ≡ false
    → is_error w.instance.status ≡ false
    → ¬ Step host d w u
terminal_final host d w u h idle sane step =
    let open_ = Step-open host d w u (History-IsSound host d h).0 step in
    absurd (ground (arith, open_, idle, sane))
