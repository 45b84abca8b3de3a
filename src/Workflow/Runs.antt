-- ===== src/Workflow/Runs.antt =====
-- The histories of an instance of packages/asas-workflow: it is opened, then members, initiators and
-- admins act on it in any order. A call that is refused changes nothing and is no step.
use asas.Base.{
  same_num, same_num_iff, ◌⊎◌, inl, inr, Bool-cases, false, ℕ, ◌≡◌, ◌≤◌, String, Bool, some,
  count_where,
}
use asas.Workflow.Model.{Walk, ProcessDefinition, ok}
use asas.Workflow.Results.{ok-Brings}
use asas.Workflow.Rows.{Host}
use asas.Workflow.Actions.{Decision, decide, decided_by}
use asas.Workflow.Operations.{
  Opening, open_instance, request_info, answer_info, cancel, retry, reassign,
}
use asas.Workflow.Settled.{IsSettled}
use asas.Workflow.Lawful.{IsSound}
use asas.Workflow.Deciding.{decide-IsSound}
use asas.Workflow.Asking.{request_info-IsSound}
use asas.Workflow.Answering.{answer_info-IsSound, retry-IsSound, open_instance-IsSound}
use asas.Workflow.Acting.{cancel-IsSound, reassign-IsSound}

module _ (host : Host) (d : ProcessDefinition) where
  pub data Step (w u : Walk) : Type 0 where
    decides : (fuel : ℕ) (x : Decision) → decide host d fuel x w ≡ ok u → Step w u
    asks :
        (actor asked_of : ℕ) (question : String) (is_admin : Bool)
        → request_info d actor asked_of question is_admin w ≡ ok u
        → Step w u
    answers :
        (fuel n actor : ℕ) (answer : String) (is_admin : Bool)
        → answer_info host d fuel n actor answer is_admin w ≡ ok u
        → Step w u
    cancels : (actor : ℕ) (is_admin : Bool) → cancel actor is_admin w ≡ ok u → Step w u
    retries : (fuel : ℕ) → retry host d fuel w ≡ ok u → Step w u
    reassigns : (n member : ℕ) → reassign n member w ≡ ok u → Step w u

  pub data History : Walk → Type 0 where
    opens :
        {w : Walk} (fuel : ℕ) (x : Opening) → open_instance host fuel (some d) x ≡ ok w → History w
    then_ : {w u : Walk} → History w → Step w u → History u

  Step-IsSound : (w u : Walk) → Step w u → IsSound w → IsSound u
  Step-IsSound w u (decides fuel x h) s = ok-Brings IsSound _ u (decide-IsSound host d fuel x w s) h
  Step-IsSound w u (asks actor asked_of question is_admin h) s =
      ok-Brings IsSound _ u (request_info-IsSound w s d actor asked_of question is_admin) h
  Step-IsSound w u (answers fuel n actor answer is_admin h) s =
      ok-Brings IsSound _ u (answer_info-IsSound host d fuel w s n actor answer is_admin) h
  Step-IsSound w u (cancels actor is_admin h) s =
      ok-Brings IsSound _ u (cancel-IsSound w s actor is_admin) h
  Step-IsSound w u (retries fuel h) s = ok-Brings IsSound _ u (retry-IsSound host d fuel w s) h
  Step-IsSound w u (reassigns n member h) s =
      ok-Brings IsSound _ u (reassign-IsSound w s n member) h

  pub History-IsSound : {w : Walk} → History w → IsSound w
  History-IsSound (opens {w = w} fuel x h) =
      ok-Brings IsSound _ w (open_instance-IsSound host fuel (some d) x) h
  History-IsSound (then_ {w = w} {u = u} before step) =
      Step-IsSound w u step (History-IsSound before)

-- After any history an instance is settled. A running one is parked: exactly one execution is active,
-- at the current node, an approval or a request for information, and every open ask stands on it. One
-- that is completed (then with an outcome), canceled or in error (then with a node to retry from) has
-- no active execution and nobody is asked.
pub History-IsSettled :
    (host : Host) (d : ProcessDefinition) {w : Walk} → History host d w → IsSettled w
History-IsSettled host d h = (History-IsSound host d h).0

-- After any history nobody has given two final verdicts on one execution, and the initiator has given
-- none, admin or reassigned assignee as they may be.
pub History-IsLawful :
    (host : Host) (d : ProcessDefinition) {w : Walk}
    → History host d w
    → (id m : ℕ)
    → (count_where (decided_by id m) w.decisions ≤ 1)
      × ((same_num w.instance.initiated_by (some m) ≡ false)
          ⊎ (count_where (decided_by id m) w.decisions ≡ 0))
History-IsLawful host d {w} h id m =
    let lawful = (History-IsSound host d h).1 in
    (
      lawful.single id m,
      elim (Bool-cases (same_num w.instance.initiated_by (some m))) [
        | inl self ↦
            inr (lawful.no_self id m ((same_num_iff w.instance.initiated_by (some m)).0 self))
        | inr other ↦ inl other
      ],
    )
