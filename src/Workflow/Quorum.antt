-- ===== src/Workflow/Quorum.antt =====
-- What a quorum other than "any" asks for: `decide` of packages/asas-workflow/src/asas_workflow/engine.py.
use asas.Base.{
  ℕ, ◌≡◌, ◌≢◌, ◌<◌, refl, Bool, true, false, some, List, [], ◌∷◌, ◌++◌, is_some, arith, ◌==◌, ◌&&◌,
  first_where, count_where, update_first, inl, inr, Option-cases, count_where-first,
  first_where-count, count_where-append, count_where_mono, some_unique, subst, ==_iff,
}
use asas.Workflow.Model.{
  Walk, ProcessDefinition, ProcessNode, NodeExecution, NodeAssignee, NodeDecision, ok, is_required,
  is_positive,
}
use asas.Workflow.Results.{Brings, ok-Brings}
use asas.Workflow.Graph.{node_of}
use asas.Workflow.Rows.{Host, active_execution, asked}
use asas.Workflow.Actions.{
  Decision, decide, approves, lacks, all_decided_positive, any_suffices, settle_node, decision_row,
  note_decision, settle_row,
}
use asas.Workflow.Deciding.{decide-noted, decision_of}

-- A row of a member whose decision the execution asks for.
abbrev pub asks_for : ℕ → ℕ → NodeAssignee → Bool
asks_for id m a = a.execution_id == id && a.member_id == m && is_required a.status

-- A positive decision of a member on the execution.
abbrev pub agrees : ℕ → ℕ → NodeDecision → Bool
agrees id m k = k.execution_id == id && k.actor_id == m && is_positive k.verdict

-- Settling the row of another actor leaves a member's rows.
asks_for-update :
    (id m actor : ℕ) (xs : List NodeAssignee)
    → m ≢ actor
    → count_where (asks_for id m) (update_first (asked id actor) settle_row xs)
      ≡ count_where (asks_for id m) xs
unfolding update_first count_where
asks_for-update id m actor [] other = refl
asks_for-update id m actor (a ∷ as_) other =
    ground (arith, other, asks_for-update id m actor as_ other)

silent-none :
    (id m : ℕ) (ks : List NodeDecision)
    → count_where (agrees id m) ks ≡ 0
    → is_some (first_where (approves id m) ks) ≡ false
silent-none id m ks silent = elim (Option-cases (first_where (approves id m) ks)) [
  | inl q ↦ rw q refl
  | inr (k, q) ↦
      let hit = count_where-first (approves id m) ks k q in absurd (omega (arith, hit, silent))
]

-- Who is asked for and silent is lacking.
silent-lacks :
    (id m : ℕ) (ks : List NodeDecision) (a : NodeAssignee)
    → count_where (agrees id m) ks ≡ 0
    → asks_for id m a ≡ true
    → lacks id ks a ≡ true
silent-lacks id m ks a silent asked_ =
    let same : a.member_id ≡ m = (==_iff a.member_id m).0 (ground (arith, asked_)) in
    let none_ = silent-none id a.member_id ks (rw same silent) in ground (arith, asked_, none_)

lacks-found :
    (id m : ℕ) (ks : List NodeDecision) (xs : List NodeAssignee)
    → count_where (agrees id m) ks ≡ 0
    → 0 < count_where (asks_for id m) xs
    → is_some (first_where (lacks id ks) xs) ≡ true
lacks-found id m ks xs silent some_ =
    let more =
      count_where_mono (asks_for id m) (lacks id ks) xs (λ a. silent-lacks id m ks a silent) in
    elim (Option-cases (first_where (lacks id ks) xs)) [
      | inl q ↦
          let no_ = first_where-count (lacks id ks) xs q in absurd (omega (arith, no_, more, some_))
      | inr (a, q) ↦ rw q refl
    ]

-- The node is not settled while such a member is silent.
settle_node-waits :
    (host : Host) (d : ProcessDefinition) (fuel : ℕ) (node : ProcessNode) (id m : ℕ) (x : Decision)
    (w : Walk)
    → any_suffices node.config.quorum ≡ false
    → is_positive x.verdict ≡ true
    → m ≢ x.actor_id
    → 0 < count_where (asks_for id m) w.assignees
    → count_where (agrees id m) w.decisions ≡ 0
    → settle_node host d fuel node id x (note_decision id (decision_of id x) w)
      ≡ ok (note_decision id (decision_of id x) w)
unfolding settle_node all_decided_positive note_decision count_where
settle_node-waits host d fuel node id m x w quorum approves_ other asked_ silent =
    let row = decision_of id x in
    let left = asks_for-update id m x.actor_id w.assignees other in
    let quiet : count_where (agrees id m) (w.decisions ++ row ∷ []) ≡ 0 =
      rw (count_where-append (agrees id m) w.decisions (row ∷ []))
        (ground (arith, silent, other)) in
    let waits_ =
      lacks-found id m (w.decisions ++ row ∷ [])
        (update_first (asked id x.actor_id) settle_row w.assignees) quiet
        (omega (arith, left, asked_)) in
    rw (approves_, quorum, waits_) refl

-- Where the node has a quorum other than "any", and a member whose decision the active execution asks for
-- is not the actor and has no positive decision on it, a positive decision that is accepted completes
-- nothing: the instance and the executions stay as they are, and the decision is added behind the others.
pub decide_waits :
    (host : Host) (d : ProcessDefinition) (fuel : ℕ) (x : Decision) (w u : Walk) (e : NodeExecution)
    (node : ProcessNode) (m : ℕ)
    → decide host d fuel x w ≡ ok u
    → active_execution w ≡ some e
    → node_of e.node_key d.nodes ≡ some node
    → any_suffices node.config.quorum ≡ false
    → is_positive x.verdict ≡ true
    → m ≢ x.actor_id
    → 0 < count_where (asks_for e.id m) w.assignees
    → count_where (agrees e.id m) w.decisions ≡ 0
    → (u.instance ≡ w.instance)
      × (u.executions ≡ w.executions)
      × (u.decisions
          ≡ w.decisions ++ decision_row e.id x.actor_id x.on_behalf_of x.verdict x.comment ∷ [])
decide_waits host d fuel x w u e node m accepted here known quorum approves_ other asked_ silent =
    let P : Walk → Type 0 = λ v. v ≡ note_decision e.id (decision_of e.id x) w in
    let same : u ≡ note_decision e.id (decision_of e.id x) w =
      ok-Brings P (decide host d fuel x w) u
        (decide-noted host d fuel x w P (λ e' node' may fresh known'.
          subst
            (λ (f : NodeExecution).
              node_of f.node_key d.nodes ≡ some node'
              → Brings P (
                  settle_node host d fuel node' f.id x (note_decision f.id (decision_of f.id x) w)))
            (some_unique (active_execution w) e e' here may.here)
            (λ known_here.
              subst
                (λ n.
                  Brings P
                    (settle_node host d fuel n e.id x (note_decision e.id (decision_of e.id x) w)))
                (some_unique (node_of e.node_key d.nodes) node node' known known_here)
                (rw
                  (settle_node-waits host d fuel node e.id m x w quorum approves_ other asked_
                    silent)
                  refl))
            known'))
        accepted in
    rw same (unfold note_decision in (refl, refl, refl))
