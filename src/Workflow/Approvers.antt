-- ===== src/Workflow/Approvers.antt =====
-- Whom `_activate_approval` of packages/asas-workflow/src/asas_workflow/engine.py asks.
use asas.Base.{
  ℕ, ◌≡◌, String, false, Option, some, [], ◌∷◌, All, All-append, map, same_num, Bool-cases, inl,
  inr, leb,
}
use asas.Workflow.Model.{Walk, ProcessNode, NodeAssignee, ok}
use asas.Workflow.Results.{any-Brings, ok-Brings}
use asas.Workflow.Rows.{Host, fail_instance}
use asas.Workflow.Nodes.{
  Resolved, resolve_all, set_defaults, floor_if_empty, without, insert_member, by_member, or_else,
  assign, assignee_row, admin_floor, activate_approval,
}

module _ (initiator : Option ℕ) where
  abbrev IsOther : ℕ × String → Type 0
  IsOther r = same_num initiator (some r.0) ≡ false

  without-IsOther : (rs : Resolved) → All IsOther (without initiator rs)
  unfolding without
  without-IsOther [] = tt
  without-IsOther ((m, p) ∷ rs) = elim (Bool-cases (same_num initiator (some m))) [
    | inl self ↦ rw (self, All) (without-IsOther rs)
    | inr other ↦ rw (other, All) (other, without-IsOther rs)
  ]

  insert_member-All :
      (r : ℕ × String) (rs : Resolved)
      → IsOther r
      → All IsOther rs
      → All IsOther (insert_member r rs)
  unfolding insert_member
  insert_member-All r [] h k = (h, tt)
  insert_member-All r (s ∷ rs) h k = elim (Bool-cases (leb r.0 s.0)) [
    | inl before ↦ rw (before, All) (h, (k.0, k.1))
    | inr after ↦ rw (after, All) (k.0, insert_member-All r rs h k.1)
  ]

  by_member-All : (rs : Resolved) → All IsOther rs → All IsOther (by_member rs)
  unfolding by_member
  by_member-All [] h = tt
  by_member-All (r ∷ rs) h = insert_member-All r (by_member rs) h.0 (by_member-All rs h.1)

  abbrev pub IsNotInitiator : NodeAssignee → Type 0
  IsNotInitiator a = same_num initiator (some a.member_id) ≡ false

  rows-IsNotInitiator :
      (id : ℕ) (rs : Resolved) → All IsOther rs → All IsNotInitiator (map (assignee_row id) rs)
  rows-IsNotInitiator id [] h = tt
  rows-IsNotInitiator id ((m, p) ∷ rs) h = (h.0, rows-IsNotInitiator id rs h.1)

  or_else-All : (rs qs : Resolved) → All IsOther rs → All IsOther qs → All IsOther (or_else rs qs)
  or_else-All [] qs h k = k
  or_else-All (r ∷ rs) qs h k = h

  assign-IsNotInitiator :
      (id : ℕ) (key : String) (rs : Resolved) (w : Walk)
      → All IsOther rs
      → All IsNotInitiator w.assignees
      → All IsNotInitiator (assign id key rs w).assignees
  unfolding assign fail_instance
  assign-IsNotInitiator id key [] w h k = k
  assign-IsNotInitiator id key (r ∷ rs) w h k =
      All-append IsNotInitiator w.assignees (map (assignee_row id) (by_member (r ∷ rs))) k
        (rows-IsNotInitiator id (by_member (r ∷ rs)) (by_member-All (r ∷ rs) h))

-- Where the initiator is not among the assignees, `activate_approval` does not put them there, whatever
-- the host resolves the principals and the fail-closed floor to.
pub activate_approval-IsNotInitiator :
    (host : Host) (id : ℕ) (node : ProcessNode) (w u : Walk)
    → activate_approval host id node w ≡ ok u
    → All (IsNotInitiator w.instance.initiated_by) w.assignees
    → All (IsNotInitiator w.instance.initiated_by) u.assignees
unfolding activate_approval
activate_approval-IsNotInitiator host id node w u e h =
    let i = w.instance in
    let P : Walk → Type 0 = λ v. All (IsNotInitiator i.initiated_by) v.assignees in
    ok-Brings P (activate_approval host id node w) u
      (any-Brings P (resolve_all host i node.config.principals []) _ (λ resolved.
        any-Brings P (floor_if_empty host i (without i.initiated_by resolved)) _ (λ floor.
          assign-IsNotInitiator i.initiated_by id node.node_key _ w
            (or_else-All i.initiated_by (without i.initiated_by resolved)
              (without i.initiated_by (set_defaults admin_floor floor []))
              (without-IsOther i.initiated_by resolved)
              (without-IsOther i.initiated_by (set_defaults admin_floor floor [])))
            h)))
      e
