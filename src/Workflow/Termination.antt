-- ===== src/Workflow/Termination.antt =====
-- :When the loop of `_run_from`, packages/asas-workflow/src/asas_workflow/engine.py, ends.
use asas.Base.{
  ℕ, zero, suc, ◌≡◌, ◌≢◌, ◌<◌, refl, ◌∙◌, ap, subst, String, Bool, true, Option, none, some, List,
  [], ◌∷◌, Fields, arith, All, str_eq, Option-cases, Bool-cases, inl, inr, eq_iff, leb,
}
use asas.Workflow.Model.{
  Walk, ProcessNode, ProcessTransition, ProcessDefinition, Result, ok, refused, endless,
  bad_definition,
}
use asas.Workflow.Graph.{
  node_of, insert_sorted, transitions_from, eligible, first_match, select_next,
}
use asas.Workflow.Rows.{Host}
use asas.Workflow.Walks.{visit, follow, enter, run_from}
use asas.Workflow.Ends.{
  passes, LeadsDown, Ends, Anything, bind-Ends, found-Ends, NextIs, visit-Ends,
}

node_of-key :
    (key : String) (ns : List ProcessNode) (n : ProcessNode)
    → node_of key ns ≡ some n
    → n.node_key ≡ key
unfolding node_of
node_of-key key [] n h = absurd (ground (arith, h))
node_of-key key (m ∷ ns) n h = elim (Option-cases (node_of key ns)) [
  | inl none_ ↦ ground (arith, h, none_, eq_iff m.node_key key)
  | inr (l, later) ↦ node_of-key key ns n (ground (arith, h, later))
]

module _ (P : ProcessTransition → Type 0) where
  insert_sorted-All :
      (t : ProcessTransition) (us : List ProcessTransition)
      → P t
      → All P us
      → All P (insert_sorted t us)
  unfolding insert_sorted
  insert_sorted-All t [] h k = (h, tt)
  insert_sorted-All t (u ∷ us) h k = elim (Bool-cases (leb t.sort_order u.sort_order)) [
    | inl before ↦ rw (before, All) (h, (k.0, k.1))
    | inr after ↦ rw (after, All) (k.0, insert_sorted-All t us h k.1)
  ]

  first_match-All :
      (include_default : Bool) (data_ : Fields) (ts : List ProcessTransition) (k : String)
      → All P ts
      → first_match include_default data_ ts ≡ some k
      → (t : ProcessTransition) × P t × (t.to_node_key ≡ k)
  unfolding first_match
  first_match-All include_default data_ [] k h e = absurd (ground (arith, e))
  first_match-All include_default data_ (t ∷ ts) k h e =
      elim (Bool-cases (eligible include_default data_ t)) [
        | inl taken ↦ (t, h.0, ground (arith, e, taken))
        | inr skipped ↦ first_match-All include_default data_ ts k h.1 (ground (arith, e, skipped))
      ]

transitions_from-All :
    (P : ProcessTransition → Type 0) (key : String) (ts : List ProcessTransition)
    → All P ts
    → All (λ t. P t × (t.from_node_key ≡ key)) (transitions_from key ts)
unfolding transitions_from
transitions_from-All P key [] h = tt
transitions_from-All P key (t ∷ ts) h = elim (Bool-cases (str_eq t.from_node_key key)) [
  | inl hit ↦
      rw (hit, All)
        (insert_sorted-All (λ u. P u × (u.from_node_key ≡ key)) t (transitions_from key ts)
          (h.0, (eq_iff t.from_node_key key).0 hit) (transitions_from-All P key ts h.1))
  | inr miss ↦ rw (miss, All) (transitions_from-All P key ts h.1)
]

follow-Ends :
    (P : String → Type 0) (go : String → Walk → Result Walk)
    → ((k : String) (u : Walk) → P k → Ends Anything (go k u))
    → (step : Walk × Option String) → NextIs P step
    → Ends Anything (follow go ok step)
follow-Ends P go goes (u, none) next = tt
follow-Ends P go goes (u, some k) next = goes k u next

module _ (host : Host) (d : ProcessDefinition) (rank : String → ℕ)
    (down : All (LeadsDown rank d) d.transitions) where
  -- The node after one that the walk passes through ranks below it.
  select_next-down :
      (key : String) (node : ProcessNode) (k : String) (data_ : Fields)
      → node_of key d.nodes ≡ some node
      → passes node.type_ ≡ true
      → select_next d node.node_key data_ true ≡ some k
      → rank k < rank key
  unfolding select_next
  select_next-down key node k data_ known pass picked =
      let same = node_of-key key d.nodes node known in
      let (t, (leads, from), to) =
        first_match-All (λ t. LeadsDown rank d t × (t.from_node_key ≡ node.node_key)) true data_
          (transitions_from node.node_key d.transitions) k
          (transitions_from-All (LeadsDown rank d) node.node_key d.transitions down) picked in
      let from_key = from ∙ same in
      let lower = leads node (ap (λ (s : String). node_of s d.nodes) from_key ∙ known) pass in
      subst (λ (s : String). rank s < rank key) to
        (subst (λ (s : String). rank t.to_node_key < rank s) from_key lower)

  run_from-Ends :
      (fuel : ℕ) (key : String) (w : Walk)
      → rank key < fuel
      → Ends Anything (run_from host d fuel key w)
  unfolding run_from
  run_from-Ends zero key w h = absurd (omega (arith, h))
  run_from-Ends (suc fuel) key w h =
      found-Ends Anything bad_definition (node_of key d.nodes) _ (λ e. absurd (ground (arith, e)))
        (λ node known.
          bind-Ends (NextIs (λ k. rank k < rank key)) Anything
            (visit host d node w.next_id (enter node w) node.type_)
            (follow (run_from host d fuel) ok)
            (visit-Ends (λ k. rank k < rank key) host d node w.next_id (enter node w) node.type_
              (λ pass k data_ picked. select_next-down key node k data_ known pass picked))
            (λ step next.
              follow-Ends (λ k. rank k < rank key) (run_from host d fuel)
                (λ k u lower. run_from-Ends fuel k u (omega (arith, h, lower))) step next))

  -- If no transition out of a start, notify or system node leads up or back in some ranking of the
  -- nodes, a walk with more fuel than the rank of the node it starts from does not run out of it.
  pub run_from_terminates :
      (fuel : ℕ) (key : String) (w : Walk)
      → rank key < fuel
      → run_from host d fuel key w ≢ refused endless
  run_from_terminates fuel key w h e = subst (Ends Anything) e (run_from-Ends fuel key w h) refl
