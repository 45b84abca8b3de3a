-- ===== src/Workflow/Ends.antt =====
-- That no part of the walk of packages/asas-workflow/src/asas_workflow/engine.py but its loop can be endless.
use asas.Base.{
  ℕ, ◌≡◌, ◌≢◌, ◌<◌, refl, String, Bool, true, false, Option, none, some, List, [], ◌∷◌, Fields,
  arith, Bool-cases, inl, inr,
}
use asas.Workflow.Model.{
  NodeType, Walk, ProcessNode, ProcessTransition, ProcessDefinition, ProcessInstance, Result, ok,
  refused, raised, endless, EngineError, found, ◌>>=◌,
}
use asas.Workflow.Graph.{node_of, select_next}
use asas.Workflow.Rows.{Host, complete_execution, complete_instance, text_or, closed}
use asas.Workflow.Nodes.{
  Resolved, resolve_all, set_defaults, floor_if_empty, without, or_else, ask_resolved,
  activate_approval, activate_request_info, advance_to, advance_or_fail,
}
use asas.Workflow.Walks.{after_handler, produce, visit}

abbrev pub passes : NodeType → Bool
passes t = elim t [
  | NodeType.start ↦ true
  | NodeType.notify ↦ true
  | NodeType.system ↦ true
  | _ ↦ false
]

-- Whatever transition leaves a node that the walk passes through leads down.
abbrev pub LeadsDown : (String → ℕ) → ProcessDefinition → ProcessTransition → Type 0
LeadsDown rank d t =
    (n : ProcessNode)
    → node_of t.from_node_key d.nodes ≡ some n
    → passes n.type_ ≡ true
    → rank t.to_node_key < rank t.from_node_key

-- The answer is not that fuel has run out, and a next node is one that `P` allows.
abbrev pub Ends {ℓ} : {A : Type ℓ} → (A → Type 0) → Result A → Type 0
Ends P (ok a) = P a
Ends P (refused e) = e ≢ endless

abbrev pub Anything {ℓ} : {A : Type ℓ} → A → Type 0
Anything a = Unit

module _ {ℓ κ} {A : Type ℓ} {B : Type κ} where
  pub bind-Ends :
      (Q : A → Type 0) (P : B → Type 0) (m : Result A) (f : A → Result B)
      → Ends Q m
      → ((a : A) → Q a → Ends P (f a))
      → Ends P (m >>= f)
  bind-Ends Q P (ok a) f q h = h a q
  bind-Ends Q P (refused e) f q h = q

  pub found-Ends :
      (P : B → Type 0) (e : EngineError) (o : Option A) (f : A → Result B)
      → e ≢ endless
      → ((a : A) → o ≡ some a → Ends P (f a))
      → Ends P (found e o >>= f)
  found-Ends P e none f n h = n
  found-Ends P e (some a) f n h = h a refl

pub raised-differs : raised ≢ endless
raised-differs h = absurd (ground (arith, h))

pub found-raised {ℓ} : {A : Type ℓ} (o : Option A) → Ends Anything (found raised o)
found-raised none = raised-differs
found-raised (some a) = tt

abbrev pub NextIs : (String → Type 0) → Walk × Option String → Type 0
NextIs P (w, none) = Unit
NextIs P (w, some k) = P k

module _ (P : String → Type 0) (host : Host) (d : ProcessDefinition) (node : ProcessNode) where
  pub complete_instance-Ends :
      (outcome : String) (w : Walk) → Ends Anything (complete_instance host d outcome w)
  unfolding complete_instance
  complete_instance-Ends outcome w =
      elim (Bool-cases
        (host.completion_callback (text_or d.purpose d.key) (closed outcome w).instance outcome)) [
          | inl yes_ ↦ rw (yes_, Ends) tt
          | inr no_ ↦ rw (no_, Ends) raised-differs
        ]

  pub stop-Ends : (m : Result Walk) → Ends Anything m → Ends (NextIs P) (m >>= λ w'. ok (w', none))
  stop-Ends m h = bind-Ends Anything (NextIs P) m (λ w'. ok (w', none)) h (λ w' _. tt)

  module _
      (down : (k : String) (data_ : Fields)
        → select_next d node.node_key data_ true ≡ some k
        → P k) where
    pub advance_to-Ends :
        (w : Walk) (o : Option String)
        → select_next d node.node_key w.instance.data_ true ≡ o
        → Ends (NextIs P) (advance_to host d node true w o)
    unfolding advance_to
    advance_to-Ends w (some k) e = down k w.instance.data_ e
    advance_to-Ends w none e = tt

    pub advance-Ends : (w : Walk) → Ends (NextIs P) (advance_or_fail host d node true w)
    unfolding advance_or_fail
    advance-Ends w = advance_to-Ends w (select_next d node.node_key w.instance.data_ true) refl

    pub after_handler-Ends :
        (id : ℕ) (w : Walk) (answer : Option Fields)
        → Ends (NextIs P) (after_handler host d node id w answer)
    unfolding after_handler
    after_handler-Ends id w none = tt
    after_handler-Ends id w (some produced) = advance-Ends (produce id produced w)

pub resolve_all-Ends :
    (host : Host) (i : ProcessInstance) (ps : List String) (acc : Resolved)
    → Ends Anything (resolve_all host i ps acc)
unfolding resolve_all
resolve_all-Ends host i [] acc = tt
resolve_all-Ends host i (p ∷ ps) acc =
    found-Ends Anything raised (host.resolve_assignees p i.entity_type i.entity_id) _ raised-differs
      (λ members _. resolve_all-Ends host i ps (set_defaults p members acc))

pub floor-Ends :
    (host : Host) (i : ProcessInstance) (rs : Resolved) → Ends Anything (floor_if_empty host i rs)
floor-Ends host i [] = found-raised (host.resolve_floor i.org_id)
floor-Ends host i (r ∷ rs) = tt

pub ask_resolved-Ends :
    (id : ℕ) (node : ProcessNode) (rs : Resolved) (w : Walk)
    → Ends Anything (ask_resolved id node rs w)
unfolding ask_resolved
ask_resolved-Ends id node [] w = tt
ask_resolved-Ends id node (r ∷ rs) w =
    found-Ends Anything raised node.config.prompt _ raised-differs (λ question _. tt)

pub activate_approval-Ends :
    (host : Host) (id : ℕ) (node : ProcessNode) (w : Walk)
    → Ends Anything (activate_approval host id node w)
unfolding activate_approval
activate_approval-Ends host id node w =
    bind-Ends Anything Anything (resolve_all host w.instance node.config.principals []) _
      (resolve_all-Ends host w.instance node.config.principals [])
      (λ resolved _.
        bind-Ends Anything Anything
          (floor_if_empty host w.instance (without w.instance.initiated_by resolved)) _
          (floor-Ends host w.instance (without w.instance.initiated_by resolved)) (λ floor _. tt))

pub activate_request_info-Ends :
    (host : Host) (id : ℕ) (node : ProcessNode) (w : Walk)
    → Ends Anything (activate_request_info host id node w)
unfolding activate_request_info
activate_request_info-Ends host id node w =
    found-Ends Anything raised node.config.principal _ raised-differs (λ principal _.
      found-Ends Anything raised
        (host.resolve_assignees principal w.instance.entity_type w.instance.entity_id) _
        raised-differs
        (λ members _.
          bind-Ends Anything Anything
            (floor_if_empty host w.instance (set_defaults principal members [])) _
            (floor-Ends host w.instance (set_defaults principal members []))
            (λ floor _.
              ask_resolved-Ends id node
                (or_else (set_defaults principal members []) (set_defaults principal floor [])) w)))

pub visit-Ends :
    (P : String → Type 0) (host : Host) (d : ProcessDefinition) (node : ProcessNode) (id : ℕ)
    (w : Walk) (t : NodeType)
    → (passes t ≡ true
        → (k : String) (data_ : Fields) → select_next d node.node_key data_ true ≡ some k
        → P k)
    → Ends (NextIs P) (visit host d node id w t)
unfolding visit
visit-Ends P host d node id w NodeType.start down =
    advance-Ends P host d node (down refl) (complete_execution id Fields.end w)
visit-Ends P host d node id w NodeType.notify down =
    advance-Ends P host d node (down refl) (complete_execution id Fields.end w)
visit-Ends P host d node id w NodeType.system down =
    found-Ends (NextIs P) raised (host.system_handler node.config.handler_key) _ raised-differs
      (λ handler _. after_handler-Ends P host d node (down refl) id w (handler w.instance))
visit-Ends P host d node id w NodeType.approval down =
    stop-Ends P host d node (activate_approval host id node w)
      (activate_approval-Ends host id node w)
visit-Ends P host d node id w NodeType.request_info down =
    stop-Ends P host d node (activate_request_info host id node w)
      (activate_request_info-Ends host id node w)
visit-Ends P host d node id w NodeType.end down =
    found-Ends (NextIs P) raised node.config.outcome _ raised-differs (λ outcome _.
      stop-Ends P host d node
        (complete_instance host d outcome (complete_execution id Fields.end w))
        (complete_instance-Ends P host d node outcome (complete_execution id Fields.end w)))
