-- ===== src/Workflow/Validated.antt =====
-- What a definition is that `validate_definition` of packages/asas-workflow finds no problem with.
use asas.Base.{
  select_where, ℕ, suc, ◌+◌, ◌==◌, ◌≡◌, ◌⊎◌, refl, subst, String, Bool, true, false, Option, List,
  [], ◌∷◌, ◌++◌, map, arith, not, if◌then◌else◌, str_eq, first_where, All, Bool-cases, inl, inr,
  length, is_some, ==_iff,
}
use asas.Workflow.Specs.{DefinitionSpec, Registry, among}
use asas.Workflow.Closure.{Edges, reversed}
use asas.Workflow.Frontier.{among_cases}
use asas.Workflow.Reaching.{Reaches, closure-Reaches}
use asas.Workflow.Definitions.{Version}
use asas.Workflow.Checks.{
  Problem, when, flat, is_empty, key_of, check_node, check_transition, check_outs, unreachable,
  stuck, duplicate_keys, start_count, no_end,
}
use asas.Workflow.Validation.{
  has_duplicate, start_keys, end_keys, approval_keys, edges_of, or_nothing, closure_of, minus,
  reachable, can_finish, when_some, check_reach, check_graph, check_variant, validate_definition,
}

pub append_empty {ℓ} : {A : Type ℓ} (xs ys : List A) → xs ++ ys ≡ [] → (xs ≡ []) × (ys ≡ [])
append_empty [] ys h = (refl, h)
append_empty (x ∷ xs) ys h = absurd (ground (arith, h))

flat_empty {ℓ κ} :
    {A : Type ℓ} {B : Type κ} (f : A → List B) (xs : List A)
    → flat f xs ≡ []
    → All (λ x. f x ≡ []) xs
unfolding flat
flat_empty f [] h = tt
flat_empty f (x ∷ xs) h =
    let (here, rest) = append_empty (f x) (flat f xs) h in (here, flat_empty f xs rest)

pub when_empty : (b : Bool) (p : Problem) → when b p ≡ [] → b ≡ false
when_empty b p h = ground (arith, h)

when_some_empty : (p : List String → Problem) (ks : List String) → when_some p ks ≡ [] → ks ≡ []
when_some_empty p [] h = refl
when_some_empty p (k ∷ ks) h = absurd (ground (arith, h))

one_of : (n : ℕ) → when (not (n == 1)) (start_count n) ≡ [] → n ≡ 1
one_of n h = (==_iff n 1).0 (ground (arith, h))

minus_empty :
    (ks known : List String) (k : String)
    → minus ks known ≡ []
    → among k ks ≡ true
    → among k known ≡ true
unfolding minus select_where first_where
minus_empty [] known k h e = absurd (ground (arith, e))
minus_empty (j ∷ js) known k h e = elim (Bool-cases (among j known)) [
  | inl old ↦
      among_cases (λ i. among i known ≡ true) k j js old
        (minus_empty js known k (ground (arith, h, old))) e
  | inr new ↦ absurd (ground (arith, h, new))
]

among-append :
    (k : String) (xs ys : List String)
    → among k (xs ++ ys) ≡ true
    → (among k xs ≡ true) ⊎ (among k ys ≡ true)
unfolding first_where
among-append k [] ys h = inr h
among-append k (x ∷ xs) ys h = elim (Bool-cases (str_eq x k)) [
  | inl e ↦ inl (ground (arith, e))
  | inr e ↦ elim (among-append k xs ys (ground (arith, e, h))) [
    | inl l ↦ inl (ground (arith, e, l))
    | inr r ↦ inr r
  ]
]

-- What the fuel of `closure_of` is enough for.
closure_of-Reaches :
    (edges : Edges) (seeds : List String) (k : String)
    → among k (closure_of edges seeds) ≡ true
    → Reaches edges seeds k
unfolding closure_of
closure_of-Reaches edges seeds k h =
    let (r, e, exact) =
      closure-Reaches edges seeds (suc (length seeds + length edges)) (omega arith) in
    (exact k).0 (subst (λ o. among k (or_nothing o) ≡ true) e h)

-- A start alone, keys apart, every node reached from the start, and from every node that is not an
-- approval an end (by the edges turned round, from the ends).
pub record IsSound (spec : DefinitionSpec) : Type 0 where
  pub first : String
  pub starts_once : start_keys spec ≡ first ∷ []
  pub distinct : has_duplicate (map key_of spec.nodes) ≡ false
  pub reached :
      (k : String) → among k (map key_of spec.nodes) ≡ true → Reaches (edges_of spec) (first ∷ []) k
  pub finishes :
      (k : String)
      → among k (map key_of spec.nodes) ≡ true
      → (among k (approval_keys spec) ≡ true) ⊎ Reaches (reversed (edges_of spec)) (end_keys spec) k

-- What `check_graph` lists, part by part.
pub record IsChecked (r : Registry) (with_session : Bool) (spec : DefinitionSpec) : Type 0 where
  pub distinct : has_duplicate (map key_of spec.nodes) ≡ false
  pub one_start : length (start_keys spec) ≡ 1
  pub nodes : All (λ n. check_node r with_session n ≡ []) spec.nodes
  pub transitions : All (λ t. check_transition spec t ≡ []) spec.transitions
  pub branches : All (λ n. check_outs spec n ≡ []) spec.nodes

check_graph-IsChecked :
    (r : Registry) (with_session : Bool) (spec : DefinitionSpec)
    → check_graph r with_session spec ≡ []
    → IsChecked r with_session spec
unfolding check_graph
check_graph-IsChecked r with_session spec h =
    let (h5, f) = append_empty _ (flat (check_outs spec) spec.nodes) h in
    let (h4, e) = append_empty _ (flat (check_transition spec) spec.transitions) h5 in
    let (h3, d) = append_empty _ (flat (check_node r with_session) spec.nodes) h4 in
    let (h2, c) = append_empty _ (when (is_empty (end_keys spec)) no_end) h3 in
    let (a, b) =
      append_empty (when (has_duplicate (map key_of spec.nodes)) duplicate_keys)
        (when (not (length (start_keys spec) == 1)) (start_count (length (start_keys spec)))) h2 in
    record {
      distinct = when_empty (has_duplicate (map key_of spec.nodes)) duplicate_keys a;
      one_start = one_of (length (start_keys spec)) b;
      nodes = flat_empty (check_node r with_session) spec.nodes d;
      transitions = flat_empty (check_transition spec) spec.transitions e;
      branches = flat_empty (check_outs spec) spec.nodes f;
    }

module _ (r : Registry) (session : Option (List Version)) (spec : DefinitionSpec) where
  pub validate_definition-parts :
      validate_definition r session spec ≡ []
      → IsChecked r (is_some session) spec × (check_reach spec (start_keys spec) ≡ [])
  unfolding validate_definition
  validate_definition-parts h =
      let problems = check_graph r (is_some session) spec in
      let reach = if is_empty problems then check_reach spec (start_keys spec) else [] in
      let (ab, c) = append_empty (problems ++ reach) (check_variant session spec) h in
      let (a, b) = append_empty problems reach ab in
      (
        check_graph-IsChecked r (is_some session) spec a,
        subst (λ ps. (if is_empty ps then check_reach spec (start_keys spec) else []) ≡ []) a b,
      )

one_of_list {ℓ} : {A : Type ℓ} (xs : List A) → length xs ≡ 1 → (x : A) × (xs ≡ x ∷ [])
one_of_list [] h = absurd (omega (arith, h))
one_of_list (x ∷ []) h = (x, refl)
one_of_list (x ∷ y ∷ xs) h = absurd (omega (arith, h))

module _ (spec : DefinitionSpec) (first : String) where
  reach_empty :
      check_reach spec (first ∷ []) ≡ []
      → (minus (map key_of spec.nodes) (reachable spec first) ≡ [])
        × (minus (reachable spec first) (can_finish spec) ≡ [])
  unfolding check_reach
  reach_empty h =
      let (a, b) =
        append_empty (when_some unreachable (minus (map key_of spec.nodes) (reachable spec first)))
          (when_some stuck (minus (reachable spec first) (can_finish spec))) h in
      (when_some_empty unreachable _ a, when_some_empty stuck _ b)

  can_finish-Reaches :
      (k : String)
      → among k (can_finish spec) ≡ true
      → (among k (approval_keys spec) ≡ true) ⊎ Reaches (reversed (edges_of spec)) (end_keys spec) k
  can_finish-Reaches k h =
      elim (among-append k (closure_of (reversed (edges_of spec)) (end_keys spec))
        (approval_keys spec) h) [
          | inl c ↦ inr (closure_of-Reaches (reversed (edges_of spec)) (end_keys spec) k c)
          | inr a ↦ inl a
        ]

-- A definition that the validation lists no problem with has exactly one start and no two nodes of one
-- key; the start reaches every node, and from every node an end is reached, or it is an approval.
pub validate_definition-IsSound :
    (r : Registry) (session : Option (List Version)) (spec : DefinitionSpec)
    → validate_definition r session spec ≡ []
    → IsSound spec
validate_definition-IsSound r session spec h =
    let (graph, reach) = validate_definition-parts r session spec h in
    let (first, one) = one_of_list (start_keys spec) graph.one_start in
    let (all_reached, all_finish) =
      reach_empty spec first (subst (λ ks. check_reach spec ks ≡ []) one reach) in
    let known = minus_empty (map key_of spec.nodes) (reachable spec first) in
    record {
      first = first;
      starts_once = one;
      distinct = graph.distinct;
      reached = λ k h. closure_of-Reaches (edges_of spec) (first ∷ []) k (known k all_reached h);
      finishes = λ k h. can_finish-Reaches spec first k (
          minus_empty (reachable spec first) (can_finish spec) k all_finish
            (known k all_reached h));
    }
