-- ===== src/Workflow/Ways.antt =====
-- The transitions from a key, as packages/asas-workflow numbers and sorts them, and where they lead.
use asas.Base.{
  select_where, ℕ, suc, ◌≡◌, refl, ◌∙◌, subst, String, Bool, true, false, Option, none, some, List,
  [], ◌∷◌, arith, leb, ◌||◌, str_eq, All, Bool-cases, inl, inr, is_some, Fields,
}
use asas.Workflow.Conditions.{Condition, evaluate}
use asas.Workflow.Model.{ProcessTransition}
use asas.Workflow.Graph.{insert_sorted, transitions_from, eligible, first_match}
use asas.Workflow.Specs.{TransitionSpec}
use asas.Workflow.Checks.{is_empty, is_default}
use asas.Workflow.Publishing.{numbered}

module _ (data_ : Fields) where
  pub first_match-insert_sorted :
      (t : ProcessTransition) (ts : List ProcessTransition)
      → is_some (first_match true data_ (insert_sorted t ts))
        ≡ eligible true data_ t || is_some (first_match true data_ ts)
  unfolding first_match insert_sorted
  first_match-insert_sorted t [] = ground arith
  first_match-insert_sorted t (u ∷ us) = elim (Bool-cases (leb t.sort_order u.sort_order)) [
    | inl e ↦ ground (arith, e)
    | inr e ↦ ground (arith, e, first_match-insert_sorted t us)
  ]

  pub default-evaluates : (c : Option Condition) → is_some c ≡ false → evaluate c data_ ≡ true
  unfolding evaluate
  default-evaluates none h = refl
  default-evaluates (some c) h = absurd (ground (arith, h))

  abbrev pub row_of : ℕ → TransitionSpec → ProcessTransition
  row_of i t = record {
    from_node_key = t.from_key;
    to_node_key = t.to_key;
    sort_order = i;
    condition = t.condition;
  }

  -- One transition more does not take a match away.
  pub passes :
      (key : String) (i : ℕ) (t : TransitionSpec) (ts : List TransitionSpec)
      → is_some (first_match true data_ (transitions_from key (numbered (suc i) ts))) ≡ true
      → is_some (first_match true data_ (transitions_from key (numbered i (t ∷ ts)))) ≡ true
  unfolding transitions_from numbered
  passes key i t ts h = elim (Bool-cases (str_eq t.from_key key)) [
    | inr e ↦ rw e h
    | inl e ↦ rw e (
        first_match-insert_sorted (row_of i t) (transitions_from key (numbered (suc i) ts))
        ∙ ground (arith, h))
  ]

  -- A default among the transitions from a key makes one of them eligible.
  pub first_match-default :
      (q : TransitionSpec → Bool) (key : String) (i : ℕ) (ts : List TransitionSpec)
      → ((t : TransitionSpec) → q t ≡ true → str_eq t.from_key key ≡ true)
      → is_empty (select_where is_default (select_where q ts)) ≡ false
      → is_some (first_match true data_ (transitions_from key (numbered i ts))) ≡ true
  unfolding select_where transitions_from numbered
  first_match-default q key i [] from some_ = absurd (ground (arith, some_))
  first_match-default q key i (t ∷ ts) from some_ = elim (Bool-cases (q t)) [
    | inr miss ↦
        passes key i t ts (first_match-default q key (suc i) ts from (ground (arith, miss, some_)))
    | inl hit ↦ elim (Bool-cases (is_some t.condition)) [
      | inl e ↦
          passes key i t ts
            (first_match-default q key (suc i) ts from (ground (arith, hit, e, some_)))
      | inr e ↦ rw (from t hit) (
          first_match-insert_sorted (row_of i t) (transitions_from key (numbered (suc i) ts))
          ∙ ground (arith, default-evaluates t.condition e))
    ]
  ]

module _ {ℓ} (P : String → Type ℓ) where
  abbrev pub Leads : ProcessTransition → Type ℓ
  Leads t = P t.to_node_key

  pub insert_sorted-Leads :
      (t : ProcessTransition) (ts : List ProcessTransition)
      → P t.to_node_key
      → All Leads ts
      → All Leads (insert_sorted t ts)
  unfolding insert_sorted
  insert_sorted-Leads t [] h hs = (h, tt)
  insert_sorted-Leads t (u ∷ us) h hs = elim (Bool-cases (leb t.sort_order u.sort_order)) [
    | inl e ↦ rw e (h, hs)
    | inr e ↦ rw e (hs.0, insert_sorted-Leads t us h hs.1)
  ]

  pub transitions_from-Leads :
      (key : String) (i : ℕ) (ts : List TransitionSpec)
      → All (λ t. P t.to_key) ts
      → All Leads (transitions_from key (numbered i ts))
  unfolding transitions_from numbered
  transitions_from-Leads key i [] h = tt
  transitions_from-Leads key i (t ∷ ts) h = elim (Bool-cases (str_eq t.from_key key)) [
    | inr e ↦ rw e (transitions_from-Leads key (suc i) ts h.1)
    | inl e ↦ rw e (
        insert_sorted-Leads _ (transitions_from key (numbered (suc i) ts)) h.0
          (transitions_from-Leads key (suc i) ts h.1))
  ]

  pub first_match-Leads :
      (data_ : Fields) (ts : List ProcessTransition) (k : String)
      → All Leads ts
      → first_match true data_ ts ≡ some k
      → P k
  unfolding first_match
  first_match-Leads data_ [] k h e = absurd (ground (arith, e))
  first_match-Leads data_ (t ∷ ts) k h e = elim (Bool-cases (eligible true data_ t)) [
    | inl hit ↦ subst P (ground (arith, e, hit)) h.0
    | inr miss ↦ first_match-Leads data_ ts k h.1 (ground (arith, e, miss))
  ]
