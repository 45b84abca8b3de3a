-- ===== src/Workflow/Reaching.antt =====
-- What `_closure` of packages/asas-workflow computes: exactly what its edges reach.
use asas.Base.{
  ℕ, zero, suc, ◌+◌, ◌<◌, ◌≡◌, ◌⊎◌, ◌↔◌, subst, String, true, some, List, [], ◌∷◌, arith,
  first_where, All, All-map, Bool-cases, inl, inr, length,
}
use asas.Workflow.Specs.{among}
use asas.Workflow.Closure.{Edges, targets, Search, push_new, expand_all, closure}
use asas.Workflow.Frontier.{
  among_here, among_there, among_cases, unseen, expand_all_total, count_where-le-length,
  push_new-Pushed, Pushed,
}

-- A key is reached: it is a seed, or an edge leads to it from one that is.
pub data Reaches (edges : Edges) (seeds : List String) : String → Type 0 where
  seed : (k : String) → among k seeds ≡ true → Reaches edges seeds k
  along :
      (k t : String)
      → Reaches edges seeds k
      → among t (targets k edges) ≡ true
      → Reaches edges seeds t

-- A seen key is still to be expanded, or all that its edges lead to is seen.
abbrev IsOpen : Edges → List String → List String → Type 0
IsOpen edges seen frontier =
    (k : String)
    → among k seen ≡ true
    → (among k frontier ≡ true) ⊎ All (λ t. among t seen ≡ true) (targets k edges)

expand-IsOpen :
    (edges : Edges) (seen : List String) (k : String) (ks : List String) (s' : Search)
    → Pushed (targets k edges) (record { seen = seen; frontier = ks }) s'
    → IsOpen edges seen (k ∷ ks)
    → IsOpen edges s'.seen s'.frontier
expand-IsOpen edges seen k ks s' p open_ j h = elim (p.queues j h) [
  | inr new ↦ inl new
  | inl old ↦ elim (open_ j old) [
    | inr whole ↦ inr (
        All-map (λ t. among t seen ≡ true) (λ t. among t s'.seen ≡ true) (targets j edges) p.grows
          whole)
    | inl queued ↦
        among_cases
          (λ i. (among i s'.frontier ≡ true) ⊎ All (λ t. among t s'.seen ≡ true) (targets i edges))
          j k ks (inr p.sees) (λ g. inl (p.keeps j g)) queued
  ]
]

-- Every key of the list is reached.
abbrev AllReached : Edges → List String → List String → Type 0
AllReached edges seeds ks = (k : String) → among k ks ≡ true → Reaches edges seeds k

push_new-reached :
    (edges : Edges) (seeds ts : List String) (s : Search)
    → All (Reaches edges seeds) ts
    → AllReached edges seeds s.seen
    → AllReached edges seeds (push_new ts s).seen
unfolding push_new
push_new-reached edges seeds [] s h seen = seen
push_new-reached edges seeds (t ∷ ts) s h seen = elim (Bool-cases (among t s.seen)) [
  | inl e ↦ rw (e, push_new) (push_new-reached edges seeds ts s h.1 seen)
  | inr e ↦
      rw (e, push_new)
        (push_new-reached edges seeds ts (record { seen = t ∷ s.seen; frontier = t ∷ s.frontier })
          h.1 (λ k g. among_cases (Reaches edges seeds) k t s.seen h.0 (seen k) g))
]

-- Whatever is in the frontier has been seen.
push_new-framed :
    (ts : List String) (s : Search)
    → ((k : String) → among k s.frontier ≡ true → among k s.seen ≡ true)
    → (k : String) → among k (push_new ts s).frontier ≡ true
    → among k (push_new ts s).seen ≡ true
unfolding push_new
push_new-framed [] s h = h
push_new-framed (t ∷ ts) s h = elim (Bool-cases (among t s.seen)) [
  | inl e ↦ rw (e, push_new) (push_new-framed ts s h)
  | inr e ↦
      rw (e, push_new)
        (push_new-framed ts (record { seen = t ∷ s.seen; frontier = t ∷ s.frontier })
          (λ k g.
            among_cases (λ j. among j (t ∷ s.seen) ≡ true) k t s.frontier (among_here t s.seen)
              (λ f. among_there k t s.seen (h k f)) g))
]

targets-reached :
    (edges : Edges) (seeds : List String) (k : String) (ts : List String)
    → Reaches edges seeds k
    → All (λ t. among t (targets k edges) ≡ true) ts
    → All (Reaches edges seeds) ts
targets-reached edges seeds k [] r h = tt
targets-reached edges seeds k (t ∷ ts) r h =
    (along k t r h.0, targets-reached edges seeds k ts r h.1)

All-among : (ts : List String) → All (λ t. among t ts ≡ true) ts
All-among [] = tt
All-among (t ∷ ts) = (
  among_here t ts,
  All-map (λ k. among k ts ≡ true) (λ k. among k (t ∷ ts) ≡ true) ts (λ k. among_there k t ts)
      (All-among ts),
)

All-at : (P : String → Type 0) (k : String) (ks : List String) → All P ks → among k ks ≡ true → P k
unfolding first_where
All-at P k [] h e = absurd (ground (arith, e))
All-at P k (j ∷ ks) h e = among_cases P k j ks h.0 (All-at P k ks h.1) e

module _ (edges : Edges) (seeds : List String) where
  expand_all-exact :
      (fuel : ℕ) (seen frontier r : List String)
      → ((k : String) → among k seeds ≡ true → among k seen ≡ true)
      → ((k : String) → among k frontier ≡ true → among k seen ≡ true)
      → IsOpen edges seen frontier
      → AllReached edges seeds seen
      → expand_all fuel edges seen frontier ≡ some r
      → (AllReached edges seeds r)
        × ((k : String) → among k seeds ≡ true → among k r ≡ true)
        × IsOpen edges r []
  unfolding expand_all
  expand_all-exact zero seen frontier r has framed open_ reached e = absurd (ground (arith, e))
  expand_all-exact (suc fuel) seen [] r has framed open_ reached e =
      let same : seen ≡ r = ground (arith, e) in
      subst
        (λ q.
          (AllReached edges seeds q)
          × ((k : String) → among k seeds ≡ true → among k q ≡ true)
          × IsOpen edges q [])
        same (reached, has, open_)
  expand_all-exact (suc fuel) seen (k ∷ ks) r has framed open_ reached e =
      let s = push_new (targets k edges) (record { seen = seen; frontier = ks }) in
      let p = push_new-Pushed (targets k edges) (record { seen = seen; frontier = ks }) in
      let found = reached k (framed k (among_here k ks)) in
      expand_all-exact fuel s.seen s.frontier r (λ j h. p.grows j (has j h))
        (push_new-framed (targets k edges) (record { seen = seen; frontier = ks })
          (λ j h. framed j (among_there j k ks h)))
        (expand-IsOpen edges seen k ks s p open_)
        (push_new-reached edges seeds (targets k edges) (record { seen = seen; frontier = ks })
          (targets-reached edges seeds k (targets k edges) found (All-among (targets k edges)))
          reached)
        e

  Reaches-among :
      (r : List String) (k : String)
      → ((j : String) → among j seeds ≡ true → among j r ≡ true)
      → IsOpen edges r []
      → Reaches edges seeds k
      → among k r ≡ true
  unfolding first_where
  Reaches-among r k has open_ (seed j h) = has j h
  Reaches-among r k has open_ (along j t before edge) =
      elim (open_ j (Reaches-among r j has open_ before)) [
        | inl none_ ↦ absurd (ground (arith, none_))
        | inr whole ↦ All-at (λ i. among i r ≡ true) t (targets j edges) whole edge
      ]

  -- With more fuel than there are seeds and edges the closure ends, and it holds exactly what the
  -- edges reach from the seeds.
  pub closure-Reaches :
      (fuel : ℕ)
      → length seeds + length edges < fuel
      → (r : List String) × (closure fuel edges seeds ≡ some r)
        × ((k : String) → (among k r ≡ true) ↔ Reaches edges seeds k)
  unfolding closure
  closure-Reaches fuel room =
      let (r, e) =
        expand_all_total fuel edges seeds seeds
          (omega (arith, count_where-le-length (unseen seeds) edges)) in
      let (reached, has, open_) =
        expand_all-exact fuel seeds seeds r (λ k h. h) (λ k h. h) (λ k h. inl h) (seed) e in
      (r, e, (λ k. (reached k, Reaches-among r k has open_)))
