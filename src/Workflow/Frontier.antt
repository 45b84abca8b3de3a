-- ===== src/Workflow/Frontier.antt =====
-- The search of `_closure` of packages/asas-workflow ends, and what one push does to it.
use asas.Base.{
  ℕ, zero, suc, ◌+◌, ◌≤◌, ◌<◌, ◌≡◌, ◌⊎◌, refl, subst, String, Bool, true, false, some, List, [],
  ◌∷◌, arith, not, str_eq, first_where, All, All-map, Bool-cases, inl, inr, length, count_where,
  eq_iff, count_where_mono,
}
use asas.Workflow.Specs.{among}
use asas.Workflow.Closure.{Edges, targets, Search, push_new, expand_all}

pub count_where-le-length {ℓ} :
    {A : Type ℓ} (p : A → Bool) (xs : List A) → count_where p xs ≤ length xs
unfolding count_where
count_where-le-length p [] = omega arith
count_where-le-length p (x ∷ xs) = ground (arith, count_where-le-length p xs)

-- Edges to keys that are not seen yet.
abbrev pub unseen : List String → String × String → Bool
unseen seen e = not (among e.1 seen)

pub among_here : (k : String) (ks : List String) → among k (k ∷ ks) ≡ true
unfolding first_where
among_here k ks = ground (arith, eq_iff k k)

pub among_there : (k j : String) (ks : List String) → among k ks ≡ true → among k (j ∷ ks) ≡ true
unfolding first_where
among_there k j ks h = ground (arith, h)

pub among_cases :
    (P : String → Type 0) (k j : String) (ks : List String)
    → P j
    → (among k ks ≡ true → P k)
    → among k (j ∷ ks) ≡ true
    → P k
unfolding first_where
among_cases P k j ks here there h = elim (Bool-cases (str_eq j k)) [
  | inl e ↦ subst P ((eq_iff j k).0 e) here
  | inr e ↦ there (ground (arith, e, h))
]

-- A push of a key that is not seen takes an edge to it off the count.
unseen-cons :
    (t : String) (seen : List String) (edges : Edges)
    → among t seen ≡ false
    → 0 < count_where (λ e. str_eq e.1 t) edges
    → count_where (unseen (t ∷ seen)) edges < count_where (unseen seen) edges
unfolding count_where first_where
unseen-cons t seen [] new some_ = absurd (omega arith)
unseen-cons t seen ((from, to) ∷ es) new some_ =
    let fewer = count_where_mono (unseen (t ∷ seen)) (unseen seen) es (λ e h. ground (arith, h)) in
    elim (Bool-cases (str_eq to t)) [
      | inl e ↦
          let was : among to seen ≡ false = rw ((eq_iff to t).0 e) new in
          ground (arith, e, was, fewer, eq_iff to t, eq_iff t to)
      | inr e ↦
          let rest = unseen-cons t seen es new (ground (arith, e, some_)) in
          ground (arith, e, rest, eq_iff t to, eq_iff to t)
    ]

abbrev IsEntered : Edges → String → Type 0
IsEntered edges t = 0 < count_where (λ e. str_eq e.1 t) edges

targets-IsEntered : (k : String) (edges : Edges) → All (IsEntered edges) (targets k edges)
unfolding targets count_where
targets-IsEntered k [] = tt
targets-IsEntered k ((from, to) ∷ es) =
    let rest =
      All-map (IsEntered es) (IsEntered ((from, to) ∷ es)) (targets k es) (λ t h. ground (arith, h))
        (targets-IsEntered k es) in
    elim (Bool-cases (str_eq from k)) [
      | inl e ↦ rw e (ground (arith, eq_iff to to), rest)
      | inr e ↦ rw e rest
    ]

-- The keys to expand and the edges that may still add one.
abbrev work : Edges → Search → ℕ
work edges s = length s.frontier + count_where (unseen s.seen) edges

push_new-work :
    (edges : Edges) (ts : List String) (s : Search)
    → All (IsEntered edges) ts
    → work edges (push_new ts s) ≤ work edges s
unfolding push_new
push_new-work edges [] s h = omega arith
push_new-work edges (t ∷ ts) s h = elim (Bool-cases (among t s.seen)) [
  | inl e ↦ rw (e, push_new) (push_new-work edges ts s h.1)
  | inr e ↦
      rw (e, push_new)
        (omega (
          arith,
          push_new-work edges ts (record { seen = t ∷ s.seen; frontier = t ∷ s.frontier }) h.1,
          unseen-cons t s.seen edges e h.0,
        ))
]

pub expand_all_total :
    (fuel : ℕ) (edges : Edges) (seen frontier : List String)
    → work edges (record { seen = seen; frontier = frontier }) < fuel
    → (r : List String) × (expand_all fuel edges seen frontier ≡ some r)
unfolding expand_all
expand_all_total zero edges seen frontier h = absurd (omega arith)
expand_all_total (suc fuel) edges seen [] h = (seen, refl)
expand_all_total (suc fuel) edges seen (k ∷ ks) h =
    let s = push_new (targets k edges) (record { seen = seen; frontier = ks }) in
    expand_all_total fuel edges s.seen s.frontier (
      omega (
        arith,
        push_new-work edges (targets k edges) (record { seen = seen; frontier = ks })
            (targets-IsEntered k edges),
      ))

-- What a push of keys does: nothing is lost, the keys are seen, and what is new is to be expanded.
pub record Pushed (ts : List String) (s s' : Search) : Type 0 where
  pub grows : (k : String) → among k s.seen ≡ true → among k s'.seen ≡ true
  pub keeps : (k : String) → among k s.frontier ≡ true → among k s'.frontier ≡ true
  pub queues :
      (k : String) → among k s'.seen ≡ true → (among k s.seen ≡ true) ⊎ (among k s'.frontier ≡ true)
  pub sees : All (λ t. among t s'.seen ≡ true) ts

pub push_new-Pushed : (ts : List String) (s : Search) → Pushed ts s (push_new ts s)
unfolding push_new
push_new-Pushed [] s = record {
  grows = λ k h. h;
  keeps = λ k h. h;
  queues = λ k h. inl h;
  sees = tt;
}
push_new-Pushed (t ∷ ts) s = elim (Bool-cases (among t s.seen)) [
  | inl e ↦
      let p = push_new-Pushed ts s in
      rw e (record {
        grows = p.grows;
        keeps = p.keeps;
        queues = p.queues;
        sees = (p.grows t e, p.sees);
      })
  | inr e ↦
      let p = push_new-Pushed ts (record { seen = t ∷ s.seen; frontier = t ∷ s.frontier }) in
      rw e (record {
        grows = λ k h. p.grows k (among_there k t s.seen h);
        keeps = λ k h. p.keeps k (among_there k t s.frontier h);
        queues = λ k h. elim (p.queues k h) [
          | inl old ↦
              among_cases
                (λ j.
                  (among j s.seen ≡ true)
                  ⊎ (among j
                        (push_new ts
                          (record { seen = t ∷ s.seen; frontier = t ∷ s.frontier })).frontier
                      ≡ true))
                k t s.seen (inr (p.keeps t (among_here t s.frontier))) (λ g. inl g) old
          | inr new ↦ inr new
        ];
        sees = (p.grows t (among_here t s.seen), p.sees);
      })
]
