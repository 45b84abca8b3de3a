-- ===== src/Workflow/Closure.antt =====
-- `_closure` of packages/asas-workflow/src/asas_workflow/definitions.py: what can be reached from a set
-- of node keys. The edges are pairs of keys; `none` means that the fuel ran out.
use asas.Base.{
  ℕ, zero, suc, String, Option, none, some, List, [], ◌∷◌, if◌then◌else◌, str_eq, first_where,
}
use asas.Workflow.Specs.{among}

abbrev pub Edges : Type 0
Edges = List (String × String)

unfoldable pub targets : String → Edges → List String
targets k [] = []
targets k ((from, to) ∷ es) = let rest = targets k es in if str_eq from k then to ∷ rest else rest

-- The edges turned round.
unfoldable pub reversed : Edges → Edges
reversed [] = []
reversed ((from, to) ∷ es) = (to, from) ∷ reversed es

-- What was seen, and what is still to be expanded, the top first.
pub record Search : Type 0 where
  pub seen : List String
  pub frontier : List String

unfoldable pub push_new : List String → Search → Search
unfolding first_where
push_new [] s = s
push_new (t ∷ ts) s =
    push_new ts
      (if among t s.seen then s else record { seen = t ∷ s.seen; frontier = t ∷ s.frontier })

unfoldable pub expand_all : ℕ → Edges → List String → List String → Option (List String)
unfolding targets push_new
expand_all zero edges seen frontier = none
expand_all (suc fuel) edges seen [] = some seen
expand_all (suc fuel) edges seen (k ∷ ks) =
    let s = push_new (targets k edges) (record { seen = seen; frontier = ks }) in
    expand_all fuel edges s.seen s.frontier

unfoldable pub closure : ℕ → Edges → List String → Option (List String)
unfolding expand_all
closure fuel edges seeds = expand_all fuel edges seeds seeds
