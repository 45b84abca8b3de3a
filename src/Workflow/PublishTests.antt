-- ===== src/Workflow/PublishTests.antt =====
-- The theorems on the validation and the seeding of packages/asas-workflow at a process with a check, an
-- approval and two ends, and tests.
use asas.Base.{◌≡◌, ◌↔◌, refl, String, true, none, some, List, [], ◌∷◌, is_some, All, arith}
use asas.Workflow.Conditions.{single, gt}
use asas.Base.{num, pos, Fields}
use asas.Workflow.Model.{NodeType, Config}
use asas.Workflow.Graph.{node_of, select_next}
use asas.Workflow.Specs.{NodeSpec, TransitionSpec, DefinitionSpec, Registry, among}
use asas.Workflow.Closure.{Edges, closure}
use asas.Workflow.Frontier.{count_where-le-length}
use asas.Workflow.Reaching.{Reaches, closure-Reaches}
use asas.Workflow.Definitions.{Version, serves}
use asas.Workflow.Checks.{unreachable, stuck, no_default, undeclared, by_key}
use asas.Workflow.Validation.{validate_definition, has_duplicate}
use asas.Workflow.Validated.{IsSound, validate_definition-IsSound}
use asas.Workflow.Publishing.{published, archive, next_version, seed_definitions}
use asas.Workflow.Leading.{select_next_found}
use asas.Workflow.Archiving.{HasOneActive}
use asas.Workflow.Ensuring.{IsCurrent}
use asas.Workflow.Seeding.{seed_definitions-again}

abbrev bare : Config
bare = record {
  principals = [];
  quorum = none;
  allow_request_info = none;
  handler_key = none;
  principal = none;
  prompt = none;
  event = none;
  outcome = none;
}

abbrev node : String → NodeType → Config → NodeSpec
node key type_ config = record { key = key; name = key; type_ = type_; config = config }

abbrev plain : String → String → TransitionSpec
plain from to = record { from_key = from; to_key = to; condition = none }

-- Above 1000 the sponsor approves.
abbrev large : TransitionSpec
large = record {
  from_key = "check";
  to_key = "review";
  condition = some (single (record { path = "cost"; op = gt; value = num (pos 1000) }));
}

abbrev travel : DefinitionSpec
travel = record {
  key = "travel";
  name = "Travel";
  entity_type = "trip";
  nodes =
      node "start" NodeType.start bare
      ∷ node "check" NodeType.system (record bare { handler_key = some "price" })
      ∷ node "review" NodeType.approval (record bare { principals = "role:sponsor" ∷ [] })
      ∷ node "done" NodeType.end (record bare { outcome = some "approved" })
      ∷ [];
  transitions = plain "start" "check" ∷ large ∷ plain "check" "done" ∷ plain "review" "done" ∷ [];
  data_fields = "cost" ∷ [];
  purpose = none;
}

abbrev wiring : Registry
wiring = record {
  assignees = "lead" ∷ [];
  namespaces = ("role", none) ∷ [];
  handlers = "price" ∷ [];
}

abbrev digest : DefinitionSpec → String
digest spec = spec.name

accepted : validate_definition wiring (some []) travel ≡ []
unfolding validate_definition
accepted = refl

-- No default, a field that is not declared, a node that nothing reaches, a loop without an end.
refusals :
    (validate_definition wiring none
        (record travel { transitions = plain "start" "check" ∷ large ∷ plain "review" "done" ∷ [] })
      ≡ no_default "check" ∷ [])
    × (validate_definition wiring none (record travel { data_fields = [] })
        ≡ undeclared "check" "review" "cost" ∷ [])
    × (validate_definition wiring none (record travel {
      transitions = plain "start" "check" ∷ plain "check" "done" ∷ plain "review" "done" ∷ [];
    })
        ≡ unreachable ("review" ∷ []) ∷ [])
    × (validate_definition wiring none (record travel {
      transitions = plain "start" "check" ∷ plain "check" "start" ∷ plain "review" "done" ∷ [];
    })
        ≡ unreachable ("review" ∷ "done" ∷ []) ∷ stuck ("check" ∷ "start" ∷ []) ∷ [])
unfolding validate_definition
refusals = (refl, refl, refl, refl)

validate_definition-IsSound_example : IsSound travel
validate_definition-IsSound_example = validate_definition-IsSound wiring (some []) travel accepted

select_next_found_example :
    (next : String) × (select_next (published travel) "check" Fields.end true ≡ some next)
    × (is_some (node_of next (published travel).nodes) ≡ true)
select_next_found_example =
    select_next_found wiring (some []) travel Fields.end "check"
      (node "check" NodeType.system (record bare { handler_key = some "price" })) accepted
      (unfold by_key in refl) refl refl

abbrev old_rows : List Version
old_rows = next_version digest (record travel { name = "Trips" }) [] ∷ []

-- The spec has changed, so that there is a second version.
abbrev new_rows : List Version
new_rows =
    archive (next_version digest (record travel { name = "Trips" }) [])
    ∷ next_version digest travel old_rows
    ∷ []

seeded : seed_definitions wiring digest (travel ∷ []) old_rows ≡ (new_rows, none)
unfolding seed_definitions
seeded = refl

seed_definitions-again_example :
    All (IsCurrent wiring digest new_rows) (travel ∷ [])
    × HasOneActive new_rows
    × (seed_definitions wiring digest (travel ∷ []) new_rows ≡ (new_rows, none))
seed_definitions-again_example =
    seed_definitions-again wiring digest (travel ∷ []) old_rows new_rows
      (λ key. count_where-le-length (serves key) old_rows) (unfold has_duplicate in refl) seeded

abbrev ring : Edges
ring = ("a", "b") ∷ ("b", "a") ∷ ("c", "d") ∷ []

closure-Reaches_example :
    (r : List String) × (closure 5 ring ("a" ∷ []) ≡ some r)
    × ((k : String) → (among k r ≡ true) ↔ Reaches ring ("a" ∷ []) k)
closure-Reaches_example = closure-Reaches ring ("a" ∷ []) 5 (omega arith)
