-- ===== src/Access/Examples.antt =====
-- The theorems on packages/asas-access at a small catalog, and tests.
use asas.Base.{ℕ, ◌≡◌, ◌↔◌, ◌⊎◌, refl, true, false, Option, none, some, [], ◌∷◌, ◌++◌, pos}
use asas.Access.Principals.{User, Sources, member, held_principals}
use asas.Access.Actions.{ActionPermission, Catalog, role_admin, answer, action_allowed_for}
use asas.Access.Grants.{HasGrant, action_allowed_for_iff}
use asas.Access.Mac.{ClearanceLevel, RecordMarking, Mac, Stamped, Profile, mac_allows}
use asas.Access.Clearance.{other_org_rows}

-- The host's records are numbers; the first ten are led by everybody.
abbrev host : Sources ℕ
host = record {
  global_sources = (λ u. some ("group:staff" ∷ [])) ∷ [];
  resolvers = (("project", "lead"), λ u r. none) ∷ [];
  record_sources = ("project", λ u r. some ("project_role:editor" ∷ [])) ∷ [];
}

abbrev catalog : Catalog
catalog = record {
  actions = "project.manage" ∷ [];
  record_actions = [];
  grants =
      record { permission = "project.manage"; principal = "project_role:editor"; org_id = some 1 }
      ∷ [];
}

abbrev ann : User
ann = record { role = some "member"; org_id = some 1 }

action_allowed_for_iff_example :
    (action_allowed_for host catalog (some ann) "project.manage" "project" (some 3) ≡ answer true)
    ↔ ((member role_admin (held_principals host (some ann) "project" (some 3)) ≡ true)
        ⊎ HasGrant "project.manage"
            (some 1)
            (held_principals host (some ann) "project" (some 3))
            catalog.grants)
action_allowed_for_iff_example =
    action_allowed_for_iff host catalog (some ann) "project.manage" "project" (some 3)
      (unfold member in refl)

editor_may :
    action_allowed_for host catalog (some ann) "project.manage" "project" (some 3) ≡ answer true
unfolding action_allowed_for
editor_may = refl

abbrev foreign : ActionPermission
foreign = record { permission = "project.manage"; principal = "member"; org_id = some 2 }

abbrev layer : Mac
layer = record {
  levels =
      record { org_id = 1; code = "public"; rank = pos 0 }
      ∷ record { org_id = 1; code = "secret"; rank = pos 5 }
      ∷ [];
  markings =
      record { org_id = 1; entity_type = "project"; record_id = 3; marking_code = "legal" } ∷ [];
  classified = "project" ∷ [];
}

abbrev plan : Stamped
plan = record { id = some 3; org_id = some 1; classification_code = some "secret" }

abbrev cleared_source : Option (User → Option Profile)
cleared_source = some (λ u. some (some "secret", "legal" ∷ []))

sees :
    (mac_allows layer cleared_source (some ann) "project" (some plan) none ≡ true)
    × (mac_allows layer none (some ann) "project" (some plan) none ≡ false)
unfolding mac_allows
sees = (refl, refl)

abbrev foreign_level : ClearanceLevel
foreign_level = record { org_id = 2; code = "secret"; rank = pos 9 }

abbrev foreign_mark : RecordMarking
foreign_mark = record { org_id = 2; entity_type = "project"; record_id = 3; marking_code = "board" }

other_org_rows_example :
    mac_allows
      (record layer {
        levels = layer.levels ++ foreign_level ∷ [];
        markings = layer.markings ++ foreign_mark ∷ [];
      })
      cleared_source
      (some ann)
      "project"
      (some plan)
      none
    ≡ mac_allows layer cleared_source (some ann) "project" (some plan) none
other_org_rows_example =
    other_org_rows layer cleared_source (some ann) "project" plan none 1 foreign_level foreign_mark
      refl refl refl
