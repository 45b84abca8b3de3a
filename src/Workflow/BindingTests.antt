-- ===== src/Workflow/BindingTests.antt =====
-- The theorems on the bindings of packages/asas-workflow at two variants of a process, and tests.
use asas.Base.{◌≡◌, refl, String, some, List, [], ◌∷◌}
use asas.Workflow.Model.{ProcessDefinition}
use asas.Workflow.Definitions.{
  DefinitionStatus, Version, ProcessBinding, Slot, wrong_purpose, no_definition,
  get_active_definition, set_binding, resolve_definition,
}
use asas.Workflow.Bindings.{set_binding-resolves}

abbrev variant : String → String → ProcessDefinition
variant key purpose = record {
  key = key;
  purpose = purpose;
  entity_type = "project";
  nodes = [];
  transitions = [];
}

abbrev usual : Version
usual = record {
  graph = variant "change" "change";
  version = 2;
  status = DefinitionStatus.active;
  spec_hash = "b";
}

abbrev fast : Version
fast = record {
  graph = variant "change_fast" "change";
  version = 1;
  status = DefinitionStatus.active;
  spec_hash = "c";
}

abbrev old : Version
old = record {
  graph = variant "change" "change";
  version = 1;
  status = DefinitionStatus.archived;
  spec_hash = "a";
}

abbrev versions : List Version
versions = old ∷ usual ∷ fast ∷ []

abbrev project : Slot
project = record { entity_type = "project"; entity_id = 7; purpose = "change" }

abbrev bound_fast : List ProcessBinding
bound_fast =
    record {
      entity_type = "project";
      entity_id = 7;
      purpose = "change";
      definition_key = "change_fast";
    }
    ∷ []

set_binding-resolves_example :
    (v : Version) × (resolve_definition versions bound_fast "change" (some ("project", 7)) ≡ some v)
    × (get_active_definition "change_fast" versions ≡ some v)
    × (v.graph.purpose ≡ "change")
set_binding-resolves_example =
    set_binding-resolves versions project [] bound_fast "change_fast" (unfold set_binding in refl)

refusals :
    (set_binding versions [] project (some "nothing") ≡ no_definition)
    × (set_binding versions [] (record project { purpose = "leave" }) (some "change")
        ≡ wrong_purpose)
unfolding set_binding
refusals = (refl, refl)
