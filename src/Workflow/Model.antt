-- ===== src/Workflow/Model.antt =====
-- The rows of packages/asas-workflow/src/asas_workflow/models.py: a definition's graph, and one walk
-- of it. Moments and names that only a screen shows are left out.
use asas.Base.{
  ℕ, String, Bool, true, false, Option, none, some, List, Fields, field, Json, obj, get_field,
  put_field,
}
use asas.Workflow.Conditions.{Condition}

pub data NodeType : Type 0 where
  start approval system notify request_info end : NodeType

pub data InstanceStatus : Type 0 where
  running completed canceled error : InstanceStatus

abbrev pub is_running : InstanceStatus → Bool
is_running running = true
is_running _ = false

abbrev pub is_error : InstanceStatus → Bool
is_error error = true
is_error _ = false

pub data ExecutionStatus : Type 0 where
  active completed error : ExecutionStatus

abbrev pub is_active : ExecutionStatus → Bool
is_active active = true
is_active _ = false

pub data AssigneeStatus : Type 0 where
  requested decided not_required : AssigneeStatus

abbrev pub is_requested : AssigneeStatus → Bool
is_requested requested = true
is_requested _ = false

abbrev pub is_required : AssigneeStatus → Bool
is_required not_required = false
is_required _ = true

pub data Verdict : Type 0 where
  positive negative asks_info : Verdict

-- `verdict IN FINAL_VERDICTS`
abbrev pub is_final : Verdict → Bool
is_final asks_info = false
is_final _ = true

abbrev pub is_positive : Verdict → Bool
is_positive positive = true
is_positive _ = false

abbrev pub verdict_value : Verdict → String
verdict_value positive = "positive"
verdict_value negative = "negative"
verdict_value asks_info = "request_info"

pub data InfoRequestStatus : Type 0 where
  pending answered withdrawn : InfoRequestStatus

abbrev pub is_pending : InfoRequestStatus → Bool
is_pending pending = true
is_pending _ = false

-- The keys of a node's config, each of which may be missing.
pub record Config : Type 0 where
  pub principals : List String
  pub quorum : Option String
  pub allow_request_info : Option Bool
  pub handler_key : Option String
  pub principal : Option String
  pub prompt : Option String
  pub event : Option String
  pub outcome : Option String

pub record ProcessNode : Type 0 where
  pub node_key : String
  pub type_ : NodeType
  pub config : Config

pub record ProcessTransition : Type 0 where
  pub from_node_key : String
  pub to_node_key : String
  pub sort_order : ℕ
  pub condition : Option Condition

pub record ProcessDefinition : Type 0 where
  pub key : String
  pub purpose : String
  pub entity_type : String
  pub nodes : List ProcessNode
  pub transitions : List ProcessTransition

-- Why an instance is in error.
pub data Failure : Type 0 where
  no_transition empty_resolution : String → Failure
  handler_raised : Failure

pub record ProcessInstance : Type 0 where
  pub org_id : Option ℕ
  pub entity_type : String
  pub entity_id : ℕ
  pub data_ : Fields
  pub status : InstanceStatus
  pub outcome : Option String
  pub current_node_key : Option String
  pub error_ : Option Failure
  pub initiated_by : Option ℕ

pub record NodeExecution : Type 0 where
  pub id : ℕ
  pub node_key : String
  pub node_type : NodeType
  pub seq : ℕ
  pub status : ExecutionStatus
  pub result : Fields
  pub error_ : Option Failure

pub record NodeAssignee : Type 0 where
  pub execution_id : ℕ
  pub member_id : ℕ
  pub via_principal : String
  pub status : AssigneeStatus
  pub reassigned_from : Option ℕ

pub record NodeDecision : Type 0 where
  pub execution_id : ℕ
  pub actor_id : ℕ
  pub on_behalf_of : Option ℕ
  pub verdict : Verdict
  pub comment : Option String

pub record InfoRequest : Type 0 where
  pub execution_id : ℕ
  pub asked_by : ℕ
  pub asked_of : ℕ
  pub question : String
  pub answer : Option String
  pub status : InfoRequestStatus

-- One instance with its rows in the order they were added; an execution's id is drawn from `next_id`.
pub record Walk : Type 0 where
  pub instance : ProcessInstance
  pub executions : List NodeExecution
  pub assignees : List NodeAssignee
  pub decisions : List NodeDecision
  pub asks : List InfoRequest
  pub next_id : ℕ

-- `{**data, **produced}`
unfoldable pub merged : Fields → Fields → Fields
unfolding put_field
merged d Fields.end = d
merged d (field k v rest) = merged (put_field k v d) rest

-- `dict(data.get("nodes") or {})`, of an object or nothing: only `merge_result` writes under `nodes`. On
-- another value that a caller puts there, which `dict` refuses or converts, this is empty.
abbrev pub or_empty_dict : Option Json → Fields
or_empty_dict none = Fields.end
or_empty_dict (some v) = elim v [ obj o ↦ o | _ ↦ Fields.end ]

-- The node results stand under `nodes`.
unfoldable pub merge_result : Fields → String → Fields → Fields
unfolding get_field put_field
merge_result d key result =
    put_field "nodes" (obj (put_field key (obj result) (or_empty_dict (get_field "nodes" d)))) d

-- An engine error by its code, and what else ends a call: its transaction is rolled back.
pub data EngineError : Type 0 where
  not_running not_pending not_approval bad_verdict self_approval not_assignee : EngineError
  comment_required not_allowed question_required not_asked answer_required : EngineError
  not_initiator not_error no_node bad_definition unknown_process entity_mismatch : EngineError
  -- a second final verdict, an exception of the host's code or of a missing key, no fuel left
  duplicate raised endless : EngineError

pub data Result {ℓ} (A : Type ℓ) : Type ℓ where
  ok : A → Result A
  refused : EngineError → Result A

infixl 5 ◌>>=◌ ◌>>◌
abbrev pub ◌>>=◌ {ℓ κ} : {A : Type ℓ} {B : Type κ} → Result A → (A → Result B) → Result B
ok a >>= f = f a
refused e >>= f = refused e

abbrev pub ◌>>◌ {ℓ} : {B : Type ℓ} → Result (Unit {0}) → Result B → Result B
m >> k = m >>= λ _. k

-- `if …: raise`, by the condition under which nothing is raised.
abbrev pub require : Bool → EngineError → Result (Unit {0})
require true e = ok tt
require false e = refused e

abbrev pub found {ℓ} : {A : Type ℓ} → EngineError → Option A → Result A
found e none = refused e
found e (some a) = ok a
