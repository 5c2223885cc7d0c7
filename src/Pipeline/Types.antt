-- ===== src/Pipeline/Types.antt =====
-- internal/service/pipeline/types.go: the values that cross the persistence boundary.
-- Values are immutable here, so the clone functions of the source are the identity. Times are
-- instants, 0 being Go's zero time.
use blender_shot_preview.Prelude.{
  ℕ, ℤ, String, Bool, true, false, Option, none, some, List, [], ◌∷◌, Result, ok, err, eqb, ◌==◌,
  if◌then◌else◌, not,
}
use blender_shot_preview.Prelude.Json

pub data TaskStatus : Type 0 where
  pending running succeeded failed cancelled : TaskStatus

pub data NodeStatus : Type 0 where
  pending running waiting_confirmation succeeded failed cancelled : NodeStatus

abbrev pub is_terminal_task : TaskStatus → Bool
is_terminal_task TaskStatus.succeeded = true
is_terminal_task TaskStatus.failed = true
is_terminal_task TaskStatus.cancelled = true
is_terminal_task _ = false

abbrev pub is_terminal_node : NodeStatus → Bool
is_terminal_node NodeStatus.succeeded = true
is_terminal_node NodeStatus.failed = true
is_terminal_node NodeStatus.cancelled = true
is_terminal_node _ = false

pub data InvocationKind : Type 0 where
  agent step tool : InvocationKind
  other : String → InvocationKind

pub record Invocation : Type 0 where
  pub kind : InvocationKind
  pub target : String

pub record Snapshot : Type 0 where
  pub json : String
  pub captured_at : ℕ

pub record NodeSpec : Type 0 where
  pub id : String
  pub depends_on : List String
  pub input : String
  pub invocation : Invocation
  pub max_attempts : ℤ

pub record Workflow : Type 0 where
  pub nodes : List NodeSpec

pub record Node : Type 0 where
  pub id : String
  pub depends_on : List String
  pub invocation : Invocation
  pub input : Snapshot
  pub output : Option Snapshot
  pub status : NodeStatus
  pub attempts : ℕ
  pub max_attempts : ℕ
  pub error : String
  pub error_code : String
  pub started_at : Option ℕ
  pub finished_at : Option ℕ

pub record Task : Type 0 where
  pub id : String
  pub idempotency_key : String
  pub input : Snapshot
  pub nodes : List Node
  pub status : TaskStatus
  pub require_confirmation : Bool
  pub cancel_requested : Bool
  pub created_at : ℕ
  pub updated_at : ℕ
  pub finished_at : Option ℕ

pub record Submission : Type 0 where
  pub idempotency_key : String
  pub input : Snapshot
  pub workflow : Workflow
  pub require_confirmation : Bool

-- What ErrInvalidWorkflow is wrapped with. `out_of_fuel` is the model's own.
pub data Defect : Type 0 where
  no_nodes blank_id : Defect
  duplicate_node : String → Defect
  unsupported_kind : String → String → Defect
  blank_target negative_attempts invalid_input : String → Defect
  unknown_dependency self_dependency duplicate_dependency : String → String → Defect
  cycle : String → Defect
  blank_fan_out : Defect
  invalid_fan_out_input : ℕ → Defect
  out_of_fuel : Defect

-- What ErrInvalidSubmission is wrapped with.
pub data Complaint : Type 0 where
  repository_required key_required invalid_json : Complaint
  node_input : String → Complaint

-- The package's errors. `nil_repository` stands for the panic of a runner with no repository.
pub data Error : Type 0 where
  task_not_found idempotency_conflict task_not_failed task_already_terminal : Error
  node_not_found not_waiting task_id_failed nil_repository : Error
  invalid_workflow : Defect → Error
  invalid_submission : Complaint → Error

-- newSnapshot; `now` is the clock's reading, used where the time given is zero.
unfoldable pub new_snapshot : ℕ → String → ℕ → Result Error Snapshot
new_snapshot now raw captured_at =
    let text = if raw == "" then "{}" else raw in
    if not (Json.valid text)
    then err (invalid_submission invalid_json)
    else ok (record { json = text; captured_at = if eqb captured_at 0 then now else captured_at })

unfoldable pub find_node : String → List Node → Option Node
find_node id [] = none
find_node id (node ∷ nodes) = if node.id == id then some node else find_node id nodes

-- Task.Node
abbrev pub task_node : Task → String → Option Node
task_node task id = find_node id task.nodes
