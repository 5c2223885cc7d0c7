-- ===== src/Service/ShotPreview/Types.antt =====
-- internal/service/shot_preview_contract.go and conversation_contract.go: the requests and answers of the
-- shot preview service, and the store of conversations behind it, an interface there and here. Times
-- are instants. The statuses are those of the pipeline, whose texts are the same.
use blender_shot_preview.Prelude.{ℕ, String, Bool, Option, List, Result}
use blender_shot_preview.Pipeline.Types.{TaskStatus, NodeStatus, Error}
use blender_shot_preview.Pipeline.Runner.{Runner}

pub data ShotError : Type 0 where
  invalid_task_request task_not_found task_not_cancellable task_not_retryable : ShotError
  pipeline_unavailable : ShotError
  in_pipeline : Error → ShotError
  in_store encoding : String → ShotError

pub record CreateTaskRequest : Type 0 where
  pub user_id : String
  pub key_id : String
  pub prompt : String
  pub conversation_id : String
  pub request_id : String
  pub workflow_id : String
  pub workflow_version : String
  pub require_confirmation : Bool

-- CreateTaskResult of an accepted request; a refused one has the request's identifier and an error.
pub record CreateTaskResult : Type 0 where
  pub task_id : String
  pub request_id : String
  pub replayed : Bool

-- What names a task in a request: GetTaskRequest, CancelTaskRequest and RetryTaskRequest.
pub record TaskRequest : Type 0 where
  pub user_id : String
  pub task_id : String

pub record FailureView : Type 0 where
  pub code : String
  pub message : String
  pub retryable : Bool

pub record NodeView : Type 0 where
  pub id : String
  pub status : NodeStatus
  pub attempts : ℕ
  pub input : Option String
  pub output : Option String
  pub started_at : Option ℕ
  pub finished_at : Option ℕ
  pub failure : Option FailureView

pub record ArtifactView : Type 0 where
  pub artifact_type : String
  pub uri : String
  pub name : String

pub record TaskView : Type 0 where
  pub task_id : String
  pub status : TaskStatus
  pub nodes : List NodeView
  pub artifacts : List ArtifactView
  pub failure : Option FailureView
  pub created_at : ℕ
  pub updated_at : ℕ
  pub finished_at : Option ℕ

-- Message, without the parts that only the store fills in.
pub record Message : Type 0 where
  pub id : String
  pub role : String
  pub content : String
  pub status : String
  pub task_id : String
  pub thoughts : List String
  pub created_at : ℕ
  pub updated_at : ℕ

-- ConversationStore over an unknown state. Ensure answers the conversation's identifier; the caller
-- drops the error of UpdateTask.
pub record ConversationStore : Type 1 where
  pub State : Type 0
  pub ensure : String → String → String → State → Result String String × State
  pub create_message : String → Message → State → Result String (Unit {0}) × State
  pub update_message : Message → State → Result String (Unit {0}) × State
  pub update_task : String → TaskView → State → State

-- shotPreviewInput
pub record ShotPreviewInput : Type 0 where
  pub user_id : String
  pub key_id : String
  pub prompt : String
  pub conversation_id : String
  pub request_id : String

-- encoding/json: Marshal and Unmarshal of the input, and Marshal of raw JSON, which compacts it or
-- fails; and the Error of the pipeline's errors.
pub record Codec : Type 0 where
  pub encode : ShotPreviewInput → String
  pub decode : String → Option ShotPreviewInput
  pub compact : String → Option String
  pub describe : Error → String

-- ShotPreviewServiceImpl, where none is nil.
pub record ShotPreview (C : ConversationStore) : Type 0 where
  pub runner : Option Runner
  pub conversations : Option C.State
