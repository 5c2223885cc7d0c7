-- ===== src/Examples/Previews.antt =====
-- The shot preview service, without conversations, over the runner with its repository in memory.
use Prim.Native.String.{[], ◌∷◌}
use mathlib.Core.List.{[], ◌∷◌, map}
use blender_shot_preview.Prelude.{
  String, false, Option, none, some, ◌≡◌, refl, ok, err, ◌>>=◌, ◌==◌, if◌then◌else◌, lookup, insert,
  contains, without, ne-==,
}
use blender_shot_preview.Prelude.Json
use blender_shot_preview.Prelude.Text.{trim_space}
use blender_shot_preview.Pipeline.Types.{Task, TaskStatus, Node, NodeStatus, step, new_snapshot}
use blender_shot_preview.Pipeline.Workflow.{
  validate, check_nodes, check_node, check_edges, check_dependencies, find_spec, search_order,
  visit, visit_each, leave, dependencies_of,
}
use blender_shot_preview.Pipeline.ShotPreview.{shot_preview_workflow}
use blender_shot_preview.Pipeline.Task.Submit.{new_task, new_nodes}
use blender_shot_preview.Pipeline.Repository.{empty_repository, create_if_absent}
use blender_shot_preview.Pipeline.Repository
use blender_shot_preview.Pipeline.Runner
use blender_shot_preview.Pipeline.Runner.{Runner, new_runner, submit, broadcast}
use blender_shot_preview.Service.ShotPreview.{
  get_task, confirm_step, adjust_step, cancel_task, retry_task,
}
use blender_shot_preview.Service.ShotPreview.Types.{
  Codec, ConversationStore, CreateTaskRequest, CreateTaskResult, TaskRequest, ShotPreview,
  ShotPreviewInput, task_not_found,
}
use blender_shot_preview.Service.ShotPreview.Views.{
  task_view, task_view-lem, node_view, first_failure,
}
use blender_shot_preview.Service.ShotPreview.Owners.{foreign_refused}
use blender_shot_preview.Service.ShotPreview.Create.{create_task}
use blender_shot_preview.Service.ShotPreview.Created.{create_task-get_task}

abbrev no_store : ConversationStore
no_store = record {
  State = Unit;
  ensure = λ user id title s. (err "none", s);
  create_message = λ id message s. (err "none", s);
  update_message = λ message s. (err "none", s);
  update_task = λ id view s. s;
}

abbrev preview_request : CreateTaskRequest
preview_request = record {
  user_id = " u";
  key_id = "";
  prompt = "a cat";
  conversation_id = "]";
  request_id = "r1";
  workflow_id = "";
  workflow_version = "v1";
  require_confirmation = false;
}

-- An encoding for the inputs of this request, which differ in the conversation.
abbrev input_for : String → ShotPreviewInput
input_for conversation_id = record {
  user_id = "u";
  key_id = "";
  prompt = "a cat";
  conversation_id = conversation_id;
  request_id = "r1";
}

abbrev decode_input : String → Option ShotPreviewInput
decode_input [] = none
decode_input (c ∷ s) = some (input_for s)

abbrev preview_codec : Codec
preview_codec = record {
  encode = λ i. "[" ∷ i.conversation_id;
  decode = decode_input;
  compact = λ text. some text;
  describe = λ e. "error";
}

abbrev preview_service : Runner → ShotPreview no_store
preview_service r = record { runner = some r; conversations = none }

abbrev idle : ShotPreview no_store
idle = preview_service (new_runner (some empty_repository))

abbrev preview_result : CreateTaskResult
preview_result = record { task_id = "t"; request_id = "r1"; replayed = false }

preview_created :
    (create_task preview_codec 1 (some "t") preview_request idle).0 ≡ ok preview_result
unfolding ◌>>=◌ create_task submit create_if_absent new_task new_nodes new_snapshot Json.valid
    validate check_nodes check_node check_edges check_dependencies find_spec search_order visit
    visit_each leave dependencies_of contains without trim_space lookup insert broadcast
    Runner.start shot_preview_workflow
preview_created = refl

create_task-get_task_demo :
    (preview_result.task_id ≡ "t")
    × ((task : Task) × (task.id ≡ "t")
        × (task.status ≡ TaskStatus.pending)
        × ((get_task preview_codec
              (record { user_id = "v"; task_id = "t" })
              (create_task preview_codec 1 (some "t") preview_request idle).1).0
            ≡ (if "u" == "v" then ok (task_view task) else err task_not_found)))
unfolding trim_space
create_task-get_task_demo =
    create_task-get_task preview_codec 1 "t" preview_request preview_result idle "v"
      (λ conversation_id. (refl, filled conversation_id)) refl refl preview_created refl refl
  where
    filled : (s : String) → (("[" ∷ s) == "") ≡ false
    filled s = ne-== ("[" ∷ s) "" (λ e. cc)

abbrev preview_node : Node
preview_node = record {
  id = "a";
  depends_on = [];
  invocation = record { kind = step; target = "a" };
  input = record { json = "{}"; captured_at = 1 };
  output = none;
  status = NodeStatus.failed;
  attempts = 1;
  max_attempts = 1;
  error = "";
  error_code = "LLM_AUTH_FAILED";
  started_at = some 1;
  finished_at = some 2;
}

abbrev preview_task : Task
preview_task = record {
  id = "t";
  idempotency_key = "u:r1";
  input = record { json = "[]"; captured_at = 1 };
  nodes = preview_node ∷ [];
  status = TaskStatus.failed;
  require_confirmation = false;
  cancel_requested = false;
  created_at = 1;
  updated_at = 2;
  finished_at = some 2;
}

task_view-lem_demo :
    ((task_view preview_task).nodes ≡ map node_view (preview_node ∷ []))
    × ((task_view preview_task).failure ≡ first_failure (preview_node ∷ []))
task_view-lem_demo = task_view-lem preview_task

abbrev preview_runner : Runner
preview_runner =
    new_runner
      (some (record { tasks = ("t", preview_task) ∷ []; by_idempotency_key = ("u:r1", "t") ∷ [] }))

abbrev foreign_request : TaskRequest
foreign_request = record { user_id = "v"; task_id = " t" }

foreign_refused_demo :
    let s = preview_service preview_runner in
    (get_task preview_codec foreign_request s ≡ (err task_not_found, s))
    × (confirm_step preview_codec 3 foreign_request "a" none s ≡ (err task_not_found, s))
    × (adjust_step preview_codec 3 foreign_request "a" "{}" s ≡ (err task_not_found, s))
    × (cancel_task preview_codec 3 foreign_request s ≡ (err task_not_found, s))
    × (retry_task preview_codec 3 foreign_request s ≡ (err task_not_found, s))
unfolding trim_space Runner.get Repository.get lookup
foreign_refused_demo =
    foreign_refused preview_codec 3 foreign_request "a" "{}" none (preview_service preview_runner)
      preview_runner preview_task (input_for "]") refl refl refl refl refl refl
