-- ===== src/Service/ShotPreview/Create.antt =====
-- CreateTask of internal/service/shot_preview_service.go.
use Prim.Native.String.{◌++◌}
use blender_shot_preview.Prelude.{
  ℕ, String, Bool, not, ◌&&◌, ◌||◌, Option, none, some, [], ◌∷◌, Result, ok, err, ◌>>◌, refuse_if,
  ◌==◌,
}
use blender_shot_preview.Prelude.Text.{trim_space}
use blender_shot_preview.Pipeline.Types.{
  Task, Snapshot, Submission, Error, idempotency_conflict, task_already_terminal, task_not_failed,
  new_snapshot,
}
use blender_shot_preview.Pipeline.Types as Pipeline
use blender_shot_preview.Pipeline.ShotPreview.{shot_preview_workflow}
use blender_shot_preview.Pipeline.Runner
use blender_shot_preview.Pipeline.Runner.{Runner}
use blender_shot_preview.Service.ShotPreview.Types.{
  ShotError, invalid_task_request, pipeline_unavailable, in_pipeline, in_store, CreateTaskRequest,
  CreateTaskResult, Message, ConversationStore, ShotPreviewInput, Codec, ShotPreview,
}
use blender_shot_preview.Service.ShotPreview.Views.{task_view}

-- The request of CreateTask with the space around its texts removed.
abbrev pub trimmed : CreateTaskRequest → CreateTaskRequest
trimmed q = record q {
  user_id = trim_space q.user_id;
  key_id = trim_space q.key_id;
  prompt = trim_space q.prompt;
  conversation_id = trim_space q.conversation_id;
  request_id = trim_space q.request_id;
  workflow_id = trim_space q.workflow_id;
  workflow_version = trim_space q.workflow_version;
}

-- The refusals of CreateTask before anything is called.
abbrev pub check_request : CreateTaskRequest → Result ShotError (Unit {0})
check_request q =
    refuse_if (q.user_id == "" || q.prompt == "" || q.request_id == "") invalid_task_request
    >> refuse_if (not (q.workflow_id == "") && not (q.workflow_id == "shot-preview"))
        invalid_task_request
    >> refuse_if (not (q.workflow_version == "") && not (q.workflow_version == "v1"))
        invalid_task_request

abbrev pub user_message : ℕ → CreateTaskRequest → Message
user_message now q = record {
  id = q.request_id ++ ":user";
  role = "user";
  content = q.prompt;
  status = "";
  task_id = "";
  thoughts = [];
  created_at = now;
  updated_at = now;
}

abbrev pub assistant_message : ℕ → CreateTaskRequest → Message
assistant_message now q = record {
  id = q.request_id ++ ":assistant";
  role = "assistant";
  content = "";
  status = "sending";
  task_id = "";
  thoughts = [];
  created_at = now;
  updated_at = now;
}

abbrev pub input_of : CreateTaskRequest → String → ShotPreviewInput
input_of q conversation_id = record {
  user_id = q.user_id;
  key_id = q.key_id;
  prompt = q.prompt;
  conversation_id = conversation_id;
  request_id = q.request_id;
}

abbrev pub submission_of : CreateTaskRequest → Snapshot → Submission
submission_of q input = record {
  idempotency_key = q.user_id ++ ":" ++ q.request_id;
  input = input;
  workflow = shot_preview_workflow input.json;
  require_confirmation = q.require_confirmation;
}

abbrev pub refusal : Error → ShotError
refusal Pipeline.idempotency_conflict = invalid_task_request
refusal e = in_pipeline e

abbrev pub created_result : CreateTaskRequest → Task → Bool → CreateTaskResult
created_result q task created = record {
  task_id = task.id;
  request_id = q.request_id;
  replayed = not created;
}

-- A call of the store, and what follows where it returned no error.
abbrev pub then_stored :
    {A B S : Type 0}
    → (A → S → Result ShotError B × Option S)
    → Result String A × S
    → Result ShotError B × Option S
then_stored next (err e, conv) = (err (in_store e), some conv)
then_stored next (ok a, conv) = next a conv

module _ (C : ConversationStore) where
  -- The conversation of CreateTask, with the messages of the user and of the assistant.
  abbrev pub open_conversation :
      ℕ → CreateTaskRequest → Option C.State → Result ShotError String × Option C.State
  open_conversation now q none = (ok q.conversation_id, none)
  open_conversation now q (some conv) =
      then_stored
        (λ id conv1.
          then_stored
            (λ done conv2.
              then_stored (λ done' conv3. (ok id, some conv3))
                (C.create_message id (assistant_message now q) conv2))
            (C.create_message id (user_message now q) conv1))
        (C.ensure q.user_id q.conversation_id q.prompt conv)

  -- The assistant's message when the task was refused; an error of the store is dropped.
  abbrev pub note_refusal : Codec → ℕ → CreateTaskRequest → Error → Option C.State → Option C.State
  note_refusal c now q e none = none
  note_refusal c now q e (some conv) =
      some
        (C.update_message
          (record (assistant_message now q) {
            status = "error";
            content = "分镜任务创建失败：" ++ c.describe e;
          })
          conv).1

  -- The assistant's message when there is a task, and the first view of it.
  abbrev pub link_task :
      ℕ
      → CreateTaskRequest
      → Task
      → Bool
      → Option C.State
      → Result ShotError CreateTaskResult × Option C.State
  link_task now q task created none = (ok (created_result q task created), none)
  link_task now q task created (some conv) =
      then_stored
        (λ done conv'.
          (ok (created_result q task created), some (C.update_task task.id (task_view task) conv')))
        (C.update_message
          (record (assistant_message now q) {
            task_id = task.id;
            status = "thought";
            thoughts = "分镜任务已创建，等待 Agent 工作流推进..." ∷ [];
          })
          conv)

module _ {C : ConversationStore} where
  abbrev pub with_runner :
      {A : Type 0}
      → Runner
      → Result ShotError A × Option C.State
      → Result ShotError A × ShotPreview C
  with_runner r (answer, conv) = (answer, record { runner = some r; conversations = conv })

  abbrev pub after_submit :
      Codec
      → ℕ
      → CreateTaskRequest
      → Option C.State
      → Result Error (Task × Bool) × Runner
      → Result ShotError CreateTaskResult × ShotPreview C
  after_submit c now q conv (err e, r) =
      (err (refusal e), record { runner = some r; conversations = note_refusal C c now q e conv })
  after_submit c now q conv (ok (task, created), r) =
      with_runner r (link_task C now q task created conv)

  abbrev pub submit_input :
      Codec
      → ℕ
      → Option String
      → CreateTaskRequest
      → Runner
      → Option C.State
      → Result Error Snapshot
      → Result ShotError CreateTaskResult × ShotPreview C
  submit_input c now id q r conv (err e) =
      (err (in_pipeline e), record { runner = some r; conversations = conv })
  submit_input c now id q r conv (ok input) =
      after_submit c now q conv (Runner.submit now id (submission_of q input) r)

  abbrev pub in_conversation :
      Codec
      → ℕ
      → Option String
      → CreateTaskRequest
      → Runner
      → Result ShotError String × Option C.State
      → Result ShotError CreateTaskResult × ShotPreview C
  in_conversation c now id q r (err e, conv) =
      (err e, record { runner = some r; conversations = conv })
  in_conversation c now id q r (ok conversation_id, conv) =
      submit_input c now id q r conv (new_snapshot now (c.encode (input_of q conversation_id)) now)

  abbrev pub checked_create :
      Codec
      → ℕ
      → Option String
      → CreateTaskRequest
      → ShotPreview C
      → Result ShotError (Unit {0})
      → Option Runner
      → Result ShotError CreateTaskResult × ShotPreview C
  checked_create c now id q s (err e) r = (err e, s)
  checked_create c now id q s (ok done) none = (err pipeline_unavailable, s)
  checked_create c now id q s (ok done) (some r) =
      in_conversation c now id q r (open_conversation C now q s.conversations)

  -- CreateTask
  unfoldable pub create_task :
      Codec
      → ℕ
      → Option String
      → CreateTaskRequest
      → ShotPreview C
      → Result ShotError CreateTaskResult × ShotPreview C
  create_task c now id request s =
      let q = trimmed request in checked_create c now id q s (check_request q) s.runner
