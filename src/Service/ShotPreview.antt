-- ===== src/Service/ShotPreview.antt =====
-- internal/service/shot_preview_service.go: the service between the requests and the pipeline's runner. A
-- call takes the time and, for CreateTask, the identifier that the runner draws.
pub mod Types
pub mod Views
pub mod Create
pub mod Owners
pub mod Created
use Prim.Native.String.{◌++◌}
use blender_shot_preview.Prelude.{
  ℕ, String, Bool, true, false, not, ◌&&◌, ◌||◌, Option, none, some, List, [], ◌∷◌, Result, ok, err,
  ◌>>=◌, ◌>>◌, refuse_if, ◌==◌, if◌then◌else◌,
}
use blender_shot_preview.Prelude.Text.{trim_space, is_blank}
use blender_shot_preview.Pipeline.Types.{
  Task, Snapshot, Submission, Error, idempotency_conflict, task_already_terminal, task_not_failed,
  new_snapshot,
}
use blender_shot_preview.Pipeline.Types as Pipeline
use blender_shot_preview.Pipeline.ShotPreview.{shot_preview_workflow}
use blender_shot_preview.Pipeline.Runner
use blender_shot_preview.Pipeline.Runner.{Runner}
use blender_shot_preview.Pipeline.Runner.Methods
use blender_shot_preview.Service.ShotPreview.Types.{
  ShotError, invalid_task_request, task_not_found, task_not_cancellable, task_not_retryable,
  pipeline_unavailable, in_pipeline, in_store, encoding, CreateTaskRequest, CreateTaskResult,
  TaskRequest, TaskView, Message, ConversationStore, ShotPreviewInput, Codec, ShotPreview,
}
use blender_shot_preview.Service.ShotPreview.Views.{task_view}

-- What is found for a user under an identifier: the task, where its input names the user.
abbrev pub owned : String → Task → Option ShotPreviewInput → Result ShotError Task
owned user_id task none = err task_not_found
owned user_id task (some input) = if input.user_id == user_id then ok task else err task_not_found

abbrev pub found : Codec → String → Result Error Task → Result ShotError Task
found c user_id (err Pipeline.task_not_found) = err task_not_found
found c user_id (err e) = err (in_pipeline e)
found c user_id (ok task) = owned user_id task (c.decode task.input.json)

abbrev pub find_in : Codec → String → String → Option Runner → Result ShotError Task
find_in c user_id task_id none = err pipeline_unavailable
find_in c user_id task_id (some r) =
    if user_id == "" || task_id == ""
    then err invalid_task_request
    else found c user_id (Runner.get task_id r)

-- pipeline.NewSnapshot of raw JSON
abbrev pub raw_snapshot : Codec → ℕ → String → Result ShotError Snapshot
raw_snapshot c now text = compacted (c.compact text)
  where
    captured : Result Error Snapshot → Result ShotError Snapshot
    captured (err e) = err (in_pipeline e)
    captured (ok s) = ok s

    compacted : Option String → Result ShotError Snapshot
    compacted none = err (encoding "encode snapshot")
    compacted (some json) = captured (new_snapshot now json now)

abbrev pub cancel_error : ShotError → ShotError
cancel_error (in_pipeline Pipeline.task_already_terminal) = task_not_cancellable
cancel_error (in_pipeline Pipeline.task_not_found) = task_not_found
cancel_error e = e

abbrev pub retry_error : ShotError → ShotError
retry_error (in_pipeline Pipeline.task_not_failed) = task_not_retryable
retry_error (in_pipeline Pipeline.task_not_found) = task_not_found
retry_error e = e

module _ {C : ConversationStore} where
  -- taskForUser
  unfoldable pub task_for_user : Codec → String → String → ShotPreview C → Result ShotError Task
  task_for_user c user_id task_id s = find_in c (trim_space user_id) (trim_space task_id) s.runner

  -- syncConversation
  abbrev pub sync_conversation : String → TaskView → ShotPreview C → ShotPreview C
  sync_conversation task_id view s = record s { conversations = synced s.conversations }
    where
      synced : Option C.State → Option C.State
      synced none = none
      synced (some c) = some (C.update_task task_id view c)

  -- GetTask, past taskForUser
  abbrev pub viewed :
      ShotPreview C → Result ShotError Task → Result ShotError TaskView × ShotPreview C
  viewed s (err e) = (err e, s)
  viewed s (ok task) = (ok (task_view task), sync_conversation task.id (task_view task) s)

  -- GetTask
  unfoldable pub get_task :
      Codec → TaskRequest → ShotPreview C → Result ShotError TaskView × ShotPreview C
  get_task c request s = viewed s (task_for_user c request.user_id request.task_id s)

  -- A method of the runner, on a service that has one.
  abbrev pub on_runner {ℓ} :
      {A : Type ℓ}
      → (Runner → Result Error A × Runner)
      → ShotPreview C
      → Result ShotError A × ShotPreview C
  on_runner {A = A} method s = with_it s.runner
    where
      answered : Result Error A × Runner → Result ShotError A × ShotPreview C
      answered (err e, r) = (err (in_pipeline e), record s { runner = some r })
      answered (ok a, r) = (ok a, record s { runner = some r })

      with_it : Option Runner → Result ShotError A × ShotPreview C
      with_it none = (err pipeline_unavailable, s)
      with_it (some r) = answered (method r)

  -- A change of a task, for the user that owns it.
  abbrev pub if_owned {ℓ} :
      {A : Type ℓ}
      → ShotPreview C
      → Result ShotError A × ShotPreview C
      → Result ShotError Task
      → Result ShotError A × ShotPreview C
  if_owned s change (err e) = (err e, s)
  if_owned s change (ok task) = change

  abbrev pub given_snapshot :
      {A : Type 0}
      → ShotPreview C
      → (Snapshot → Result ShotError A × ShotPreview C)
      → Result ShotError Snapshot
      → Result ShotError A × ShotPreview C
  given_snapshot s use_it (err e) = (err e, s)
  given_snapshot s use_it (ok snapshot) = use_it snapshot

  -- SubscribeEvents, which names no user
  abbrev pub subscribe_events : String → ShotPreview C → Result ShotError ℕ × ShotPreview C
  subscribe_events task_id s =
      on_runner (λ r. let (ch, r') = Runner.subscribe task_id r in (ok ch, r')) s

  -- ConfirmStep, whose adjusted output may be nil
  unfoldable pub confirm_step :
      Codec
      → ℕ
      → TaskRequest
      → String
      → Option String
      → ShotPreview C
      → Result ShotError (Unit {0}) × ShotPreview C
  confirm_step c now request node_id adjusted s =
      if_owned s (adjusting adjusted) (task_for_user c request.user_id request.task_id s)
    where
      confirming : Option Snapshot → Result ShotError (Unit {0}) × ShotPreview C
      confirming snapshot = on_runner (Methods.confirm_node now request.task_id node_id snapshot) s

      adjusting : Option String → Result ShotError (Unit {0}) × ShotPreview C
      adjusting none = confirming none
      adjusting (some text) =
          if text == ""
          then confirming none
          else given_snapshot s (λ snapshot. confirming (some snapshot)) (raw_snapshot c now text)

  -- AdjustStep
  unfoldable pub adjust_step :
      Codec
      → ℕ
      → TaskRequest
      → String
      → String
      → ShotPreview C
      → Result ShotError (Unit {0}) × ShotPreview C
  adjust_step c now request node_id output s =
      if_owned s
        (given_snapshot s
          (λ snapshot.
            on_runner (Methods.adjust_node_output now request.task_id node_id snapshot) s)
          (raw_snapshot c now output))
        (task_for_user c request.user_id request.task_id s)

  -- CancelTask
  unfoldable pub cancel_task :
      Codec → ℕ → TaskRequest → ShotPreview C → Result ShotError TaskView × ShotPreview C
  cancel_task c now request s =
      if_owned s (cancelled (on_runner (Methods.cancel now request.task_id) s))
        (task_for_user c request.user_id request.task_id s)
    where
      cancelled :
          Result ShotError (Unit {0}) × ShotPreview C → Result ShotError TaskView × ShotPreview C
      cancelled (err e, s') = (err (cancel_error e), s')
      cancelled (ok done, s') = get_task c request s'

  -- RetryTask
  unfoldable pub retry_task :
      Codec → ℕ → TaskRequest → ShotPreview C → Result ShotError TaskView × ShotPreview C
  retry_task c now request s =
      if_owned s (retried (on_runner (Methods.retry now request.task_id) s))
        (task_for_user c request.user_id request.task_id s)
    where
      retried : Result ShotError Task × ShotPreview C → Result ShotError TaskView × ShotPreview C
      retried (err e, s') = (err (retry_error e), s')
      retried (ok task, s') = (ok (task_view task), s')
