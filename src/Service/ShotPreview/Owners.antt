-- ===== src/Service/ShotPreview/Owners.antt =====
-- Who can reach a task through the shot preview service.
use blender_shot_preview.Prelude.{
  ℕ, String, false, Option, some, ◌≡◌, refl, ap, ◌∙◌, ok, err, ◌==◌, ◌||◌, if◌then◌else◌,
}
use blender_shot_preview.Prelude.Text.{trim_space, is_blank}
use blender_shot_preview.Pipeline.Types.{Task}
use blender_shot_preview.Pipeline.Runner
use blender_shot_preview.Pipeline.Runner.{Runner}
use blender_shot_preview.Service.ShotPreview.{
  find_in, task_for_user, get_task, confirm_step, adjust_step, cancel_task, retry_task, owned,
  found, viewed, if_owned,
}
use blender_shot_preview.Service.ShotPreview.Types.{
  invalid_task_request, task_not_found, TaskRequest, ConversationStore, ShotPreviewInput, Codec,
  ShotPreview,
}

-- A request for a task that belongs to another user, or to none that can be read, is answered with
-- ErrTaskNotFound.
pub task_for_user-foreign :
    {C : ConversationStore} (c : Codec) (request : TaskRequest) (s : ShotPreview C) (r : Runner)
    (task : Task) (input : ShotPreviewInput)
    → s.runner ≡ some r
    → is_blank request.user_id ≡ false
    → is_blank request.task_id ≡ false
    → Runner.get (trim_space request.task_id) r ≡ ok task
    → c.decode task.input.json ≡ some input
    → (input.user_id == trim_space request.user_id) ≡ false
    → task_for_user c request.user_id request.task_id s ≡ err task_not_found
unfolding task_for_user
task_for_user-foreign c request s r task input runs user named there reads foreign =
    let filled : (is_blank request.user_id || is_blank request.task_id) ≡ false =
      rw (user, named) refl in
    ap (find_in c (trim_space request.user_id) (trim_space request.task_id)) runs
    ∙ ap
        (λ b.
          if b
          then err invalid_task_request
          else found c (trim_space request.user_id) (Runner.get (trim_space request.task_id) r))
        filled
    ∙ ap (found c (trim_space request.user_id)) there
    ∙ ap (owned (trim_space request.user_id) task) reads
    ∙ ap (λ b. if b then ok task else err task_not_found) foreign

-- GetTask, ConfirmStep, AdjustStep, CancelTask and RetryTask answer ErrTaskNotFound to every user other
-- than the one of the task's input, and change nothing, neither in the pipeline nor in the
-- conversations. It is assumed that the service has a runner, that this finds the task, and that
-- the request's user and task are not blank.
pub foreign_refused :
    {C : ConversationStore} (c : Codec) (now : ℕ) (request : TaskRequest) (node_id output : String)
    (adjusted : Option String) (s : ShotPreview C) (r : Runner) (task : Task)
    (input : ShotPreviewInput)
    → s.runner ≡ some r
    → is_blank request.user_id ≡ false
    → is_blank request.task_id ≡ false
    → Runner.get (trim_space request.task_id) r ≡ ok task
    → c.decode task.input.json ≡ some input
    → (input.user_id == trim_space request.user_id) ≡ false
    → (get_task c request s ≡ (err task_not_found, s))
      × (confirm_step c now request node_id adjusted s ≡ (err task_not_found, s))
      × (adjust_step c now request node_id output s ≡ (err task_not_found, s))
      × (cancel_task c now request s ≡ (err task_not_found, s))
      × (retry_task c now request s ≡ (err task_not_found, s))
unfolding get_task confirm_step adjust_step cancel_task retry_task
foreign_refused c now request node_id output adjusted s r task input runs user named there reads
      foreign =
    let e = task_for_user-foreign c request s r task input runs user named there reads foreign in
    (
      ap (viewed s) e,
      ap (if_owned s _) e,
      ap (if_owned s _) e,
      ap (if_owned s _) e,
      ap (if_owned s _) e,
    )
