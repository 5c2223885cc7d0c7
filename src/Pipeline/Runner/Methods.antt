-- ===== src/Pipeline/Runner/Methods.antt =====
-- internal/service/pipeline/runner.go: the methods of the Runner that act on one task, with the
-- events that they send.
use blender_shot_preview.Prelude.{
  ℕ, String, Bool, true, false, Option, none, some, List, [], ◌∷◌, ◌++◌, Result, ok, err, ◌==◌,
  if◌then◌else◌, lookup, insert, delete, length, set, ◌>>=◌,
}
use Prim.Native.String.{◌++◌ as ◌<>◌}
use blender_shot_preview.Prelude.Text.{trim_space, quote}
use text.Mathlib.Text.{starts_with}
use blender_shot_preview.Pipeline.Types.{
  Task, Node, Snapshot, InvocationKind, agent, step, tool, other, Error, task_not_found,
  nil_repository, invalid_submission, repository_required, new_snapshot,
}
use blender_shot_preview.Pipeline.Task
use blender_shot_preview.Pipeline.Task.{
  Failure, Verdict, open_still, success, failure, completed_dependencies, is_succeeded, is_failed,
}
use blender_shot_preview.Pipeline.Repository
use blender_shot_preview.Pipeline.Repository.{Repository}
use blender_shot_preview.Pipeline.Runner.{
  Runner, node_started, node_waiting_confirm, node_output_adjusted, node_succeeded, node_failed,
  task_succeeded, task_failed, broadcast, plain_event, write_back, with_task, given_repository,
  start, is_active,
}

-- What a request to an invoker carries; AgentRequest, StepRequest and ToolRequest differ in the name
-- of the target.
pub record Request : Type 0 where
  pub task_id : String
  pub node_id : String
  pub target : String
  pub attempt : ℕ
  pub task_input : Snapshot
  pub input : Snapshot
  pub dependencies : List (String × Snapshot)

-- The capabilities that a runner is given, each of which may be missing.
pub record Invokers : Type 0 where
  pub agents : Option (Request → Result Failure String)
  pub steps : Option (Request → Result Failure String)
  pub tools : Option (Request → Result Failure String)

abbrev pub plain_failure : String → Failure
plain_failure message = record { message = message; code = "" }

abbrev pub missing : String → String → Failure
missing kind target =
    plain_failure ("pipeline node invoker is not configured: " <> kind <> " " <> quote target)

abbrev pub call_or_missing :
    String → String → Option (Request → Result Failure String) → Request → Result Failure String
call_or_missing kind target none request = err (missing kind target)
call_or_missing kind target (some invoker) request = invoker request

abbrev pub dispatch : Invokers → InvocationKind → String → Request → Result Failure String
dispatch i agent target request = call_or_missing "agent" target i.agents request
dispatch i step target request = call_or_missing "step" target i.steps request
dispatch i tool target request = call_or_missing "tool" target i.tools request
dispatch i (other kind) target request =
    err (plain_failure ("invalid pipeline workflow: invocation kind " <> quote kind))

abbrev pub as_output : ℕ → Result Failure String → Result Failure Snapshot
as_output now (err f) = err f
as_output now (ok raw) = elim (new_snapshot now raw now) [
  | ok s ↦ ok s
  | err e ↦ err (plain_failure "invalid pipeline submission: snapshot must contain valid JSON")
]

-- invoke
unfoldable pub invoke : Invokers → ℕ → Task → Node → Result Failure Snapshot
invoke i now task node = as_output now (
    dispatch i node.invocation.kind node.invocation.target (record {
      task_id = task.id;
      node_id = node.id;
      target = node.invocation.target;
      attempt = node.attempts;
      task_input = task.input;
      input = node.input;
      dependencies = completed_dependencies task.nodes node.depends_on;
    }))

-- setTaskRunning
unfoldable pub set_task_running : ℕ → String → Runner → Result Error (Unit {0}) × Runner
set_task_running now task_id = with_task task_id (λ task. ok (Task.set_task_running now task, tt))

unfoldable pub announce : ℕ → String → List Node → Runner → Runner
announce now task_id [] r = r
announce now task_id (n ∷ nodes) r =
    announce now task_id nodes
      (broadcast (record (plain_event now task_id node_started n.id) { input = n.input.json }) r)

abbrev pub announce_started :
    ℕ → String → Result Error (List Node) × Runner → Result Error (List Node) × Runner
announce_started now task_id (err e, r) = (err e, r)
announce_started now task_id (ok nodes, r) = (ok nodes, announce now task_id nodes r)

-- startNodes
unfoldable pub start_nodes : ℕ → String → List String → Runner → Result Error (List Node) × Runner
start_nodes now task_id ready r =
    announce_started now task_id
      (with_task task_id (λ task. ok (Task.start_nodes now ready task)) r)

abbrev pub announce_waiting :
    ℕ → String → String → Snapshot → Result Error Node × Runner → Result Error (Unit {0}) × Runner
announce_waiting now task_id node_id output (err e, r) = (err e, r)
announce_waiting now task_id node_id output (ok node, r) = (
  ok tt,
  broadcast
      (record (plain_event now task_id node_waiting_confirm node_id) {
        input = node.input.json;
        output = output.json;
      })
      r,
)

-- setNodeWaitingConfirmation
unfoldable pub set_node_waiting_confirmation :
    ℕ → String → String → Snapshot → Runner → Result Error (Unit {0}) × Runner
set_node_waiting_confirmation now task_id node_id output r =
    announce_waiting now task_id node_id output
      (with_task task_id (Task.set_waiting now node_id output) r)

abbrev pub confirm_key : String → String → String
confirm_key task_id node_id = task_id <> ":" <> node_id

abbrev pub registered : String → Runner → Option ℕ → ℕ × Runner
registered key r (some ch) = (ch, r)
registered key r none = (
  length r.signals,
  record r {
    confirm_chans = insert key (length r.signals) r.confirm_chans;
    signals = r.signals ++ false ∷ [];
  },
)

-- getConfirmChan: the cell registered, or a new empty one.
unfoldable pub get_confirm_chan : String → String → Runner → ℕ × Runner
get_confirm_chan task_id node_id r =
    registered (confirm_key task_id node_id) r
      (lookup (confirm_key task_id node_id) r.confirm_chans)

abbrev pub signalled : String → Runner → Option ℕ → Runner
signalled key r none = r
signalled key r (some ch) = record r {
  confirm_chans = delete key r.confirm_chans;
  signals = set r.signals ch true;
}

-- signalConfirm: a send that does not block, and the registration is dropped.
unfoldable pub signal_confirm : String → String → Runner → Runner
signal_confirm task_id node_id r =
    signalled (confirm_key task_id node_id) r (lookup (confirm_key task_id node_id) r.confirm_chans)

abbrev pub output_text : Option Snapshot → String
output_text none = ""
output_text (some s) = s.json

abbrev pub confirmed :
    ℕ → String → String → Result Error Node × Runner → Result Error (Unit {0}) × Runner
confirmed now task_id node_id (err e, r) = (err e, r)
confirmed now task_id node_id (ok node, r) = (
  ok tt,
  broadcast
      (record (plain_event now task_id node_succeeded node_id) { output = output_text node.output })
      (signal_confirm task_id node_id r),
)

-- ConfirmNode
unfoldable pub confirm_node :
    ℕ → String → String → Option Snapshot → Runner → Result Error (Unit {0}) × Runner
confirm_node now task_id node_id adjustment r =
    confirmed now task_id node_id (with_task task_id (Task.confirm_node now node_id adjustment) r)

abbrev pub announce_adjusted :
    ℕ → String → String → Snapshot → Result Error Node × Runner → Result Error (Unit {0}) × Runner
announce_adjusted now task_id node_id output (err e, r) = (err e, r)
announce_adjusted now task_id node_id output (ok node, r) = (
  ok tt,
  broadcast (record (plain_event now task_id node_output_adjusted node_id) { output = output.json })
      r,
)

-- AdjustNodeOutput
unfoldable pub adjust_node_output :
    ℕ → String → String → Snapshot → Runner → Result Error (Unit {0}) × Runner
adjust_node_output now task_id node_id output r =
    announce_adjusted now task_id node_id output
      (with_task task_id (Task.adjust_output now node_id output) r)

-- The event of finishNode: none for a node that is to be tried again or was not there.
abbrev pub announce_finished : ℕ → String → String → Option Node → Runner → Runner
announce_finished now task_id node_id none r = r
announce_finished now task_id node_id (some node) r =
    if is_succeeded node.status
    then broadcast
        (record (plain_event now task_id node_succeeded node_id) {
          output = output_text node.output;
        })
        r
    else if is_failed node.status
    then broadcast
        (record (plain_event now task_id node_failed node_id) {
          error = node.error;
          error_code = node.error_code;
        })
        r
    else r

abbrev pub finished :
    ℕ → String → String → Result Error (Option Node) × Runner → Result Error (Unit {0}) × Runner
finished now task_id node_id (err e, r) = (err e, r)
finished now task_id node_id (ok node, r) = (ok tt, announce_finished now task_id node_id node r)

-- finishNode
unfoldable pub finish_node :
    ℕ → String → String → Result Failure Snapshot → Runner → Result Error (Unit {0}) × Runner
finish_node now task_id node_id outcome r =
    finished now task_id node_id
      (with_task task_id (λ task. ok (Task.finish_node now node_id outcome task)) r)

abbrev pub video_artifact : String → List String
video_artifact task_id =
    ("/api/v0_1/shot-preview/artifacts/download?task_id=" <> task_id <> "&name=shot-preview.mp4")
    ∷ []

abbrev pub announce_verdict : ℕ → String → Verdict → Runner → Runner
announce_verdict now task_id open_still r = r
announce_verdict now task_id success r =
    broadcast
      (record (plain_event now task_id task_succeeded "") { artifacts = video_artifact task_id }) r
announce_verdict now task_id (failure node) r =
    broadcast
      (record (plain_event now task_id task_failed "") {
        error = node.error;
        error_code = node.error_code;
      })
      r

abbrev pub completed : ℕ → String → Result Error Verdict × Runner → Result Error (Unit {0}) × Runner
completed now task_id (err e, r) = (err e, r)
completed now task_id (ok verdict, r) = (ok tt, announce_verdict now task_id verdict r)

-- completeIfBlocked
unfoldable pub complete_if_blocked : ℕ → String → Runner → Result Error (Unit {0}) × Runner
complete_if_blocked now task_id r =
    completed now task_id (with_task task_id (λ task. ok (Task.complete_if_blocked now task)) r)

-- The loop of Cancel over the channels of the task's nodes.
unfoldable pub signal_all : String → List (String × ℕ) → Runner → Runner
signal_all task_id [] r = r
signal_all task_id ((key, ch) ∷ chans) r =
    signal_all task_id chans
      (if starts_with key (task_id <> ":") then signalled key r (some ch) else r)

-- What the lock of Cancel covers: the task cancelled, as it was, or an error.
abbrev pub write_cancelled :
    Runner → Repository → Result Error (Option Task) → Result Error (Bool) × Runner
write_cancelled r repository (err e) = (err e, r)
write_cancelled r repository (ok none) = (ok false, r)
write_cancelled r repository (ok (some task)) =
    write_back r repository true (Repository.update task repository)

abbrev pub cancel_stored : ℕ → Runner → Repository → Result Error Task → Result Error Bool × Runner
cancel_stored now r repository (err e) = (err e, r)
cancel_stored now r repository (ok task) = write_cancelled r repository (Task.cancel now task)

abbrev pub signal_cancelled : String → Result Error Bool × Runner → Result Error (Unit {0}) × Runner
signal_cancelled task_id (err e, r) = (err e, r)
signal_cancelled task_id (ok false, r) = (ok tt, r)
signal_cancelled task_id (ok true, r) = (ok tt, signal_all task_id r.confirm_chans r)

-- Cancel
unfoldable pub cancel : ℕ → String → Runner → Result Error (Unit {0}) × Runner
cancel now id r =
    let task_id = trim_space id in
    given_repository (err task_not_found, r)
      (λ repository.
        if task_id == ""
        then (err task_not_found, r)
        else signal_cancelled task_id
            (cancel_stored now r repository (Repository.get task_id repository)))
      r.repository

abbrev pub retried : String → Result Error Task × Runner → Result Error Task × Runner
retried task_id (err e, r) = (err e, r)
retried task_id (ok task, r) = (ok task, (start task_id r).1)

abbrev pub retry_task : ℕ → Task → Result Error (Task × Task)
retry_task now task = Task.retry now task >>= (λ t. ok (t, t))

-- Retry
unfoldable pub retry : ℕ → String → Runner → Result Error Task × Runner
retry now id r =
    given_repository (err task_not_found, r)
      (λ repository. retried (trim_space id) (with_task (trim_space id) (retry_task now) r))
      r.repository

-- The body of the loop of Recover, for a task that is not active: nothing is written of a task that
-- does not change.
abbrev pub requeue_changed : Runner → Repository → Option Task → Result Error (Unit {0}) × Runner
requeue_changed r repository none = (ok tt, r)
requeue_changed r repository (some task) =
    write_back r repository tt (Repository.update task repository)

abbrev pub requeue_stored :
    ℕ → Runner → Repository → Result Error Task → Result Error (Unit {0}) × Runner
requeue_stored now r repository (err e) = (err e, r)
requeue_stored now r repository (ok task) = requeue_changed r repository (Task.recover now task)

abbrev pub requeue_task : ℕ → String → Runner → Result Error (Unit {0}) × Runner
requeue_task now task_id r =
    given_repository (err nil_repository, r)
      (λ repository. requeue_stored now r repository (Repository.get task_id repository))
      r.repository

-- `if getErr != nil { return getErr }`, and the rest of the loop.
abbrev pub after_requeue :
    Result Error (Unit {0}) × Runner
    → Result Error (Unit {0}) × Runner
    → Result Error (Unit {0}) × Runner
after_requeue (err e, r) rest = (err e, r)
after_requeue (ok u, r) rest = rest

-- The loop of Recover: it stops at an error, and starts each task that is not active.
unfoldable pub recover_each : ℕ → List Task → Runner → Result Error (Unit {0}) × Runner
recover_each now [] r = (ok tt, r)
recover_each now (task ∷ tasks) r =
    let requeued = requeue_task now task.id r in
    let next = recover_each now tasks (start task.id requeued.1).1 in
    let skip = recover_each now tasks r in
    if is_active task.id r then skip else after_requeue requeued next

-- Recover
unfoldable pub recover : ℕ → Runner → Result Error (Unit {0}) × Runner
recover now r =
    given_repository (err (invalid_submission repository_required), r)
      (λ repository. recover_each now (Repository.list_incomplete repository) r) r.repository
