-- ===== src/Pipeline/Run.antt =====
-- internal/service/pipeline/runner.go: executeNode and the loop of run, for a task whose repository
-- answers. The nodes of a batch are executed concurrently; each changes its own node under the
-- task's lock, and here they finish in the order in which they started. Where a confirmation is
-- required the worker waits, and the client's confirmation comes before the next node finishes.
pub mod Batch
pub mod Termination
pub mod Ends
use blender_shot_preview.Prelude.{
  ℕ, zero, suc, ◌+◌, String, Bool, true, false, Option, none, some, List, [], ◌∷◌, Result, ok, err,
  ◌==◌, ◌&&◌, ◌||◌, if◌then◌else◌,
}
use blender_shot_preview.Pipeline.Types.{
  Task, Node, TaskStatus, Snapshot, InvocationKind, agent, Error, is_terminal_task,
}
use blender_shot_preview.Pipeline.Task.{
  Failure, set_task_running, ready_nodes, start_nodes, finish_node, set_waiting, confirm_node,
  complete_if_blocked, is_pending_task,
}
use blender_shot_preview.Pipeline.ShotPreview.{node_inspect}

-- What the loop meets: the outcome of each invocation, the output that a client confirms in place of
-- one that waits, and the time.
pub record Environment : Type 0 where
  pub outcome : Task → Node → Result Failure Snapshot
  pub adjustment : Node → Option Snapshot
  pub now : Task → ℕ

abbrev pub is_agent : InvocationKind → Bool
is_agent agent = true
is_agent _ = false

-- nodeRequiresConfirmation
abbrev pub node_requires_confirmation : Node → Bool
node_requires_confirmation node = is_agent node.invocation.kind || (node.id == node_inspect)

-- The task as ConfirmNode leaves it; a refusal changes nothing.
abbrev pub confirmed_task : Task → Result Error (Task × Node) → Task
confirmed_task task (err e) = task
confirmed_task task (ok (task', node)) = task'

abbrev pub await_confirmation : Environment → Node → Task → Result Error (Task × Node) → Task
await_confirmation env node task (err e) = task
await_confirmation env node task (ok (waiting, n)) =
    confirmed_task waiting (confirm_node (env.now waiting) node.id (env.adjustment node) waiting)

-- What executeNode does with what the invocation returned.
abbrev pub conclude : Environment → Node → Task → Result Failure Snapshot → Task
conclude env node task (err failure) = (finish_node (env.now task) node.id (err failure) task).0
conclude env node task (ok output) =
    if task.require_confirmation && node_requires_confirmation node
    then await_confirmation env node task (set_waiting (env.now task) node.id output task)
    else (finish_node (env.now task) node.id (ok output) task).0

-- executeNode
unfoldable pub execute_node : Environment → Node → Task → Task
execute_node env node task = conclude env node task (env.outcome task node)

unfoldable pub execute_all : Environment → List Node → Task → Task
execute_all env [] task = task
execute_all env (node ∷ nodes) task = execute_all env nodes (execute_node env node task)

abbrev pub round : Environment → Task → List String → Task
round env task [] = (complete_if_blocked (env.now task) task).0
round env task (id ∷ ids) =
    let (task', started) = start_nodes (env.now task) (id ∷ ids) task in
    execute_all env started task'

-- One round of the loop of run, for a task that has not ended.
unfoldable pub run_round : Environment → Task → Task
run_round env task =
    if is_pending_task task.status
    then set_task_running (env.now task) task
    else round env task (ready_nodes task)

-- run, on fuel for its rounds. A cancellation from outside ends the loop and is not here.
unfoldable pub run : ℕ → Environment → Task → Task
run zero env task = task
run (suc fuel) env task =
    let rest = run fuel env (run_round env task) in
    if is_terminal_task task.status then task else if task.cancel_requested then task else rest
