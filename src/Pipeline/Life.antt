-- ===== src/Pipeline/Life.antt =====
-- A task from its submission on: every point of its life, and its end.
use blender_shot_preview.Prelude.{ℕ, ◌≤◌, String, true, false, Option, ◌≡◌, ◌∙◌, ok, contains, []}
use blender_shot_preview.Pipeline.Types.{Task, Node, NodeSpec, Submission, is_terminal_task}
use blender_shot_preview.Pipeline.Task.{is_busy}
use blender_shot_preview.Pipeline.Task.Invariant.{Inv}
use blender_shot_preview.Pipeline.Task.Steps.{Reach, Reach-Inv}
use blender_shot_preview.Pipeline.Task.Submit.{
  new_task, new_task-Inv, new_task_parts, IsMadeOf, AreMadeOf-All,
}
use blender_shot_preview.Pipeline.Run.{Environment, run}
use blender_shot_preview.Pipeline.Run.Ends.{rounds_left, run_ends}

-- A task that Submit makes satisfies the invariant after any steps of the runner's methods, in any
-- order, where setNodeWaitingConfirmation comes only for a node whose invocation is out, in a task that
-- goes on or was cancelled: no node has more attempts than it may, a node that has begun has
-- dependencies that have all succeeded, a task that has not ended has no cancelled node and no
-- cancellation, a succeeded task has only succeeded nodes, and a failed one has a failed node and no
-- node that has not ended.
pub life-Inv :
    (now : ℕ) (id : Option String) (submission : Submission) (begun task : Task)
    → new_task now id submission ≡ ok begun
    → Reach begun task
    → Inv task
life-Inv now id submission begun task h r = Reach-Inv (new_task-Inv now id submission begun h) r

made_idle :
    (s : NodeSpec) (n : Node) → IsMadeOf s n → is_busy n.status ≡ true → contains n.id [] ≡ true
made_idle s n m b = absurd (cc (rw m.fresh at b))

-- A task that Submit makes and that asks for no confirmation reaches a terminal status in the loop of
-- run, within twice the attempts of its nodes and two more rounds, whatever the invocations return,
-- and the invariant then holds: succeeded means every node succeeded, and failed that one failed.
pub life_ends :
    (fuel : ℕ) (env : Environment) (now : ℕ) (id : Option String) (submission : Submission)
    (task : Task)
    → new_task now id submission ≡ ok task
    → submission.require_confirmation ≡ false
    → rounds_left task ≤ fuel
    → (is_terminal_task (run fuel env task).status ≡ true) × Inv (run fuel env task)
life_ends fuel env now id submission task h unattended enough =
    let (valid, made, status, wanted, same) = new_task_parts now id submission task h in
    run_ends fuel env task (new_task-Inv now id submission task h) (same ∙ unattended)
      (AreMadeOf-All _ submission.workflow.nodes task.nodes made_idle made) enough
