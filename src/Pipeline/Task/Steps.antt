-- ===== src/Pipeline/Task/Steps.antt =====
-- The life of a task, as the steps that the runner's methods make on its record. Each is made under
-- the task's lock, so a life is a sequence of them; the choices of clients, invokers and clocks are
-- the steps' arguments.
use blender_shot_preview.Prelude.{ℕ, String, Option, some, List, ◌≡◌, Result, ok}
use blender_shot_preview.Pipeline.Types.{Task, Node, Snapshot}
use blender_shot_preview.Pipeline.Task.{
  Failure, set_task_running, start_nodes, finish_node, set_waiting, confirm_node, adjust_output,
  cancel, retry, recover, complete_if_blocked,
}
use blender_shot_preview.Pipeline.Task.Invariant.{Inv}
use blender_shot_preview.Pipeline.Task.Preserved.{
  IsOut, set_task_running-Inv, start_nodes-Inv, finish_node-Inv, set_waiting-Inv, confirm_node-Inv,
  adjust_output-Inv,
}
use blender_shot_preview.Pipeline.Task.Settled.{
  cancel-Inv, retry-Inv, recover-Inv, complete_if_blocked-Inv,
}

pub data Step : Task → Task → Type 0 where
  run_task : {t : Task} (now : ℕ) → Step t (set_task_running now t)
  start : {t : Task} (now : ℕ) (ready : List String) → Step t (start_nodes now ready t).0
  finish :
      {t : Task} (now : ℕ) (id : String) (outcome : Result Failure Snapshot)
      → Step t (finish_node now id outcome t).0
  wait :
      {t u : Task} {n : Node} (now : ℕ) (id : String) (output : Snapshot)
      → IsOut id t
      → set_waiting now id output t ≡ ok (u, n)
      → Step t u
  confirm :
      {t u : Task} {n : Node} (now : ℕ) (id : String) (adjustment : Option Snapshot)
      → confirm_node now id adjustment t ≡ ok (u, n)
      → Step t u
  adjust :
      {t u : Task} {n : Node} (now : ℕ) (id : String) (output : Snapshot)
      → adjust_output now id output t ≡ ok (u, n)
      → Step t u
  cancelling : {t u : Task} (now : ℕ) → cancel now t ≡ ok (some u) → Step t u
  retrying : {t u : Task} (now : ℕ) → retry now t ≡ ok u → Step t u
  recovering : {t u : Task} (now : ℕ) → recover now t ≡ some u → Step t u
  complete : {t : Task} (now : ℕ) → Step t (complete_if_blocked now t).0

pub data Reach (s : Task) : Task → Type 0 where
  here : Reach s s
  next : {t u : Task} → Reach s t → Step t u → Reach s u

pub Step-Inv : {t u : Task} → Step t u → Inv t → Inv u
Step-Inv (run_task {t} now) v = set_task_running-Inv now t v
Step-Inv (start {t} now ready) v = start_nodes-Inv now ready t v
Step-Inv (finish {t} now id outcome) v = finish_node-Inv now id outcome t v
Step-Inv (wait {t} now id output out e) v = set_waiting-Inv now id output t out e v
Step-Inv (confirm {t} now id adjustment e) v = confirm_node-Inv now id adjustment t e v
Step-Inv (adjust {t} now id output e) v = adjust_output-Inv now id output t e v
Step-Inv (cancelling {t} {u} now e) v = cancel-Inv now t u e v
Step-Inv (retrying {t} {u} now e) v = retry-Inv now t u e v
Step-Inv (recovering {t} {u} now e) v = recover-Inv now t u e v
Step-Inv (complete {t} now) v = complete_if_blocked-Inv now t v

-- Every point of a life that starts in the invariant satisfies it.
pub Reach-Inv : {s t : Task} → Inv s → Reach s t → Inv t
Reach-Inv v here = v
Reach-Inv v (next r st) = Step-Inv st (Reach-Inv v r)
