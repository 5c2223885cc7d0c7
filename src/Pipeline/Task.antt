-- ===== src/Pipeline/Task.antt =====
-- internal/service/pipeline/runner.go: what each method of the runner does to the task that it has
-- read, between reading it and writing it back. `now` is the clock's reading.
use blender_shot_preview.Prelude.{
  ℕ, suc, ◌+◌, String, Bool, true, false, Option, none, some, List, [], ◌∷◌, ◌++◌, Result, ok, err,
  ◌>>=◌, ◌>>◌, refuse_if, ltb, leb, ◌==◌, if◌then◌else◌, not, ◌||◌, ◌&&◌, map,
}
use blender_shot_preview.Prelude.Text.{trim_space}
use blender_shot_preview.Pipeline.Types.{
  Task, Node, NodeStatus, TaskStatus, InvocationKind, Snapshot, Error, task_not_failed,
  task_already_terminal, node_not_found, not_waiting, is_terminal_task, is_terminal_node, find_node,
  task_node,
}
pub mod Nodes
pub mod Invariant
pub mod Preserved
pub mod Settled
pub mod Steps
pub mod Submit
pub mod Progress
pub mod Confirmed

-- An error of an invoker: its text, and what its ErrorCode method returns, "" if it has none.
pub record Failure : Type 0 where
  pub message : String
  pub code : String

abbrev pub is_pending : NodeStatus → Bool
is_pending NodeStatus.pending = true
is_pending _ = false

abbrev pub is_succeeded : NodeStatus → Bool
is_succeeded NodeStatus.succeeded = true
is_succeeded _ = false

abbrev pub is_failed : NodeStatus → Bool
is_failed NodeStatus.failed = true
is_failed _ = false

-- `Running || WaitingConfirmation`
abbrev pub is_busy : NodeStatus → Bool
is_busy NodeStatus.running = true
is_busy NodeStatus.waiting_confirmation = true
is_busy _ = false

abbrev pub is_running : NodeStatus → Bool
is_running NodeStatus.running = true
is_running _ = false

abbrev pub is_waiting : NodeStatus → Bool
is_waiting NodeStatus.waiting_confirmation = true
is_waiting _ = false

-- One dependency: `exists && matched.Status == NodeStatusSucceeded`
abbrev pub has_succeeded : Option Node → Bool
has_succeeded none = false
has_succeeded (some node) = is_succeeded node.status

unfoldable pub all_succeeded : List Node → List String → Bool
all_succeeded nodes [] = true
all_succeeded nodes (d ∷ deps) = has_succeeded (find_node d nodes) && all_succeeded nodes deps

-- dependenciesSucceeded
abbrev pub dependencies_succeeded : Node → Task → Bool
dependencies_succeeded node task = all_succeeded task.nodes node.depends_on

unfoldable pub ready_from : Task → List Node → List String
ready_from task [] = []
ready_from task (node ∷ nodes) =
    let rest = ready_from task nodes in
    if is_pending node.status && dependencies_succeeded node task then node.id ∷ rest else rest

-- readyNodes
unfoldable pub ready_nodes : Task → List String
unfolding ready_from
ready_nodes task = ready_from task task.nodes

-- completedDependencies: the outputs, by dependency.
unfoldable pub completed_dependencies : List Node → List String → List (String × Snapshot)
completed_dependencies nodes [] = []
completed_dependencies nodes (d ∷ deps) =
    let rest = completed_dependencies nodes deps in
    elim (find_node d nodes) [
      | none ↦ rest
      | some node ↦ elim node.output [ none ↦ rest | some output ↦ (d, output) ∷ rest ]
    ]

abbrev pub keep_behind : Node → Option (Node × List Node) → Option (Node × List Node)
keep_behind node none = none
keep_behind node (some (found, nodes)) = some (found, node ∷ nodes)

-- A loop that changes the first node that passes a test, and stops there.
unfoldable pub update_first : (Node → Bool) → (Node → Node) → List Node → Option (Node × List Node)
update_first test change [] = none
update_first test change (node ∷ nodes) =
    let rest = keep_behind node (update_first test change nodes) in
    if test node then some (change node, change node ∷ nodes) else rest

abbrev pub is_pending_task : TaskStatus → Bool
is_pending_task TaskStatus.pending = true
is_pending_task _ = false

abbrev pub is_running_task : TaskStatus → Bool
is_running_task TaskStatus.running = true
is_running_task _ = false

abbrev pub is_failed_task : TaskStatus → Bool
is_failed_task TaskStatus.failed = true
is_failed_task _ = false

abbrev pub is_cancelled_task : TaskStatus → Bool
is_cancelled_task TaskStatus.cancelled = true
is_cancelled_task _ = false

-- setTaskRunning
unfoldable pub set_task_running : ℕ → Task → Task
set_task_running now task =
    if is_pending_task task.status && not task.cancel_requested
    then record task { status = TaskStatus.running; updated_at = now }
    else task

-- The changes of startNodes to one node.
abbrev pub start_node : ℕ → Node → Node
start_node now node = record node {
  status = NodeStatus.running;
  attempts = node.attempts + 1;
  started_at = some now;
  finished_at = none;
  error = "";
}

abbrev pub may_start : Task → String → Node → Bool
may_start task id node =
    (node.id == id) && is_pending node.status && dependencies_succeeded node task

abbrev pub note_started : Task → List Node → Option (Node × List Node) → Task × List Node
note_started task started none = (task, started)
note_started task started (some (node, nodes)) =
    (record task { nodes = nodes }, started ++ node ∷ [])

-- The inner loop of startNodes: the first node of that ID that is ready still.
unfoldable pub start_one : ℕ → String → Task → List Node → Task × List Node
start_one now id task started =
    note_started task started (update_first (may_start task id) (start_node now) task.nodes)

-- The loop of startNodes over the IDs that were ready, with the nodes started so far.
unfoldable pub start_each : ℕ → List String → Task → List Node → Task × List Node
start_each now [] task started = (task, started)
start_each now (id ∷ ids) task started =
    let next = start_one now id task started in start_each now ids next.0 next.1

abbrev pub is_none_started : List Node → Bool
is_none_started [] = true
is_none_started (x ∷ xs) = false

-- startNodes
unfoldable pub start_nodes : ℕ → List String → Task → Task × List Node
start_nodes now ready task =
    let (task', started) = start_each now ready task [] in
    if task.cancel_requested || is_terminal_task task.status
    then (task, [])
    else if is_none_started started
    then (task', started)
    else (record task' { updated_at = now }, started)

-- The changes of finishNode to a node: its output, a new attempt, or failure.
unfoldable pub finish : ℕ → Result Failure Snapshot → Node → Node
finish now (ok output) node = record node {
  finished_at = some now;
  output = some output;
  status = NodeStatus.succeeded;
  error = "";
  error_code = "";
}
finish now (err failure) node =
    if ltb node.attempts node.max_attempts
    then record node {
      error = trim_space failure.message;
      error_code = failure.code;
      status = NodeStatus.pending;
      finished_at = none;
    }
    else record node {
      error = trim_space failure.message;
      error_code = failure.code;
      status = NodeStatus.failed;
      finished_at = some now;
    }

abbrev pub may_finish : String → Node → Bool
may_finish id node = (node.id == id) && is_busy node.status

abbrev pub note_finished : ℕ → Task → Option (Node × List Node) → Task × Option Node
note_finished now task none = (task, none)
note_finished now task (some (node, nodes)) =
    (record task { nodes = nodes; updated_at = now }, some node)

-- finishNode: the task, and the node that was finished.
unfoldable pub finish_node : ℕ → String → Result Failure Snapshot → Task → Task × Option Node
finish_node now id outcome task =
    if task.cancel_requested || is_terminal_task task.status
    then (task, none)
    else note_finished now task (update_first (may_finish id) (finish now outcome) task.nodes)

abbrev pub wait_for : Snapshot → Node → Node
wait_for output node = record node {
  status = NodeStatus.waiting_confirmation;
  output = some output;
}

-- The end of a loop that returns an error where no node has the ID.
abbrev pub note_changed : ℕ → Task → Option (Node × List Node) → Result Error (Task × Node)
note_changed now task none = err node_not_found
note_changed now task (some (node, nodes)) =
    ok (record task { nodes = nodes; updated_at = now }, node)

abbrev pub has_id : String → Node → Bool
has_id id node = node.id == id

-- setNodeWaitingConfirmation, which looks at the ID only.
unfoldable pub set_waiting : ℕ → String → Snapshot → Task → Result Error (Task × Node)
set_waiting now id output task =
    note_changed now task (update_first (has_id id) (wait_for output) task.nodes)

-- `adjustedOutput != nil && len(adjustedOutput.JSON) > 0`, else the output that waits.
abbrev pub adjusted : Option Snapshot → Option Snapshot → Option Snapshot
adjusted none output = output
adjusted (some new) output = if new.json == "" then output else some new

abbrev pub confirm : ℕ → Option Snapshot → Node → Node
confirm now adjustment node = record node {
  finished_at = some now;
  status = NodeStatus.succeeded;
  output = adjusted adjustment node.output;
}

-- The node that the loop of ConfirmNode stops at has to wait.
abbrev pub check_waiting : Option Node → Result Error (Unit {0})
check_waiting none = err node_not_found
check_waiting (some node) = refuse_if (not (is_waiting node.status)) not_waiting

-- ConfirmNode
unfoldable pub confirm_node : ℕ → String → Option Snapshot → Task → Result Error (Task × Node)
confirm_node now id adjustment task = do
  refuse_if (is_terminal_task task.status || task.cancel_requested) task_already_terminal
  check_waiting (find_node id task.nodes)
  note_changed now task (update_first (has_id id) (confirm now adjustment) task.nodes)

abbrev pub put_output : Snapshot → Node → Node
put_output output node = record node { output = some output }

-- AdjustNodeOutput
unfoldable pub adjust_output : ℕ → String → Snapshot → Task → Result Error (Task × Node)
adjust_output now id output task = do
  refuse_if (is_terminal_task task.status || task.cancel_requested) task_already_terminal
  note_changed now task (update_first (has_id id) (put_output output) task.nodes)

abbrev pub cancel_unfinished : ℕ → Node → Node
cancel_unfinished now node =
    if is_terminal_node node.status
    then node
    else record node { status = NodeStatus.cancelled; finished_at = some now }

-- Cancel; `none` where the task is cancelled already and nothing is written.
unfoldable pub cancel : ℕ → Task → Result Error (Option Task)
cancel now task =
    if is_cancelled_task task.status
    then ok none
    else if is_terminal_task task.status
    then err task_already_terminal
    else ok (
        some (record task {
          cancel_requested = true;
          status = TaskStatus.cancelled;
          updated_at = now;
          finished_at = some now;
          nodes = map (cancel_unfinished now) task.nodes;
        }))

abbrev pub reset : Node → Node
reset node = if is_succeeded node.status then node else record node {
  status = NodeStatus.pending;
  attempts = 0;
  error = "";
  error_code = "";
  started_at = none;
  finished_at = none;
  output = none;
}

-- Retry
unfoldable pub retry : ℕ → Task → Result Error Task
retry now task =
    if not (is_failed_task task.status)
    then err task_not_failed
    else ok (record task {
      status = TaskStatus.pending;
      cancel_requested = false;
      finished_at = none;
      updated_at = now;
      nodes = map reset task.nodes;
    })

-- The changes of Recover to one node.
abbrev pub requeue : ℕ → Node → Node
requeue now node =
    if not (is_running node.status)
    then node
    else if leb node.max_attempts node.attempts
    then record node {
      status = NodeStatus.failed;
      error = "interrupted during final allowed attempt";
      finished_at = some now;
    }
    else record node { status = NodeStatus.pending; started_at = none; finished_at = none }

unfoldable pub any_node : (Node → Bool) → List Node → Bool
any_node test [] = false
any_node test (node ∷ nodes) = test node || any_node test nodes

-- Recover, for one unfinished task; `none` where nothing changed.
unfoldable pub recover : ℕ → Task → Option Task
recover now task =
    if is_terminal_task task.status
    then none
    else if any_node (λ node. is_running node.status) task.nodes || is_running_task task.status
    then some (record task {
      nodes = map (requeue now) task.nodes;
      status = if is_running_task task.status then TaskStatus.pending else task.status;
      updated_at = now;
    })
    else none

abbrev pub cancel_pending : ℕ → Node → Node
cancel_pending now node =
    if is_pending node.status
    then record node { status = NodeStatus.cancelled; finished_at = some now }
    else node

unfoldable pub first_failed : List Node → Option Node
first_failed [] = none
first_failed (node ∷ nodes) = if is_failed node.status then some node else first_failed nodes

-- How a task that has no ready node ends.
pub data Verdict : Type 0 where
  open_still : Verdict
  success : Verdict
  failure : Node → Verdict

-- The end of a task with no node under way: failure by its first failed node, success, or neither.
abbrev pub settle : ℕ → Task → Option Node → Task × Verdict
settle now task (some node) = (
  record task {
    status = TaskStatus.failed;
    finished_at = some now;
    nodes = map (cancel_pending now) task.nodes;
    updated_at = now;
  },
  failure node,
)
settle now task none =
    if any_node (λ node. not (is_succeeded node.status)) task.nodes then (task, open_still) else (
      record task { status = TaskStatus.succeeded; finished_at = some now; updated_at = now },
      success,
    )

-- completeIfBlocked
unfoldable pub complete_if_blocked : ℕ → Task → Task × Verdict
complete_if_blocked now task =
    if is_terminal_task task.status || task.cancel_requested
    then (task, open_still)
    else if any_node (λ node. is_busy node.status) task.nodes
    then (task, open_still)
    else settle now task (first_failed task.nodes)
