-- ===== src/Examples/Tasks.antt =====
-- Tasks of the two nodes.
use blender_shot_preview.Prelude.{
  ◌≤◌, String, true, false, none, some, List, [], ◌∷◌, ◌≡◌, ◌≢◌, refl, ok, err, ◌==◌, if◌then◌else◌,
  arith, lookup, insert, get_elem?, contains, without, ◌>>=◌,
}
use blender_shot_preview.Prelude.Json
use blender_shot_preview.Prelude.Text.{trim_space}
use blender_shot_preview.Pipeline.Types.{
  Task, Node, NodeStatus, TaskStatus, Snapshot, Submission, step, not_waiting, idempotency_conflict,
  find_node, new_snapshot, is_terminal_task,
}
use blender_shot_preview.Pipeline.Workflow.{
  validate, check_nodes, check_node, check_edges, check_dependencies, find_spec, search_order,
  visit, visit_each, leave, dependencies_of,
}
use blender_shot_preview.Pipeline.Task.{
  Failure, finish_node, start_each, start_one, confirm_node, set_waiting, cancel, cancel_unfinished,
  is_waiting, confirm, start_nodes, set_task_running, complete_if_blocked, update_first,
  keep_behind, ready_nodes, any_node, is_busy, ready_from, dependencies_succeeded, all_succeeded,
}
use blender_shot_preview.Pipeline.Task.Invariant.{Inv}
use blender_shot_preview.Pipeline.Task.Steps.{here, next, run_task, start, finish}
use blender_shot_preview.Pipeline.Task.Submit.{new_task, new_nodes}
use blender_shot_preview.Pipeline.Task.Confirmed.{confirm_node_once, late_waiting_reopens}
use blender_shot_preview.Pipeline.Task.Progress.{Ended, complete_if_blocked_ends}
use blender_shot_preview.Pipeline.Life.{life-Inv, life_ends}
use blender_shot_preview.Pipeline.Run.{Environment, run}
use blender_shot_preview.Pipeline.Run.Ends.{rounds_left}
use blender_shot_preview.Pipeline.Repository.{Repository, empty_repository, create_if_absent, get}
use blender_shot_preview.Pipeline.Repository.Idempotency.{create_if_absent-twice}
use blender_shot_preview.Pipeline.Repository
use blender_shot_preview.Pipeline.Runner
use blender_shot_preview.Pipeline.Runner.{Runner, new_runner, submit, broadcast}
use blender_shot_preview.Pipeline.Runner.Methods
use blender_shot_preview.Pipeline.Runner.Methods.{get_confirm_chan, signal_confirm}
use blender_shot_preview.Pipeline.Runner.Lives.{no_call, then_call, submits, get-Inv}
use blender_shot_preview.Pipeline.Runner.Confirmation.{signal-wakes, signal_lost}
use blender_shot_preview.Examples.Workflows.{demo_workflow}

abbrev snapshot : Snapshot
snapshot = record { json = "{}"; captured_at = 1 }

abbrev demo_node : String → List String → NodeStatus → Node
demo_node id deps status = record {
  id = id;
  depends_on = deps;
  invocation = record { kind = step; target = id };
  input = snapshot;
  output = none;
  status = status;
  attempts = 0;
  max_attempts = 1;
  error = "";
  error_code = "";
  started_at = none;
  finished_at = none;
}

abbrev demo_task_with : List Node → TaskStatus → Task
demo_task_with nodes status = record {
  id = "t";
  idempotency_key = "key";
  input = snapshot;
  nodes = nodes;
  status = status;
  require_confirmation = false;
  cancel_requested = false;
  created_at = 1;
  updated_at = 1;
  finished_at = none;
}

abbrev demo_task : Task
demo_task =
    demo_task_with
      (demo_node "a" [] NodeStatus.pending ∷ demo_node "b" ("a" ∷ []) NodeStatus.pending ∷ [])
      TaskStatus.pending

abbrev demo_submission : Submission
demo_submission = record {
  idempotency_key = " key ";
  input = record { json = ""; captured_at = 0 };
  workflow = demo_workflow;
  require_confirmation = false;
}

submitted : new_task 1 (some "t") demo_submission ≡ ok demo_task
unfolding ◌>>=◌ new_task new_nodes new_snapshot Json.valid validate check_nodes check_node
    check_edges check_dependencies find_spec search_order visit visit_each leave dependencies_of
    contains without trim_space
submitted = refl

life-Inv_running : Inv (set_task_running 2 demo_task)
life-Inv_running =
    life-Inv 1 (some "t") demo_submission demo_task (set_task_running 2 demo_task) submitted
      (next here (run_task 2))

-- Every invocation returns an output.
abbrev demo_environment : Environment
demo_environment = record {
  outcome = λ task node. ok snapshot;
  adjustment = λ node. none;
  now = λ task. 3;
}

enough : rounds_left demo_task ≤ 6
unfolding rounds_left
enough = omega arith

life_ends_demo :
    (is_terminal_task (run 6 demo_environment demo_task).status ≡ true)
    × Inv (run 6 demo_environment demo_task)
life_ends_demo =
    life_ends 6 demo_environment 1 (some "t") demo_submission demo_task submitted refl enough

-- The first node fails for good, so that the second can never start.
abbrev stopped : Task
stopped =
    (finish_node 4 "a" (err (record { message = "no"; code = "TOOL" }))
      (start_nodes 3 ("a" ∷ []) (set_task_running 2 demo_task)).0).0

stopped-Inv : Inv stopped
stopped-Inv = life-Inv 1 (some "t") demo_submission demo_task stopped submitted (
    next (next (next here (run_task 2)) (start 3 ("a" ∷ [])))
      (finish 4 "a" (err (record { message = "no"; code = "TOOL" }))))

complete_if_blocked_ends_stopped : Ended (complete_if_blocked 5 stopped)
unfolding finish_node start_nodes start_each start_one set_task_running ready_nodes ready_from
    any_node update_first all_succeeded find_node blender_shot_preview.Pipeline.Task.finish
complete_if_blocked_ends_stopped = complete_if_blocked_ends 5 stopped stopped-Inv refl refl refl

abbrev waiting_node : Node
waiting_node = record (demo_node "a" [] NodeStatus.waiting_confirmation) {
  output = some snapshot;
  attempts = 1;
}

abbrev waiting_task : Task
waiting_task =
    demo_task_with (waiting_node ∷ demo_node "b" ("a" ∷ []) NodeStatus.pending ∷ [])
      TaskStatus.running

abbrev confirmed_demo : Task
confirmed_demo = record waiting_task {
  nodes = confirm 5 none waiting_node ∷ demo_node "b" ("a" ∷ []) NodeStatus.pending ∷ [];
  updated_at = 5;
}

confirmed : confirm_node 5 "a" none waiting_task ≡ ok (confirmed_demo, confirm 5 none waiting_node)
unfolding ◌>>=◌ confirm_node update_first find_node
confirmed = refl

confirm_node_once_demo :
    ((waiting : Node) × (find_node "a" waiting_task.nodes ≡ some waiting)
      × (is_waiting waiting.status ≡ true)
      × (find_node "a" confirmed_demo.nodes
          ≡ some (record waiting {
            finished_at = some 5;
            status = NodeStatus.succeeded;
            output = waiting.output;
          })))
    × (confirm_node 6 "a" (some snapshot) confirmed_demo ≡ err not_waiting)
confirm_node_once_demo =
    confirm_node_once 5 6 "a" none (some snapshot) waiting_task confirmed_demo
      (confirm 5 none waiting_node) confirmed

abbrev cancelled_demo : Task
cancelled_demo = record demo_task {
  cancel_requested = true;
  status = TaskStatus.cancelled;
  updated_at = 2;
  finished_at = some 2;
  nodes =
      cancel_unfinished 2 (demo_node "a" [] NodeStatus.pending)
      ∷ cancel_unfinished 2 (demo_node "b" ("a" ∷ []) NodeStatus.pending)
      ∷ [];
}

cancels : cancel 2 demo_task ≡ ok (some cancelled_demo)
unfolding cancel
cancels = refl

found_a : find_node "a" demo_task.nodes ≡ some (demo_node "a" [] NodeStatus.pending)
unfolding find_node
found_a = refl

late_waiting_reopens_demo :
    (task' : Task) × (node' : Node) × (set_waiting 3 "a" snapshot cancelled_demo
      ≡ ok (task', node'))
    × (task'.status ≡ TaskStatus.cancelled)
    × (find_node "a" task'.nodes ≡ some node')
    × (is_waiting node'.status ≡ true)
late_waiting_reopens_demo =
    late_waiting_reopens 2 3 "a" snapshot demo_task cancelled_demo
      (demo_node "a" [] NodeStatus.pending) found_a cancels

abbrev again_task : Task
again_task = record demo_task { id = "u"; created_at = 9 }

create_if_absent-twice_demo :
    let stored = (create_if_absent demo_task empty_repository).1 in
    (get "t" stored ≡ ok demo_task)
    × ((id : String) → id ≢ "t" → get id stored ≡ get id empty_repository)
    × (create_if_absent again_task stored
        ≡ ((if "{}" == "{}" then ok (demo_task, false) else err idempotency_conflict), stored))
unfolding lookup
create_if_absent-twice_demo = create_if_absent-twice demo_task again_task empty_repository refl refl

abbrev idle_runner : Runner
idle_runner = new_runner (some empty_repository)

signal-wakes_demo :
    let (ch, r') = get_confirm_chan "t" "a" idle_runner in
    get_elem? (signal_confirm "t" "a" r').signals ch ≡ some true
unfolding lookup
signal-wakes_demo = signal-wakes "t" "a" idle_runner refl

abbrev waiting_repository : Repository
waiting_repository = record { tasks = ("t", waiting_task) ∷ []; by_idempotency_key = [] }

abbrev waiting_runner : Runner
waiting_runner = new_runner (some waiting_repository)

waiting_stored : get "t" waiting_repository ≡ ok waiting_task
unfolding get lookup
waiting_stored = refl

signal_lost_demo :
    let (answer, r1) = Methods.confirm_node 5 "t" "a" none waiting_runner in
    let (ch, r2) = get_confirm_chan "t" "a" r1 in
    let (refusal, r3) = Methods.confirm_node 6 "t" "a" (some snapshot) r2 in
    (answer ≡ ok tt)
    × ((get_elem? r2.signals ch ≡ some false)
        × (refusal ≡ err not_waiting)
        × (get_elem? r3.signals ch ≡ some false))
unfolding lookup
signal_lost_demo =
    signal_lost 5 6 "t" "a" none (some snapshot) waiting_runner waiting_repository waiting_task
      confirmed_demo (confirm 5 none waiting_node) refl waiting_stored refl confirmed refl

abbrev served : Runner
served = (submit 1 (some "t") demo_submission idle_runner).1

served_task : Runner.get "t" served ≡ ok demo_task
unfolding ◌>>=◌ Runner.get Repository.get submit create_if_absent new_task new_nodes new_snapshot
    Json.valid validate check_nodes check_node check_edges check_dependencies find_spec search_order
    visit visit_each leave dependencies_of contains without trim_space lookup insert broadcast
    Runner.start
served_task = refl

get-Inv_served : Inv demo_task
get-Inv_served =
    get-Inv "t" demo_task (then_call no_call (submits 1 (some "t") demo_submission)) served_task
