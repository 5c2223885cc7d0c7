-- ===== src/Pipeline/Runner.antt =====
-- internal/service/pipeline/runner.go: the Runner. Its mutex and the lock of each task make the
-- part of a method between two waits one step; a step is a function from the runner to its result
-- and the runner. Contexts, goroutines and cancellation signals to them are not kept: what they
-- cause is the order of the steps.
pub mod Methods
pub mod Accepted
pub mod Confirmation
pub mod Stored
pub mod Calls
pub mod Lives
pub mod Submitted
use blender_shot_preview.Prelude.{
  ℕ, suc, ◌+◌, String, Bool, true, false, Option, none, some, List, [], ◌∷◌, ◌++◌, Result, ok, err,
  ltb, ◌==◌, not, ◌&&◌, ◌||◌, if◌then◌else◌, lookup, insert, delete, contains, without, length,
}
use Prim.Native.String.{◌++◌ as ◌<>◌}
use blender_shot_preview.Prelude.Text.{trim_space, quote}
use text.Mathlib.Text.{starts_with}
use blender_shot_preview.Pipeline.Types.{
  Task, Node, NodeStatus, TaskStatus, Snapshot, Submission, Invocation, InvocationKind, agent, step,
  tool, other, Error, task_not_found, nil_repository, invalid_submission, repository_required,
  is_terminal_task, new_snapshot,
}
use blender_shot_preview.Pipeline.Task
use blender_shot_preview.Pipeline.Task.{
  Failure, Verdict, open_still, success, failure, completed_dependencies,
}
use blender_shot_preview.Pipeline.Task.Submit.{new_task}
use blender_shot_preview.Pipeline.Repository
use blender_shot_preview.Pipeline.Repository.{Repository}

pub data EventType : Type 0 where
  task_started node_started node_waiting_confirm node_output_adjusted : EventType
  node_succeeded node_failed task_succeeded task_failed : EventType

-- PipelineEvent. The artifacts are those of a task that succeeded.
pub record Event : Type 0 where
  pub task_id : String
  pub type : EventType
  pub node_id : String
  pub input : String
  pub output : String
  pub error : String
  pub error_code : String
  pub artifacts : List String
  pub timestamp : ℕ

-- A subscriber's channel: its identity, and the events that it has not received yet.
pub record Channel : Type 0 where
  pub id : ℕ
  pub buffer : List Event

abbrev pub channel_capacity : ℕ
channel_capacity = 64

-- The channels of confirmations are cells of one place: `signals` holds whether each is full, and
-- `confirm_chans` the cell registered under a task and node.
pub record Runner : Type 0 where
  pub repository : Option Repository
  pub active : List String
  pub subscribers : List (String × List Channel)
  pub next_channel : ℕ
  pub confirm_chans : List (String × ℕ)
  pub signals : List Bool

-- NewRunner
abbrev pub new_runner : Option Repository → Runner
new_runner repository = record {
  repository = repository;
  active = [];
  subscribers = [];
  next_channel = 0;
  confirm_chans = [];
  signals = [];
}

-- A send in a `select` with a default: a full channel drops the event.
unfoldable pub offer : Event → List Channel → List Channel
offer event [] = []
offer event (ch ∷ channels) =
    (if ltb (length ch.buffer) channel_capacity
      then record ch { buffer = ch.buffer ++ event ∷ [] }
      else ch)
    ∷ offer event channels

abbrev pub or_none : Option (List Channel) → List Channel
or_none none = []
or_none (some channels) = channels

abbrev pub offered : Event → Runner → Option (List Channel) → Runner
offered event r none = r
offered event r (some channels) = record r {
  subscribers = insert event.task_id (offer event channels) r.subscribers;
}

-- broadcast, with a repository that keeps no events.
unfoldable pub broadcast : Event → Runner → Runner
broadcast event r = offered event r (lookup event.task_id r.subscribers)

-- Subscribe
unfoldable pub subscribe : String → Runner → ℕ × Runner
subscribe task_id r = (
  r.next_channel,
  record r {
    subscribers =
        insert task_id
          (or_none (lookup task_id r.subscribers)
            ++ record { id = r.next_channel; buffer = [] } ∷ [])
          r.subscribers;
    next_channel = r.next_channel + 1;
  },
)

unfoldable pub drop_channel : ℕ → List Channel → List Channel
drop_channel id [] = []
drop_channel id (ch ∷ channels) =
    if ltb ch.id id || ltb id ch.id then ch ∷ drop_channel id channels else channels

abbrev pub keep_if_any :
    String → List Channel → List (String × List Channel) → List (String × List Channel)
keep_if_any task_id [] subscribers = delete task_id subscribers
keep_if_any task_id (ch ∷ channels) subscribers = insert task_id (ch ∷ channels) subscribers

-- The function that Subscribe returns.
unfoldable pub unsubscribe : String → ℕ → Runner → Runner
unsubscribe task_id id r = record r {
  subscribers =
      keep_if_any task_id (drop_channel id (or_none (lookup task_id r.subscribers))) r.subscribers;
}

-- An operation on a task that reports `A`, read and written back under the task's lock. An error of
-- the operation leaves the stored task as it was.
abbrev pub write_back {ℓ} :
    {A : Type ℓ}
    → Runner
    → Repository
    → A
    → Result Error (Unit {0}) × Repository
    → Result Error A × Runner
write_back r repository a (ok u, repository') = (ok a, record r { repository = some repository' })
write_back r repository a (err e, repository') = (err e, record r { repository = some repository' })

abbrev pub applied {ℓ} :
    {A : Type ℓ} → Runner → Repository → Result Error (Task × A) → Result Error A × Runner
applied r repository (err e) = (err e, r)
applied r repository (ok (task, a)) = write_back r repository a (Repository.update task repository)

abbrev pub apply_to {ℓ} :
    {A : Type ℓ}
    → Runner
    → Repository
    → (Task → Result Error (Task × A))
    → Result Error Task
    → Result Error A × Runner
apply_to r repository operation (err e) = (err e, r)
apply_to r repository operation (ok task) = applied r repository (operation task)

-- What is done with the repository of a runner that has one.
abbrev pub given_repository {ℓ} : {B : Type ℓ} → B → (Repository → B) → Option Repository → B
given_repository absent use_it none = absent
given_repository absent use_it (some repository) = use_it repository

-- withTask
unfoldable pub with_task {ℓ} :
    {A : Type ℓ} → String → (Task → Result Error (Task × A)) → Runner → Result Error A × Runner
with_task task_id operation r =
    given_repository (err nil_repository, r)
      (λ repository. apply_to r repository operation (Repository.get task_id repository))
      r.repository

abbrev pub read_from : String → Option Repository → Result Error Task
read_from task_id none = err task_not_found
read_from task_id (some repository) = Repository.get (trim_space task_id) repository

-- Get
unfoldable pub get : String → Runner → Result Error Task
get task_id r = read_from task_id r.repository

abbrev pub plain_event : ℕ → String → EventType → String → Event
plain_event now task_id type node_id = record {
  task_id = task_id;
  type = type;
  node_id = node_id;
  input = "";
  output = "";
  error = "";
  error_code = "";
  artifacts = [];
  timestamp = now;
}

-- start: the task is noted as active; whether a worker begins is in the answer.
unfoldable pub start : String → Runner → Bool × Runner
start task_id r =
    if contains task_id r.active
    then (false, r)
    else (true, record r { active = task_id ∷ r.active })

-- isActive
abbrev pub is_active : String → Runner → Bool
is_active task_id r = contains task_id r.active

abbrev pub is_unfinished : Result Error Task → Bool
is_unfinished (err e) = false
is_unfinished (ok task) = not (is_terminal_task task.status)

-- What the worker of `start` does when it ends, with the answer of `run`: the task's slot is free
-- again, and where `run` asks for it a task that has not ended gets a worker again.
unfoldable pub worker_ended : Bool → String → Runner → Runner
worker_ended recheck task_id r =
    let freed = record r { active = without task_id r.active } in
    if recheck && is_unfinished (get task_id freed) then (start task_id freed).1 else freed

abbrev pub submitted :
    ℕ → Runner → Result Error (Task × Bool) × Repository → Result Error (Task × Bool) × Runner
submitted now r (err e, repository) = (err e, record r { repository = some repository })
submitted now r (ok (task, created), repository) =
    let r' =
      broadcast (plain_event now task.id task_started "")
        (record r { repository = some repository }) in
    (ok (task, created), if not (is_terminal_task task.status) then (start task.id r').1 else r')

abbrev pub stored :
    ℕ → Runner → Repository → Result Error Task → Result Error (Task × Bool) × Runner
stored now r repository (err e) = (err e, r)
stored now r repository (ok task) = submitted now r (Repository.create_if_absent task repository)

-- Submit; `id` is what newTaskID returns.
unfoldable pub submit :
    ℕ → Option String → Submission → Runner → Result Error (Task × Bool) × Runner
submit now id submission r =
    given_repository (err (invalid_submission repository_required), r)
      (λ repository. stored now r repository (new_task now id submission)) r.repository
