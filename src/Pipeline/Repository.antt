-- ===== src/Pipeline/Repository.antt =====
-- internal/service/pipeline/repository.go: MemoryRepository. Its mutex makes each method one step.
pub mod Idempotency
use blender_shot_preview.Prelude.{
  ℕ, String, Bool, true, false, Option, none, some, List, [], ◌∷◌, Result, ok, err, leb, ◌==◌, not,
  if◌then◌else◌, lookup, insert,
}
use blender_shot_preview.Pipeline.Types.{
  Task, TaskStatus, Snapshot, Error, idempotency_conflict, task_not_found, is_terminal_task,
}

pub record Repository : Type 0 where
  pub tasks : List (String × Task)
  pub by_idempotency_key : List (String × String)

-- NewMemoryRepository
abbrev pub empty_repository : Repository
empty_repository = record { tasks = []; by_idempotency_key = [] }

-- Task{}, which a map yields for a key that it lacks.
abbrev pub zero_task : Task
zero_task = record {
  id = "";
  idempotency_key = "";
  input = record { json = ""; captured_at = 0 };
  nodes = [];
  status = TaskStatus.pending;
  require_confirmation = false;
  cancel_requested = false;
  created_at = 0;
  updated_at = 0;
  finished_at = none;
}

abbrev pub or_zero : Option Task → Task
or_zero none = zero_task
or_zero (some task) = task

-- The task under the key given, for which the submission must be the same.
abbrev pub replay : Task → Task → Result Error (Task × Bool)
replay task existing =
    if not (existing.input.json == task.input.json)
    then err idempotency_conflict
    else ok (existing, false)

-- A task of a new key is stored under its ID, and its ID under the key.
abbrev pub create_or_replay :
    Task → Repository → Option String → Result Error (Task × Bool) × Repository
create_or_replay task r (some task_id) = (replay task (or_zero (lookup task_id r.tasks)), r)
create_or_replay task r none = (
  ok (task, true),
  record {
    tasks = insert task.id task r.tasks;
    by_idempotency_key = insert task.idempotency_key task.id r.by_idempotency_key;
  },
)

-- CreateIfAbsent
unfoldable pub create_if_absent : Task → Repository → Result Error (Task × Bool) × Repository
create_if_absent task r = create_or_replay task r (lookup task.idempotency_key r.by_idempotency_key)

abbrev pub found_or_error : Option Task → Result Error Task
found_or_error none = err task_not_found
found_or_error (some task) = ok task

unfoldable pub get : String → Repository → Result Error Task
get task_id r = found_or_error (lookup task_id r.tasks)

abbrev pub replace : Task → Repository → Option Task → Result Error (Unit {0}) × Repository
replace task r none = (err task_not_found, r)
replace task r (some old) = (ok tt, record r { tasks = insert task.id task r.tasks })

unfoldable pub update : Task → Repository → Result Error (Unit {0}) × Repository
update task r = replace task r (lookup task.id r.tasks)

-- A place for a task in a list by creation time.
unfoldable pub place : Task → List Task → List Task
place task [] = task ∷ []
place task (t ∷ tasks) =
    if leb task.created_at t.created_at then task ∷ t ∷ tasks else t ∷ place task tasks

unfoldable pub incomplete : List (String × Task) → List Task
unfolding place
incomplete [] = []
incomplete ((id, task) ∷ tasks) =
    let rest = incomplete tasks in
    if not (is_terminal_task task.status) then place task rest else rest

-- ListIncomplete: oldest first. The order among tasks of one creation time is any.
unfoldable pub list_incomplete : Repository → List Task
unfolding incomplete
list_incomplete r = incomplete r.tasks
