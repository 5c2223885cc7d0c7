-- ===== src/Pipeline/Runner/Accepted.antt =====
-- What the methods of internal/service/pipeline/runner.go write back of an operation that the stored task
-- accepts or refuses.
use blender_shot_preview.Prelude.{
  ℕ, String, Option, none, some, Result, ok, err, insert, ap, ◌∙◌, refuse_if, >>=-eq-ok,
  if◌then◌else◌, List, ◌≡◌, refl, sym, lookup, lookup-insert, ==_self, ◌==◌,
}
use blender_shot_preview.Pipeline.Types.{
  Task, Node, Snapshot, Error, task_already_terminal, find_node,
}
use blender_shot_preview.Pipeline.Task
use blender_shot_preview.Pipeline.Task.{check_waiting}
use blender_shot_preview.Pipeline.Task.Preserved.{changed_parts}
use blender_shot_preview.Pipeline.Repository
use blender_shot_preview.Pipeline.Repository.{Repository, found_or_error, replace}
use blender_shot_preview.Pipeline.Runner.{Runner, Event, Channel, offered, broadcast, with_task}
use blender_shot_preview.Pipeline.Runner.Methods.{confirm_node}

pub broadcast-confirm_chans :
    (event : Event) (r : Runner) → (broadcast event r).confirm_chans ≡ r.confirm_chans
unfolding broadcast
broadcast-confirm_chans event r = go (lookup event.task_id r.subscribers)
  where
    go : (o : Option (List Channel)) → (offered event r o).confirm_chans ≡ r.confirm_chans
    go none = refl
    go (some channels) = refl

-- The task that ConfirmNode changes keeps its ID.
pub confirm_node-id :
    (now : ℕ) (id : String) (adjustment : Option Snapshot) (task task' : Task) (node : Node)
    → Task.confirm_node now id adjustment task ≡ ok (task', node)
    → task'.id ≡ task.id
unfolding Task.confirm_node
confirm_node-id now id adjustment task task' node h =
    let (u, guard, h') = >>=-eq-ok (refuse_if _ task_already_terminal) _ h in
    let (w, check, h'') = >>=-eq-ok (check_waiting (find_node id task.nodes)) _ h' in
    let ((found, nodes), e, same) = changed_parts now task _ h'' in
    sym (ap (λ (t : Task). t.id) same)

-- The repository with a task in place of the one of its ID.
abbrev pub put : Task → Repository → Repository
put task repository = record repository { tasks = insert task.id task repository.tasks }

pub put-get :
    (id : String) (task : Task) (repository : Repository)
    → task.id ≡ id
    → Repository.get id (put task repository) ≡ ok task
unfolding Repository.get
put-get id task repository named = ap found_or_error (
    lookup-insert task.id id task repository.tasks
    ∙ ap (λ b. if b then some task else lookup id repository.tasks)
        (ap (λ k. task.id == k) (sym named) ∙ ==_self task.id))

update-put :
    (id : String) (old task : Task) (repository : Repository)
    → Repository.get id repository ≡ ok old
    → task.id ≡ id
    → Repository.update task repository ≡ (ok tt, put task repository)
unfolding Repository.get Repository.update
update-put id old task repository found named =
    ap (λ k. replace task repository (lookup k repository.tasks)) named
    ∙ go (lookup id repository.tasks) found
  where
    go :
        (o : Option Task)
        → found_or_error o ≡ ok old
        → replace task repository o ≡ (ok tt, put task repository)
    go none e = cc
    go (some t) e = refl

-- An operation that the stored task accepts is written back.
pub with_task-accepted :
    (id : String) (operation : Task → Result Error (Task × Node)) (r : Runner)
    (repository : Repository) (task task' : Task) (node : Node)
    → r.repository ≡ some repository
    → Repository.get id repository ≡ ok task
    → operation task ≡ ok (task', node)
    → task'.id ≡ id
    → with_task id operation r ≡ (ok node, record r { repository = some (put task' repository) })
unfolding with_task
with_task-accepted id operation r repository task task' node there found accepted named =
    rw (there, found, accepted, update-put id task task' repository found named) refl

-- A confirmation that the stored task refuses changes nothing.
pub confirm_node_refused :
    (now : ℕ) (id node_id : String) (adjustment : Option Snapshot) (r : Runner)
    (repository : Repository) (task : Task) (e : Error)
    → r.repository ≡ some repository
    → Repository.get id repository ≡ ok task
    → Task.confirm_node now node_id adjustment task ≡ err e
    → confirm_node now id node_id adjustment r ≡ (err e, r)
unfolding confirm_node with_task
confirm_node_refused now id node_id adjustment r repository task e there found refused =
    rw (there, found, refused) refl
