-- ===== src/Pipeline/Task/Preserved.antt =====
-- Each method of the runner keeps the invariant of the task that it changes.
use blender_shot_preview.Prelude.{
  ℕ, String, Bool, true, false, Option, none, some, List, [], ◌∷◌, ◌≡◌, refl, ◌⊎◌, inl, inr, Result,
  ok, err, refuse_if, ◌==◌, not, ◌||◌, ◌&&◌, All, arith, Bool-cases, Option-cases, >>=-eq-ok, subst,
  ap, and_parts, or_parts,
}
use blender_shot_preview.Pipeline.Types.{
  Task, Node, TaskStatus, Snapshot, task_already_terminal, is_terminal_task, find_node,
}
use blender_shot_preview.Pipeline.Task.{
  Failure, is_waiting, update_first, set_task_running, start_node, may_start, note_started,
  start_one, start_each, start_nodes, finish, may_finish, note_finished, note_changed, has_id,
  check_waiting, put_output, finish_node, wait_for, set_waiting, confirm, confirm_node,
  adjust_output, is_none_started, is_pending_task,
}
use blender_shot_preview.Pipeline.Task.Nodes.{
  Changed, update_first-Changed, Changed-All, Changed-refine,
}
use blender_shot_preview.Pipeline.Task.Invariant.{
  Inv, Core, IsGood, is_cancelled, is_out, Changed-Core, start_node-IsGood, finish-IsGood,
  confirm-IsGood, wait_for-IsGood, put_output-IsGood,
}

-- A task that has not ended.
pub record IsOpen (task : Task) : Type 0 where
  pub core : Core task.nodes
  pub running_on : is_terminal_task task.status ≡ false
  pub wanted : task.cancel_requested ≡ false
  pub alive : All (λ n. is_cancelled n.status ≡ false) task.nodes

open_goes_on :
    (task : Task)
    → IsOpen task
    → ¬ ((task.status ≡ TaskStatus.succeeded) ⊎ (task.status ≡ TaskStatus.failed))
open_goes_on task v h = ground (arith, v.running_on)

pub IsOpen-Inv : (task : Task) → IsOpen task → Inv task
IsOpen-Inv task v = record {
  core = v.core;
  alive = λ h. (v.wanted, v.alive);
  won = λ e. absurd (open_goes_on task v (inl e));
  lost = λ e. absurd (open_goes_on task v (inr e));
}

pub Inv-IsOpen : (task : Task) → Inv task → is_terminal_task task.status ≡ false → IsOpen task
Inv-IsOpen task v h = record {
  core = v.core;
  running_on = h;
  wanted = (v.alive h).0;
  alive = (v.alive h).1;
}

-- Only the core is asked of a cancelled task.
pub cancelled-Inv : (task : Task) → task.status ≡ TaskStatus.cancelled → Core task.nodes → Inv task
cancelled-Inv task e c = record {
  core = c;
  alive = λ h. absurd (cc (ap is_terminal_task e));
  won = λ w. absurd (cc e);
  lost = λ w. absurd (cc e);
}

pub set_task_running-Inv : (now : ℕ) (task : Task) → Inv task → Inv (set_task_running now task)
unfolding set_task_running
set_task_running-Inv now task v =
    elim (Bool-cases (is_pending_task task.status && not task.cancel_requested)) [
      | inl go ↦
          let o = Inv-IsOpen task v (ground arith) in
          rw go (
            IsOpen-Inv _
              (record { core = o.core; running_on = refl; wanted = o.wanted; alive = o.alive }))
      | inr stay ↦ rw stay v
    ]

-- A change of one node that leaves no node cancelled.
Changed-IsOpen :
    (task : Task) (now : ℕ) (test : Node → Bool) (change : Node → Node) (nodes' : List Node)
    (found : Node)
    → ((a : Node) → test a ≡ true → IsGood task.nodes change a)
    → ((a : Node) → test a ≡ true → is_cancelled (change a).status ≡ false)
    → Changed test change task.nodes found nodes'
    → IsOpen task
    → IsOpen (record task { nodes = nodes'; updated_at = now })
Changed-IsOpen task now test change nodes' found good stays c v = record {
  core = Changed-Core test change task.nodes nodes' found good c v.core;
  running_on = v.running_on;
  wanted = v.wanted;
  alive =
      Changed-All (λ n. is_cancelled n.status ≡ false) test change (λ a t h. stays a t) c v.alive;
}

pub IsOpen-of_guard :
    (task : Task)
    → Inv task
    → (task.cancel_requested || is_terminal_task task.status) ≡ false
    → IsOpen task
IsOpen-of_guard task v h = Inv-IsOpen task v (or_parts task.cancel_requested _ h).1

pub start_one-IsOpen :
    (now : ℕ) (id : String) (task : Task) (started : List Node)
    → IsOpen task
    → IsOpen (start_one now id task started).0
unfolding start_one
start_one-IsOpen now id task started v =
    elim (Option-cases (update_first (may_start task id) (start_node now) task.nodes)) [
      | inl e ↦ rw (e, start_one, note_started) v
      | inr ((node, nodes), e) ↦
          rw (e, start_one, note_started)
            (Changed-IsOpen task task.updated_at (may_start task id) (start_node now) nodes node
              (start_node-IsGood now task id) (λ a t. refl) (update_first-Changed _ _ _ _ _ e) v)
    ]

start_each-IsOpen :
    (now : ℕ) (ids : List String) (task : Task) (started : List Node)
    → IsOpen task
    → IsOpen (start_each now ids task started).0
unfolding start_each
start_each-IsOpen now [] task started v = v
start_each-IsOpen now (id ∷ ids) task started v =
    start_each-IsOpen now ids _ _ (start_one-IsOpen now id task started v)

touch-IsOpen : (task : Task) (now : ℕ) → IsOpen task → IsOpen (record task { updated_at = now })
touch-IsOpen task now v = record {
  core = v.core;
  running_on = v.running_on;
  wanted = v.wanted;
  alive = v.alive;
}

pub start_nodes-Inv :
    (now : ℕ) (ready : List String) (task : Task) → Inv task → Inv (start_nodes now ready task).0
unfolding start_nodes
start_nodes-Inv now ready task v =
    elim (Bool-cases (task.cancel_requested || is_terminal_task task.status)) [
      | inl ended ↦ rw ended v
      | inr going ↦
          let o = start_each-IsOpen now ready task [] (IsOpen-of_guard task v going) in
          rw going (elim (Bool-cases (is_none_started (start_each now ready task []).1)) [
            | inl idle ↦ rw idle (IsOpen-Inv _ o)
            | inr busy ↦ rw busy (IsOpen-Inv _ (touch-IsOpen _ now o))
          ])
    ]

finish_stays :
    (now : ℕ) (r : Result Failure Snapshot) (a : Node)
    → is_cancelled (finish now r a).status ≡ false
unfolding finish
finish_stays now (ok s) a = refl
finish_stays now (err f) a = ground arith

pub finish_node-Inv :
    (now : ℕ) (id : String) (r : Result Failure Snapshot) (task : Task)
    → Inv task
    → Inv (finish_node now id r task).0
unfolding finish_node
finish_node-Inv now id r task v =
    elim (Bool-cases (task.cancel_requested || is_terminal_task task.status)) [
      | inl ended ↦ rw ended v
      | inr going ↦
          rw going (elim (Option-cases (update_first (may_finish id) (finish now r) task.nodes)) [
            | inl e ↦ rw (e, note_finished) v
            | inr ((node, nodes), e) ↦
                rw (e, note_finished)
                  (IsOpen-Inv _ (
                    Changed-IsOpen task now (may_finish id) (finish now r) nodes node
                      (finish-IsGood now r id task.nodes) (λ a t. finish_stays now r a)
                      (update_first-Changed _ _ _ _ _ e) (IsOpen-of_guard task v going)))
          ])
    ]

pub changed_parts :
    (now : ℕ) (task : Task) (r : Option (Node × List Node)) {t : Task} {n : Node}
    → note_changed now task r ≡ ok (t, n)
    → (q : Node × List Node) × (r ≡ some q) × (record task { nodes = q.1; updated_at = now } ≡ t)
changed_parts now task none h = cc
changed_parts now task (some (node, nodes)) h = ((node, nodes), refl, ground arith)

-- The invocation of the node is out, and its task has not ended but by a cancellation.
pub record IsOut (id : String) (task : Task) : Type 0 where
  pub node : Node
  pub found : find_node id task.nodes ≡ some node
  pub out : is_out node ≡ true
  pub unended : (is_terminal_task task.status ≡ false) ⊎ (task.status ≡ TaskStatus.cancelled)

pub set_waiting-Inv :
    (now : ℕ) (id : String) (output : Snapshot) (task : Task) {t : Task} {n : Node}
    → IsOut id task
    → set_waiting now id output task ≡ ok (t, n)
    → Inv task
    → Inv t
unfolding set_waiting
set_waiting-Inv now id output task {t} o h v =
    let ((node, nodes), e, same) = changed_parts now task _ h in
    let c =
      Changed-refine id is_out (wait_for output) o.node (update_first-Changed _ _ _ _ _ e) o.found
        o.out in
    let good = λ (a : Node) (t : ((a.id == id) && is_out a) ≡ true).
      wait_for-IsGood output task.nodes a (and_parts (a.id == id) (is_out a) t).1 in
    elim o.unended [
      | inl going ↦ subst Inv same (
          IsOpen-Inv _ (
            Changed-IsOpen task now _ (wait_for output) nodes node good (λ a t. refl) c
              (Inv-IsOpen task v going)))
      | inr cancelled ↦ subst Inv same (
          cancelled-Inv _ cancelled
            (Changed-Core _ (wait_for output) task.nodes nodes node good c (v.core)))
    ]

guard_passed :
    (task : Task)
    → refuse_if (is_terminal_task task.status || task.cancel_requested) task_already_terminal
      ≡ ok tt
    → is_terminal_task task.status ≡ false
guard_passed task h = ground arith

pub waiting_found :
    (o : Option Node)
    → check_waiting o ≡ ok tt
    → (n : Node) × (o ≡ some n) × (is_waiting n.status ≡ true)
waiting_found none h = cc
waiting_found (some n) h = (n, refl, ground arith)

pub confirm_node-Inv :
    (now : ℕ) (id : String) (adjustment : Option Snapshot) (task : Task) {t : Task} {n : Node}
    → confirm_node now id adjustment task ≡ ok (t, n)
    → Inv task
    → Inv t
unfolding confirm_node
confirm_node-Inv now id adjustment task h v =
    let (u, guard, h') = >>=-eq-ok (refuse_if _ task_already_terminal) _ h in
    let (w, check, h'') = >>=-eq-ok (check_waiting (find_node id task.nodes)) _ h' in
    let ((node, nodes), e, same) = changed_parts now task _ h'' in
    let (waiting, found, is) = waiting_found (find_node id task.nodes) check in
    subst Inv same (
      IsOpen-Inv _ (
        Changed-IsOpen task now _ (confirm now adjustment) nodes node
          (λ a t.
            confirm-IsGood now adjustment task.nodes a
              (and_parts (a.id == id) (is_waiting a.status) t).1)
          (λ a t. refl)
          (Changed-refine id (λ a. is_waiting a.status) (confirm now adjustment) waiting
            (update_first-Changed _ _ _ _ _ e) found is)
          (Inv-IsOpen task v (guard_passed task guard))))

pub adjust_output-Inv :
    (now : ℕ) (id : String) (output : Snapshot) (task : Task) {t : Task} {n : Node}
    → adjust_output now id output task ≡ ok (t, n)
    → Inv task
    → Inv t
unfolding adjust_output
adjust_output-Inv now id output task h v =
    let (u, guard, h') = >>=-eq-ok (refuse_if _ task_already_terminal) _ h in
    let ((node, nodes), e, same) = changed_parts now task _ h' in
    let o = Inv-IsOpen task v (guard_passed task guard) in
    let c = update_first-Changed _ _ _ _ _ e in
    let core =
      Changed-Core _ (put_output output) task.nodes nodes node
        (λ a t. put_output-IsGood output task.nodes a) c o.core in
    subst Inv same (
      IsOpen-Inv _ (record {
        core = core;
        running_on = o.running_on;
        wanted = o.wanted;
        alive =
            Changed-All (λ n. is_cancelled n.status ≡ false) (has_id id) (put_output output)
              (λ a t k. k) c o.alive;
      }))
