-- ===== src/Pipeline/Task/Settled.antt =====
-- The methods that change every node: Cancel, Retry, Recover and completeIfBlocked. Each keeps the
-- invariant.
use blender_shot_preview.Prelude.{
  ℕ, Bool, true, false, Option, none, some, List, [], ◌∷◌, ◌≡◌, refl, inl, inr, ok, if◌then◌else◌,
  not, ◌||◌, map, All, All-imp, arith, Bool-cases, subst, or_parts,
}
use blender_shot_preview.Pipeline.Types.{Task, Node, TaskStatus, is_terminal_task, is_terminal_node}
use blender_shot_preview.Pipeline.Task.{
  is_succeeded, is_failed, is_busy, cancel_unfinished, cancel, reset, retry, requeue, recover,
  cancel_pending, complete_if_blocked, settle, any_node, is_running_task, first_failed,
}
use blender_shot_preview.Pipeline.Task.Nodes.{All-map, All-of_map}
use blender_shot_preview.Pipeline.Task.Invariant.{
  Inv, is_cancelled, map-Core, cancel_unfinished-IsGood, reset-IsGood, requeue-IsGood,
  cancel_pending-IsGood,
}
use blender_shot_preview.Pipeline.Task.Preserved.{IsOpen, IsOpen-Inv, Inv-IsOpen, cancelled-Inv}

pub cancel-Inv : (now : ℕ) (task t : Task) → cancel now task ≡ ok (some t) → Inv task → Inv t
unfolding cancel
cancel-Inv now task t h v =
    let same : record task {
      cancel_requested = true;
      status = TaskStatus.cancelled;
      updated_at = now;
      finished_at = some now;
      nodes = map (cancel_unfinished now) task.nodes;
    }
        ≡ t =
      ground arith in
    subst Inv same (
      cancelled-Inv _ refl (map-Core _ task.nodes (cancel_unfinished-IsGood now task.nodes) v.core))

reset_alive : (a : Node) → is_cancelled (reset a).status ≡ false
reset_alive a = ground arith

pub retry-Inv : (now : ℕ) (task t : Task) → retry now task ≡ ok t → Inv task → Inv t
unfolding retry
retry-Inv now task t h v =
    let same : record task {
      status = TaskStatus.pending;
      cancel_requested = false;
      finished_at = none;
      updated_at = now;
      nodes = map reset task.nodes;
    }
        ≡ t =
      ground arith in
    subst Inv same (
      IsOpen-Inv _ (record {
        core = map-Core reset task.nodes (reset-IsGood task.nodes) v.core;
        running_on = refl;
        wanted = refl;
        alive = All-of_map _ reset reset_alive task.nodes;
      }))

requeue_alive :
    (now : ℕ) (a : Node)
    → is_cancelled a.status ≡ false
    → is_cancelled (requeue now a).status ≡ false
requeue_alive now a h = ground arith

pub recover-Inv : (now : ℕ) (task t : Task) → recover now task ≡ some t → Inv task → Inv t
unfolding recover
recover-Inv now task t h v =
    let going : is_terminal_task task.status ≡ false = ground arith in
    let o = Inv-IsOpen task v going in
    let same : record task {
      nodes = map (requeue now) task.nodes;
      status = if is_running_task task.status then TaskStatus.pending else task.status;
      updated_at = now;
    }
        ≡ t =
      ground arith in
    subst Inv same (
      IsOpen-Inv _ (record {
        core = map-Core _ task.nodes (requeue-IsGood now task.nodes) o.core;
        running_on = ground arith;
        wanted = o.wanted;
        alive = All-map _ (requeue now) (requeue_alive now) task.nodes o.alive;
      }))

-- No node of the list passes the test.
pub none_passes :
    (test : Node → Bool) (nodes : List Node)
    → any_node test nodes ≡ false
    → All (λ n. test n ≡ false) nodes
unfolding any_node
none_passes test [] h = tt
none_passes test (n ∷ nodes) h =
    let (first, rest) = or_parts (test n) (any_node test nodes) h in
    (first, none_passes test nodes rest)

pub first_failed_is :
    (nodes : List Node) (node : Node)
    → first_failed nodes ≡ some node
    → any_node (λ n. is_failed n.status) nodes ≡ true
unfolding first_failed any_node
first_failed_is [] node e = cc
first_failed_is (n ∷ nodes) node e = ground (arith, first_failed_is nodes node)

cancel_pending_failed :
    (now : ℕ) (nodes : List Node)
    → any_node (λ n. is_failed n.status) nodes ≡ true
    → any_node (λ n. is_failed n.status) (map (cancel_pending now) nodes) ≡ true
unfolding any_node
cancel_pending_failed now [] h = h
cancel_pending_failed now (n ∷ nodes) h = ground (arith, cancel_pending_failed now nodes)

cancel_pending_ends :
    (now : ℕ) (a : Node)
    → is_busy a.status ≡ false
    → is_terminal_node (cancel_pending now a).status ≡ true
cancel_pending_ends now a h = ground arith

cancel_pending-All_end :
    (now : ℕ) (nodes : List Node)
    → All (λ n. is_busy n.status ≡ false) nodes
    → All (λ n. is_terminal_node n.status ≡ true) (map (cancel_pending now) nodes)
cancel_pending-All_end now [] h = tt
cancel_pending-All_end now (n ∷ nodes) h =
    (cancel_pending_ends now n h.0, cancel_pending-All_end now nodes h.1)

settle-Inv :
    (now : ℕ) (task : Task) (o : Option Node)
    → IsOpen task
    → any_node (λ n. is_busy n.status) task.nodes ≡ false
    → first_failed task.nodes ≡ o
    → Inv (settle now task o).0
settle-Inv now task (some node) v idle e =
    let core = map-Core _ task.nodes (cancel_pending-IsGood now task.nodes) v.core in
    record {
      core = core;
      alive = λ h. absurd (cc h);
      won = λ h. absurd (cc h);
      lost = λ h. (
        cancel_pending_failed now task.nodes (first_failed_is task.nodes node e),
        cancel_pending-All_end now task.nodes (none_passes _ task.nodes idle),
      );
    }
settle-Inv now task none v idle e =
    elim (Bool-cases (any_node (λ n. not (is_succeeded n.status)) task.nodes)) [
      | inl stuck ↦ rw stuck (IsOpen-Inv task v)
      | inr all ↦ rw all (record {
        core = v.core;
        alive = λ h. absurd (cc h);
        won = λ h. All-imp _ _ task.nodes (λ n p. ground arith) (none_passes _ task.nodes all);
        lost = λ h. absurd (cc h);
      })
    ]

pub complete_if_blocked-Inv :
    (now : ℕ) (task : Task) → Inv task → Inv (complete_if_blocked now task).0
unfolding complete_if_blocked
complete_if_blocked-Inv now task v =
    elim (Bool-cases (is_terminal_task task.status || task.cancel_requested)) [
      | inl ended ↦ rw ended v
      | inr going ↦ rw going (elim (Bool-cases (any_node (λ n. is_busy n.status) task.nodes)) [
        | inl busy ↦ rw busy v
        | inr idle ↦
            let o = Inv-IsOpen task v (or_parts (is_terminal_task task.status) _ going).0 in
            rw idle (settle-Inv now task (first_failed task.nodes) o idle refl)
      ])
    ]
