-- ===== src/Pipeline/Run/Ends.antt =====
-- The loop of run, from a task that nothing is under way in, reaches a terminal status.
use blender_shot_preview.Prelude.{
  ℕ, zero, suc, ◌+◌, ◌≤◌, ◌<◌, String, true, false, List, [], ◌∷◌, ◌≡◌, refl, ◌⊎◌, inl, inr, Result,
  ok, err, not, ◌&&◌, if◌then◌else◌, arith, Bool-cases, subst, sym, ap, ◌∙◌,
}
use blender_shot_preview.Pipeline.Types.{Task, Node, TaskStatus, Snapshot, is_terminal_task}
use blender_shot_preview.Pipeline.Task.{
  Failure, Verdict, open_still, success, failure, is_pending_task, set_task_running,
  complete_if_blocked, ready_nodes,
}
use blender_shot_preview.Pipeline.Task.Nodes.{node_ids}
use blender_shot_preview.Pipeline.Task.Invariant.{Inv}
use blender_shot_preview.Pipeline.Task.Preserved.{set_task_running-Inv}
use blender_shot_preview.Pipeline.Task.Settled.{complete_if_blocked-Inv}
use blender_shot_preview.Pipeline.Task.Progress.{Ended, complete_if_blocked_ends}
use blender_shot_preview.Pipeline.Run.{
  Environment, conclude, execute_node, execute_all, round, run_round, run,
  node_requires_confirmation,
}
use blender_shot_preview.Pipeline.Run.Batch.{total, BusyWithin}
use blender_shot_preview.Pipeline.Run.Termination.{
  IsGoing, IsLess, IsLess-refl, IsLess-trans, finish_node-IsGoing, start_nodes-lt, busy_none,
}

conclude-IsGoing :
    (env : Environment) (node : Node) (ids : List String) (task : Task)
    (r : Result Failure Snapshot)
    → IsGoing (node.id ∷ ids) task
    → let task' = conclude env node task r in IsGoing ids task' × IsLess task task'
conclude-IsGoing env node ids task (err f) g =
    finish_node-IsGoing (env.now task) node.id (err f) ids task g
conclude-IsGoing env node ids task (ok v) g =
    let test : (task.require_confirmation && node_requires_confirmation node) ≡ false =
      ap (λ b. b && node_requires_confirmation node) g.unattended in
    rw test (finish_node-IsGoing (env.now task) node.id (ok v) ids task g)

execute_node-IsGoing :
    (env : Environment) (node : Node) (ids : List String) (task : Task)
    → IsGoing (node.id ∷ ids) task
    → let task' = execute_node env node task in IsGoing ids task' × IsLess task task'
unfolding execute_node
execute_node-IsGoing env node ids task g =
    conclude-IsGoing env node ids task (env.outcome task node) g

execute_all-IsGoing :
    (env : Environment) (nodes : List Node) (task : Task)
    → IsGoing (node_ids nodes) task
    → let task' = execute_all env nodes task in IsGoing [] task' × IsLess task task'
unfolding execute_all
execute_all-IsGoing env [] task g = (g, IsLess-refl task)
execute_all-IsGoing env (node ∷ nodes) task g =
    let (g', l) = execute_node-IsGoing env node (node_ids nodes) task g in
    let (g'', l') = execute_all-IsGoing env nodes _ g' in (g'', IsLess-trans l l')

-- The rounds that a task can still take: one to set it running, one for each attempt that is left,
-- and one that settles it.
abbrev pub pending_round : TaskStatus → ℕ
pending_round status = if is_pending_task status then 1 else 0

unfoldable pub rounds_left : Task → ℕ
rounds_left task = total task.nodes + pending_round task.status + 1

-- After a round the task has ended, or is going on with fewer rounds left.
abbrev IsAfter : Task → Task → Type 0
IsAfter task task' =
    ((is_terminal_task task'.status ≡ true) × Inv task')
    ⊎ (IsGoing [] task' × (rounds_left task' < rounds_left task))

rounds_pending : (task : Task) → is_pending_task task.status ≡ true → pending_round task.status ≡ 1
rounds_pending task p = rw p refl

pending_going :
    (now : ℕ) (task : Task)
    → IsGoing [] task
    → is_pending_task task.status ≡ true
    → IsAfter task (set_task_running now task)
unfolding set_task_running rounds_left
pending_going now task g p =
    let inv = set_task_running-Inv now task g.inv in
    let guard : (is_pending_task task.status && not task.cancel_requested) ≡ true =
      ground (arith, g.inv.alive g.unended) in
    let here : set_task_running now task
        ≡ record task { status = TaskStatus.running; updated_at = now } =
      rw guard refl in
    subst (IsAfter task) (sym here) (
      inr (
        record {
          inv = subst Inv here inv;
          unended = refl;
          unattended = g.unattended;
          busy = g.busy;
        },
        omega (arith, rounds_pending task p),
      ))

Ended-terminal : (q : Task × Verdict) → Ended q → is_terminal_task q.0.status ≡ true
Ended-terminal (task, open_still) e = absurd e
Ended-terminal (task, success) e = ap is_terminal_task e
Ended-terminal (task, failure node) e = ap is_terminal_task e

round-IsAfter :
    (env : Environment) (task : Task) (ids : List String)
    → IsGoing [] task
    → ready_nodes task ≡ ids
    → IsAfter task (round env task ids)
unfolding rounds_left
round-IsAfter env task [] g e = inl (
  Ended-terminal (complete_if_blocked (env.now task) task) (
      complete_if_blocked_ends (env.now task) task g.inv g.unended e (busy_none task.nodes g.busy)),
  complete_if_blocked-Inv (env.now task) task g.inv,
)
round-IsAfter env task (id ∷ ids) g e =
    let (g', lt, same) = start_nodes-lt (env.now task) task id ids g e in
    let (g'', l) = execute_all-IsGoing env _ _ g' in
    let status = ap pending_round (l.same_status ∙ same) in
    inr (g'', omega (arith, lt, l.less, status))

run_round-IsAfter :
    (env : Environment) (task : Task) → IsGoing [] task → IsAfter task (run_round env task)
unfolding run_round
run_round-IsAfter env task g = elim (Bool-cases (is_pending_task task.status)) [
  | inl p ↦ rw p (pending_going (env.now task) task g p)
  | inr p ↦ rw p (round-IsAfter env task (ready_nodes task) g refl)
]

run_over :
    (fuel : ℕ) (env : Environment) (task : Task)
    → is_terminal_task task.status ≡ true
    → run fuel env task ≡ task
unfolding run
run_over zero env task h = refl
run_over (suc fuel) env task h = rw h refl

run_on :
    (fuel : ℕ) (env : Environment) (task : Task)
    → IsGoing [] task
    → run (suc fuel) env task ≡ run fuel env (run_round env task)
unfolding run
run_on fuel env task g = let wanted = (g.inv.alive g.unended).0 in rw (g.unended, wanted) refl

run_going :
    (fuel : ℕ) (env : Environment) (task : Task)
    → IsGoing [] task
    → rounds_left task ≤ fuel
    → (is_terminal_task (run fuel env task).status ≡ true) × Inv (run fuel env task)
unfolding rounds_left
run_going zero env task g h = absurd (omega (arith, h))
run_going (suc fuel) env task g h =
    rw (run_on fuel env task g) (elim (run_round-IsAfter env task g) [
      | inl (over, inv) ↦ rw (run_over fuel env (run_round env task) over) (over, inv)
      | inr (g', lt) ↦ run_going fuel env (run_round env task) g' (omega (arith, lt, h))
    ])

-- A task in the invariant that nothing is under way in, and that asks for no confirmation, ends within
-- its rounds.
pub run_ends :
    (fuel : ℕ) (env : Environment) (task : Task)
    → Inv task
    → task.require_confirmation ≡ false
    → BusyWithin [] task.nodes
    → rounds_left task ≤ fuel
    → (is_terminal_task (run fuel env task).status ≡ true) × Inv (run fuel env task)
run_ends fuel env task v unattended quiet enough =
    elim (Bool-cases (is_terminal_task task.status)) [
      | inl over ↦ rw (run_over fuel env task over) (over, v)
      | inr going ↦
          run_going fuel env task
            (record { inv = v; unended = going; unattended = unattended; busy = quiet }) enough
    ]
