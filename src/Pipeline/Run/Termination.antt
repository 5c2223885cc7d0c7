-- ===== src/Pipeline/Run/Termination.antt =====
-- The loop of run ends: each round uses up an attempt, or ends the task.
use blender_shot_preview.Prelude.{
  ℕ, ◌≤◌, ◌<◌, String, false, some, List, [], ◌∷◌, ◌++◌, ◌≡◌, refl, inl, inr, Result, ◌==◌, ◌&&◌,
  ◌||◌, contains, arith, Bool-cases, Option-cases, and_parts, subst, sym, ap, ◌∙◌,
}
use blender_shot_preview.Pipeline.Types.{Task, Node, Snapshot, is_terminal_task}
use blender_shot_preview.Pipeline.Task.{
  Failure, is_pending, is_busy, any_node, update_first, start_node, may_start, start_one,
  start_each, start_nodes, note_started, note_finished, finish, finish_node, may_finish,
  ready_nodes, is_none_started,
}
use blender_shot_preview.Pipeline.Task.Nodes.{update_first-Changed, node_ids}
use blender_shot_preview.Pipeline.Task.Invariant.{Inv}
use blender_shot_preview.Pipeline.Task.Preserved.{
  IsOpen, Inv-IsOpen, start_nodes-Inv, finish_node-Inv, start_one-IsOpen,
}
use blender_shot_preview.Pipeline.Run.Batch.{
  total, BusyWithin, start_node-weight, finish-weight, Changed-total, update_first-none,
  Changed-within, Changed-started, none_within, ready_head,
}

-- A task in the middle of a batch: it has not ended, no confirmation is asked for, and only the
-- nodes of the list are under way.
pub record IsGoing (ids : List String) (task : Task) : Type 0 where
  pub inv : Inv task
  pub unended : is_terminal_task task.status ≡ false
  pub unattended : task.require_confirmation ≡ false
  pub busy : BusyWithin ids task.nodes

-- The second task goes on from the first with no more attempts left.
pub record IsLess (before after : Task) : Type 0 where
  pub less : total after.nodes ≤ total before.nodes
  pub same_status : after.status ≡ before.status

guard_open :
    (ids : List String) (task : Task)
    → IsGoing ids task
    → (task.cancel_requested || is_terminal_task task.status) ≡ false
guard_open ids task g = ground (arith, g.inv.alive g.unended, g.unended)

pub finish_node-IsGoing :
    (now : ℕ) (id : String) (r : Result Failure Snapshot) (ids : List String) (task : Task)
    → IsGoing (id ∷ ids) task
    → let task' = (finish_node now id r task).0 in IsGoing ids task' × IsLess task task'
unfolding finish_node
finish_node-IsGoing now id r ids task g =
    let inv = finish_node-Inv now id r task g.inv in
    let guard = guard_open (id ∷ ids) task g in
    elim (Option-cases (update_first (may_finish id) (finish now r) task.nodes)) [
      | inl e ↦
          rw (guard, e, note_finished)
            (
              record {
                inv = g.inv;
                unended = g.unended;
                unattended = g.unattended;
                busy = none_within id ids task.nodes (update_first-none _ _ task.nodes e) g.busy;
              },
              record { less = omega arith; same_status = refl },
            )
      | inr ((node, nodes), e) ↦
          let c = update_first-Changed _ _ _ _ _ e in
          let here : finish_node now id r task
              ≡ (record task { nodes = nodes; updated_at = now }, some node) =
            rw (guard, e, note_finished) refl in
          subst (λ q. IsGoing ids q.0 × IsLess task q.0) (sym here)
            (
              record {
                inv = subst (λ q. Inv q.0) here inv;
                unended = g.unended;
                unattended = g.unattended;
                busy = Changed-within now r id ids c g.inv.core.distinct g.busy;
              },
              record {
                less =
                    let h =
                      Changed-total (may_finish id) (finish now r)
                        (λ a t v. finish-weight now r a (and_parts (a.id == id) _ t).1) c
                        g.inv.core.sane in
                    omega arith;
                same_status = refl;
              },
            )
    ]

-- A task that startNodes is at: open, with the nodes started so far the only ones under way.
record IsStarting (started : List Node) (task : Task) : Type 0 where
  open_task : IsOpen task
  unattended : task.require_confirmation ≡ false
  busy : BusyWithin (node_ids started) task.nodes

node_ids-append : (xs ys : List Node) → node_ids (xs ++ ys) ≡ node_ids xs ++ node_ids ys
node_ids-append [] ys = refl
node_ids-append (x ∷ xs) ys = rw (node_ids-append xs ys)

start_one_changed :
    (now : ℕ) (id : String) (task : Task) (started : List Node) (node : Node) (nodes : List Node)
    → update_first (may_start task id) (start_node now) task.nodes ≡ some (node, nodes)
    → IsStarting started task
    → (start_one now id task started ≡ (record task { nodes = nodes }, started ++ node ∷ []))
      × IsStarting (started ++ node ∷ []) (record task { nodes = nodes })
      × (total nodes < total task.nodes)
unfolding start_one
start_one_changed now id task started node nodes e g =
    let here : start_one now id task started
        ≡ (record task { nodes = nodes }, started ++ node ∷ []) =
      rw (e, note_started) refl in
    let c = update_first-Changed _ _ _ _ _ e in
    (
      here,
      record {
        open_task =
            subst (λ (q : Task × List Node). IsOpen q.0) here
              (start_one-IsOpen now id task started g.open_task);
        unattended = g.unattended;
        busy =
            rw (node_ids-append started (node ∷ []))
              (Changed-started (may_start task id) now (node_ids started) c g.busy);
      },
      Changed-total (may_start task id) (start_node now)
          (λ a t v.
            start_node-weight now a
              (and_parts (a.id == id) _ (and_parts ((a.id == id) && is_pending a.status) _ t).0).1
              v)
          c g.open_task.core.sane,
    )

-- What a part of startNodes does: it keeps the above, and uses up attempts.
record HasStarted (task : Task) (q : Task × List Node) : Type 0 where
  starting : IsStarting q.1 q.0
  less : IsLess task q.0

pub IsLess-refl : (task : Task) → IsLess task task
IsLess-refl task = record { less = omega arith; same_status = refl }

pub IsLess-trans : {a b c : Task} → IsLess a b → IsLess b c → IsLess a c
IsLess-trans l m = record { less = omega arith; same_status = m.same_status ∙ l.same_status }

start_one-HasStarted :
    (now : ℕ) (id : String) (task : Task) (started : List Node)
    → IsStarting started task
    → HasStarted task (start_one now id task started)
unfolding start_one
start_one-HasStarted now id task started g =
    elim (Option-cases (update_first (may_start task id) (start_node now) task.nodes)) [
      | inl e ↦ rw (e, start_one, note_started) (record { starting = g; less = IsLess-refl task })
      | inr ((node, nodes), e) ↦
          let (here, g', lt) = start_one_changed now id task started node nodes e g in
          subst (HasStarted task) (sym here)
            (record { starting = g'; less = record { less = omega arith; same_status = refl } })
    ]

start_each-HasStarted :
    (now : ℕ) (ids : List String) (task : Task) (started : List Node)
    → IsStarting started task
    → HasStarted task (start_each now ids task started)
unfolding start_each
start_each-HasStarted now [] task started g = record { starting = g; less = IsLess-refl task }
start_each-HasStarted now (id ∷ ids) task started g =
    let first = start_one-HasStarted now id task started g in
    let rest = start_each-HasStarted now ids _ _ first.starting in
    record { starting = rest.starting; less = IsLess-trans first.less rest.less }

-- Past its guard startNodes is its loop, but for the time of the change.
start_nodes_open :
    (now : ℕ) (ready : List String) (task : Task)
    → (task.cancel_requested || is_terminal_task task.status) ≡ false
    → let e = start_each now ready task [] in
      (u : ℕ) × (start_nodes now ready task ≡ (record (e.0) { updated_at = u }, e.1))
unfolding start_nodes
start_nodes_open now ready task guard =
    elim (Bool-cases (is_none_started (start_each now ready task []).1)) [
      | inl idle ↦ ((start_each now ready task []).0.updated_at, rw (guard, idle) refl)
      | inr busy ↦ (now, rw (guard, busy) refl)
    ]

-- The first ready node is started, so that the loop uses up attempts.
start_each-lt :
    (now : ℕ) (task : Task) (id : String) (ids : List String)
    → IsStarting [] task
    → ready_nodes task ≡ id ∷ ids
    → HasStarted task (start_each now (id ∷ ids) task [])
      × (total (start_each now (id ∷ ids) task []).0.nodes < total task.nodes)
unfolding ready_nodes start_each
start_each-lt now task id ids g e =
    let ((node, nodes), found) = ready_head now task task.nodes id ids e in
    let (here, g', lt) = start_one_changed now id task [] node nodes found g in
    let first = start_one-HasStarted now id task [] g in
    let rest = start_each-HasStarted now ids _ _ first.starting in
    let same : total (start_one now id task []).0.nodes ≡ total nodes =
      ap (λ (q : Task × List Node). total q.0.nodes) here in
    (
      record { starting = rest.starting; less = IsLess-trans first.less rest.less },
      omega (arith, rest.less.less, same, lt),
    )

none_busy :
    (nodes : List Node) → any_node (λ n. is_busy n.status) nodes ≡ false → BusyWithin [] nodes
unfolding any_node
none_busy [] h = tt
none_busy (n ∷ nodes) h = ((λ b. ground arith), none_busy nodes (ground arith))

pub busy_none :
    (nodes : List Node) → BusyWithin [] nodes → any_node (λ n. is_busy n.status) nodes ≡ false
unfolding any_node contains
busy_none [] b = refl
busy_none (n ∷ nodes) b = ground (arith, b.0, busy_none nodes b.1)

-- A batch of the nodes that are ready uses up attempts, and only the nodes started are under way.
pub start_nodes-lt :
    (now : ℕ) (task : Task) (id : String) (ids : List String)
    → IsGoing [] task
    → ready_nodes task ≡ id ∷ ids
    → let (task', started) = start_nodes now (id ∷ ids) task in
      IsGoing (node_ids started) task'
      × (total task'.nodes < total task.nodes)
      × (task'.status ≡ task.status)
start_nodes-lt now task id ids g e =
    let (u, here) = start_nodes_open now (id ∷ ids) task (guard_open [] task g) in
    let inv = start_nodes-Inv now (id ∷ ids) task g.inv in
    let (h, lt) =
      start_each-lt now task id ids
        (record {
          open_task = Inv-IsOpen task g.inv g.unended;
          unattended = g.unattended;
          busy = g.busy;
        })
        e in
    subst
      (λ (q : Task × List Node).
        IsGoing (node_ids q.1) q.0
        × (total q.0.nodes < total task.nodes)
        × (q.0.status ≡ task.status))
      (sym here)
      (
        record {
          inv = subst (λ (q : Task × List Node). Inv q.0) here inv;
          unended = rw (h.less.same_status) (g.unended);
          unattended = h.starting.unattended;
          busy = h.starting.busy;
        },
        lt,
        h.less.same_status,
      )
