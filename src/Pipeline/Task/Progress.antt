-- ===== src/Pipeline/Task/Progress.antt =====
-- A task whose workflow has no cycle is never stuck: where no node is ready or under way, the
-- runner's completeIfBlocked ends the task.
use blender_shot_preview.Prelude.{
  ℕ, zero, suc, ◌<◌, String, true, false, Option, none, some, List, [], ◌∷◌, ◌≡◌, refl, ◌⊎◌, inl,
  inr, not, ◌||◌, ◌==◌, All, All-imp, All-both, contains, Distinct, arith, eq_iff, Bool-cases,
  subst, ap, ==_self, ==-eq,
}
use mathlib.Core.Option.{some-injective}
use blender_shot_preview.Pipeline.Types.{
  Task, Node, NodeStatus, TaskStatus, is_terminal_task, find_node,
}
use blender_shot_preview.Pipeline.Task.{
  is_pending, is_succeeded, is_failed, is_busy, has_succeeded, all_succeeded,
  dependencies_succeeded, ready_from, ready_nodes, complete_if_blocked, settle, any_node,
  first_failed, Verdict, open_still, success, failure,
}
use blender_shot_preview.Pipeline.Task.Nodes.{node_ids}
use blender_shot_preview.Pipeline.Task.Invariant.{Inv, Core, is_cancelled}
use blender_shot_preview.Pipeline.Task.Settled.{none_passes}

-- A node that an ID finds has what all nodes have.
pub All-find {ℓ} :
    (P : Node → Type ℓ) (nodes : List Node) (id : String) (n : Node)
    → All P nodes
    → find_node id nodes ≡ some n
    → P n × (n.id ≡ id)
unfolding find_node
All-find P [] id n h e = cc
All-find P (a ∷ nodes) id n h e = elim (Bool-cases (a.id == id)) [
  | inl hit ↦
      let same = some-injective _ _ (rw hit at e) in
      subst (λ m. P m × (m.id ≡ id)) same (h.0, ==-eq a.id id hit)
  | inr miss ↦ All-find P nodes id n h.1 (rw miss at e)
]

pub find_node_known :
    (nodes : List Node) (id : String)
    → contains id (node_ids nodes) ≡ true
    → (n : Node) × (find_node id nodes ≡ some n)
unfolding find_node contains
find_node_known [] id h = cc
find_node_known (a ∷ nodes) id h = elim (Bool-cases (a.id == id)) [
  | inl hit ↦ (a, rw hit)
  | inr miss ↦ let (n, e) = find_node_known nodes id (ground arith) in (n, rw miss e)
]

find_node-contains :
    (nodes : List Node) (id : String) (n : Node)
    → find_node id nodes ≡ some n
    → contains id (node_ids nodes) ≡ true
unfolding find_node contains
find_node-contains [] id n e = cc
find_node-contains (a ∷ nodes) id n e = ground (arith, find_node-contains nodes id n)

pub find_node_self :
    (nodes : List Node) → Distinct (node_ids nodes) → All (λ n. find_node n.id nodes ≡ some n) nodes
unfolding find_node
find_node_self [] d = tt
find_node_self (a ∷ nodes) d = (
  rw (==_self a.id),
  All-imp (λ n. find_node n.id nodes ≡ some n) _ nodes
      (λ n e. ground (arith, find_node-contains nodes n.id n, eq_iff a.id n.id, d.0))
      (find_node_self nodes d.1),
)

-- Where nothing is ready, a node that pends has a dependency that has not succeeded.
none_ready :
    (task : Task) (nodes : List Node)
    → ready_from task nodes ≡ []
    → All (λ n. is_pending n.status ≡ true → dependencies_succeeded n task ≡ false) nodes
unfolding ready_from
none_ready task [] h = tt
none_ready task (n ∷ nodes) h = ((λ p. ground arith), none_ready task nodes (ground arith))

-- A node that is not under way, failed or cancelled has succeeded or pends.
rests :
    (s : NodeStatus)
    → is_busy s ≡ false
    → is_failed s ≡ false
    → is_cancelled s ≡ false
    → (is_pending s ≡ true) ⊎ (is_succeeded s ≡ true)
rests s b f c = ground arith

all_succeeded_of :
    (nodes : List Node) (deps : List String)
    → All (λ d. has_succeeded (find_node d nodes) ≡ true) deps
    → all_succeeded nodes deps ≡ true
unfolding all_succeeded
all_succeeded_of nodes [] h = refl
all_succeeded_of nodes (d ∷ deps) h = rw (h.0) (all_succeeded_of nodes deps h.1)

module _ (task : Task) (core : Core task.nodes)
    (quiet : All (λ n. (is_pending n.status ≡ true) ⊎ (is_succeeded n.status ≡ true)) task.nodes)
    (idle : ready_nodes task ≡ []) where
  -- By the levels: a node's dependencies have succeeded, so it does not pend.
  succeeded_below :
      (k : ℕ) (id : String) (n : Node)
      → find_node id task.nodes ≡ some n
      → core.level id < k
      → is_succeeded n.status ≡ true
  unfolding ready_nodes
  succeeded_below zero id n e lt = elim lt [ ]
  succeeded_below (suc k) id n e lt =
      let (rest, same) = All-find _ task.nodes id n quiet e in
      let (waits, _) = All-find _ task.nodes id n (none_ready task task.nodes idle) e in
      let (placed, _) = All-find _ task.nodes id n core.placed e in
      let deps = all_succeeded_of task.nodes n.depends_on (
        All-imp _ _ n.depends_on
          (λ d p.
            let (m, at) = find_node_known task.nodes d p.0 in
            rw at (succeeded_below k d m at (omega (arith, p.1, ap core.level same, lt))))
          placed) in
      elim rest [ inl p ↦ absurd (cc (waits p)) | inr s ↦ s ]

  every_succeeded : All (λ n. is_succeeded n.status ≡ true) task.nodes
  every_succeeded =
      All-imp (λ n. find_node n.id task.nodes ≡ some n) _ task.nodes
        (λ n e. succeeded_below (suc (core.level n.id)) n.id n e (omega arith))
        (find_node_self task.nodes core.distinct)

-- The task goes on as it was, or ended: in success if the verdict says so, else in failure.
abbrev pub Ended : Task × Verdict → Type 0
Ended (task, open_still) = ⊥
Ended (task, success) = task.status ≡ TaskStatus.succeeded
Ended (task, failure node) = task.status ≡ TaskStatus.failed

settle_ends :
    (now : ℕ) (task : Task) (o : Option Node)
    → first_failed task.nodes ≡ o
    → (first_failed task.nodes ≡ none
        → any_node (λ n. not (is_succeeded n.status)) task.nodes ≡ false)
    → Ended (settle now task o)
settle_ends now task (some node) e h = refl
settle_ends now task none e h = rw (h e) refl

none_of_All :
    (nodes : List Node)
    → All (λ n. is_succeeded n.status ≡ true) nodes
    → any_node (λ n. not (is_succeeded n.status)) nodes ≡ false
unfolding any_node
none_of_All [] h = refl
none_of_All (n ∷ nodes) h = rw (h.0) (none_of_All nodes h.1)

none_failed :
    (nodes : List Node) → first_failed nodes ≡ none → All (λ n. is_failed n.status ≡ false) nodes
unfolding first_failed
none_failed [] h = tt
none_failed (n ∷ nodes) h = (ground arith, none_failed nodes (ground arith))

-- An unfinished task in the invariant, with no ready node and none running or waiting, is ended by
-- completeIfBlocked, as succeeded or as failed.
pub complete_if_blocked_ends :
    (now : ℕ) (task : Task)
    → Inv task
    → is_terminal_task task.status ≡ false
    → ready_nodes task ≡ []
    → any_node (λ n. is_busy n.status) task.nodes ≡ false
    → Ended (complete_if_blocked now task)
unfolding complete_if_blocked
complete_if_blocked_ends now task v going idle quiet =
    let (wanted, alive) = v.alive going in
    let guard : (is_terminal_task task.status || task.cancel_requested) ≡ false = ground arith in
    rw (guard, quiet)
      (settle_ends now task (first_failed task.nodes) refl (λ unfailed. none_of_All task.nodes (
        every_succeeded task v.core
          (All-both _ (λ n. (is_failed n.status ≡ false) × (is_cancelled n.status ≡ false)) _
            task.nodes (λ n b fc. rests n.status b fc.0 fc.1) (none_passes _ task.nodes quiet)
            (All-both _ _ _ task.nodes (λ n f c. (f, c)) (none_failed task.nodes unfailed) alive))
          idle)))
