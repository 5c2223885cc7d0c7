-- ===== src/Pipeline/Task/Invariant.antt =====
-- What holds of a task at every point of its life, and that each method keeps it.
use blender_shot_preview.Prelude.{
  ℕ, ◌≤◌, ◌<◌, String, Bool, true, false, Option, none, some, List, [], ◌∷◌, ◌≡◌, refl, inl, inr,
  Result, ok, err, ltb, ◌==◌, ◌||◌, ◌&&◌, map, All, contains, All-imp, Distinct, arith, Bool-cases,
  and_parts,
}
use blender_shot_preview.Pipeline.Types.{
  Task, Node, NodeStatus, TaskStatus, Snapshot, is_terminal_task, is_terminal_node,
}
use blender_shot_preview.Pipeline.Task.{
  Failure, is_pending, is_succeeded, is_failed, is_busy, is_running, is_waiting, all_succeeded,
  start_node, may_start, finish, may_finish, put_output, wait_for, confirm, cancel_unfinished,
  reset, requeue, cancel_pending, any_node,
}
use blender_shot_preview.Pipeline.Task.Nodes.{
  IsLater, Grows, Grows-map, Changed, Changed-Grows, Changed-All, All-map, all_succeeded-Grows,
  node_ids, node_ids-Grows,
}

abbrev pub is_cancelled : NodeStatus → Bool
is_cancelled NodeStatus.cancelled = true
is_cancelled _ = false

abbrev pub is_present : Option Snapshot → Bool
is_present none = false
is_present (some s) = true

-- A node's attempts and output fit its status.
pub record IsSane (node : Node) : Type 0 where
  pub some_attempt : 0 < node.max_attempts
  pub bounded : node.attempts ≤ node.max_attempts
  pub room : is_pending node.status ≡ true → node.attempts < node.max_attempts
  pub begun :
      (is_busy node.status || is_succeeded node.status || is_failed node.status) ≡ true
      → 0 < node.attempts
  pub produced :
      (is_waiting node.status || is_succeeded node.status) ≡ true → is_present node.output ≡ true

-- A node that was ever started has all its dependencies succeeded.
abbrev pub IsEarned : List Node → Node → Type 0
IsEarned nodes node = 0 < node.attempts → all_succeeded nodes node.depends_on ≡ true

-- The dependencies of a node are nodes of the task, of a lower level.
abbrev pub IsPlaced : (String → ℕ) → List String → Node → Type 0
IsPlaced level ids node =
    All (λ d. (contains d ids ≡ true) × (level d < level node.id)) node.depends_on

-- What holds of the nodes, whatever the task's status.
pub record Core (nodes : List Node) : Type 0 where
  pub distinct : Distinct (node_ids nodes)
  pub level : String → ℕ
  pub placed : All (IsPlaced level (node_ids nodes)) nodes
  pub sane : All IsSane nodes
  pub earned : All (IsEarned nodes) nodes

pub record Inv (task : Task) : Type 0 where
  pub core : Core task.nodes
  pub alive :
      is_terminal_task task.status ≡ false
      → (task.cancel_requested ≡ false) × All (λ n. is_cancelled n.status ≡ false) task.nodes
  pub won : task.status ≡ TaskStatus.succeeded → All (λ n. is_succeeded n.status ≡ true) task.nodes
  pub lost :
      task.status ≡ TaskStatus.failed
      → (any_node (λ n. is_failed n.status) task.nodes ≡ true)
        × All (λ n. is_terminal_node n.status ≡ true) task.nodes

start_node-IsSane :
    (now : ℕ) (a : Node) → is_pending a.status ≡ true → IsSane a → IsSane (start_node now a)
start_node-IsSane now a p v = ground arith

finish-IsSane :
    (now : ℕ) (r : Result Failure Snapshot) (a : Node)
    → is_busy a.status ≡ true
    → IsSane a
    → IsSane (finish now r a)
unfolding finish
finish-IsSane now (ok s) a b v = ground arith
finish-IsSane now (err f) a b v = ground arith

confirm-IsSane :
    (now : ℕ) (o : Option Snapshot) (a : Node)
    → is_waiting a.status ≡ true
    → IsSane a
    → IsSane (confirm now o a)
confirm-IsSane now none a b v = ground arith
confirm-IsSane now (some s) a b v = ground arith

requeue-IsSane : (now : ℕ) (a : Node) → IsSane a → IsSane (requeue now a)
requeue-IsSane now a v = ground arith

cancel_unfinished-IsSane : (now : ℕ) (a : Node) → IsSane a → IsSane (cancel_unfinished now a)
cancel_unfinished-IsSane now a v = ground arith

reset-IsSane : (a : Node) → IsSane a → IsSane (reset a)
reset-IsSane a v = ground arith

cancel_pending-IsSane : (now : ℕ) (a : Node) → IsSane a → IsSane (cancel_pending now a)
cancel_pending-IsSane now a v = ground arith

Grows-IsPlaced :
    (level : String → ℕ) (ids : List String) (xs ys : List Node)
    → Grows xs ys
    → All (IsPlaced level ids) xs
    → All (IsPlaced level ids) ys
Grows-IsPlaced level ids [] [] g h = tt
Grows-IsPlaced level ids [] (y ∷ ys) g h = absurd g
Grows-IsPlaced level ids (x ∷ xs) [] g h = absurd g
Grows-IsPlaced level ids (x ∷ xs) (y ∷ ys) g h =
    (rw (g.0.same_deps, g.0.same_id) h.0, Grows-IsPlaced level ids xs ys g.1 h.1)

Grows-IsEarned :
    (xs ys : List Node)
    → Grows xs ys
    → (nodes : List Node) → All (IsEarned xs) nodes
    → All (IsEarned ys) nodes
Grows-IsEarned xs ys g nodes h =
    All-imp (IsEarned xs) (IsEarned ys) nodes
      (λ a e pos. all_succeeded-Grows xs ys a.depends_on g (e pos)) h

-- A change of one node keeps the core if it does so where its test holds.
pub record IsGood (nodes : List Node) (change : Node → Node) (a : Node) : Type 0 where
  pub later : IsLater a (change a)
  pub sane : IsSane a → IsSane (change a)
  pub earned : IsEarned nodes a → IsEarned nodes (change a)

pub Changed-Core :
    (test : Node → Bool) (change : Node → Node) (nodes nodes' : List Node) (found : Node)
    → ((a : Node) → test a ≡ true → IsGood nodes change a)
    → Changed test change nodes found nodes'
    → Core nodes
    → Core nodes'
Changed-Core test change nodes nodes' found good c v =
    let g = Changed-Grows test change (λ a t. (good a t).later) c in
    record {
      distinct = rw (node_ids-Grows nodes nodes' g) v.distinct;
      level = v.level;
      placed =
          rw (node_ids-Grows nodes nodes' g) (Grows-IsPlaced v.level _ nodes nodes' g v.placed);
      sane = Changed-All IsSane test change (λ a t. (good a t).sane) c v.sane;
      earned =
          Grows-IsEarned nodes nodes' g nodes'
            (Changed-All (IsEarned nodes) test change (λ a t. (good a t).earned) c v.earned);
    }

pub map-Core :
    (change : Node → Node) (nodes : List Node)
    → ((a : Node) → IsGood nodes change a)
    → Core nodes
    → Core (map change nodes)
map-Core change nodes good v =
    let g = Grows-map change (λ a. (good a).later) nodes in
    record {
      distinct = rw (node_ids-Grows nodes (map change nodes) g) v.distinct;
      level = v.level;
      placed =
          rw (node_ids-Grows nodes (map change nodes) g)
            (Grows-IsPlaced v.level _ nodes (map change nodes) g v.placed);
      sane = All-map IsSane change (λ a. (good a).sane) nodes v.sane;
      earned =
          Grows-IsEarned nodes (map change nodes) g (map change nodes)
            (All-map (IsEarned nodes) change (λ a. (good a).earned) nodes v.earned);
    }

pub start_node-IsGood :
    (now : ℕ) (task : Task) (id : String) (a : Node)
    → may_start task id a ≡ true
    → IsGood task.nodes (start_node now) a
start_node-IsGood now task id a t =
    let (first, deps) = and_parts ((a.id == id) && is_pending a.status) _ t in
    let (named, pending) = and_parts (a.id == id) _ first in
    record {
      later = record {
        same_id = refl;
        same_deps = refl;
        same_max = refl;
        success_stays = λ s. ground arith;
      };
      sane = start_node-IsSane now a pending;
      earned = λ e pos. deps;
    }

finish-IsLater :
    (now : ℕ) (r : Result Failure Snapshot) (a : Node)
    → is_busy a.status ≡ true
    → IsLater a (finish now r a)
unfolding finish
finish-IsLater now (ok s) a b = record {
  same_id = refl;
  same_deps = refl;
  same_max = refl;
  success_stays = λ h. refl;
}
finish-IsLater now (err f) a b = record {
  same_id = ground arith;
  same_deps = ground arith;
  same_max = ground arith;
  success_stays = λ h. ground arith;
}

finish-IsEarned :
    (now : ℕ) (r : Result Failure Snapshot) (nodes : List Node) (a : Node)
    → IsEarned nodes a
    → IsEarned nodes (finish now r a)
unfolding finish
finish-IsEarned now (ok s) nodes a e = e
finish-IsEarned now (err f) nodes a e = elim (Bool-cases (ltb a.attempts a.max_attempts)) [
  | inl again ↦ rw again e
  | inr over ↦ rw over e
]

pub finish-IsGood :
    (now : ℕ) (r : Result Failure Snapshot) (id : String) (nodes : List Node) (a : Node)
    → may_finish id a ≡ true
    → IsGood nodes (finish now r) a
unfolding finish
finish-IsGood now r id nodes a t =
    let (named, busy) = and_parts (a.id == id) _ t in
    record {
      later = finish-IsLater now r a busy;
      sane = finish-IsSane now r a busy;
      earned = finish-IsEarned now r nodes a;
    }

-- A change of status that is no success, of a node that has none, keeps its dependencies earned.
settle-IsGood :
    (nodes : List Node) (change : Node → Node) (a : Node)
    → ((change a).id ≡ a.id)
      × ((change a).depends_on ≡ a.depends_on)
      × ((change a).max_attempts ≡ a.max_attempts)
      × ((change a).attempts ≤ a.attempts)
    → (is_succeeded a.status ≡ true → is_succeeded (change a).status ≡ true)
    → (IsSane a → IsSane (change a))
    → IsGood nodes change a
settle-IsGood nodes change a (i, d, m, fewer) s v = record {
  later = record { same_id = i; same_deps = d; same_max = m; success_stays = s };
  sane = v;
  earned = λ e pos. rw d (e (omega (arith, fewer, pos)));
}

pub cancel_unfinished-IsGood :
    (now : ℕ) (nodes : List Node) (a : Node) → IsGood nodes (cancel_unfinished now) a
cancel_unfinished-IsGood now nodes a =
    settle-IsGood nodes (cancel_unfinished now) a (ground arith) (λ h. ground arith)
      (cancel_unfinished-IsSane now a)

pub reset-IsGood : (nodes : List Node) (a : Node) → IsGood nodes reset a
reset-IsGood nodes a =
    settle-IsGood nodes reset a (ground arith) (λ h. ground arith) (reset-IsSane a)

pub requeue-IsGood : (now : ℕ) (nodes : List Node) (a : Node) → IsGood nodes (requeue now) a
requeue-IsGood now nodes a =
    settle-IsGood nodes (requeue now) a (ground arith) (λ h. ground arith) (requeue-IsSane now a)

pub cancel_pending-IsGood :
    (now : ℕ) (nodes : List Node) (a : Node) → IsGood nodes (cancel_pending now) a
cancel_pending-IsGood now nodes a =
    settle-IsGood nodes (cancel_pending now) a (ground arith) (λ h. ground arith)
      (cancel_pending-IsSane now a)

pub confirm-IsGood :
    (now : ℕ) (o : Option Snapshot) (nodes : List Node) (a : Node)
    → is_waiting a.status ≡ true
    → IsGood nodes (confirm now o) a
confirm-IsGood now o nodes a w =
    settle-IsGood nodes (confirm now o) a (refl, refl, refl, omega arith) (λ h. refl)
      (confirm-IsSane now o a w)

-- A node whose invocation is out: it is running, or was cancelled after it started.
abbrev pub is_out : Node → Bool
is_out node = is_running node.status || (is_cancelled node.status && ltb 0 node.attempts)

pub wait_for-IsGood :
    (output : Snapshot) (nodes : List Node) (a : Node)
    → is_out a ≡ true
    → IsGood nodes (wait_for output) a
wait_for-IsGood output nodes a o =
    settle-IsGood nodes (wait_for output) a (refl, refl, refl, omega arith) (λ h. ground arith)
      (λ v. ground arith)

pub put_output-IsGood :
    (output : Snapshot) (nodes : List Node) (a : Node) → IsGood nodes (put_output output) a
put_output-IsGood output nodes a =
    settle-IsGood nodes (put_output output) a (refl, refl, refl, omega arith) (λ h. h)
      (λ v. ground arith)
