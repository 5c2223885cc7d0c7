-- ===== src/Pipeline/Task/Submit.antt =====
-- The task that Runner.Submit makes of a submission (internal/service/pipeline/runner.go), and that
-- it begins in the invariant.
use blender_shot_preview.Prelude.{
  ℕ, ◌<◌, String, Bool, true, false, Option, none, some, List, [], ◌∷◌, ◌≡◌, refl, sym, ap, subst,
  Result, ok, err, ◌>>=◌, ◌>>◌, refuse_if, >>=-eq-ok, All, arith, ℤ, pos, negsuc, to_ℕ, contains,
  Distinct, Within-at, All-both, eqb, if◌then◌else◌, ◌==◌,
}
use blender_shot_preview.Prelude.Text.{trim_space}
use blender_shot_preview.Pipeline.Types.{
  Task, Node, NodeStatus, TaskStatus, NodeSpec, Snapshot, Submission, Error, Defect, task_id_failed,
  invalid_submission, invalid_workflow, key_required, node_input, new_snapshot,
}
use blender_shot_preview.Pipeline.Workflow.{validate, ids_of, find_spec, dependencies_of}
use blender_shot_preview.Pipeline.Workflow.Nodes.{AreSound, HaveSound, find_spec_self}
use blender_shot_preview.Pipeline.Workflow.Order.{IsRanking, each_at}
use blender_shot_preview.Pipeline.Workflow.Validity.{validate-IsWellFormed}
use blender_shot_preview.Pipeline.Task.Nodes.{node_ids}
use blender_shot_preview.Pipeline.Task.Invariant.{Inv, IsSane, IsEarned, IsPlaced, is_cancelled}
use blender_shot_preview.Pipeline.Task.Preserved.{IsOpen-Inv}

-- `if maxAttempts == 0 { maxAttempts = 1 }`; Validate has refused a negative number.
abbrev pub attempts_or_one : ℤ → ℕ
attempts_or_one n = if eqb (to_ℕ n) 0 then 1 else to_ℕ n

abbrev pub new_node : NodeSpec → Snapshot → Node
new_node spec input = record {
  id = spec.id;
  depends_on = spec.depends_on;
  invocation = spec.invocation;
  input = input;
  output = none;
  status = NodeStatus.pending;
  attempts = 0;
  max_attempts = attempts_or_one spec.max_attempts;
  error = "";
  error_code = "";
  started_at = none;
  finished_at = none;
}

-- `fmt.Errorf("node %q input: %w", …)` wraps the error of newSnapshot.
abbrev pub node_error : String → Error → Error
node_error id e = invalid_submission (node_input id)

abbrev pub wrap_node : String → Result Error Snapshot → Result Error Snapshot
wrap_node id (ok s) = ok s
wrap_node id (err e) = err (node_error id e)

-- The loop of Submit over the nodes.
unfoldable pub new_nodes : ℕ → List NodeSpec → Result Error (List Node)
new_nodes now [] = ok []
new_nodes now (spec ∷ specs) = do
  input ← wrap_node spec.id (new_snapshot now spec.input now)
  nodes ← new_nodes now specs
  ok (new_node spec input ∷ nodes)

-- The error of Validate, which Submit returns as it is.
abbrev pub as_error : Result Defect (Unit {0}) → Result Error (Unit {0})
as_error (ok u) = ok tt
as_error (err defect) = err (invalid_workflow defect)

-- `r.newTaskID()`, which has no ID where the random source fails.
abbrev pub given : Option String → Result Error String
given none = err task_id_failed
given (some id) = ok id

-- What Submit makes of a submission before it asks the repository, given the ID and the time.
unfoldable pub new_task : ℕ → Option String → Submission → Result Error Task
new_task now id submission = do
  refuse_if (trim_space submission.idempotency_key == "") (invalid_submission key_required)
  as_error (validate submission.workflow)
  input ← new_snapshot now submission.input.json submission.input.captured_at
  task_id ← given id
  nodes ← new_nodes now submission.workflow.nodes
  ok (record {
    id = task_id;
    idempotency_key = trim_space submission.idempotency_key;
    input = input;
    nodes = nodes;
    status = TaskStatus.pending;
    require_confirmation = submission.require_confirmation;
    cancel_requested = false;
    created_at = now;
    updated_at = now;
    finished_at = none;
  })

-- The nodes of a new task are those of the workflow, with their dependencies, and none has begun.
pub record IsMadeOf (spec : NodeSpec) (node : Node) : Type 0 where
  pub same_id : node.id ≡ spec.id
  pub same_deps : node.depends_on ≡ spec.depends_on
  pub fresh : node.status ≡ NodeStatus.pending
  pub unattempted : node.attempts ≡ 0
  pub some_attempt : 0 < node.max_attempts

abbrev pub AreMadeOf : List NodeSpec → List Node → Type 0
AreMadeOf [] [] = Unit
AreMadeOf [] (n ∷ nodes) = ⊥
AreMadeOf (s ∷ specs) [] = ⊥
AreMadeOf (s ∷ specs) (n ∷ nodes) = IsMadeOf s n × AreMadeOf specs nodes

attempts_or_one_pos : (n : ℤ) → 0 < attempts_or_one n
attempts_or_one_pos (pos n) = ground arith
attempts_or_one_pos (negsuc n) = ground arith

new_nodes-AreMadeOf :
    (now : ℕ) (specs : List NodeSpec) (nodes : List Node)
    → new_nodes now specs ≡ ok nodes
    → AreMadeOf specs nodes
unfolding new_nodes
new_nodes-AreMadeOf now [] nodes h = let e : [] ≡ nodes = ground arith in subst (AreMadeOf []) e tt
new_nodes-AreMadeOf now (spec ∷ specs) nodes h =
    let (input, i, h') = >>=-eq-ok (wrap_node spec.id (new_snapshot now spec.input now)) _ h in
    let (rest, r, h'') = >>=-eq-ok (new_nodes now specs) _ h' in
    let e : new_node spec input ∷ rest ≡ nodes = ground arith in
    subst (AreMadeOf (spec ∷ specs)) e (
      record {
        same_id = refl;
        same_deps = refl;
        fresh = refl;
        unattempted = refl;
        some_attempt = attempts_or_one_pos spec.max_attempts;
      },
      new_nodes-AreMadeOf now specs rest r,
    )

pub AreMadeOf-ids :
    (specs : List NodeSpec) (nodes : List Node)
    → AreMadeOf specs nodes
    → node_ids nodes ≡ ids_of specs
AreMadeOf-ids [] [] m = refl
AreMadeOf-ids [] (n ∷ nodes) m = absurd m
AreMadeOf-ids (s ∷ specs) [] m = absurd m
AreMadeOf-ids (s ∷ specs) (n ∷ nodes) m = rw (m.0.same_id, AreMadeOf-ids specs nodes m.1)

-- From here on a property of each new node is one of a node made of a specification.
pub AreMadeOf-All {ℓ} :
    (P : Node → Type ℓ) (specs : List NodeSpec) (nodes : List Node)
    → ((s : NodeSpec) (n : Node) → IsMadeOf s n → P n)
    → AreMadeOf specs nodes
    → All P nodes
AreMadeOf-All P [] [] f m = tt
AreMadeOf-All P [] (n ∷ nodes) f m = absurd m
AreMadeOf-All P (s ∷ specs) [] f m = absurd m
AreMadeOf-All P (s ∷ specs) (n ∷ nodes) f m = (f s n m.0, AreMadeOf-All P specs nodes f m.1)

made-IsSane : (s : NodeSpec) (n : Node) → IsMadeOf s n → IsSane n
made-IsSane s n m = ground (arith, m.fresh, m.unattempted, m.some_attempt)

made_alive : (s : NodeSpec) (n : Node) → IsMadeOf s n → is_cancelled n.status ≡ false
made_alive s n m = rw m.fresh refl

accepted : (r : Result Defect (Unit {0})) {u : Unit {0}} → as_error r ≡ ok u → r ≡ ok tt
accepted (ok u) e = refl
accepted (err d) e = cc

-- The confirmation that a new task asks for.
abbrev require_of : Result Error Task → Bool
require_of (ok task) = task.require_confirmation
require_of (err e) = false

-- What goes into an accepted submission.
pub new_task_parts :
    (now : ℕ) (id : Option String) (submission : Submission) (task : Task)
    → new_task now id submission ≡ ok task
    → (validate submission.workflow ≡ ok tt)
      × AreMadeOf submission.workflow.nodes task.nodes
      × (task.status ≡ TaskStatus.pending)
      × (task.cancel_requested ≡ false)
      × (task.require_confirmation ≡ submission.require_confirmation)
unfolding new_task
new_task_parts now id submission task h =
    let (u, keyed, h1) =
      >>=-eq-ok
        (refuse_if (trim_space submission.idempotency_key == "") (invalid_submission key_required))
        _ h in
    let (v, valid, h2) = >>=-eq-ok (as_error (validate submission.workflow)) _ h1 in
    let (input, i, h3) =
      >>=-eq-ok (new_snapshot now submission.input.json submission.input.captured_at) _ h2 in
    let (task_id, g, h4) = >>=-eq-ok (given id) _ h3 in
    let (nodes, made, h5) = >>=-eq-ok (new_nodes now submission.workflow.nodes) _ h4 in
    let same : nodes ≡ task.nodes = ground arith in
    (
      accepted (validate submission.workflow) valid,
      subst (AreMadeOf submission.workflow.nodes) same (new_nodes-AreMadeOf now _ nodes made),
      ground arith,
      ground arith,
      sym (ap require_of h5),
    )

-- The edges of a well-formed workflow, node by node.
abbrev IsPlacedSpec : (String → ℕ) → List String → NodeSpec → Type 0
IsPlacedSpec level ids s = All (λ d. (contains d ids ≡ true) × (level d < level s.id)) s.depends_on

made-IsPlaced :
    (level : String → ℕ) (all specs : List NodeSpec) (nodes : List Node)
    → AreMadeOf specs nodes
    → All (IsPlacedSpec level (ids_of all)) specs
    → All (IsPlaced level (ids_of all)) nodes
made-IsPlaced level all [] [] m h = tt
made-IsPlaced level all [] (n ∷ nodes) m h = absurd m
made-IsPlaced level all (s ∷ specs) [] m h = absurd m
made-IsPlaced level all (s ∷ specs) (n ∷ nodes) m h =
    (rw (m.0.same_deps, m.0.same_id) h.0, made-IsPlaced level all specs nodes m.1 h.1)

edges_placed :
    (specs : List NodeSpec) (level : String → ℕ)
    → Distinct (ids_of specs)
    → HaveSound specs specs
    → IsRanking specs level
    → All (IsPlacedSpec level (ids_of specs)) specs
unfolding dependencies_of
edges_placed specs level d e r =
    All-both (λ s. AreSound specs s.id s.depends_on) (λ s. find_spec s.id specs ≡ some s) _ specs
      (λ s sound found. each_at _ s.depends_on (λ dep h. (
        Within-at dep s.depends_on (ids_of specs) sound.known_all h,
        r s.id dep (rw (found, dependencies_of) h),
      )))
      e (find_spec_self specs d)

-- A submission that is accepted begins its life in the invariant.
pub new_task-Inv :
    (now : ℕ) (id : Option String) (submission : Submission) (task : Task)
    → new_task now id submission ≡ ok task
    → Inv task
new_task-Inv now id submission task h =
    let (valid, made, status, wanted, same_wish) = new_task_parts now id submission task h in
    let wf = validate-IsWellFormed submission.workflow valid in
    let specs = submission.workflow.nodes in
    IsOpen-Inv task (record {
      core = record {
        distinct = rw (AreMadeOf-ids specs task.nodes made) wf.distinct;
        level = wf.level;
        placed = rw (AreMadeOf-ids specs task.nodes made) (
            made-IsPlaced wf.level specs specs task.nodes made
              (edges_placed specs wf.level wf.distinct wf.edges wf.ranking));
        sane = AreMadeOf-All IsSane specs task.nodes made-IsSane made;
        earned =
            AreMadeOf-All (IsEarned task.nodes) specs task.nodes
              (λ s n m pos. absurd (omega (arith, m.unattempted, pos))) made;
      };
      running_on = rw status refl;
      wanted = wanted;
      alive = AreMadeOf-All (λ n. is_cancelled n.status ≡ false) specs task.nodes made_alive made;
    })
