-- ===== src/Pipeline/Task/Confirmed.antt =====
-- What ConfirmNode, Cancel and a late setNodeWaitingConfirmation do to one node.
use blender_shot_preview.Prelude.{
  ℕ, String, Bool, true, false, not, if◌then◌else◌, Option, none, some, List, [], ◌∷◌, ◌≡◌, refl,
  sym, ok, err, refuse_if, >>=-eq-ok, ◌==◌, ◌||◌, inl, inr, arith, Bool-cases, subst, ap, ◌∙◌, map,
  ◌>>=◌,
}
use mathlib.Core.Option.{some-injective}
use blender_shot_preview.Pipeline.Types.{
  Task, Node, TaskStatus, NodeStatus, Snapshot, task_already_terminal, not_waiting,
  is_terminal_task, find_node,
}
use blender_shot_preview.Pipeline.Task.{
  is_waiting, has_id, wait_for, confirm, check_waiting, update_first, confirm_node, set_waiting,
  cancel, cancel_unfinished,
}
use blender_shot_preview.Pipeline.Task.Nodes.{Changed, at, behind, update_first-Changed}
use blender_shot_preview.Pipeline.Task.Preserved.{changed_parts, waiting_found}

-- The node that a loop by ID has changed is the one that the ID finds afterwards.
pub Changed-found :
    (id : String) (change : Node → Node)
    → ((a : Node) → (change a).id ≡ a.id)
    → {nodes nodes' : List Node} {found : Node} → Changed (has_id id) change nodes found nodes'
    → find_node id nodes' ≡ some found
unfolding find_node
Changed-found id change keep (at node nodes t) = rw (keep node, t)
Changed-found id change keep (behind node found nodes nodes' t c) =
    rw t (Changed-found id change keep c)

-- and it is the change of the one that the ID found before.
pub Changed-from :
    (id : String) (change : Node → Node) {nodes nodes' : List Node} {found : Node}
    → Changed (has_id id) change nodes found nodes'
    → (n : Node) × (find_node id nodes ≡ some n) × (found ≡ change n)
unfolding find_node
Changed-from id change (at node nodes t) = (node, rw t, refl)
Changed-from id change (behind node found nodes nodes' t c) =
    let (n, e, same) = Changed-from id change c in (n, rw t e, same)

-- Whether an adjustment has a text.
abbrev pub has_text : Option Snapshot → Bool
has_text none = false
has_text (some s) = not (s.json == "")

confirmed_output :
    (now : ℕ) (adjustment : Option Snapshot) (waiting : Node)
    → confirm now adjustment waiting ≡ record waiting {
      finished_at = some now;
      status = NodeStatus.succeeded;
      output = if has_text adjustment then adjustment else waiting.output;
    }
confirmed_output now none waiting = refl
confirmed_output now (some s) waiting = go (s.json == "")
  where
    go :
        (b : Bool)
        → record waiting {
          finished_at = some now;
          status = NodeStatus.succeeded;
          output = if b then waiting.output else some s;
        }
          ≡ record waiting {
            finished_at = some now;
            status = NodeStatus.succeeded;
            output = if not b then some s else waiting.output;
          }
    go true = refl
    go false = refl

-- A confirmation that succeeds finds a node that waits. It makes that node succeed at that time, with the
-- adjusted output where there is one with a text and else with the output it had, and leaves
-- the node's other fields; the same node cannot be confirmed again.
pub confirm_node_once :
    (now later : ℕ) (id : String) (adjustment again : Option Snapshot) (task task' : Task)
    (node : Node)
    → confirm_node now id adjustment task ≡ ok (task', node)
    → ((waiting : Node) × (find_node id task.nodes ≡ some waiting)
        × (is_waiting waiting.status ≡ true)
        × (find_node id task'.nodes
            ≡ some (record waiting {
              finished_at = some now;
              status = NodeStatus.succeeded;
              output = if has_text adjustment then adjustment else waiting.output;
            })))
      × (confirm_node later id again task' ≡ err not_waiting)
unfolding ◌>>=◌ confirm_node
confirm_node_once now later id adjustment again task task' node h =
    let (u, guard, h') =
      >>=-eq-ok
        (refuse_if (is_terminal_task task.status || task.cancel_requested) task_already_terminal) _
        h in
    let (w, check, h'') = >>=-eq-ok (check_waiting (find_node id task.nodes)) _ h' in
    let ((found, nodes), e, same) = changed_parts now task _ h'' in
    let (waiting, at_id, is) = waiting_found (find_node id task.nodes) check in
    let c = update_first-Changed _ _ _ _ _ e in
    let (n, at_id', from) = Changed-from id (confirm now adjustment) c in
    let was : n ≡ waiting = some-injective _ _ (sym at_id' ∙ at_id) in
    let after : find_node id nodes ≡ some (confirm now adjustment waiting) =
      Changed-found id (confirm now adjustment) (λ a. refl) c
      ∙ ap some (from ∙ ap (confirm now adjustment) was) in
    (
      (
        waiting,
        at_id,
        is,
        subst (λ t. find_node id t.nodes ≡ some (confirm now adjustment waiting)) same after
            ∙ ap some (confirmed_output now adjustment waiting),
      ),
      subst (λ t. confirm_node later id again t ≡ err not_waiting) same
          (rw (after, confirm_node) (rw guard refl)),
    )

find_node-map :
    (id : String) (f : Node → Node)
    → ((a : Node) → (f a).id ≡ a.id)
    → (nodes : List Node) (n : Node) → find_node id nodes ≡ some n
    → find_node id (map f nodes) ≡ some (f n)
unfolding find_node
find_node-map id f keep [] n e = cc
find_node-map id f keep (a ∷ nodes) n e = elim (Bool-cases (a.id == id)) [
  | inl hit ↦
      let named : ((f a).id == id) ≡ true = rw (keep a) hit in
      rw named (ap (λ m. some (f m)) (some-injective _ _ (rw hit at e)))
  | inr miss ↦
      let other : ((f a).id == id) ≡ false = rw (keep a) miss in
      rw other (find_node-map id f keep nodes n (rw miss at e))
]

-- A loop by ID finds a node wherever the ID does.
update_first_total :
    (id : String) (change : Node → Node) (nodes : List Node) (n : Node)
    → find_node id nodes ≡ some n
    → (q : Node × List Node) × (update_first (has_id id) change nodes ≡ some q)
unfolding find_node update_first
update_first_total id change [] n e = cc
update_first_total id change (a ∷ nodes) n e = elim (Bool-cases (a.id == id)) [
  | inl hit ↦ ((change a, change a ∷ nodes), rw hit)
  | inr miss ↦
      let ((f, ns), found) = update_first_total id change nodes n (rw miss at e) in
      ((f, a ∷ ns), rw (miss, found) refl)
]

cancel_keeps_id : (now : ℕ) (a : Node) → (cancel_unfinished now a).id ≡ a.id
cancel_keeps_id now a = ground arith

-- Whatever the node of the task, a setNodeWaitingConfirmation that comes after Cancel succeeds, and leaves the
-- cancelled task with a node that waits for a confirmation.
pub late_waiting_reopens :
    (now later : ℕ) (id : String) (output : Snapshot) (task cancelled : Task) (node : Node)
    → find_node id task.nodes ≡ some node
    → cancel now task ≡ ok (some cancelled)
    → (task' : Task) × (node' : Node) × (set_waiting later id output cancelled ≡ ok (task', node'))
      × (task'.status ≡ TaskStatus.cancelled)
      × (find_node id task'.nodes ≡ some node')
      × (is_waiting node'.status ≡ true)
unfolding cancel set_waiting
late_waiting_reopens now later id output task cancelled node found h =
    let status : cancelled.status ≡ TaskStatus.cancelled = ground arith in
    let nodes : map (cancel_unfinished now) task.nodes ≡ cancelled.nodes = ground arith in
    let here : find_node id cancelled.nodes ≡ some (cancel_unfinished now node) =
      rw (← nodes)
        (find_node-map id (cancel_unfinished now) (cancel_keeps_id now) task.nodes node found) in
    let ((f, ns), e) = update_first_total id (wait_for output) cancelled.nodes _ here in
    let c = update_first-Changed _ _ _ _ _ e in
    let (n, at_id, from) = Changed-from id (wait_for output) c in
    (
      record cancelled { nodes = ns; updated_at = later },
      f,
      rw e refl,
      status,
      Changed-found id (wait_for output) (λ a. refl) c,
      ap (λ (m : Node). is_waiting m.status) from,
    )
