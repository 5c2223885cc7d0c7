-- ===== src/Pipeline/Run/Batch.antt =====
-- The nodes of one batch: what starting and finishing them does to the nodes under way and to the
-- attempts that are left.
use blender_shot_preview.Prelude.{
  ℕ, ◌+◌, ◌-◌, ◌*◌, ◌<◌, String, Bool, true, false, Option, none, some, List, [], ◌∷◌, ◌++◌, ◌≡◌,
  refl, inl, inr, Result, ok, err, contains, contains-append, All, All-imp, All-both, Distinct,
  arith, eq_iff, ==_self, Bool-cases,
}
use blender_shot_preview.Pipeline.Types.{Task, Node, NodeStatus, Snapshot}
use blender_shot_preview.Pipeline.Task.{
  Failure, is_pending, is_busy, update_first, keep_behind, start_node, may_start, finish,
  may_finish, ready_from,
}
use blender_shot_preview.Pipeline.Task.Nodes.{Changed, at, behind, node_ids}
use blender_shot_preview.Pipeline.Task.Invariant.{IsSane}

-- Twice the attempts that are left, and one more for a node under way.
abbrev pub weight_of : NodeStatus → ℕ → ℕ
weight_of NodeStatus.pending left = 2 * left
weight_of NodeStatus.running left = 2 * left + 1
weight_of NodeStatus.waiting_confirmation left = 2 * left + 1
weight_of _ left = 0

abbrev pub weight : Node → ℕ
weight node = weight_of node.status (node.max_attempts - node.attempts)

abbrev pub total : List Node → ℕ
total [] = 0
total (node ∷ nodes) = weight node + total nodes

-- The nodes under way have their IDs in the list.
abbrev pub BusyWithin : List String → List Node → Type 0
BusyWithin ids nodes = All (λ n. is_busy n.status ≡ true → contains n.id ids ≡ true) nodes

pub start_node-weight :
    (now : ℕ) (a : Node)
    → is_pending a.status ≡ true
    → IsSane a
    → weight (start_node now a) < weight a
start_node-weight now a p v = ground arith

pub finish-weight :
    (now : ℕ) (r : Result Failure Snapshot) (a : Node)
    → is_busy a.status ≡ true
    → weight (finish now r a) < weight a
unfolding finish
finish-weight now (ok s) a b = ground arith
finish-weight now (err f) a b = ground arith

pub Changed-total :
    (test : Node → Bool) (change : Node → Node)
    → ((a : Node) → test a ≡ true → IsSane a → weight (change a) < weight a)
    → {nodes nodes' : List Node} {found : Node} → Changed test change nodes found nodes'
    → All IsSane nodes
    → total nodes' < total nodes
Changed-total test change less (at node nodes t) v = let h = less node t v.0 in omega arith
Changed-total test change less (behind node found nodes nodes' t c) v =
    omega (arith, Changed-total test change less c v.1)

behind_none : (n : Node) (r : Option (Node × List Node)) → keep_behind n r ≡ none → r ≡ none
behind_none n none e = refl
behind_none n (some q) e = cc

pub update_first-none :
    (test : Node → Bool) (change : Node → Node) (nodes : List Node)
    → update_first test change nodes ≡ none
    → All (λ n. test n ≡ false) nodes
unfolding update_first
update_first-none test change [] e = tt
update_first-none test change (n ∷ nodes) e = elim (Bool-cases (test n)) [
  | inl hit ↦ absurd (cc (rw hit at e))
  | inr miss ↦ (miss, update_first-none test change nodes (behind_none n _ (rw miss at e)))
]

-- The node that was finished is under way no more, and no other has its ID.
finish_idle :
    (now : ℕ) (r : Result Failure Snapshot) (a : Node) → is_busy (finish now r a).status ≡ false
unfolding finish
finish_idle now (ok s) a = refl
finish_idle now (err f) a = ground arith

others_within :
    (id : String) (ids : List String) (nodes : List Node)
    → contains id (node_ids nodes) ≡ false
    → BusyWithin (id ∷ ids) nodes
    → BusyWithin ids nodes
unfolding contains
others_within id ids [] d b = tt
others_within id ids (n ∷ nodes) d b = (
  (λ busy. ground (arith, b.0 busy, eq_iff id n.id, eq_iff n.id id)),
  others_within id ids nodes (ground arith) b.1,
)

pub Changed-within :
    (now : ℕ) (r : Result Failure Snapshot) (id : String) (ids : List String)
    → {nodes nodes' : List Node} {found : Node}
    → Changed (may_finish id) (finish now r) nodes found nodes'
    → Distinct (node_ids nodes)
    → BusyWithin (id ∷ ids) nodes
    → BusyWithin ids nodes'
unfolding contains
Changed-within now r id ids (at node nodes t) d b = (
  (λ busy. absurd (cc (finish_idle now r node))),
  others_within id ids nodes (ground (arith, eq_iff node.id id, d.0)) b.1,
)
Changed-within now r id ids (behind node found nodes nodes' t c) d b = (
  (λ busy. ground (arith, b.0 busy, eq_iff id node.id, eq_iff node.id id)),
  Changed-within now r id ids c d.1 b.1,
)

pub none_within :
    (id : String) (ids : List String) (nodes : List Node)
    → All (λ n. may_finish id n ≡ false) nodes
    → BusyWithin (id ∷ ids) nodes
    → BusyWithin ids nodes
unfolding contains
none_within id ids nodes h b =
    All-both _ _ _ nodes
      (λ n idle within busy. ground (arith, within busy, eq_iff id n.id, eq_iff n.id id)) h b

last_contained : (id : String) (ids : List String) → contains id (ids ++ id ∷ []) ≡ true
unfolding contains
last_contained id ids = ground (arith, contains-append id ids (id ∷ []), ==_self id)

within_more :
    (ids : List String) (id : String) (nodes : List Node)
    → BusyWithin ids nodes
    → BusyWithin (ids ++ id ∷ []) nodes
within_more ids id nodes b =
    All-imp _ _ nodes (λ n h busy. rw (contains-append n.id ids (id ∷ []), h busy) refl) b

pub Changed-started :
    (test : Node → Bool) (now : ℕ) (ids : List String) {nodes nodes' : List Node} {found : Node}
    → Changed test (start_node now) nodes found nodes'
    → BusyWithin ids nodes
    → BusyWithin (ids ++ found.id ∷ []) nodes'
Changed-started test now ids (at node nodes t) b =
    ((λ busy. last_contained node.id ids), within_more ids node.id nodes b.1)
Changed-started test now ids (behind node found nodes nodes' t c) b = (
  (λ busy. rw (contains-append node.id ids (found.id ∷ []), b.0 busy) refl),
  Changed-started test now ids c b.1,
)

-- The first ID that is ready is one that startNodes finds.
pub ready_head :
    (now : ℕ) (task : Task) (nodes : List Node) (id : String) (ids : List String)
    → ready_from task nodes ≡ id ∷ ids
    → (q : Node × List Node) × (update_first (may_start task id) (start_node now) nodes ≡ some q)
unfolding ready_from update_first
ready_head now task [] id ids e = absurd (cc e)
ready_head now task (n ∷ nodes) id ids e = elim (Bool-cases (may_start task id n)) [
  | inl hit ↦ ((start_node now n, start_node now n ∷ nodes), rw hit)
  | inr miss ↦
      let (q, found) = ready_head now task nodes id ids (ground (arith, eq_iff n.id id)) in
      ((q.0, n ∷ q.1), rw (miss, found) refl)
]
