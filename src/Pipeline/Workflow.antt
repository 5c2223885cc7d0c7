-- ===== src/Pipeline/Workflow.antt =====
-- Workflow.Validate of internal/service/pipeline/types.go: the nodes one by one, their
-- dependencies, and a depth-first search for cycles.
pub mod Nodes
pub mod Search
pub mod Order
pub mod Validity
use blender_shot_preview.Prelude.{
  ℕ, zero, suc, ℤ, pos, negsuc, String, Bool, true, false, Option, none, some, List, [], ◌∷◌,
  Result, ok, err, ◌>>=◌, ◌>>◌, refuse_if, ◌==◌, if◌then◌else◌, not, ◌&&◌, ◌++◌, contains, without,
  length,
}
use blender_shot_preview.Prelude.Text.{is_blank}
use blender_shot_preview.Prelude.Json
use blender_shot_preview.Pipeline.Types.{
  NodeSpec, Workflow, InvocationKind, agent, step, tool, other, Defect, no_nodes, blank_id,
  duplicate_node, unsupported_kind, blank_target, negative_attempts, invalid_input,
  unknown_dependency, self_dependency, duplicate_dependency, cycle, out_of_fuel,
}

-- `known[id]`
unfoldable pub find_spec : String → List NodeSpec → Option NodeSpec
find_spec id [] = none
find_spec id (node ∷ nodes) = if node.id == id then some node else find_spec id nodes

abbrev pub is_some {ℓ} : {A : Type ℓ} → Option A → Bool
is_some none = false
is_some (some a) = true

abbrev pub is_negative : ℤ → Bool
is_negative (pos n) = false
is_negative (negsuc n) = true

-- The test on `node.Invocation.Kind`.
abbrev pub check_kind : String → InvocationKind → Result Defect (Unit {0})
check_kind id agent = ok tt
check_kind id step = ok tt
check_kind id tool = ok tt
check_kind id (other kind) = err (unsupported_kind id kind)

-- The body of the first loop.
unfoldable pub check_node : List NodeSpec → NodeSpec → Result Defect (Unit {0})
check_node known node = do
  refuse_if (is_blank node.id) blank_id
  refuse_if (is_some (find_spec node.id known)) (duplicate_node node.id)
  check_kind node.id node.invocation.kind
  refuse_if (is_blank node.invocation.target) (blank_target node.id)
  refuse_if (is_negative node.max_attempts) (negative_attempts node.id)
  refuse_if (not (node.input == "") && not (Json.valid node.input)) (invalid_input node.id)

-- The first loop: the nodes that are known at its end.
unfoldable pub check_nodes : List NodeSpec → List NodeSpec → Result Defect (List NodeSpec)
check_nodes known [] = ok known
check_nodes known (node ∷ nodes) = do check_node known node; check_nodes (known ++ node ∷ []) nodes

-- The dependencies of one node, `seen` being those that came before.
unfoldable pub check_dependencies :
    List NodeSpec → String → List String → List String → Result Defect (Unit {0})
check_dependencies known id seen [] = ok tt
check_dependencies known id seen (dependency ∷ rest) = do
  refuse_if (not (is_some (find_spec dependency known))) (unknown_dependency id dependency)
  refuse_if (dependency == id) (self_dependency id dependency)
  refuse_if (contains dependency seen) (duplicate_dependency id dependency)
  check_dependencies known id (dependency ∷ seen) rest

-- The second loop.
unfoldable pub check_edges : List NodeSpec → List NodeSpec → Result Defect (Unit {0})
check_edges known [] = ok tt
check_edges known (node ∷ nodes) = do
  check_dependencies known node.id [] node.depends_on
  check_edges known nodes

-- The maps `visiting` and `visited`, as the keys that are true.
pub record Marks : Type 0 where
  pub visiting : List String
  pub visited : List String

-- `known[id].DependsOn`, which is nil for a node that is not known.
unfoldable pub dependencies_of : List NodeSpec → String → List String
dependencies_of known id = elim (find_spec id known) [ none ↦ [] | some node ↦ node.depends_on ]

-- The loop over the dependencies in `visit`, and the third loop.
unfoldable pub visit_each :
    (String → Marks → Result Defect Marks) → List String → Marks → Result Defect Marks
visit_each visit [] s = ok s
visit_each visit (id ∷ ids) s = do s' ← visit id s; visit_each visit ids s'

-- The end of `visit`: the node has been dealt with.
unfoldable pub leave : String → Marks → Result Defect Marks
leave id s = ok (record { visiting = without id s.visiting; visited = id ∷ s.visited })

-- `visit`, on fuel that bounds the depth of the recursion.
unfoldable pub visit : List NodeSpec → ℕ → String → Marks → Result Defect Marks
visit known zero id s = err out_of_fuel
visit known (suc fuel) id s =
    let inner = (do
      s' ←
          visit_each (visit known fuel) (dependencies_of known id)
            (record s { visiting = id ∷ s.visiting })
      leave id s') in
    if contains id s.visiting then err (cycle id) else if contains id s.visited then ok s else inner

abbrev pub ids_of : List NodeSpec → List String
ids_of [] = []
ids_of (node ∷ nodes) = node.id ∷ ids_of nodes

abbrev pub start_search : Marks
start_search = record { visiting = []; visited = [] }

-- The nodes on a path of the search are distinct and known, so the depth is at most their number,
-- and one more call finds the cycle.
unfoldable pub search_order : List NodeSpec → List NodeSpec → Result Defect Marks
search_order known nodes = visit_each (visit known (suc (length known))) (ids_of nodes) start_search

abbrev pub is_nil {ℓ} : {A : Type ℓ} → List A → Bool
is_nil [] = true
is_nil (x ∷ xs) = false

unfoldable pub validate : Workflow → Result Defect (Unit {0})
validate w = do
  refuse_if (is_nil w.nodes) no_nodes
  known ← check_nodes [] w.nodes
  check_edges known w.nodes
  found ← search_order known w.nodes
  ok tt
