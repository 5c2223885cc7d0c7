-- ===== src/Service/ShotPreview/Views.antt =====
-- taskView of internal/service/shot_preview_service.go.
use Prim.Native.String.{◌++◌}
use blender_shot_preview.Prelude.{
  String, Bool, true, false, not, ◌&&◌, Option, none, some, List, [], ◌∷◌, ◌≡◌, refl, ap, ◌==◌,
  if◌then◌else◌, map,
}
use blender_shot_preview.Prelude.Text.{trim_space, is_blank}
use blender_shot_preview.Pipeline.Types.{Task, Node, TaskStatus, NodeStatus, Snapshot}
use blender_shot_preview.Service.ShotPreview.Types.{TaskView, NodeView, FailureView, ArtifactView}

abbrev pub is_failed : NodeStatus → Bool
is_failed NodeStatus.failed = true
is_failed status = false

abbrev pub non_empty : String → Option String
non_empty text = if text == "" then none else some text

abbrev pub output_of : Option Snapshot → Option String
output_of none = none
output_of (some s) = non_empty s.json

-- The failure of a node that has failed.
unfoldable pub failure_of : Node → FailureView
failure_of node = record {
  code = if node.error_code == "" then "NODE_FAILED" else node.error_code;
  message = if is_blank node.error then "Production step failed" else trim_space node.error;
  retryable =
      not (node.error_code == "LLM_AUTH_FAILED") && not (node.error_code == "LLM_NOT_CONFIGURED");
}

-- One turn of the loop of taskView, as far as it makes the node's view.
unfoldable pub node_view : Node → NodeView
node_view node = record {
  id = node.id;
  status = node.status;
  attempts = node.attempts;
  input = non_empty node.input.json;
  output = output_of node.output;
  started_at = node.started_at;
  finished_at = node.finished_at;
  failure = if is_failed node.status then some (failure_of node) else none;
}

abbrev pub or_else : Option FailureView → Option FailureView → Option FailureView
or_else none f = f
or_else (some e) f = some e

abbrev pub prepended :
    NodeView → Option FailureView × List NodeView → Option FailureView × List NodeView
prepended view (failure, views) = (failure, view ∷ views)

-- The loop, with the view's failure so far.
unfoldable pub view_nodes : Option FailureView → List Node → Option FailureView × List NodeView
view_nodes failure [] = (failure, [])
view_nodes failure (node ∷ nodes) =
    let view = node_view node in prepended view (view_nodes (or_else failure view.failure) nodes)

abbrev pub artifacts_of : String → TaskStatus → List ArtifactView
artifacts_of id TaskStatus.succeeded =
    record {
      artifact_type = "video";
      name = "shot-preview.mp4";
      uri = "/api/v0_1/shot-preview/artifacts/download?task_id=" ++ id ++ "&name=shot-preview.mp4";
    }
    ∷ []
artifacts_of id status = []

-- taskView. The workflow's identifier and version are constants.
unfoldable pub task_view : Task → TaskView
task_view task =
    let (failure, nodes) = view_nodes none task.nodes in
    record {
      task_id = task.id;
      status = task.status;
      nodes = nodes;
      artifacts = artifacts_of task.id task.status;
      failure = failure;
      created_at = task.created_at;
      updated_at = task.updated_at;
      finished_at = task.finished_at;
    }

-- The failure of the first node of a list that has failed.
abbrev pub first_failure : List Node → Option FailureView
first_failure [] = none
first_failure (node ∷ nodes) =
    let more = first_failure nodes in if is_failed node.status then some (failure_of node) else more

view_nodes-first :
    (failure : Option FailureView) (nodes : List Node)
    → view_nodes failure nodes ≡ (or_else failure (first_failure nodes), map node_view nodes)
unfolding view_nodes node_view
view_nodes-first none [] = refl
view_nodes-first (some f) [] = refl
view_nodes-first (some f) (node ∷ nodes) =
    ap (prepended (node_view node)) (view_nodes-first (some f) nodes)
view_nodes-first none (node ∷ nodes) =
    go (is_failed node.status) (view_nodes-first none nodes)
      (view_nodes-first (some (failure_of node)) nodes)
  where
    go :
        (b : Bool)
        → view_nodes none nodes ≡ (first_failure nodes, map node_view nodes)
        → view_nodes (some (failure_of node)) nodes ≡ (some (failure_of node), map node_view nodes)
        → prepended (node_view node) (view_nodes (if b then some (failure_of node) else none) nodes)
          ≡ (
            (if b then some (failure_of node) else first_failure nodes),
            node_view node ∷ map node_view nodes,
          )
    go true e e' = ap (prepended (node_view node)) e'
    go false e e' = ap (prepended (node_view node)) e

-- The view of a task has the view of each of its nodes, in the task's order, and as its failure that
-- of the first node that has failed, if any.
pub task_view-lem :
    (task : Task)
    → ((task_view task).nodes ≡ map node_view task.nodes)
      × ((task_view task).failure ≡ first_failure task.nodes)
unfolding task_view
task_view-lem task = (
  ap (λ p. p.1) (view_nodes-first none task.nodes),
  ap (λ p. p.0) (view_nodes-first none task.nodes),
)
