-- ===== src/Pipeline/ShotPreview/Accepted.antt =====
-- Workflow.Validate on the workflow of ShotPreviewWorkflow.
use blender_shot_preview.Prelude.{
  String, ◌≡◌, refl, ok, err, ◌==◌, not, ◌&&◌, if◌then◌else◌, inl, inr, Bool-cases, contains,
  without, ◌>>=◌,
}
use blender_shot_preview.Prelude.Text.{trim_space}
use blender_shot_preview.Prelude.Json
use blender_shot_preview.Pipeline.Types.{invalid_input}
use blender_shot_preview.Pipeline.Workflow.{
  validate, check_nodes, check_node, check_edges, check_dependencies, find_spec, search_order,
  visit, visit_each, leave, dependencies_of,
}
use blender_shot_preview.Pipeline.ShotPreview.{shot_preview_workflow, node_initialize}

-- The workflow of ShotPreviewWorkflow passes Validate for every input that is empty or valid JSON,
-- and is refused with the defect of its first node's input for every other.
pub shot_preview_accepted :
    (input : String)
    → validate (shot_preview_workflow input) ≡ (
        if not (input == "") && not (Json.valid input)
        then err (invalid_input node_initialize)
        else ok tt)
unfolding ◌>>=◌ validate shot_preview_workflow check_nodes check_node check_edges check_dependencies
    find_spec search_order visit visit_each leave dependencies_of contains without trim_space
shot_preview_accepted input = elim (Bool-cases (not (input == "") && not (Json.valid input))) [
  | inl bad ↦ rw bad refl
  | inr good ↦ rw good refl
]
