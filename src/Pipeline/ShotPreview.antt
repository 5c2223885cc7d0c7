-- ===== src/Pipeline/ShotPreview.antt =====
-- internal/service/pipeline/shot_preview.go: the graph of a production request.
pub mod Accepted
use blender_shot_preview.Prelude.{String, ℤ, pos, List, [], ◌∷◌}
use blender_shot_preview.Pipeline.Types.{NodeSpec, Workflow, InvocationKind, agent, step, tool}

abbrev pub node_initialize : String
node_initialize = "Initialize"

abbrev pub node_intent : String
node_intent = "Intent"

abbrev pub node_validate_spec : String
node_validate_spec = "ValidateSpec"

abbrev pub node_scene_plan : String
node_scene_plan = "ScenePlan"

abbrev pub node_create_assets : String
node_create_assets = "CreateAssets"

abbrev pub node_design_shots : String
node_design_shots = "DesignShots"

abbrev pub node_assemble_scene : String
node_assemble_scene = "AssembleScene"

abbrev pub node_preview_render : String
node_preview_render = "PreviewRender"

abbrev pub node_inspect : String
node_inspect = "Inspect"

abbrev pub node_final_render : String
node_final_render = "FinalRender"

abbrev pub node_encode : String
node_encode = "Encode"

abbrev pub node_verify : String
node_verify = "Verify"

abbrev pub node_publish : String
node_publish = "Publish"

abbrev pub plain_node : String → List String → String → InvocationKind → String → NodeSpec
plain_node id dependencies input kind target = record {
  id = id;
  depends_on = dependencies;
  input = input;
  invocation = record { kind = kind; target = target };
  max_attempts = pos 0;
}

-- stageNode
abbrev pub stage_node : String → List String → String → NodeSpec
stage_node id dependencies input = plain_node id dependencies input step id

-- agentNode
abbrev pub agent_node : String → List String → String → NodeSpec
agent_node id dependencies agent_id = plain_node id dependencies "" agent agent_id

-- toolNode
abbrev pub tool_node : String → List String → String → NodeSpec
tool_node id dependencies tool_id = plain_node id dependencies "" tool tool_id

-- ShotPreviewWorkflow
unfoldable pub shot_preview_workflow : String → Workflow
shot_preview_workflow input = record {
  nodes =
      stage_node node_initialize [] input
      ∷ agent_node node_intent (node_initialize ∷ []) "intent-agent"
      ∷ stage_node node_validate_spec (node_intent ∷ []) ""
      ∷ agent_node node_scene_plan (node_validate_spec ∷ []) "scene-planner-agent"
      ∷ stage_node node_create_assets (node_scene_plan ∷ []) ""
      ∷ agent_node node_design_shots (node_validate_spec ∷ node_create_assets ∷ [])
          "shot-designer-agent"
      ∷ agent_node node_assemble_scene (node_create_assets ∷ node_design_shots ∷ [])
          "scene-assembly-agent"
      ∷ tool_node node_preview_render (node_assemble_scene ∷ []) "blender.render.submit"
      ∷ stage_node node_inspect (node_preview_render ∷ []) ""
      ∷ tool_node node_final_render (node_assemble_scene ∷ node_inspect ∷ [])
          "blender.render.submit"
      ∷ tool_node node_encode (node_final_render ∷ []) "ffmpeg.encode"
      ∷ tool_node node_verify (node_encode ∷ []) "ffprobe.inspect"
      ∷ stage_node node_publish (node_verify ∷ []) ""
      ∷ [];
}
