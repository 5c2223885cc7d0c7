-- ===== src/Examples/Workflows.antt =====
-- Workflow.Validate on two nodes, of which the second depends on the first, and on a cycle.
use blender_shot_preview.Prelude.{
  pos, String, List, [], ◌∷◌, ◌≡◌, ◌≢◌, refl, ok, err, ◌==◌, not, ◌&&◌, if◌then◌else◌, contains,
  without, Within, ◌>>=◌,
}
use blender_shot_preview.Prelude.Json
use blender_shot_preview.Prelude.Text.{trim_space}
use blender_shot_preview.Pipeline.Types.{
  NodeSpec, Workflow, step, invalid_input, cycle, out_of_fuel,
}
use blender_shot_preview.Pipeline.Workflow.{
  Marks, validate, check_nodes, check_node, check_edges, check_dependencies, find_spec,
  search_order, visit, visit_each, leave, dependencies_of, ids_of,
}
use blender_shot_preview.Pipeline.Workflow.Order.{IsOrdered, search_order-IsOrdered}
use blender_shot_preview.Pipeline.Workflow.Validity.{
  IsWellFormed, validate-IsWellFormed, IsWellFormed-validate, validate_decides,
}
use blender_shot_preview.Pipeline.ShotPreview.{shot_preview_workflow, node_initialize}
use blender_shot_preview.Pipeline.ShotPreview.Accepted.{shot_preview_accepted}

abbrev pub demo_spec : String → List String → NodeSpec
demo_spec id deps = record {
  id = id;
  depends_on = deps;
  input = "";
  invocation = record { kind = step; target = id };
  max_attempts = pos 1;
}

abbrev pub demo_workflow : Workflow
demo_workflow = record { nodes = demo_spec "a" [] ∷ demo_spec "b" ("a" ∷ []) ∷ [] }

abbrev cyclic_workflow : Workflow
cyclic_workflow = record { nodes = demo_spec "a" ("b" ∷ []) ∷ demo_spec "b" ("a" ∷ []) ∷ [] }

pub demo_valid : validate demo_workflow ≡ ok tt
unfolding ◌>>=◌ validate check_nodes check_node check_edges check_dependencies find_spec
    search_order visit visit_each leave dependencies_of contains without trim_space
demo_valid = refl

cyclic_refused : validate cyclic_workflow ≡ err (cycle "a")
unfolding ◌>>=◌ validate check_nodes check_node check_edges check_dependencies find_spec
    search_order visit visit_each leave dependencies_of contains without trim_space
cyclic_refused = refl

validate-IsWellFormed_demo : IsWellFormed demo_workflow
validate-IsWellFormed_demo = validate-IsWellFormed demo_workflow demo_valid

IsWellFormed-validate_demo : validate demo_workflow ≡ ok tt
IsWellFormed-validate_demo =
    IsWellFormed-validate demo_workflow (validate-IsWellFormed demo_workflow demo_valid)

validate_decides_cyclic : validate cyclic_workflow ≢ err out_of_fuel
validate_decides_cyclic = validate_decides cyclic_workflow

abbrev demo_marks : Marks
demo_marks = record { visiting = []; visited = "b" ∷ "a" ∷ [] }

demo_order : search_order demo_workflow.nodes demo_workflow.nodes ≡ ok demo_marks
unfolding ◌>>=◌ find_spec search_order visit visit_each leave dependencies_of contains without
demo_order = refl

search_order-IsOrdered_demo :
    IsOrdered demo_workflow.nodes demo_marks.visited
    × Within (ids_of demo_workflow.nodes) demo_marks.visited
search_order-IsOrdered_demo =
    search_order-IsOrdered demo_workflow.nodes demo_workflow.nodes demo_marks demo_order

shot_preview_accepted_empty :
    validate (shot_preview_workflow "")
    ≡ (if not ("" == "") && not (Json.valid "") then err (invalid_input node_initialize) else ok tt)
shot_preview_accepted_empty = shot_preview_accepted ""
