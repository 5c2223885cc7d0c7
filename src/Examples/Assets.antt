-- ===== src/Examples/Assets.antt =====
-- The fan-out over the assets of a plan.
use Prim.Native.String.{◌++◌}
use blender_shot_preview.Prelude.{
  ℕ, pos, ◌<◌, String, true, [], ◌∷◌, ◌≡◌, ◌⊎◌, refl, Result, ok, err, arith,
}
use blender_shot_preview.Prelude.Text.{trim_space, decimal}
use blender_shot_preview.Pipeline.Types.{NodeSpec, agent}
use blender_shot_preview.Pipeline.Task.{Failure}
use blender_shot_preview.Pipeline.FanOut.{
  FanOut, begun, handed, completed, has, Reaches, begins, then_step, hands, completes, closes,
  answer, Step, collected, remove,
}
use blender_shot_preview.Pipeline.FanOut.Ends.{output_of, answer-lem}
use blender_shot_preview.Pipeline.FanOut.Progress.{step-remaining, Step-possible, remaining}
use blender_shot_preview.Pipeline.FanOut.Nodes.{
  fan_out_nodes, fan_out_nodes-lem, refused_or, first_refused, children_of,
}

abbrev demo_invoke : ℕ → Result Failure String
demo_invoke i = ok ("asset " ++ decimal i)

-- Two workers take two assets, and the second asset is ready first.
abbrev two_in_work : FanOut
two_in_work = handed (handed (begun 2))

abbrev both_done : FanOut
both_done = record (completed 0 (demo_invoke 0) (completed 1 (demo_invoke 1) two_in_work)) {
  closed = true;
}

both_reached : Reaches demo_invoke 2 2 both_done
unfolding has remove
both_reached =
    then_step
      (then_step
        (then_step (then_step (then_step begins (hands refl refl refl)) (hands refl refl refl))
          (completes 1 refl))
        (completes 0 refl))
      (closes refl refl)

answer-lem_demo :
    ((e : Failure) × (i : ℕ) × (i < 2) × (demo_invoke i ≡ err e) × (answer 2 both_done ≡ err e))
    ⊎ (((i : ℕ) → i < 2 → (output : String) × (demo_invoke i ≡ ok output))
        × (answer 2 both_done ≡ ok (collected 0 2 (λ i. output_of (demo_invoke i)))))
unfolding remove
answer-lem_demo = answer-lem demo_invoke 2 2 both_done both_reached refl refl

in_work : Reaches demo_invoke 2 2 two_in_work
in_work = then_step (then_step begins (hands refl refl refl)) (hands refl refl refl)

step-remaining_demo :
    remaining 2 (completed 1 (demo_invoke 1) two_in_work) < remaining 2 two_in_work
unfolding has remove
step-remaining_demo =
    step-remaining demo_invoke 2 two_in_work (completed 1 (demo_invoke 1) two_in_work)
      (completes 1 refl)

Step-possible_demo :
    ((two_in_work.closed ≡ true) × (two_in_work.busy ≡ []))
    ⊎ ((s' : FanOut) × Step demo_invoke 2 two_in_work s')
Step-possible_demo = Step-possible demo_invoke 2 2 two_in_work (omega arith) in_work

abbrev asset_template : NodeSpec
asset_template = record {
  id = "asset";
  depends_on = "style" ∷ [];
  input = "";
  invocation = record { kind = agent; target = "asset-creator-agent" };
  max_attempts = pos 1;
}

fan_out_nodes-lem_demo :
    fan_out_nodes "plan" asset_template ("{}" ∷ "{" ∷ [])
    ≡ refused_or
        (first_refused 0 ("{}" ∷ "{" ∷ []))
        (children_of "plan" asset_template 0 ("{}" ∷ "{" ∷ []))
unfolding trim_space
fan_out_nodes-lem_demo = fan_out_nodes-lem "plan" asset_template ("{}" ∷ "{" ∷ []) refl
