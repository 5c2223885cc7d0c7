-- ===== src/Pipeline/FanOut/Nodes.antt =====
-- FanOutNodes of internal/service/pipeline/types.go.
use Prim.Native.String.{◌++◌ as ◌<>◌}
use blender_shot_preview.Prelude.{
  ℕ, suc, ◌+◌, String, Bool, true, false, not, ◌||◌, Option, none, some, List, [], ◌∷◌, ◌≡◌, refl,
  ap, ◌∙◌, Result, ok, err, ◌>>=◌, ◌>>◌, refuse_if, ◌==◌, if◌then◌else◌,
}
use blender_shot_preview.Prelude.Json
use blender_shot_preview.Prelude.Text.{is_blank, decimal}
use blender_shot_preview.Pipeline.Types.{NodeSpec, Defect, blank_fan_out, invalid_fan_out_input}

-- An input of a child is JSON or nothing.
abbrev pub is_input : String → Bool
is_input input = input == "" || Json.valid input

-- The child of an index, which counts from 0.
unfoldable pub child : String → NodeSpec → ℕ → String → NodeSpec
child parent template index input = record template {
  id = template.id <> "-" <> decimal (index + 1);
  depends_on = parent ∷ template.depends_on;
  input = input;
}

-- The loop, from an index on.
unfoldable pub children_from : String → NodeSpec → ℕ → List String → Result Defect (List NodeSpec)
children_from parent template index [] = ok []
children_from parent template index (input ∷ inputs) =
    refuse_if (not (is_input input)) (invalid_fan_out_input index)
    >> children_from parent template (suc index) inputs
    >>= (λ children. ok (child parent template index input ∷ children))

unfoldable pub fan_out_nodes : String → NodeSpec → List String → Result Defect (List NodeSpec)
fan_out_nodes parent template inputs =
    refuse_if (is_blank parent || is_blank template.id) blank_fan_out
    >> children_from parent template 0 inputs

-- What the children of inputs that are all accepted should be, written out.
abbrev pub children_of : String → NodeSpec → ℕ → List String → List NodeSpec
children_of parent template index [] = []
children_of parent template index (input ∷ inputs) =
    record {
      id = template.id <> "-" <> decimal (index + 1);
      depends_on = parent ∷ template.depends_on;
      input = input;
      invocation = template.invocation;
      max_attempts = template.max_attempts;
    }
    ∷ children_of parent template (suc index) inputs

-- The inputs up to the first that is not accepted, if any: whether they all are, or its index.
abbrev pub first_refused : ℕ → List String → Option ℕ
first_refused index [] = none
first_refused index (input ∷ inputs) =
    let more = first_refused (suc index) inputs in if is_input input then more else some index

abbrev pub refused_or : {A : Type 0} → Option ℕ → A → Result Defect A
refused_or none a = ok a
refused_or (some index) a = err (invalid_fan_out_input index)

children_from-lem :
    (parent : String) (template : NodeSpec) (index : ℕ) (inputs : List String)
    → children_from parent template index inputs
      ≡ refused_or (first_refused index inputs) (children_of parent template index inputs)
unfolding children_from child ◌>>=◌
children_from-lem parent template index [] = refl
children_from-lem parent template index (input ∷ inputs) =
    go (is_input input) (first_refused (suc index) inputs)
      (children_from-lem parent template (suc index) inputs)
  where
    rest : Result Defect (List NodeSpec)
    rest = children_from parent template (suc index) inputs

    go :
        (b : Bool) (o : Option ℕ)
        → rest ≡ refused_or o (children_of parent template (suc index) inputs)
        → (refuse_if (not b) (invalid_fan_out_input index)
            >> rest
            >>= (λ children. ok (child parent template index input ∷ children)))
          ≡ refused_or
              (if b then o else some index)
              (children_of parent template index (input ∷ inputs))
    go false o e = refl
    go true none e =
        ap (λ r. r >>= (λ children. ok (child parent template index input ∷ children))) e
    go true (some i) e =
        ap (λ r. r >>= (λ children. ok (child parent template index input ∷ children))) e

-- FanOutNodes with a parent and a template that are named makes one child for each input, in the order
-- of the inputs, if every input is empty or valid JSON, and is else refused with the index of the first
-- that is not. A child is named by the template's name and its place from 1, depends on the parent and
-- then on what the template depends on, and has its input and the template's invocation and attempts.
pub fan_out_nodes-lem :
    (parent : String) (template : NodeSpec) (inputs : List String)
    → (is_blank parent || is_blank template.id) ≡ false
    → fan_out_nodes parent template inputs
      ≡ refused_or (first_refused 0 inputs) (children_of parent template 0 inputs)
unfolding fan_out_nodes ◌>>=◌
fan_out_nodes-lem parent template inputs named =
    ap (λ b. refuse_if b blank_fan_out >> children_from parent template 0 inputs) named
    ∙ children_from-lem parent template 0 inputs
