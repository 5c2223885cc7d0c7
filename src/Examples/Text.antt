-- ===== src/Examples/Text.antt =====
-- Tests of the strings and the JSON of the Prelude.
use blender_shot_preview.Prelude.{◌≡◌, refl, true, false}
use blender_shot_preview.Prelude.Json
use blender_shot_preview.Prelude.Text.{trim_space}

json_document : Json.valid "{\"a\": [1, -2.5e+3, true], \"b\\u00e9\": {}} " ≡ true
unfolding Json.valid
json_document = refl

json_leading_zero : Json.valid "[07]" ≡ false
unfolding Json.valid
json_leading_zero = refl

trims : trim_space " \n a b\t " ≡ "a b"
unfolding trim_space
trims = refl
