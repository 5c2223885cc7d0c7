-- ===== src/Prelude/Text/Trim.antt =====
-- strings.TrimSpace a second time.
use Prim.Native.Char.{code}
use Prim.Native.String.{String, [], ◌∷◌}
use mathlib.Core.Path.{◌≡◌, refl, sym, ap, ◌∙◌, subst}
use mathlib.Core.Bool.{Bool, true, false, ◌&&◌}
use blender_shot_preview.Prelude.Tests.{if◌then◌else◌}
use blender_shot_preview.Prelude.Text.{is_space, is_empty, trim_left, trim_right, trim_space}

-- No space at the front.
abbrev IsLeftTrimmed : String → Type 0
IsLeftTrimmed [] = Unit
IsLeftTrimmed (c ∷ s) = is_space (code c) ≡ false

trim_left-IsLeftTrimmed : (s : String) → IsLeftTrimmed (trim_left s)
unfolding trim_left
trim_left-IsLeftTrimmed [] = tt
trim_left-IsLeftTrimmed (c ∷ s) =
    go (is_space (code c)) refl (trim_left s) (trim_left-IsLeftTrimmed s)
  where
    go :
        (b : Bool)
        → is_space (code c) ≡ b
        → (rest : String) → IsLeftTrimmed rest
        → IsLeftTrimmed (if b then rest else c ∷ s)
    go true e rest h = h
    go false e rest h = e

IsLeftTrimmed-trim_left : (s : String) → IsLeftTrimmed s → trim_left s ≡ s
unfolding trim_left
IsLeftTrimmed-trim_left [] h = refl
IsLeftTrimmed-trim_left (c ∷ s) h = ap (λ b. if b then trim_left s else c ∷ s) h

trim_right-IsLeftTrimmed : (s : String) → IsLeftTrimmed s → IsLeftTrimmed (trim_right s)
unfolding trim_right
trim_right-IsLeftTrimmed [] h = tt
trim_right-IsLeftTrimmed (c ∷ s) h =
    subst (λ b. IsLeftTrimmed (if b && is_empty (trim_right s) then [] else c ∷ trim_right s))
      (sym h) h

trim_right_twice : (s : String) → trim_right (trim_right s) ≡ trim_right s
unfolding trim_right
trim_right_twice [] = refl
trim_right_twice (c ∷ s) =
    go (is_space (code c) && is_empty (trim_right s)) refl (trim_right_twice s)
  where
    go :
        (b : Bool)
        → (is_space (code c) && is_empty (trim_right s)) ≡ b
        → trim_right (trim_right s) ≡ trim_right s
        → trim_right (if b then [] else c ∷ trim_right s) ≡ (if b then [] else c ∷ trim_right s)
    go true e again = refl
    go false e again =
        ap (λ t. if is_space (code c) && is_empty t then [] else c ∷ t) again
        ∙ ap (λ b. if b then [] else c ∷ trim_right s) e

pub trim_space_twice : (s : String) → trim_space (trim_space s) ≡ trim_space s
unfolding trim_space
trim_space_twice s =
    ap trim_right (
      IsLeftTrimmed-trim_left (trim_right (trim_left s))
        (trim_right-IsLeftTrimmed (trim_left s) (trim_left-IsLeftTrimmed s)))
    ∙ trim_right_twice (trim_left s)
