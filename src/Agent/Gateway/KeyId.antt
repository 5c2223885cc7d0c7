-- ===== src/Agent/Gateway/KeyId.antt =====
-- newCredentialID of internal/agent/llm_gateway/gateway.go: an identifier has no space to trim.
use Prim.Native.Char.{Char, code}
use text.Mathlib.TextLemmas.{nil-append, cons-append}
use Prim.Native.String.{[], ◌∷◌, ◌++◌}
use mathlib.Core.List.{List, [], ◌∷◌}
use blender_shot_preview.Prelude.{
  ℕ, ◌/◌, ◌%◌, String, Bool, true, false, not, ◌&&◌, ◌≡◌, refl, ap, ◌∙◌, ◌==◌, eqb, ne-==, arith,
  if◌then◌else◌, length, and_parts, Ensures, Ensures-ok, Option, none, some,
}
use blender_shot_preview.Prelude.Text.{
  digit, hex_digit, is_space, trim_left, trim_right, trim_space, is_blank,
}
use blender_shot_preview.Agent.Gateway.{hex_encode, new_credential_id}

-- No character is a space.
abbrev solid : String → Bool
solid [] = true
solid (c ∷ s) = not (is_space (code c)) && solid s

-- What holds of both branches.
either_branch : (P : String → Type 0) (b : Bool) (s t : String) → P s → P t → P (if b then s else t)
either_branch P true s t h k = h
either_branch P false s t h k = k

-- A hexadecimal digit before a text is one character, and no space.
abbrev Prefixes : String → String → Type 0
Prefixes s d = (solid s ≡ true → solid (d ++ s) ≡ true) × (((d ++ s) == "") ≡ false)

one_char : (c : Char) (s : String) → is_space (code c) ≡ false → Prefixes s (c ∷ "")
one_char c s h =
    rw (cons-append c "" s, nil-append s) ((λ k. rw (h, k) refl), ne-== (c ∷ s) "" (λ e. cc))

hex_digit-Prefixes : (n : ℕ) (s : String) → Prefixes s (hex_digit n)
unfolding hex_digit digit is_space
hex_digit-Prefixes n s =
    let pick = either_branch (Prefixes s) in
    pick (eqb n 10) "a" _ (one_char "a" s refl) (
      pick (eqb n 11) "b" _ (one_char "b" s refl) (
        pick (eqb n 12) "c" _ (one_char "c" s refl) (
          pick (eqb n 13) "d" _ (one_char "d" s refl) (
            pick (eqb n 14) "e" _ (one_char "e" s refl) (
              pick (eqb n 15) "f" _ (one_char "f" s refl) (
                pick (eqb n 0) "0" _ (one_char "0" s refl) (
                  pick (eqb n 1) "1" _ (one_char "1" s refl) (
                    pick (eqb n 2) "2" _ (one_char "2" s refl) (
                      pick (eqb n 3) "3" _ (one_char "3" s refl) (
                        pick (eqb n 4) "4" _ (one_char "4" s refl) (
                          pick (eqb n 5) "5" _ (one_char "5" s refl) (
                            pick (eqb n 6) "6" _ (one_char "6" s refl) (
                              pick (eqb n 7) "7" _ (one_char "7" s refl) (
                                pick (eqb n 8) "8" _ (one_char "8" s refl)
                                  (one_char "9" s refl)))))))))))))))

hex_encode-solid : (bytes : List ℕ) → solid (hex_encode bytes) ≡ true
unfolding hex_encode
hex_encode-solid [] = refl
hex_encode-solid (b ∷ bytes) =
    (hex_digit-Prefixes (b / 16) _).0 ((hex_digit-Prefixes (b % 16) _).0 (hex_encode-solid bytes))

trim_left-solid : (s : String) → solid s ≡ true → trim_left s ≡ s
unfolding trim_left
trim_left-solid [] h = refl
trim_left-solid (c ∷ s) h = ground arith

trim_right-solid : (s : String) → solid s ≡ true → trim_right s ≡ s
unfolding trim_right
trim_right-solid [] h = refl
trim_right-solid (c ∷ s) h =
    ground (arith, trim_right-solid s (and_parts (not (is_space (code c))) (solid s) h).1)

solid-trim : (s : String) → solid s ≡ true → trim_space s ≡ s
unfolding trim_space
solid-trim s h = ap trim_right (trim_left-solid s h) ∙ trim_right-solid s h

-- The identifier of a new credential is not blank, and has no space around it.
abbrev pub IsKeyId : String → Type 0
IsKeyId id = (trim_space id ≡ id) × (is_blank id ≡ false)

-- rand.Read fills the bytes that were asked for.
abbrev pub FitsId : Option (List ℕ) → Type 0
FitsId none = Unit
FitsId (some bytes) = length bytes ≡ 16

pub new_credential_id-IsKeyId :
    (drawn : Option (List ℕ)) → FitsId drawn → Ensures IsKeyId (new_credential_id drawn)
unfolding hex_encode
new_credential_id-IsKeyId none fits = record { value = λ id e. cc }
new_credential_id-IsKeyId (some []) fits = record { value = λ id e. cc }
new_credential_id-IsKeyId (some (b ∷ bytes)) fits =
    let same = solid-trim (hex_encode (b ∷ bytes)) (hex_encode-solid (b ∷ bytes)) in
    Ensures-ok _ (same, ap (λ s. s == "") same ∙ (hex_digit-Prefixes (b / 16) _).1)
