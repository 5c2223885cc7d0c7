-- ===== src/Prelude/Json.antt =====
-- json.Valid: the scanner of Go's encoding/json, one step for each character.
use Prim.Native.Nat.{ℕ, suc}
use Prim.Native.Char.{code}
use Prim.Native.String.{String}
use mathlib.Core.Bool.{Bool, true, false, ◌&&◌, ◌||◌}
use mathlib.Core.List.{List, [], ◌∷◌}
use blender_shot_preview.Prelude.Tests.{leb, eqb, if◌then◌else◌}
use blender_shot_preview.Prelude.Lists.{length}

-- What an open bracket waits for: the key of a member, the value of a member, an element.
pub data Context : Type 0 where
  object_key object_value array_value : Context

-- What the next character may be.
pub data Mode : Type 0 where
  begin_value begin_value_or_empty begin_string begin_string_or_empty end_value end_top : Mode
  in_string in_escape : Mode
  in_hex : ℕ → Mode  -- digits of \uXXXX still to come
  neg digit0 digit1 point fraction exponent exponent_sign exponent_digits : Mode
  literal : List ℕ → Mode  -- the rest of true, false or null
  failed : Mode

pub record Scanner : Type 0 where
  pub mode : Mode
  pub stack : List Context

abbrev max_nesting_depth : ℕ
max_nesting_depth = 10000

is_json_space : ℕ → Bool
is_json_space c = eqb c 32 || eqb c 9 || eqb c 13 || eqb c 10

is_digit : ℕ → Bool
is_digit c = leb b'0' c && leb c b'9'

is_hex : ℕ → Bool
unfolding is_digit
is_hex c = is_digit c || (leb b'a' c && leb c b'f') || (leb b'A' c && leb c b'F')

fail : List Context → Scanner
fail stack = record { mode = failed; stack = stack }

-- pushParseState
push : Mode → Context → List Context → Scanner
unfolding fail
push mode context stack =
    if leb (length (context ∷ stack)) max_nesting_depth
    then record { mode = mode; stack = context ∷ stack }
    else fail stack

-- popParseState
pop : List Context → Scanner
pop [] = record { mode = end_top; stack = [] }
pop (_ ∷ []) = record { mode = end_top; stack = [] }
pop (_ ∷ c ∷ stack) = record { mode = end_value; stack = c ∷ stack }

-- stateEndValue, at a character that is no space
end_of_value : ℕ → List Context → Scanner
unfolding pop fail
end_of_value c [] = fail []
end_of_value c (object_key ∷ stack) =
    if eqb c b':' then record { mode = begin_value; stack = object_value ∷ stack } else fail stack
end_of_value c (object_value ∷ stack) =
    if eqb c b','
    then record { mode = begin_string; stack = object_key ∷ stack }
    else if eqb c b'}'
    then pop (object_value ∷ stack)
    else fail stack
end_of_value c (array_value ∷ stack) =
    if eqb c b','
    then record { mode = begin_value; stack = array_value ∷ stack }
    else if eqb c b']'
    then pop (array_value ∷ stack)
    else fail stack

-- stateEndValue and stateEndTop, with the spaces they skip
after_value : ℕ → List Context → Scanner
unfolding end_of_value is_json_space
after_value c [] = if is_json_space c then record { mode = end_top; stack = [] } else fail []
after_value c (k ∷ stack) =
    if is_json_space c
    then record { mode = end_value; stack = k ∷ stack }
    else end_of_value c (k ∷ stack)

-- stateBeginValue
value : ℕ → List Context → Scanner
unfolding push is_json_space is_digit
value c stack =
    let to = λ (m : Mode). let s : Scanner = record { mode = m; stack = stack } in s in
    if is_json_space c
    then to begin_value
    else if eqb c b'{'
    then push begin_string_or_empty object_key stack
    else if eqb c b'['
    then push begin_value_or_empty array_value stack
    else if eqb c b'"'
    then to in_string
    else if eqb c b'-'
    then to neg
    else if eqb c b'0'
    then to digit0
    else if eqb c b't'
    then to (literal (b'r' ∷ b'u' ∷ b'e' ∷ []))
    else if eqb c b'f'
    then to (literal (b'a' ∷ b'l' ∷ b's' ∷ b'e' ∷ []))
    else if eqb c b'n'
    then to (literal (b'u' ∷ b'l' ∷ b'l' ∷ []))
    else if is_digit c
    then to digit1
    else fail stack

is_escape : ℕ → Bool
is_escape c =
    eqb c b'b'
    || eqb c b'f'
    || eqb c b'n'
    || eqb c b'r'
    || eqb c b't'
    || eqb c b'\\'
    || eqb c b'/'
    || eqb c b'"'

is_exponent : ℕ → Bool
is_exponent c = eqb c b'e' || eqb c b'E'

-- The step function of the scanner at each state.
step : Mode → ℕ → List Context → Scanner
unfolding value after_value is_hex is_escape is_exponent
step begin_value c stack = value c stack
step begin_value_or_empty c stack =
    if is_json_space c
    then record { mode = begin_value_or_empty; stack = stack }
    else if eqb c b']'
    then end_of_value c stack
    else value c stack
step begin_string c stack =
    if is_json_space c
    then record { mode = begin_string; stack = stack }
    else if eqb c b'"'
    then record { mode = in_string; stack = stack }
    else fail stack
step begin_string_or_empty c stack =
    if is_json_space c
    then record { mode = begin_string_or_empty; stack = stack }
    else if eqb c b'}'
    then pop stack
    else if eqb c b'"'
    then record { mode = in_string; stack = stack }
    else fail stack
step end_value c stack = after_value c stack
step end_top c stack =
    if is_json_space c then record { mode = end_top; stack = stack } else fail stack
step in_string c stack =
    if eqb c b'"'
    then record { mode = end_value; stack = stack }
    else if eqb c b'\\'
    then record { mode = in_escape; stack = stack }
    else if leb 0x20 c
    then record { mode = in_string; stack = stack }
    else fail stack
step in_escape c stack =
    if is_escape c
    then record { mode = in_string; stack = stack }
    else if eqb c b'u'
    then record { mode = in_hex 4; stack = stack }
    else fail stack
step (in_hex (suc (suc n))) c stack =
    if is_hex c then record { mode = in_hex (suc n); stack = stack } else fail stack
step (in_hex _) c stack =
    if is_hex c then record { mode = in_string; stack = stack } else fail stack
step neg c stack =
    if eqb c b'0'
    then record { mode = digit0; stack = stack }
    else if is_digit c
    then record { mode = digit1; stack = stack }
    else fail stack
step digit0 c stack =
    if eqb c b'.'
    then record { mode = point; stack = stack }
    else if is_exponent c
    then record { mode = exponent; stack = stack }
    else after_value c stack
step digit1 c stack =
    if is_digit c
    then record { mode = digit1; stack = stack }
    else if eqb c b'.'
    then record { mode = point; stack = stack }
    else if is_exponent c
    then record { mode = exponent; stack = stack }
    else after_value c stack
step point c stack = if is_digit c then record { mode = fraction; stack = stack } else fail stack
step fraction c stack =
    if is_digit c
    then record { mode = fraction; stack = stack }
    else if is_exponent c
    then record { mode = exponent; stack = stack }
    else after_value c stack
step exponent c stack =
    if eqb c b'+' || eqb c b'-'
    then record { mode = exponent_sign; stack = stack }
    else if is_digit c
    then record { mode = exponent_digits; stack = stack }
    else fail stack
step exponent_sign c stack =
    if is_digit c then record { mode = exponent_digits; stack = stack } else fail stack
step exponent_digits c stack =
    if is_digit c then record { mode = exponent_digits; stack = stack } else after_value c stack
step (literal []) c stack = after_value c stack
step (literal (l ∷ [])) c stack =
    if eqb c l then record { mode = end_value; stack = stack } else fail stack
step (literal (l ∷ rest)) c stack =
    if eqb c l then record { mode = literal rest; stack = stack } else fail stack
step failed c stack = fail stack

scan : Scanner → String → Scanner
unfolding step
scan s String.[] = s
scan s (String.◌∷◌ c rest) = scan (step s.mode (code c) s.stack) rest

-- scanner.eof: a number or a value at top level ends with the text.
ends : Mode → List Context → Bool
ends end_top stack = true
ends end_value [] = true
ends digit0 [] = true
ends digit1 [] = true
ends fraction [] = true
ends exponent_digits [] = true
ends _ stack = false

-- json.Valid
unfoldable pub valid : String → Bool
unfolding scan ends
valid text = let s = scan (record { mode = begin_value; stack = [] }) text in ends s.mode s.stack
