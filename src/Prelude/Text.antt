-- ===== src/Prelude/Text.antt =====
-- What the program takes from Go's strings and strconv packages. A text is a list of code points;
-- byte sequences that are no UTF-8 are not modelled.
pub mod Trim
use Prim.Native.Nat.{ℕ, zero, suc, ◌/◌, ◌%◌}
use Prim.Native.Char.{Char, code}
use Prim.Native.String.{String, [], ◌∷◌, ◌++◌}
use mathlib.Core.Bool.{Bool, true, false, ◌&&◌, ◌||◌}
use blender_shot_preview.Prelude.Tests.{ltb, leb, eqb, ◌==◌, if◌then◌else◌}

-- One decimal digit.
unfoldable pub digit : ℕ → String
digit n =
    if eqb n 0
    then "0"
    else if eqb n 1
    then "1"
    else if eqb n 2
    then "2"
    else if eqb n 3
    then "3"
    else if eqb n 4
    then "4"
    else if eqb n 5
    then "5"
    else if eqb n 6
    then "6"
    else if eqb n 7
    then "7"
    else if eqb n 8
    then "8"
    else "9"

-- The digits of a number, on fuel; each division by ten uses one.
digits_on : ℕ → ℕ → String
digits_on zero n = ""
digits_on (suc fuel) n =
    let more = digits_on fuel (n / 10) in if ltb n 10 then digit n else more ++ digit (n % 10)

-- `%d` of a number that is not negative
unfoldable pub decimal : ℕ → String
unfolding digits_on digit
decimal n = digits_on (suc n) n

-- unicode.IsSpace
unfoldable pub is_space : ℕ → Bool
is_space c =
    (leb 9 c && leb c 13)
    || eqb c 32
    || eqb c 0x85
    || eqb c 0xa0
    || eqb c 0x1680
    || (leb 0x2000 c && leb c 0x200a)
    || eqb c 0x2028
    || eqb c 0x2029
    || eqb c 0x202f
    || eqb c 0x205f
    || eqb c 0x3000

unfoldable pub trim_left : String → String
trim_left [] = []
trim_left (c ∷ s) = let rest = trim_left s in if is_space (code c) then rest else c ∷ s

is_empty : String → Bool
is_empty [] = true
is_empty (c ∷ s) = false

unfoldable pub trim_right : String → String
unfolding is_empty
trim_right [] = []
trim_right (c ∷ s) =
    let rest = trim_right s in if is_space (code c) && is_empty rest then [] else c ∷ rest

-- strings.TrimSpace
unfoldable pub trim_space : String → String
unfolding trim_left trim_right is_space
trim_space s = trim_right (trim_left s)

-- `strings.TrimRight(s, "/")`
unfoldable pub trim_slashes : String → String
unfolding is_empty
trim_slashes [] = []
trim_slashes (c ∷ s) =
    let rest = trim_slashes s in if eqb (code c) b'/' && is_empty rest then [] else c ∷ rest

-- `strings.TrimSpace(s) == ""`
abbrev pub is_blank : String → Bool
is_blank s = trim_space s == ""

-- One hexadecimal digit, as strconv and encoding/hex write it.
unfoldable pub hex_digit : ℕ → String
hex_digit n =
    if eqb n 10
    then "a"
    else if eqb n 11
    then "b"
    else if eqb n 12
    then "c"
    else if eqb n 13
    then "d"
    else if eqb n 14
    then "e"
    else if eqb n 15
    then "f"
    else digit n

-- A character as strconv.Quote writes it; one beyond ASCII is taken to be printable.
quote_char : Char → String
unfolding hex_digit
quote_char c =
    let n = code c in
    if eqb n b'"'
    then "\\\""
    else if eqb n b'\\'
    then "\\\\"
    else if eqb n 7
    then "\\a"
    else if eqb n 8
    then "\\b"
    else if eqb n 12
    then "\\f"
    else if eqb n 10
    then "\\n"
    else if eqb n 13
    then "\\r"
    else if eqb n 9
    then "\\t"
    else if eqb n 11
    then "\\v"
    else if ltb n 32 || eqb n 127
    then "\\x" ++ hex_digit (n / 16) ++ hex_digit (n % 16)
    else c ∷ []

quote_all : String → String
unfolding quote_char
quote_all [] = []
quote_all (c ∷ s) = quote_char c ++ quote_all s

-- `%q` of a text
unfoldable pub quote : String → String
unfolding quote_all
quote s = "\"" ++ quote_all s ++ "\""

-- strings.HasPrefix
abbrev pub has_prefix : String → String → Bool
has_prefix s [] = true
has_prefix [] (c ∷ p) = false
has_prefix (d ∷ s) (c ∷ p) = eqb (code d) (code c) && has_prefix s p

-- strings.Contains
abbrev pub includes : String → String → Bool
includes [] p = has_prefix [] p
includes (d ∷ s) p = has_prefix (d ∷ s) p || includes s p
