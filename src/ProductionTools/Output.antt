-- ===== src/ProductionTools/Output.antt =====
-- limitedBuffer of internal/productiontools/production_tools.go, which is to keep a part of the output
-- of a command: its own Write, and the ReadFrom that it has from its bytes.Buffer. A byte is a number,
-- and an output is its pieces in order. os/exec copies a command's output with io.Copy, which calls
-- ReadFrom where the destination has it.
pub mod Captured
use blender_shot_preview.Prelude.{
  ℕ, ◌+◌, ◌-◌, Bool, List, [], ◌∷◌, ◌++◌, ltb, if◌then◌else◌, length, take,
}

-- `bytes` is the embedded bytes.Buffer.
pub record LimitedBuffer : Type 0 where
  pub bytes : List ℕ
  pub remaining : ℕ

abbrev pub new_buffer : ℕ → LimitedBuffer
new_buffer limit = record { bytes = []; remaining = limit }

-- The number of bytes that are kept of a piece.
unfoldable pub kept : ℕ → List ℕ → ℕ
kept remaining p = if ltb remaining (length p) then remaining else length p

unfoldable pub keep : List ℕ → LimitedBuffer → LimitedBuffer
keep p b =
    if ltb 0 b.remaining
    then record b {
      bytes = b.bytes ++ take (kept b.remaining p) p;
      remaining = b.remaining - kept b.remaining p;
    }
    else b

-- Write returns the number of bytes that it takes, and no error.
abbrev pub write : List ℕ → LimitedBuffer → ℕ × LimitedBuffer
write p b = (length p, keep p b)

-- The writes of a run of a command, with the numbers that they return.
abbrev pub write_all : List (List ℕ) → LimitedBuffer → List ℕ × LimitedBuffer
write_all [] b = ([], b)
write_all (p ∷ ps) b = let (n, b') = write p b in let (ns, last) = write_all ps b' in (n ∷ ns, last)

-- ReadFrom, promoted from the embedded bytes.Buffer: it appends the pieces of a reader to its end, and
-- returns their length.
abbrev pub read_from : List (List ℕ) → LimitedBuffer → ℕ × LimitedBuffer
read_from [] b = (0, b)
read_from (p ∷ ps) b =
    let (n, last) = read_from ps (record b { bytes = b.bytes ++ p }) in (length p + n, last)
