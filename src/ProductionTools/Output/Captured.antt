-- ===== src/ProductionTools/Output/Captured.antt =====
-- What limitedBuffer holds after the writes of a command.
use mathlib.Core.List.{append-nil, append_assoc}
use blender_shot_preview.Prelude.{
  ℕ, zero, suc, ◌+◌, ◌-◌, ◌≤◌, true, false, List, [], ◌∷◌, ◌++◌, ◌≡◌, ◌⊎◌, inl, inr, refl, sym, ap,
  ◌∙◌, ltb, if◌then◌else◌, length, length-append, take, map, arith, Bool-cases,
}
use blender_shot_preview.ProductionTools.Output.{
  LimitedBuffer, new_buffer, read_from, kept, keep, write_all,
}

-- The whole output of the pieces.
abbrev pub joined : List (List ℕ) → List ℕ
joined [] = []
joined (p ∷ ps) = p ++ joined ps

take_all : (n : ℕ) (xs : List ℕ) → length xs ≤ n → take n xs ≡ xs
take_all zero [] h = refl
take_all zero (x ∷ xs) h = absurd (omega (arith, h))
take_all (suc n) [] h = refl
take_all (suc n) (x ∷ xs) h = ap (λ ys. x ∷ ys) (take_all n xs (omega (arith, h)))

take-append : (n : ℕ) (xs ys : List ℕ) → take n (xs ++ ys) ≡ take n xs ++ take (n - length xs) ys
take-append zero xs ys =
    let none_left : 0 ≡ 0 - length xs = omega arith in ap (λ k. take k ys) none_left ∙ nothing xs
  where
    nothing : (xs : List ℕ) → take (0 - length xs) ys ≡ take 0 xs ++ take (0 - length xs) ys
    nothing [] = refl
    nothing (x ∷ xs) = refl
take-append (suc n) [] ys = let same : suc n ≡ suc n - 0 = omega arith in ap (λ k. take k ys) same
take-append (suc n) (x ∷ xs) ys =
    let same : n - length xs ≡ suc n - suc (length xs) = omega arith in
    ap (λ zs. x ∷ zs) (take-append n xs ys) ∙ ap (λ k. x ∷ (take n xs ++ take k ys)) same

take-kept : (n : ℕ) (p : List ℕ) → take (kept n p) p ≡ take n p
unfolding kept
take-kept n p = go (Bool-cases (ltb n (length p)))
  where
    go :
        (ltb n (length p) ≡ true) ⊎ (ltb n (length p) ≡ false)
        → take (if ltb n (length p) then n else length p) p ≡ take n p
    go (inl short) = ap (λ b. take (if b then n else length p) p) short
    go (inr long) =
        ap (λ b. take (if b then n else length p) p) long
        ∙ take_all (length p) p (omega arith)
        ∙ sym (take_all n p (ground (arith, long)))

keep-bytes : (p : List ℕ) (b : LimitedBuffer) → (keep p b).bytes ≡ b.bytes ++ take b.remaining p
unfolding keep
keep-bytes p b = go b.remaining
  where
    go :
        (n : ℕ)
        → (if ltb 0 n
            then record b { bytes = b.bytes ++ take (kept n p) p; remaining = n - kept n p }
            else b).bytes
          ≡ b.bytes ++ take n p
    go zero = sym (append-nil b.bytes)
    go (suc n) =
        let some_left : ltb 0 (suc n) ≡ true = ground arith in
        ap
          (λ more.
            (if more
              then record b {
                bytes = b.bytes ++ take (kept (suc n) p) p;
                remaining = suc n - kept (suc n) p;
              }
              else b).bytes)
          some_left
        ∙ ap (λ xs. b.bytes ++ xs) (take-kept (suc n) p)

keep-remaining : (p : List ℕ) (b : LimitedBuffer) → (keep p b).remaining ≡ b.remaining - length p
unfolding keep kept
keep-remaining p b = ground arith

write_all-bytes :
    (ps : List (List ℕ)) (b : LimitedBuffer)
    → (write_all ps b).1.bytes ≡ b.bytes ++ take b.remaining (joined ps)
write_all-bytes [] b = sym (append-nil b.bytes) ∙ ap (λ xs. b.bytes ++ xs) (nothing b.remaining)
  where
    nothing : (n : ℕ) → [] ≡ take n (joined [])
    nothing zero = refl
    nothing (suc n) = refl
write_all-bytes (p ∷ ps) b =
    write_all-bytes ps (keep p b)
    ∙ ap (λ n. (keep p b).bytes ++ take n (joined ps)) (keep-remaining p b)
    ∙ ap (λ xs. xs ++ take (b.remaining - length p) (joined ps)) (keep-bytes p b)
    ∙ append_assoc b.bytes (take b.remaining p) (take (b.remaining - length p) (joined ps))
    ∙ ap (λ xs. b.bytes ++ xs) (sym (take-append b.remaining p (joined ps)))

write_all-counts : (ps : List (List ℕ)) (b : LimitedBuffer) → (write_all ps b).0 ≡ map length ps
write_all-counts [] b = refl
write_all-counts (p ∷ ps) b = ap (λ ns. length p ∷ ns) (write_all-counts ps (keep p b))

read_from-bytes :
    (ps : List (List ℕ)) (b : LimitedBuffer) → (read_from ps b).1.bytes ≡ b.bytes ++ joined ps
read_from-bytes [] b = sym (append-nil b.bytes)
read_from-bytes (p ∷ ps) b =
    read_from-bytes ps (record b { bytes = b.bytes ++ p }) ∙ append_assoc b.bytes p (joined ps)

read_from-count : (ps : List (List ℕ)) (b : LimitedBuffer) → (read_from ps b).0 ≡ length (joined ps)
read_from-count [] b = refl
read_from-count (p ∷ ps) b =
    ap (λ n. length p + n) (read_from-count ps (record b { bytes = b.bytes ++ p }))
    ∙ sym (length-append p (joined ps))

-- Output that comes through Write is cut: however it is cut into pieces, the buffer holds the first
-- `limit` bytes of it, all of it where it is no longer than that, and every write claims to have
-- taken its whole piece. Output that comes through ReadFrom is not: whatever the limit, the buffer
-- holds all of it.
pub write_all-lem :
    (limit : ℕ) (ps : List (List ℕ))
    → ((write_all ps (new_buffer limit)).1.bytes ≡ take limit (joined ps))
      × ((write_all ps (new_buffer limit)).0 ≡ map length ps)
      × ((read_from ps (new_buffer limit)).1.bytes ≡ joined ps)
      × ((read_from ps (new_buffer limit)).0 ≡ length (joined ps))
write_all-lem limit ps = (
  write_all-bytes ps (new_buffer limit),
  write_all-counts ps (new_buffer limit),
  read_from-bytes ps (new_buffer limit),
  read_from-count ps (new_buffer limit),
)
