-- ===== src/Service/AssetStore/Paging.antt =====
-- The pages of InMemoryAssetStore.List.
use blender_shot_preview.Prelude.{
  ℕ, zero, suc, ◌+◌, ◌-◌, ◌*◌, ◌≤◌, List, [], ◌∷◌, ◌++◌, ◌≡◌, refl, sym, ap, ◌∙◌, inl, inr, leb,
  if◌then◌else◌, length, take, drop, Bool-cases, arith,
}
use blender_shot_preview.Service.AssetStore.{page, slice}

module _ {ℓ} {A : Type ℓ} where
  -- The first pages, one after the other.
  abbrev pub pages : ℕ → ℕ → List A → List A
  pages zero size xs = []
  pages (suc n) size xs = pages n size xs ++ page (suc n) size xs

  take_all : (n : ℕ) (xs : List A) → length xs ≤ n → take n xs ≡ xs
  take_all zero [] h = refl
  take_all zero (x ∷ xs) h = absurd (omega (arith, h))
  take_all (suc n) [] h = refl
  take_all (suc n) (x ∷ xs) h = ap (λ q. x ∷ q) (take_all n xs (omega (arith, h)))

  drop_all : (n : ℕ) (xs : List A) → length xs ≤ n → drop n xs ≡ []
  drop_all zero [] h = refl
  drop_all zero (x ∷ xs) h = absurd (omega (arith, h))
  drop_all (suc n) [] h = refl
  drop_all (suc n) (x ∷ xs) h = drop_all n xs (omega (arith, h))

  length-drop : (n : ℕ) (xs : List A) → length (drop n xs) ≡ length xs - n
  length-drop zero xs = omega arith
  length-drop (suc n) [] = omega arith
  length-drop (suc n) (x ∷ xs) = length-drop n xs ∙ omega arith

  take-nil : (n : ℕ) → take {A = A} n [] ≡ []
  take-nil zero = refl
  take-nil (suc n) = refl

  take-drop : (a b : ℕ) (xs : List A) → take a xs ++ take b (drop a xs) ≡ take (a + b) xs
  take-drop zero b xs = ap (λ n. take n xs) (omega arith)
  take-drop (suc a) b [] = take-nil b ∙ sym (take-nil (suc a + b))
  take-drop (suc a) b (x ∷ xs) =
      let e : suc a + b ≡ suc (a + b) = omega arith in
      ap (λ q. x ∷ q) (take-drop a b xs) ∙ ap (λ n. take n (x ∷ xs)) (sym e)

  abbrev page_from : ℕ → ℕ → List A → List A
  page_from start size xs =
      if leb (length xs) start
      then []
      else if leb (start + size) (length xs)
      then slice xs start (start + size)
      else slice xs start (length xs)

  slice_take : (start size : ℕ) (xs : List A) → page_from start size xs ≡ take size (drop start xs)
  slice_take start size xs = elim (Bool-cases (leb (length xs) start)) [
    | inl past ↦
        rw (past) (sym (take-nil size) ∙ ap (take size) (sym (drop_all start xs (ground arith))))
    | inr within ↦ elim (Bool-cases (leb (start + size) (length xs))) [
      | inl full ↦
          let e : start + size - start ≡ size = omega arith in
          rw (within, full) (ap (λ n. take n (drop start xs)) e)
      | inr last ↦
          let len = length-drop start xs in
          let all : length (drop start xs) ≤ length xs - start = omega (arith, len) in
          let enough : length (drop start xs) ≤ size = ground (arith, len) in
          rw (within, last)
            (take_all (length xs - start) (drop start xs) all
              ∙ sym (take_all size (drop start xs) enough))
    ]
  ]

  page-take : (n size : ℕ) (xs : List A) → page (suc n) size xs ≡ take size (drop (n * size) xs)
  unfolding page
  page-take n size xs =
      let e : suc n - 1 ≡ n = omega arith in
      ap (λ k. page_from (k * size) size xs) e ∙ slice_take (n * size) size xs

  pages-take : (n size : ℕ) (xs : List A) → pages n size xs ≡ take (n * size) xs
  pages-take zero size xs = let e : 0 ≡ 0 * size = omega arith in ap (λ k. take k xs) e
  pages-take (suc n) size xs =
      let e : n * size + size ≡ suc n * size = omega arith in
      ap (λ q. q ++ page (suc n) size xs) (pages-take n size xs)
      ∙ ap (λ q. take (n * size) xs ++ q) (page-take n size xs)
      ∙ take-drop (n * size) size xs
      ∙ ap (λ k. take k xs) e

  -- The pages of List of one size, for one order of the assets: the first of them make up the items
  -- found, each once and in their order, as soon as they have room for all.
  pub pages_cover : (n size : ℕ) (xs : List A) → length xs ≤ n * size → pages n size xs ≡ xs
  pages_cover n size xs h = pages-take n size xs ∙ take_all (n * size) xs h
