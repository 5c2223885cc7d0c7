-- ===== src/Prelude/Keys.antt =====
-- Sets and maps keyed by texts: membership in a list of keys, and association lists.
use Prim.Native.Nat.{◌≤◌, ◌<◌}
use Prim.Native.String.{String}
use mathlib.Core.Path.{◌≡◌, refl}
use mathlib.Core.Bool.{Bool, true, false, ◌||◌}
use mathlib.Core.Option.{Option, none, some}
use mathlib.Core.List.{List, [], ◌∷◌, ◌++◌}
use native.Mathlib.Omega.{arith}
use text.Mathlib.TextEquality.{eq_iff}
use blender_shot_preview.Prelude.Tests.{◌==◌, if◌then◌else◌}
use blender_shot_preview.Prelude.Lists.{length, All}

-- A key is among those of the list: `m[k]` for a Go map to bool, or a set.
unfoldable pub contains : String → List String → Bool
contains k [] = false
contains k (j ∷ ks) = (j == k) || contains k ks

-- The keys other than `k`.
unfoldable pub without : String → List String → List String
without k [] = []
without k (j ∷ ks) = let rest = without k ks in if j == k then rest else j ∷ rest

-- A Go map, as the list of its entries.
module _ {ℓ} {V : Type ℓ} where
  -- `delete(m, key)`
  unfoldable pub delete : String → List (String × V) → List (String × V)
  delete key [] = []
  delete key (entry ∷ m) =
      let others = delete key m in if entry.0 == key then others else entry ∷ others

  -- `m[key] = value`, in the entry's place or as a new one
  unfoldable pub insert : String → V → List (String × V) → List (String × V)
  insert key value [] = (key, value) ∷ []
  insert key value (entry ∷ m) =
      let others = insert key value m in if entry.0 == key then (key, value) ∷ m else entry ∷ others

  -- `m[key]`
  unfoldable pub lookup : String → List (String × V) → Option V
  lookup key [] = none
  lookup key (entry ∷ m) =
      let deeper = lookup key m in if entry.0 == key then some entry.1 else deeper

  pub lookup-delete :
      (removed key : String) (m : List (String × V))
      → lookup key (delete removed m) ≡ (if removed == key then none else lookup key m)
  unfolding lookup delete
  lookup-delete removed key [] = ground arith
  lookup-delete removed key (entry ∷ m) = ground (
    arith,
    lookup-delete removed key m,
    eq_iff entry.0 removed,
    eq_iff entry.0 key,
    eq_iff removed key,
  )

  pub lookup-insert :
      (written key : String) (value : V) (m : List (String × V))
      → lookup key (insert written value m) ≡ (if written == key then some value else lookup key m)
  unfolding insert lookup
  lookup-insert written key value [] = refl
  lookup-insert written key value (entry ∷ m) = ground (
    arith,
    lookup-insert written key value m,
    eq_iff entry.0 written,
    eq_iff entry.0 key,
    eq_iff written key,
  )

pub contains-without :
    (k j : String) (ks : List String)
    → contains j (without k ks) ≡ (if k == j then false else contains j ks)
unfolding contains without
contains-without k j [] = ground arith
contains-without k j (i ∷ ks) =
    ground (arith, eq_iff k j, eq_iff i k, eq_iff i j, contains-without k j ks)

pub without_absent : (k : String) (ks : List String) → contains k ks ≡ false → without k ks ≡ ks
unfolding contains without
without_absent k [] h = refl
without_absent k (j ∷ ks) h = ground (arith, without_absent k ks)

length-without-le : (k : String) (ks : List String) → length (without k ks) ≤ length ks
unfolding without
length-without-le k [] = omega arith
length-without-le k (j ∷ ks) = ground (arith, length-without-le k ks)

length-without-lt :
    (k : String) (ks : List String) → contains k ks ≡ true → length (without k ks) < length ks
unfolding contains without
length-without-lt k [] h = cc
length-without-lt k (j ∷ ks) h = ground (arith, length-without-le k ks, length-without-lt k ks)

pub contains-append :
    (k : String) (xs ys : List String) → contains k (xs ++ ys) ≡ (contains k xs || contains k ys)
unfolding contains
contains-append k [] ys = refl
contains-append k (x ∷ xs) ys = ground (arith, contains-append k xs ys)

-- No key stands in the list twice.
abbrev pub Distinct : List String → Type 0
Distinct [] = Unit
Distinct (k ∷ ks) = (contains k ks ≡ false) × Distinct ks

-- Every key of the first list stands in the second.
abbrev pub Within : List String → List String → Type 0
Within xs ys = All (λ x. contains x ys ≡ true) xs

pub Within-at :
    (k : String) (xs ys : List String) → Within xs ys → contains k xs ≡ true → contains k ys ≡ true
unfolding contains
Within-at k [] ys w h = cc
Within-at k (x ∷ xs) ys w h = ground (arith, eq_iff x k, Within-at k xs ys w.1)

Within-without :
    (k : String) (xs ys : List String)
    → contains k xs ≡ false
    → Within xs ys
    → Within xs (without k ys)
unfolding contains
Within-without k [] ys h w = tt
Within-without k (x ∷ xs) ys h w = (
  ground (arith, contains-without k x ys, eq_iff x k, eq_iff k x),
  Within-without k xs ys (ground arith) w.1,
)

-- The pigeonhole principle.
pub Distinct-fits : (xs ys : List String) → Distinct xs → Within xs ys → length xs ≤ length ys
Distinct-fits [] ys d w = omega arith
Distinct-fits (x ∷ xs) ys d w = omega (
  arith,
  length-without-lt x ys w.0,
  Distinct-fits xs (without x ys) d.1 (Within-without x xs ys d.0 w.1),
)
