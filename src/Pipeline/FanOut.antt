-- ===== src/Pipeline/FanOut.antt =====
-- internal/service/pipeline/asset_fanout.go: AssetFanOutStep, past the decoding of the plan. Its
-- goroutines are workers that take the numbers of the assets from one channel; a run is a sequence
-- of what they do, in any order. What an invocation answers is a parameter, for each asset, and the
-- caller's context is not cancelled meanwhile.
pub mod Ends
pub mod Progress
pub mod Nodes
use blender_shot_preview.Prelude.{
  ℕ, zero, suc, ◌-◌, Bool, true, false, not, ◌&&◌, ◌||◌, Option, none, some, List, [], ◌∷◌, ◌≡◌,
  Result, ok, err, ltb, leb, eqb, if◌then◌else◌, String,
}
use blender_shot_preview.Pipeline.Task.{Failure}

-- `next` is the index of the loop of dispatch, `idle` the number of workers that wait for an index,
-- `busy` has the indices in work, and `error` is what errCh holds.
pub record FanOut : Type 0 where
  pub next : ℕ
  pub idle : ℕ
  pub busy : List ℕ
  pub manifests : ℕ → Option String
  pub error : Option Failure
  pub cancelled : Bool
  pub closed : Bool

-- The number of workers: MaxParallel where it is from 1 to the number of assets, given as 0 where it
-- is negative.
unfoldable pub workers : ℕ → ℕ → ℕ
workers max_parallel total =
    if eqb max_parallel 0 || ltb total max_parallel then total else max_parallel

abbrev pub begun : ℕ → FanOut
begun parallel = record {
  next = 0;
  idle = parallel;
  busy = [];
  manifests = λ i. none;
  error = none;
  cancelled = false;
  closed = false;
}

unfoldable pub has : ℕ → List ℕ → Bool
has i [] = false
has i (j ∷ js) = eqb j i || has i js

unfoldable pub remove : ℕ → List ℕ → List ℕ
remove i [] = []
remove i (j ∷ js) = let rest = remove i js in if eqb j i then rest else j ∷ rest

-- `work <- index`, which a worker receives
abbrev pub handed : FanOut → FanOut
handed s = record s { next = suc s.next; idle = s.idle - 1; busy = s.next ∷ s.busy }

abbrev pub first_error : Failure → Option Failure → Option Failure
first_error e none = some e
first_error e (some earlier) = some earlier

-- The end of a worker's turn: it stores its output and waits again, or reports its error and ends.
abbrev pub completed : ℕ → Result Failure String → FanOut → FanOut
completed i (ok output) s = record s {
  idle = suc s.idle;
  busy = remove i s.busy;
  manifests = λ j. if eqb i j then some output else s.manifests j;
}
completed i (err e) s = record s {
  busy = remove i s.busy;
  error = first_error e s.error;
  cancelled = true;
}

-- A step of the loop of dispatch or of a worker. The loop ends past the last index, or once the context
-- is cancelled, when it may also still hand out an index.
pub data Step (invoke : ℕ → Result Failure String) (total : ℕ) : FanOut → FanOut → Type 0 where
  hands :
      {s : FanOut}
      → s.closed ≡ false
      → ltb 0 s.idle ≡ true
      → ltb s.next total ≡ true
      → Step invoke total s (handed s)
  completes :
      {s : FanOut} (i : ℕ) → has i s.busy ≡ true → Step invoke total s (completed i (invoke i) s)
  closes :
      {s : FanOut}
      → s.closed ≡ false
      → (leb total s.next || s.cancelled) ≡ true
      → Step invoke total s (record s { closed = true })

-- What steps lead to from the start.
pub data Reaches (invoke : ℕ → Result Failure String) (total parallel : ℕ) : FanOut → Type 0 where
  begins : Reaches invoke total parallel (begun parallel)
  then_step :
      {s s' : FanOut}
      → Reaches invoke total parallel s
      → Step invoke total s s'
      → Reaches invoke total parallel s'

-- The values at `count` indices from the first.
abbrev pub collected : {A : Type 0} → ℕ → ℕ → (ℕ → A) → List A
collected first zero f = []
collected first (suc count) f = f first ∷ collected (suc first) count f

abbrev pub answer_of :
    ℕ → (ℕ → Option String) → Option Failure → Result Failure (List (Option String))
answer_of total manifests none = ok (collected 0 total manifests)
answer_of total manifests (some e) = err e

-- What InvokeStep returns once the workers have ended. A manifest that is not there is nil.
abbrev pub answer : ℕ → FanOut → Result Failure (List (Option String))
answer total s = answer_of total s.manifests s.error
