-- ===== src/Pipeline/FanOut/Progress.antt =====
-- The steps that are left of the asset fan-out of internal/service/pipeline/asset_fanout.go.
use blender_shot_preview.Prelude.{
  ℕ, ◌+◌, ◌-◌, ◌*◌, ◌<◌, ◌≤◌, Bool, true, false, ◌||◌, List, [], ◌∷◌, ◌≡◌, ◌⊎◌, inl, inr, refl, sym,
  ap, ◌∙◌, subst, Result, ok, err, String, ltb, leb, length, arith, Bool-cases,
}
use blender_shot_preview.Pipeline.Task.{Failure}
use blender_shot_preview.Pipeline.FanOut.{
  FanOut, has, remove, completed, Step, Reaches, begins, then_step, hands, completes, closes,
}

abbrev open_steps : Bool → ℕ
open_steps true = 0
open_steps false = 1

-- A bound of the steps that are left.
abbrev pub remaining : ℕ → FanOut → ℕ
remaining total s = 2 * (total - s.next) + length s.busy + open_steps s.closed

length-remove-le : (i : ℕ) (js : List ℕ) → length (remove i js) ≤ length js
unfolding remove
length-remove-le i [] = omega arith
length-remove-le i (j ∷ js) = ground (arith, length-remove-le i js)

length-remove-lt : (i : ℕ) (js : List ℕ) → has i js ≡ true → length (remove i js) < length js
unfolding remove has
length-remove-lt i [] h = cc
length-remove-lt i (j ∷ js) h = ground (arith, length-remove-le i js, length-remove-lt i js)

-- Each step of the dispatch or of a worker lowers the bound of the steps that are left, so that no
-- run goes on without end, whatever the invocations answer.
pub step-remaining :
    (invoke : ℕ → Result Failure String) (total : ℕ) (s s' : FanOut)
    → Step invoke total s s'
    → remaining total s' < remaining total s
step-remaining invoke total s s' (hands opened waits more) = ground (arith, more)
step-remaining invoke total s s' (completes i busy) = go (invoke i)
  where
    go : (r : Result Failure String) → remaining total (completed i r s) < remaining total s
    go (ok output) = omega (arith, length-remove-lt i s.busy busy)
    go (err e) = omega (arith, length-remove-lt i s.busy busy)
step-remaining invoke total s s' (closes opened over) =
    subst
      (λ b.
        2 * (total - s.next) + length s.busy + 0
        < 2 * (total - s.next) + length s.busy + open_steps b)
      (sym opened) (omega arith)

-- Until a worker has failed, one waits or is at work.
some_alive :
    (invoke : ℕ → Result Failure String) (total parallel : ℕ) (s : FanOut)
    → 0 < parallel
    → Reaches invoke total parallel s
    → s.cancelled ≡ false
    → 0 < s.idle + length s.busy
some_alive invoke total parallel s many begins on = omega (arith, many)
some_alive invoke total parallel s many (then_step before (hands opened waits more)) on =
    omega arith
some_alive invoke total parallel s many (then_step {s = t} before (completes i busy)) on =
    go (invoke i) on
  where
    go :
        (r : Result Failure String)
        → (completed i r t).cancelled ≡ false
        → 0 < (completed i r t).idle + length (completed i r t).busy
    go (ok output) still = omega arith
    go (err e) still = cc
some_alive invoke total parallel s many (then_step {s = t} before (closes opened over)) on =
    some_alive invoke total parallel t many before on

has-here : (i : ℕ) (js : List ℕ) → has i (i ∷ js) ≡ true
unfolding has
has-here i js = ground arith

all_wait : (idle : ℕ) (busy : List ℕ) → busy ≡ [] → 0 < idle + length busy → ltb 0 idle ≡ true
all_wait idle [] none_busy alive = ground (arith, alive)
all_wait idle (j ∷ js) none_busy alive = cc

-- With a worker or more, a fan-out that has not ended, its dispatch over and no worker at work, can
-- take a step: the workers and the loop of dispatch never wait for each other for good.
pub Step-possible :
    (invoke : ℕ → Result Failure String) (total parallel : ℕ) (s : FanOut)
    → 0 < parallel
    → Reaches invoke total parallel s
    → ((s.closed ≡ true) × (s.busy ≡ [])) ⊎ ((s' : FanOut) × Step invoke total s s')
Step-possible invoke total parallel s many reached =
    go s.busy refl (Bool-cases s.closed) (Bool-cases (leb total s.next || s.cancelled))
  where
    go :
        (js : List ℕ)
        → s.busy ≡ js
        → (s.closed ≡ true) ⊎ (s.closed ≡ false)
        → ((leb total s.next || s.cancelled) ≡ true) ⊎ ((leb total s.next || s.cancelled) ≡ false)
        → ((s.closed ≡ true) × (s.busy ≡ [])) ⊎ ((s' : FanOut) × Step invoke total s s')
    go (i ∷ js) e closed over = inr (_, completes i (ap (has i) e ∙ has-here i js))
    go [] e (inl closed) over = inl (closed, e)
    go [] e (inr opened) (inl over) = inr (_, closes opened over)
    go [] e (inr opened) (inr more) = inr (_, hands opened waits (ground (arith, more)))
      where
        on : s.cancelled ≡ false
        on = ground (arith, more)

        waits : ltb 0 s.idle ≡ true
        waits = all_wait s.idle s.busy e (some_alive invoke total parallel s many reached on)
