-- ===== src/Pipeline/FanOut/Ends.antt =====
-- What the fan-out returns, in whatever order its workers do their work.
use mathlib.Core.Option.{some-injective}
use blender_shot_preview.Prelude.{
  ℕ, zero, suc, ◌+◌, ◌<◌, ◌≤◌, true, false, ◌||◌, Option, none, some, List, [], ◌∷◌, ◌≡◌, ◌⊎◌, inl,
  inr, refl, sym, ap, subst, ◌∙◌, Result, ok, err, ltb, leb, eqb, if◌then◌else◌, String, arith,
  Bool-cases, Option-cases,
}
use blender_shot_preview.Pipeline.Task.{Failure}
use blender_shot_preview.Pipeline.FanOut.{
  FanOut, has, remove, handed, first_error, completed, Reaches, then_step, begins, hands, completes,
  closes, collected, answer, answer_of,
}

-- The output of an invocation that succeeds.
abbrev pub output_of : Result Failure String → Option String
output_of (ok output) = some output
output_of (err e) = none

-- What holds after every step.
record IsConsistent (invoke : ℕ → Result Failure String) (total : ℕ) (s : FanOut) : Type 0 where
  pub bounded : s.next ≤ total
  pub working : (i : ℕ) → has i s.busy ≡ true → i < s.next
  pub stored :
      (i : ℕ)
      → i < s.next
      → has i s.busy ≡ false
      → s.error ≡ none
      → (output : String) × (invoke i ≡ ok output) × (s.manifests i ≡ some output)
  pub reported : (e : Failure) → s.error ≡ some e → (i : ℕ) × (i < total) × (invoke i ≡ err e)
  pub stopped : s.cancelled ≡ true → s.error ≡ none → ⊥
  pub ended : s.closed ≡ true → s.error ≡ none → s.next ≡ total

has-remove : (i j : ℕ) (js : List ℕ) → has j (remove i js) ≡ (if eqb i j then false else has j js)
unfolding has remove
has-remove i j [] = ground arith
has-remove i j (k ∷ js) = ground (arith, has-remove i j js)

hands-IsConsistent :
    (invoke : ℕ → Result Failure String) (total : ℕ) (s : FanOut)
    → s.closed ≡ false
    → ltb s.next total ≡ true
    → IsConsistent invoke total s
    → IsConsistent invoke total (handed s)
unfolding has
hands-IsConsistent invoke total s opened more h = record {
  bounded = ground (arith, more);
  working = λ i busy. ground (arith, h.working i, busy);
  stored =
      λ i below free fine. h.stored i (ground (arith, below, free)) (ground (arith, free)) fine;
  reported = h.reported;
  stopped = h.stopped;
  ended = λ closed fine. cc;
}

closes-IsConsistent :
    (invoke : ℕ → Result Failure String) (total : ℕ) (s : FanOut)
    → (leb total s.next || s.cancelled) ≡ true
    → IsConsistent invoke total s
    → IsConsistent invoke total (record s { closed = true })
closes-IsConsistent invoke total s over h = record {
  bounded = h.bounded;
  working = h.working;
  stored = h.stored;
  reported = h.reported;
  stopped = h.stopped;
  ended = λ closed fine. last (Bool-cases s.cancelled) fine;
}
  where
    last : (s.cancelled ≡ true) ⊎ (s.cancelled ≡ false) → s.error ≡ none → s.next ≡ total
    last (inl off) fine = absurd (h.stopped off fine)
    last (inr on) fine = ground (arith, h.bounded, over, on)

still_busy : (i j : ℕ) (js : List ℕ) → has j (remove i js) ≡ true → has j js ≡ true
still_busy i j js busy = ground (arith, has-remove i j js, busy)

was_free :
    (i j : ℕ) (js : List ℕ) → eqb i j ≡ false → has j (remove i js) ≡ false → has j js ≡ false
was_free i j js apart free = ground (arith, has-remove i j js, apart, free)

eqb-eq : (i j : ℕ) → eqb i j ≡ true → i ≡ j
eqb-eq i j e = ground (arith, e)

completes-IsConsistent :
    (invoke : ℕ → Result Failure String) (total : ℕ) (s : FanOut) (i : ℕ)
    (r : Result Failure String)
    → invoke i ≡ r
    → has i s.busy ≡ true
    → IsConsistent invoke total s
    → IsConsistent invoke total (completed i r s)
completes-IsConsistent invoke total s i (ok output) e busy h = record {
  bounded = h.bounded;
  working = λ j b. h.working j (still_busy i j s.busy b);
  stored = λ j below free fine. kept j (Bool-cases (eqb i j)) below free fine;
  reported = h.reported;
  stopped = h.stopped;
  ended = h.ended;
}
  where
    kept :
        (j : ℕ)
        → (eqb i j ≡ true) ⊎ (eqb i j ≡ false)
        → j < s.next
        → has j (remove i s.busy) ≡ false
        → s.error ≡ none
        → (out : String) × (invoke j ≡ ok out)
          × ((if eqb i j then some output else s.manifests j) ≡ some out)
    kept j (inl hit) below free fine = (
      output,
      subst (λ k. invoke k ≡ ok output) (eqb-eq i j hit) e,
      ap (λ b. if b then some output else s.manifests j) hit,
    )
    kept j (inr miss) below free fine =
        let (out, invoked, there) = h.stored j below (was_free i j s.busy miss free) fine in
        (out, invoked, ap (λ b. if b then some output else s.manifests j) miss ∙ there)
completes-IsConsistent invoke total s i (err e) failed busy h = record {
  bounded = h.bounded;
  working = λ j b. h.working j (still_busy i j s.busy b);
  stored = λ j below free fine. absurd (some_first s.error fine);
  reported = first s.error h.reported;
  stopped = λ off fine. some_first s.error fine;
  ended = λ closed fine. absurd (some_first s.error fine);
}
  where
    some_first : (o : Option Failure) → first_error e o ≡ none → ⊥
    some_first none x = cc
    some_first (some f) x = cc

    first :
        (o : Option Failure)
        → ((f : Failure) → o ≡ some f → (k : ℕ) × (k < total) × (invoke k ≡ err f))
        → (f : Failure) → first_error e o ≡ some f
        → (k : ℕ) × (k < total) × (invoke k ≡ err f)
    first none old f x = (
      i,
      (let under = h.working i busy in let most = h.bounded in omega arith),
      failed ∙ ap err (some-injective _ _ x),
    )
    first (some g) old f x = old f x

Reaches-IsConsistent :
    (invoke : ℕ → Result Failure String) (total parallel : ℕ) (s : FanOut)
    → Reaches invoke total parallel s
    → IsConsistent invoke total s
unfolding has
Reaches-IsConsistent invoke total parallel s begins = record {
  bounded = omega arith;
  working = λ i busy. cc;
  stored = λ i below free fine. absurd (omega (arith, below));
  reported = λ e x. cc;
  stopped = λ off fine. cc;
  ended = λ closed fine. cc;
}
Reaches-IsConsistent invoke total parallel s (then_step {s = t} before (hands opened waits more)) =
    hands-IsConsistent invoke total t opened more
      (Reaches-IsConsistent invoke total parallel t before)
Reaches-IsConsistent invoke total parallel s (then_step {s = t} before (completes i busy)) =
    completes-IsConsistent invoke total t i (invoke i) refl busy
      (Reaches-IsConsistent invoke total parallel t before)
Reaches-IsConsistent invoke total parallel s (then_step {s = t} before (closes opened over)) =
    closes-IsConsistent invoke total t over (Reaches-IsConsistent invoke total parallel t before)

collected_same :
    (first count : ℕ) (f g : ℕ → Option String)
    → ((i : ℕ) → i < first + count → first ≤ i → f i ≡ g i)
    → collected first count f ≡ collected first count g
collected_same first zero f g h = refl
collected_same first (suc count) f g h =
    ap (λ x. x ∷ collected (suc first) count f) (h first (omega arith) (omega arith))
    ∙ ap (λ xs. g first ∷ xs)
        (collected_same (suc first) count f g
          (λ i below from. h i (omega (arith, below)) (omega (arith, from))))

-- Once the dispatch has ended and no worker is at work, InvokeStep returns either the error of an
-- invocation that failed, or, where every invocation succeeds, the outputs of all assets in the
-- planner's order, whatever the number of workers and the order in which they took the assets
-- and answered. It is assumed that the caller does not cancel the context.
pub answer-lem :
    (invoke : ℕ → Result Failure String) (total parallel : ℕ) (s : FanOut)
    → Reaches invoke total parallel s
    → s.closed ≡ true
    → s.busy ≡ []
    → ((e : Failure) × (i : ℕ) × (i < total) × (invoke i ≡ err e) × (answer total s ≡ err e))
      ⊎ (((i : ℕ) → i < total → (output : String) × (invoke i ≡ ok output))
          × (answer total s ≡ ok (collected 0 total (λ i. output_of (invoke i)))))
unfolding has
answer-lem invoke total parallel s reached closed none_busy = go (Option-cases s.error)
  where
    h : IsConsistent invoke total s
    h = Reaches-IsConsistent invoke total parallel s reached

    free : (i : ℕ) → has i s.busy ≡ false
    free i = ap (has i) none_busy

    go :
        (s.error ≡ none) ⊎ ((e : Failure) × (s.error ≡ some e))
        → ((e : Failure) × (i : ℕ) × (i < total) × (invoke i ≡ err e) × (answer total s ≡ err e))
          ⊎ (((i : ℕ) → i < total → (output : String) × (invoke i ≡ ok output))
              × (answer total s ≡ ok (collected 0 total (λ i. output_of (invoke i)))))
    go (inr (e, failed)) =
        let (i, below, why) = h.reported e failed in
        inl (e, i, below, why, ap (answer_of total s.manifests) failed)
    go (inl fine) =
        let all : s.next ≡ total = h.ended closed fine in
        let there = λ (i : ℕ) (below : i < total).
          h.stored i (subst (λ n. i < n) (sym all) below) (free i) fine in
        inr (
          (λ i below. let (output, invoked, kept) = there i below in (output, invoked)),
          ap (answer_of total s.manifests) fine
              ∙ ap ok (
                  collected_same 0 total s.manifests (λ i. output_of (invoke i))
                    (λ i below from.
                      let (output, invoked, kept) = there i (omega (arith, below)) in
                      kept ∙ sym (ap output_of invoked))),
        )
