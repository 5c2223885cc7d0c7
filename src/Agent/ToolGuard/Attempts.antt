-- ===== src/Agent/ToolGuard/Attempts.antt =====
-- The attempts of one run of a guarded tool.
use blender_shot_preview.Prelude.{
  ℕ, zero, suc, ◌+◌, ◌≤◌, String, Bool, true, false, ◌≡◌, ◌≢◌, refl, inl, inr, ◌⊎◌, leb, length,
  if◌then◌else◌, Result, ok, err, arith, Bool-cases,
}
use blender_shot_preview.Agent.ToolGuard.{
  Guard, GuardedTool, ToolExecution, Ran, GuardError, CallError, unreachable_retry_state, begin,
  attempts, concluded, begun, informed, retries, should_retry, invokable_run, max_attempts,
  maximum_read_attempts, is_read, calls_of, maximum_calls_per_tool, maximum_consecutive_errors,
}

-- The run of a tool keeps to its attempts, and its last answer is the result.
record IsRun (left : ℕ) (ran : Ran) : Type 0 where
  bounded : length ran.calls ≤ left
  reached : ran.result ≢ err unreachable_retry_state

retries_end :
    (tool : GuardedTool) (attempt : ℕ) (answer : Result CallError String)
    → maximum_read_attempts ≤ attempt
    → retries tool attempt answer ≡ false
unfolding should_retry
retries_end tool attempt (ok text) h = refl
retries_end tool attempt (err e) h = ground arith

retries_read :
    (tool : GuardedTool) (attempt : ℕ) (answer : Result CallError String)
    → is_read tool.kind ≡ false
    → retries tool attempt answer ≡ false
unfolding should_retry
retries_read tool attempt (ok text) h = refl
retries_read tool attempt (err e) h = rw h refl

concluded-IsRun :
    (guard : Guard) (execution : ToolExecution) (retry : Bool) (rest : Ran)
    (answer : Result CallError String) (left : ℕ)
    → (retry ≡ true → IsRun left rest)
    → IsRun (suc left) (concluded guard execution retry rest answer)
concluded-IsRun guard execution retry rest (ok text) left r = record {
  bounded = omega arith;
  reached = λ e. cc;
}
concluded-IsRun guard execution true rest (err e) left r = record {
  bounded = omega (arith, (r refl).bounded);
  reached = (r refl).reached;
}
concluded-IsRun guard execution false rest (err e) left r = record {
  bounded = omega arith;
  reached = λ u. cc;
}

true_not_false : {A : Type 0} {b : Bool} → b ≡ true → b ≡ false → A
true_not_false t f = absurd (cc (t, f))

still :
    {unread : Type 0} (left attempt : ℕ)
    → unread ⊎ (maximum_read_attempts ≤ suc left + attempt)
    → unread ⊎ (maximum_read_attempts ≤ left + suc attempt)
still left attempt (inl unread) = inl unread
still left attempt (inr enough) = inr (omega (arith, enough))

attempts-IsRun :
    (tool : GuardedTool) (execution : ToolExecution) (guard : Guard) (left attempt : ℕ)
    → (is_read tool.kind ≡ false) ⊎ (maximum_read_attempts ≤ left + attempt)
    → IsRun (suc left) (attempts tool execution guard (suc left) attempt)
unfolding attempts
attempts-IsRun tool execution guard zero attempt (inl unread) =
    let now = record execution { attempt = attempt } in
    concluded-IsRun guard now (retries tool attempt (tool.run now)) _ (tool.run now) zero
      (λ e. true_not_false e (retries_read tool attempt (tool.run now) unread))
attempts-IsRun tool execution guard zero attempt (inr enough) =
    let now = record execution { attempt = attempt } in
    concluded-IsRun guard now (retries tool attempt (tool.run now)) _ (tool.run now) zero
      (λ e. true_not_false e (retries_end tool attempt (tool.run now) (omega (arith, enough))))
attempts-IsRun tool execution guard (suc left) attempt h =
    let now = record execution { attempt = attempt } in
    concluded-IsRun guard now (retries tool attempt (tool.run now)) _ (tool.run now) (suc left)
      (λ e. attempts-IsRun tool execution guard left (suc attempt) (still left attempt h))

begun-IsRun :
    (tool : GuardedTool) (run_id name : String) (q : Result GuardError String × Guard)
    → q.0 ≢ err unreachable_retry_state
    → IsRun (max_attempts tool) (begun tool run_id name q)
unfolding max_attempts
begun-IsRun tool run_id name (err e, guard) h = record { bounded = omega arith; reached = h }
begun-IsRun tool run_id name (ok call_id, guard) h = elim (Bool-cases (is_read tool.kind)) [
  | inl reads ↦ rw reads (attempts-IsRun tool _ guard 2 1 (inr (omega arith)))
  | inr unread ↦ rw unread (attempts-IsRun tool _ guard 0 1 (inl unread))
]

begin-reached : (name : String) (guard : Guard) → (begin name guard).0 ≢ err unreachable_retry_state
unfolding begin
begin-reached name guard = elim (Bool-cases (leb maximum_consecutive_errors guard.failures)) [
  | inl failed ↦ rw failed (λ u. cc)
  | inr unfailed ↦ elim (Bool-cases (leb guard.total_limit guard.total_calls)) [
    | inl full ↦ rw (unfailed, full) (λ u. cc)
    | inr all ↦ elim (Bool-cases (leb maximum_calls_per_tool (calls_of name guard))) [
      | inl repeated ↦ rw (unfailed, all, repeated) (λ u. cc)
      | inr each ↦ rw (unfailed, all, each) (λ u. cc)
    ]
  ]
]

informed-IsRun :
    (tool : GuardedTool) (run_id : String) (guard : Guard) (info : Result CallError String)
    → IsRun (max_attempts tool) (informed tool run_id guard info)
informed-IsRun tool run_id guard (err e) = record { bounded = omega arith; reached = λ u. cc }
informed-IsRun tool run_id guard (ok name) =
    begun-IsRun tool run_id name (begin name guard) (begin-reached name guard)

-- A run calls its tool three times at most when the tool reads, and once at most when it writes or
-- cannot be undone, and the loop of InvokableRun never ends in its "unreachable" error.
pub invokable_run-bounded :
    (tool : GuardedTool) (run_id : String) (guard : Guard)
    → let ran = invokable_run tool run_id guard in
      (length ran.calls ≤ (if is_read tool.kind then 3 else 1))
      × (ran.result ≢ err unreachable_retry_state)
unfolding invokable_run max_attempts
invokable_run-bounded tool run_id guard =
    let r = informed-IsRun tool run_id guard tool.info in (r.bounded, r.reached)
