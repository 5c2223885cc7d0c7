-- ===== src/Agent/ToolGuard/Limits.antt =====
-- The limits of the tool guard: what begin refuses, and what holds of a guard through any runs.
use blender_shot_preview.Prelude.{
  ℕ, zero, suc, ◌≤◌, String, Bool, true, false, List, [], ◌∷◌, ◌≡◌, refl, inl, inr, ◌==◌,
  if◌then◌else◌, leb, Result, ok, err, lookup, lookup-insert, arith, Bool-cases, ap,
}
use blender_shot_preview.Agent.ToolGuard.{
  Guard, GuardedTool, ToolExecution, Ran, GuardError, CallError, new_guard, calls_of, begin, finish,
  attempts, counted, concluded, begun, informed, retries, invokable_run, or_none,
  maximum_calls_per_tool, maximum_consecutive_errors,
}

-- A guard within its limits: no more calls than the total limit, four at most of each tool, and
-- the numbers that make the identifiers of the calls are those of the calls.
pub record IsWithin (guard : Guard) : Type 0 where
  pub in_all : guard.total_calls ≤ guard.total_limit
  pub of_each : (name : String) → calls_of name guard ≤ maximum_calls_per_tool
  pub numbered : guard.next_call ≡ guard.total_calls

new_guard-IsWithin : (limit : ℕ) → IsWithin (new_guard limit)
unfolding new_guard calls_of lookup
new_guard-IsWithin limit = record {
  in_all = omega arith;
  of_each = λ name. omega arith;
  numbered = refl;
}

calls_of-counted :
    (name other : String) (guard : Guard)
    → calls_of other (counted name guard)
      ≡ (if name == other then suc (calls_of name guard) else calls_of other guard)
unfolding calls_of
calls_of-counted name other guard =
    rw
      (lookup-insert name other (suc (or_none (lookup name guard.calls_by_tool)))
        guard.calls_by_tool)
      ground arith

counted-IsWithin :
    (name : String) (guard : Guard)
    → IsWithin guard
    → leb guard.total_limit guard.total_calls ≡ false
    → leb maximum_calls_per_tool (calls_of name guard) ≡ false
    → IsWithin (counted name guard)
counted-IsWithin name guard w all each = record {
  in_all = ground arith;
  of_each = λ other. rw (calls_of-counted name other guard) (ground (arith, w.of_each other));
  numbered = ap suc w.numbered;
}

pub begin-IsWithin :
    (name : String) (guard : Guard) → IsWithin guard → IsWithin (begin name guard).1
unfolding begin
begin-IsWithin name guard w = elim (Bool-cases (leb maximum_consecutive_errors guard.failures)) [
  | inl failed ↦ rw failed w
  | inr unfailed ↦ elim (Bool-cases (leb guard.total_limit guard.total_calls)) [
    | inl full ↦ rw (unfailed, full) w
    | inr all ↦ elim (Bool-cases (leb maximum_calls_per_tool (calls_of name guard))) [
      | inl repeated ↦ rw (unfailed, all, repeated) w
      | inr each ↦ rw (unfailed, all, each) (counted-IsWithin name guard w all each)
    ]
  ]
]

pub finish-IsWithin :
    (success : Bool) (guard : Guard) → IsWithin guard → IsWithin (finish success guard)
unfolding finish calls_of
finish-IsWithin true guard w = record {
  in_all = w.in_all;
  of_each = w.of_each;
  numbered = w.numbered;
}
finish-IsWithin false guard w = record {
  in_all = w.in_all;
  of_each = w.of_each;
  numbered = w.numbered;
}

concluded-IsWithin :
    (guard : Guard) (execution : ToolExecution) (retry : Bool) (rest : Ran)
    (answer : Result CallError String)
    → IsWithin guard
    → IsWithin rest.guard
    → IsWithin (concluded guard execution retry rest answer).guard
concluded-IsWithin guard execution retry rest (ok text) w r = finish-IsWithin true guard w
concluded-IsWithin guard execution true rest (err e) w r = r
concluded-IsWithin guard execution false rest (err e) w r = finish-IsWithin false guard w

attempts-IsWithin :
    (tool : GuardedTool) (execution : ToolExecution) (guard : Guard) (left attempt : ℕ)
    → IsWithin guard
    → IsWithin (attempts tool execution guard left attempt).guard
unfolding attempts
attempts-IsWithin tool execution guard zero attempt w = finish-IsWithin false guard w
attempts-IsWithin tool execution guard (suc left) attempt w =
    let now = record execution { attempt = attempt } in
    concluded-IsWithin guard now (retries tool attempt (tool.run now)) _ (tool.run now) w
      (attempts-IsWithin tool execution guard left (suc attempt) w)

begun-IsWithin :
    (tool : GuardedTool) (run_id name : String) (q : Result GuardError String × Guard)
    → IsWithin q.1
    → IsWithin (begun tool run_id name q).guard
begun-IsWithin tool run_id name (err e, guard) w = w
begun-IsWithin tool run_id name (ok call_id, guard) w = attempts-IsWithin tool _ guard _ _ w

informed-IsWithin :
    (tool : GuardedTool) (run_id : String) (guard : Guard) (info : Result CallError String)
    → IsWithin guard
    → IsWithin (informed tool run_id guard info).guard
informed-IsWithin tool run_id guard (err e) w = w
informed-IsWithin tool run_id guard (ok name) w =
    begun-IsWithin tool run_id name (begin name guard) (begin-IsWithin name guard w)

-- The runs of an agent, one after the other, behind one guard.
abbrev pub run_each : String → List GuardedTool → Guard → Guard
run_each run_id [] guard = guard
run_each run_id (tool ∷ tools) guard = run_each run_id tools (invokable_run tool run_id guard).guard

invokable_run-IsWithin :
    (tool : GuardedTool) (run_id : String) (guard : Guard)
    → IsWithin guard
    → IsWithin (invokable_run tool run_id guard).guard
unfolding invokable_run
invokable_run-IsWithin tool run_id guard w = informed-IsWithin tool run_id guard tool.info w

run_each_from :
    (run_id : String) (tools : List GuardedTool) (guard : Guard)
    → IsWithin guard
    → IsWithin (run_each run_id tools guard)
run_each_from run_id [] guard w = w
run_each_from run_id (tool ∷ tools) guard w =
    run_each_from run_id tools _ (invokable_run-IsWithin tool run_id guard w)

-- Behind a new guard, whatever tools an agent runs in whatever order and whatever they answer, the
-- calls counted are never more than the total limit, nor more than four of one tool, and the number
-- in the identifier of the last call is the number of calls.
pub run_each-IsWithin :
    (run_id : String) (limit : ℕ) (tools : List GuardedTool)
    → IsWithin (run_each run_id tools (new_guard limit))
run_each-IsWithin run_id limit tools =
    run_each_from run_id tools (new_guard limit) (new_guard-IsWithin limit)
