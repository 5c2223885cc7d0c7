-- ===== src/Agent/ToolGuard.antt =====
-- toolExecutionGuard and guardedTool of internal/agent/tool_guard.go. The guard's fields are a record
-- that begin and finish take and return, as they do under the mutex; the int totalLimit is a natural
-- number, since a limit below 0 refuses what 0 refuses. The tool behind the guard is a parameter, and
-- a run lists the executions that were handed to it. The 30 seconds of a call's timeout are the
-- tool's to observe.
pub mod Limits
pub mod Attempts
use blender_shot_preview.Prelude.{
  ℕ, zero, suc, ◌+◌, String, Bool, true, false, Option, none, some, List, [], ◌∷◌, Result, ok, err,
  ◌==◌, ◌&&◌, not, if◌then◌else◌, leb, eqb, lookup, insert,
}
use Prim.Native.String.{◌++◌}
use blender_shot_preview.Prelude.Text.{decimal}

abbrev pub maximum_calls_per_tool : ℕ
maximum_calls_per_tool = 4

abbrev pub maximum_consecutive_errors : ℕ
maximum_consecutive_errors = 3

abbrev pub maximum_read_attempts : ℕ
maximum_read_attempts = 3

pub data ToolKind : Type 0 where
  read write irreversible : ToolKind
  other : String → ToolKind

abbrev pub is_read : ToolKind → Bool
is_read read = true
is_read _ = false

-- ToolExecution
pub record ToolExecution : Type 0 where
  pub run_id : String
  pub tool_call_id : String
  pub idempotency_key : String
  pub tool_name : String
  pub attempt : ℕ

-- An error of a tool, with the `Retryable` of the ToolError that errors.As finds in it.
pub record CallError : Type 0 where
  pub message : String
  pub retryable : Option Bool

pub data GuardError : Type 0 where
  consecutive_failures tool_call_limit repeated_tool_limit unreachable_retry_state : GuardError
  from_tool : CallError → GuardError

-- toolExecutionGuard
pub record Guard : Type 0 where
  pub total_limit : ℕ
  pub total_calls : ℕ
  pub calls_by_tool : List (String × ℕ)
  pub failures : ℕ
  pub next_call : ℕ

-- newToolExecutionGuard
unfoldable pub new_guard : ℕ → Guard
new_guard limit = record {
  total_limit = limit;
  total_calls = 0;
  calls_by_tool = [];
  failures = 0;
  next_call = 0;
}

abbrev pub or_none : Option ℕ → ℕ
or_none none = 0
or_none (some n) = n

-- `g.callsByTool[toolName]`
unfoldable pub calls_of : String → Guard → ℕ
calls_of name guard = or_none (lookup name guard.calls_by_tool)

-- begin, past its guards.
abbrev pub counted : String → Guard → Guard
counted name guard = record guard {
  total_calls = suc guard.total_calls;
  calls_by_tool = insert name (suc (calls_of name guard)) guard.calls_by_tool;
  next_call = suc guard.next_call;
}

unfoldable pub begin : String → Guard → Result GuardError String × Guard
begin name guard =
    if leb maximum_consecutive_errors guard.failures
    then (err consecutive_failures, guard)
    else if leb guard.total_limit guard.total_calls
    then (err tool_call_limit, guard)
    else if leb maximum_calls_per_tool (calls_of name guard)
    then (err repeated_tool_limit, guard)
    else (ok (name ++ "-" ++ decimal (suc guard.next_call)), counted name guard)

unfoldable pub finish : Bool → Guard → Guard
finish success guard =
    if success
    then record guard { failures = 0 }
    else record guard { failures = suc guard.failures }

-- guardedTool: what it guards, and its kind.
pub record GuardedTool : Type 0 where
  pub info : Result CallError String
  pub run : ToolExecution → Result CallError String
  pub kind : ToolKind

unfoldable pub max_attempts : GuardedTool → ℕ
max_attempts tool = if is_read tool.kind then maximum_read_attempts else 1

abbrev pub or_false : Option Bool → Bool
or_false none = false
or_false (some b) = b

unfoldable pub should_retry : GuardedTool → CallError → ℕ → Bool
should_retry tool e attempt =
    if not (is_read tool.kind)
    then false
    else if leb maximum_read_attempts attempt
    then false
    else or_false e.retryable

-- What a run leaves: its result, the guard, and the executions that the tool was called with.
pub record Ran : Type 0 where
  pub result : Result GuardError String
  pub guard : Guard
  pub calls : List ToolExecution

abbrev pub after_call : ToolExecution → Ran → Ran
after_call execution ran = record ran { calls = execution ∷ ran.calls }

-- The body of the loop of InvokableRun, given what the call returned and the rest of the loop.
abbrev pub concluded : Guard → ToolExecution → Bool → Ran → Result CallError String → Ran
concluded guard execution retry rest (ok text) = record {
  result = ok text;
  guard = finish true guard;
  calls = execution ∷ [];
}
concluded guard execution true rest (err e) = after_call execution rest
concluded guard execution false rest (err e) = record {
  result = err (from_tool e);
  guard = finish false guard;
  calls = execution ∷ [];
}

abbrev pub retries : GuardedTool → ℕ → Result CallError String → Bool
retries tool attempt (ok text) = false
retries tool attempt (err e) = should_retry tool e attempt

-- The loop of InvokableRun: `left` attempts are left, of which `attempt` is the next.
unfoldable pub attempts : GuardedTool → ToolExecution → Guard → ℕ → ℕ → Ran
attempts tool execution guard zero attempt = record {
  result = err unreachable_retry_state;
  guard = finish false guard;
  calls = [];
}
attempts tool execution guard (suc left) attempt =
    let rest = attempts tool execution guard left (suc attempt) in
    let now = record execution { attempt = attempt } in
    let answer = tool.run now in concluded guard now (retries tool attempt answer) rest answer

abbrev pub new_execution : String → String → String → ToolExecution
new_execution run_id call_id name = record {
  run_id = run_id;
  tool_call_id = call_id;
  idempotency_key = "agent:" ++ run_id ++ ":tool:" ++ call_id;
  tool_name = name;
  attempt = 0;
}

abbrev pub begun : GuardedTool → String → String → Result GuardError String × Guard → Ran
begun tool run_id name (err e, guard) = record { result = err e; guard = guard; calls = [] }
begun tool run_id name (ok call_id, guard) =
    attempts tool (new_execution run_id call_id name) guard (max_attempts tool) 1

abbrev pub informed : GuardedTool → String → Guard → Result CallError String → Ran
informed tool run_id guard (err e) = record {
  result = err (from_tool e);
  guard = guard;
  calls = [];
}
informed tool run_id guard (ok name) = begun tool run_id name (begin name guard)

-- InvokableRun
unfoldable pub invokable_run : GuardedTool → String → Guard → Ran
invokable_run tool run_id guard = informed tool run_id guard tool.info
