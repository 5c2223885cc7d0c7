-- ===== src/Agent/Service.antt =====
-- internal/agent/service.go: Service over the two repositories in memory. What the agent does behind the
-- factory is a parameter, the list of the events of its iterator; so are the texts that encoding/json
-- reads and writes. A call takes the time of each of its events.
pub mod Json
pub mod Logged
pub mod Ends
pub mod Enabled
use blender_shot_preview.Prelude.{
  ℕ, suc, ◌+◌, ℤ, pos, String, Bool, true, false, not, ◌&&◌, ◌||◌, Option, none, some, List, [],
  ◌∷◌, ◌++◌, Result, ok, err, ◌>>=◌, ◌>>◌, refuse_if, ◌==◌, if◌then◌else◌, contains, without, ltb,
  length,
}
use blender_shot_preview.Prelude.Text.{trim_space, is_blank}
use blender_shot_preview.Agent.Types.{
  AgentStatus, enabled, disabled, AgentDefinition, AgentRun, RunStatus, pending, running, succeeded,
  failed, cancelled, timeout, AgentEvent, AgentEventType, agent_started, message_delta,
  tool_started, tool_finished, agent_complete, agent_failed, agent_canceled, AgentError,
  in_repository, invalid, agent_disabled, dynamic_skill_blocked, not_implemented, run_cancelled,
  failure, AgentRequest, AgentResult, RepositoryError,
}
use blender_shot_preview.Agent.Repository.Definitions.{DefinitionRepository}
use blender_shot_preview.Agent.Repository.Runs.{RunRepository}
use blender_shot_preview.Agent.Repository.Runs
use blender_shot_preview.Agent.DefinitionService.{answer}
use blender_shot_preview.Agent.DefinitionService
use blender_shot_preview.Agent.Gateway.{hex_encode}
use blender_shot_preview.Agent.Service.Json.{Codec, validate_json}

-- Service, with the runs whose cancel functions are registered.
pub record Service : Type 0 where
  pub definitions : DefinitionRepository
  pub runs : RunRepository
  pub cancels : List String

-- Why a context has ended.
pub data Stop : Type 0 where
  deadline_exceeded canceled : Stop

-- An error of the agent, with what errors.Is finds in it.
pub record Failure : Type 0 where
  pub message : String
  pub cause : Option Stop

pub data Role : Type 0 where
  tool assistant : Role
  other : String → Role

pub record Message : Type 0 where
  pub content : String
  pub tool_calls : List String

-- An event of the agent's iterator: an error, one without a message output, or one with a message,
-- which GetMessage may fail to give.
pub data RunnerEvent : Type 0 where
  broken : Failure → RunnerEvent
  without_output : RunnerEvent
  message_output : Role → String → Result Failure (Option Message) → RunnerEvent

-- The state of an execution: `sequence`, the run, and the events published so far.
pub record Execution : Type 0 where
  pub runs : RunRepository
  pub run : AgentRun
  pub sequence : ℕ
  pub sent : List AgentEvent

-- What publish is given of an event.
pub record Draft : Type 0 where
  pub event_type : AgentEventType
  pub content : String
  pub tool_name : String
  pub error_code : String

abbrev pub kept : RunRepository → Result RepositoryError RunRepository → RunRepository
kept r (err e) = r
kept r (ok r') = r'

abbrev pub event_of : (ℕ → ℕ) → Draft → String → ℕ → AgentEvent
event_of clock d run_id sequence = record {
  run_id = run_id;
  sequence = pos sequence;
  event_type = d.event_type;
  content = d.content;
  tool_name = d.tool_name;
  error_code = d.error_code;
  created_at = clock sequence;
}

-- publish, which drops an error of the repository. The clock gives the time of each event. Its send to
-- a stream's channel, which may wait for the caller, is counted by `is_blocked` below.
unfoldable pub publish : (ℕ → ℕ) → Draft → Execution → Execution
publish clock d x =
    let event = event_of clock d x.run.id (suc x.sequence) in
    record x {
      runs = kept x.runs (Runs.append_event event x.runs);
      sequence = suc x.sequence;
      sent = x.sent ++ event ∷ [];
    }

abbrev pub plain : AgentEventType → String → Draft
plain event_type content = record {
  event_type = event_type;
  content = content;
  tool_name = "";
  error_code = "";
}

abbrev pub of_tool : AgentEventType → String → String → Draft
of_tool event_type tool_name content = record {
  event_type = event_type;
  content = content;
  tool_name = tool_name;
  error_code = "";
}

unfoldable pub publish_calls : (ℕ → ℕ) → List String → Execution → Execution
publish_calls clock [] x = x
publish_calls clock (name ∷ names) x =
    publish_calls clock names (publish clock (of_tool tool_started name "") x)

abbrev pub with_output : String → Execution → Execution
with_output text x = record x { run = record x.run { output = text } }

-- The switch of consume, for a message.
unfoldable pub publish_message : (ℕ → ℕ) → Role → String → Message → Execution → Execution
publish_message clock tool name m x = publish clock (of_tool tool_finished name m.content) x
publish_message clock assistant name m x =
    let called = publish_calls clock m.tool_calls x in
    if m.content == ""
    then called
    else publish clock (plain message_delta m.content) (with_output m.content called)
publish_message clock (other role) name m x = x

-- One turn of the loop of consume.
abbrev pub handle : (ℕ → ℕ) → RunnerEvent → Execution → Result Failure (Unit {0}) × Execution
handle clock (broken e) x = (err e, x)
handle clock without_output x = (ok tt, x)
handle clock (message_output role name (err e)) x = (err e, x)
handle clock (message_output role name (ok none)) x = (ok tt, x)
handle clock (message_output role name (ok (some m))) x =
    (ok tt, publish_message clock role name m x)

abbrev pub next :
    (Execution → Result Failure (Unit {0}) × Execution)
    → Result Failure (Unit {0}) × Execution
    → Result Failure (Unit {0}) × Execution
next rest (err e, x) = (err e, x)
next rest (ok done, x) = rest x

-- consume
unfoldable pub consume :
    (ℕ → ℕ) → List RunnerEvent → Execution → Result Failure (Unit {0}) × Execution
consume clock [] x = (ok tt, x)
consume clock (e ∷ es) x = next (λ x'. consume clock es x') (handle clock e x)

abbrev pub is_deadline : Option Stop → Bool
is_deadline (some deadline_exceeded) = true
is_deadline cause = false

abbrev pub is_canceled : Option Stop → Bool
is_canceled (some canceled) = true
is_canceled cause = false

-- terminalStatus, of the context's end and of the error's
unfoldable pub terminal_status : Option Stop → Failure → RunStatus
terminal_status ended e =
    if is_deadline e.cause || is_deadline ended
    then timeout
    else if is_canceled e.cause || is_canceled ended
    then cancelled
    else failed

-- terminalEvent
unfoldable pub terminal_event : RunStatus → AgentEventType
terminal_event cancelled = agent_canceled
terminal_event status = agent_failed

abbrev pub status_text : RunStatus → String
status_text pending = "pending"
status_text running = "running"
status_text succeeded = "succeeded"
status_text failed = "failed"
status_text cancelled = "cancelled"
status_text timeout = "timeout"

-- The run of an execution that ends.
abbrev pub ended_run : ℕ → String → RunStatus → AgentRun → AgentRun
ended_run at error status run = record run { finished_at = some at; error = error; status = status }

abbrev pub closing : RunStatus → String → String → Draft
closing status error code = record {
  event_type = terminal_event status;
  content = error;
  tool_name = "";
  error_code = code;
}

abbrev pub conclude : (ℕ → ℕ) → ℕ → String → RunStatus → Draft → Execution → Execution
conclude clock at error status d x =
    publish clock d (record x { run = ended_run at error status x.run })

abbrev pub conclude_checked :
    (ℕ → ℕ) → ℕ → Result String (Unit {0}) → Execution → Option Failure × Execution
conclude_checked clock at (ok done) x =
    (none, conclude clock at "" succeeded (plain agent_complete x.run.output) x)
conclude_checked clock at (err message) x = (
  some (record { message = message; cause = none }),
  conclude clock at (trim_space message) failed
      (closing failed (trim_space message) "output_validation") x,
)

-- execute, from the end of consume to the last event, with the time of FinishedAt.
unfoldable pub concluded :
    (ℕ → ℕ)
    → ℕ
    → Codec
    → AgentDefinition
    → Option Stop
    → Result Failure (Unit {0}) × Execution
    → Option Failure × Execution
concluded clock at c d ended (err e, x) =
    let status = terminal_status ended e in
    (
      some e,
      conclude clock at (trim_space e.message) status
          (closing status (trim_space e.message) (status_text status)) x,
    )
concluded clock at c d ended (ok done, x) =
    conclude_checked clock at (validate_json c d.output_schema x.run.output) x

-- What execute returns and leaves: a result or nil, an error or nil, the runs, and the events that it
-- sent to a streaming caller.
pub record Executed : Type 0 where
  pub result : Option AgentResult
  pub error : Option AgentError
  pub runs : RunRepository
  pub sent : List AgentEvent

abbrev pub as_error : Option Failure → Option AgentError
as_error none = none
as_error (some e) = some (failure e.message)

abbrev pub result_of : ℕ → AgentRun → AgentResult
result_of at run = record {
  run_id = run.id;
  status = run.status;
  output = run.output;
  error = run.error;
  started = run.started_at;
  ended = at;
}

abbrev pub finished :
    ℕ → Option Failure → Execution → Result RepositoryError RunRepository → Executed
finished at e x (err refused) = record {
  result = none;
  error = some (in_repository refused);
  runs = x.runs;
  sent = x.sent;
}
finished at e x (ok runs) = record {
  result = some (result_of at x.run);
  error = as_error e;
  runs = runs;
  sent = x.sent;
}

abbrev pub finish_update : ℕ → Option Failure × Execution → Executed
finish_update at (e, x) = finished at e x (Runs.update x.run x.runs)

-- What BuildWithModel and the iterator give.
abbrev pub consumed :
    (ℕ → ℕ) → Result Failure (List RunnerEvent) → Execution → Result Failure (Unit {0}) × Execution
consumed clock (err e) x = (err e, x)
consumed clock (ok events) x = consume clock events x

-- What an execution meets: the agent that the factory builds, the time of each event and of the end,
-- and how the context has ended by then.
pub record Surroundings : Type 0 where
  pub built : Result Failure (List RunnerEvent)
  pub clock : ℕ → ℕ
  pub finished_at : ℕ
  pub ended : Option Stop

abbrev pub started :
    Surroundings
    → Codec
    → AgentDefinition
    → AgentRun
    → RunRepository
    → Result RepositoryError RunRepository
    → Executed
started w c d run r (err e) = record {
  result = none;
  error = some (in_repository e);
  runs = r;
  sent = [];
}
started w c d run r (ok runs) =
    let first =
      publish w.clock (plain agent_started "")
        (record { runs = runs; run = run; sequence = 0; sent = [] }) in
    finish_update w.finished_at
      (concluded w.clock w.finished_at c d w.ended (consumed w.clock w.built first))

-- execute. The registration of its cancel function, which it takes back on every way out, is
-- that of `register_cancel` and `unregister_cancel`.
unfoldable pub execute :
    Surroundings → Codec → AgentDefinition → AgentRun → RunRepository → Executed
execute w c d run r =
    let now = record run { status = running } in started w c d now r (Runs.update now r)

-- newRunID
abbrev pub new_run_id : Option (List ℕ) → Result AgentError String
new_run_id none = err (failure "create agent run ID")
new_run_id (some bytes) = ok (hex_encode bytes)

abbrev pub marshalled : Option String → Result AgentError String
marshalled none = err (failure "snapshot agent definition")
marshalled (some text) = ok text

abbrev pub input_error : Result String (Unit {0}) → Result AgentError (Unit {0})
input_error (err message) = err invalid
input_error (ok done) = ok done

abbrev pub is_disabled : AgentStatus → Bool
is_disabled enabled = false
is_disabled disabled = true

abbrev pub is_some_skill : List String → Bool
is_some_skill [] = false
is_some_skill (id ∷ ids) = true

abbrev pub new_run : ℕ → AgentRequest → AgentDefinition → String → String → AgentRun
new_run now request d run_id snapshot = record {
  id = run_id;
  agent_id = d.id;
  session_id = request.session_id;
  user_id = request.user_id;
  tenant_id = request.tenant_id;
  input = request.input;
  status = pending;
  output = "";
  error = "";
  config_snapshot = snapshot;
  started_at = now;
  finished_at = none;
}

-- prepare, up to the repository's Create.
unfoldable pub prepare :
    Codec
    → ℕ
    → Option (List ℕ)
    → AgentRequest
    → Service
    → Result AgentError (AgentRun × AgentDefinition)
prepare c now id_bytes request s =
    refuse_if (is_blank request.agent_id || is_blank request.input) invalid
    >> refuse_if (is_some_skill request.skill_ids) dynamic_skill_blocked
    >> DefinitionService.get request.agent_id s.definitions
    >>= (λ d.
        refuse_if (is_disabled d.status) agent_disabled
        >> input_error (validate_json c d.input_schema request.input)
        >> new_run_id id_bytes
        >>= (λ run_id.
            marshalled (c.marshal d)
            >>= (λ snapshot. ok (new_run now request d run_id snapshot, d))))

abbrev pub prepared_run :
    Surroundings → Codec → Service → Result AgentError (AgentRun × AgentDefinition) → Executed
prepared_run w c s (err e) = record { result = none; error = some e; runs = s.runs; sent = [] }
prepared_run w c s (ok (run, d)) = execute w c d run (Runs.create run s.runs)

-- Run, and Stream as long as no send to its channel waits for good.
unfoldable pub run_agent :
    Surroundings → Codec → ℕ → Option (List ℕ) → AgentRequest → Service → Executed
run_agent w c now id_bytes request s = prepared_run w c s (prepare c now id_bytes request s)

-- The capacity of Stream's channel.
abbrev pub stream_capacity : ℕ
stream_capacity = 32

-- Whether a send waits for good. A call of Run has no channel, given as `none`; the caller of Stream
-- receives so many events and then no more, and the channel takes its capacity besides.
unfoldable pub is_blocked : Option ℕ → Executed → Bool
is_blocked none e = false
is_blocked (some received) e = ltb (received + stream_capacity) (length e.sent)

-- The execution of Run or Stream to its end, if it has one.
unfoldable pub completed : Option ℕ → Executed → Option Executed
completed received e = if is_blocked received e then none else some e

-- Submit
abbrev pub submit : AgentRequest → Result AgentError String
submit request = err not_implemented

-- GetRun
unfoldable pub get_run : String → Service → Result AgentError AgentRun
get_run run_id s = answer (Runs.get (trim_space run_id) s.runs)

abbrev pub register_cancel : String → Service → Service
register_cancel run_id s = record s { cancels = run_id ∷ s.cancels }

abbrev pub unregister_cancel : String → Service → Service
unregister_cancel run_id s = record s { cancels = without run_id s.cancels }

abbrev pub not_active : Result RepositoryError AgentRun → Result AgentError (Unit {0})
not_active (err e) = err (in_repository e)
not_active (ok run) = err run_cancelled

-- Cancel; where it returns no error, the run's context is cancelled.
unfoldable pub cancel : String → Service → Result AgentError (Unit {0})
cancel run_id s =
    if contains (trim_space run_id) s.cancels
    then ok tt
    else not_active (Runs.get (trim_space run_id) s.runs)
