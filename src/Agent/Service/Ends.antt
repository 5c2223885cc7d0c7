-- ===== src/Agent/Service/Ends.antt =====
-- How an execution of an agent ends: one last event, and a run that says the same.
use blender_shot_preview.Prelude.{
  ℕ, String, Bool, true, false, some, List, [], ◌∷◌, ◌++◌, ◌≡◌, ok, All,
}
use blender_shot_preview.Agent.Types.{
  AgentRun, RunStatus, pending, succeeded, failed, cancelled, timeout, AgentEvent, AgentEventType,
  agent_started, agent_complete, agent_failed, agent_canceled, AgentResult,
}
use blender_shot_preview.Agent.Types
use blender_shot_preview.Agent.Repository.Runs.{RunRepository}
use blender_shot_preview.Agent.Repository.Runs
use blender_shot_preview.Agent.Service.{Service, Execution, Executed, publish, plain, result_of}
use blender_shot_preview.Agent.Service.Logged.{Numbered, is_progress, IsLogged}

-- The last event of a run, and the run's status.
abbrev pub closes : AgentEventType → RunStatus → Bool
closes agent_complete succeeded = true
closes agent_failed failed = true
closes agent_failed timeout = true
closes agent_canceled cancelled = true
closes event_type status = false

-- The execution has ended at this time: after events that do not end a run it published one that does,
-- and it is the one of the run's status.
pub record HasEnded (at : ℕ) (id : String) (x : Execution) : Type 0 where
  pub before : List AgentEvent
  pub last : AgentEvent
  pub sent : x.sent ≡ before ++ last ∷ []
  pub quiet : All (λ e. is_progress e.event_type ≡ true) before
  pub closed : closes last.event_type x.run.status ≡ true
  pub finished_at : x.run.finished_at ≡ some at
  pub named : x.run.id ≡ id
  pub logged : IsLogged x

-- What is left once the run of an execution that has ended is stored.
pub record HasClosed (at : ℕ) (id : String) (done : Executed) : Type 0 where
  pub before : List AgentEvent
  pub last : AgentEvent
  pub run : AgentRun
  pub sent : done.sent ≡ before ++ last ∷ []
  pub quiet : All (λ e. is_progress e.event_type ≡ true) before
  pub closed : closes last.event_type run.status ≡ true
  pub numbered : Numbered 0 done.sent
  pub listed : Runs.list_events id done.runs ≡ ok done.sent
  pub stored : Runs.get id done.runs ≡ ok run
  pub finished_at : run.finished_at ≡ some at
  pub answered : done.result ≡ some (result_of at run)

-- The execution at the start of the loop of consume, for a run without events.
first_execution : (ℕ → ℕ) → AgentRun → RunRepository → Execution
first_execution clock run runs =
    publish clock (plain agent_started "")
      (record { runs = runs; run = run; sequence = 0; sent = [] })
