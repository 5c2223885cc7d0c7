-- ===== src/Agent/Repository/Runs.antt =====
-- MemoryRunRepository of internal/agent/repository.go.
pub mod Events
use blender_shot_preview.Prelude.{
  String, Option, none, some, List, [], ◌∷◌, ◌++◌, Result, ok, err, lookup, insert, if◌then◌else◌,
}
use blender_shot_preview.Agent.Types.{AgentRun, AgentEvent, RepositoryError, run_not_found}
use blender_shot_preview.Agent.Repository.{exists, or_fail}

pub record RunRepository : Type 0 where
  pub runs : List (String × AgentRun)
  pub events : List (String × List AgentEvent)

unfoldable pub empty : RunRepository
empty = record { runs = []; events = [] }

-- Create, which overwrites a run that is there.
unfoldable pub create : AgentRun → RunRepository → RunRepository
create run r = record r { runs = insert run.id run r.runs }

unfoldable pub get : String → RunRepository → Result RepositoryError AgentRun
get id r = or_fail run_not_found (lookup id r.runs)

unfoldable pub update : AgentRun → RunRepository → Result RepositoryError RunRepository
update run r = if exists (lookup run.id r.runs) then ok (create run r) else err run_not_found

-- `r.events[id]`, which is nil for a run without events.
abbrev pub or_nil : Option (List AgentEvent) → List AgentEvent
or_nil none = []
or_nil (some events) = events

unfoldable pub append_event : AgentEvent → RunRepository → Result RepositoryError RunRepository
append_event event r =
    if exists (lookup event.run_id r.runs)
    then ok (record r {
      events = insert event.run_id (or_nil (lookup event.run_id r.events) ++ event ∷ []) r.events;
    })
    else err run_not_found

unfoldable pub list_events : String → RunRepository → Result RepositoryError (List AgentEvent)
list_events id r =
    if exists (lookup id r.runs) then ok (or_nil (lookup id r.events)) else err run_not_found
