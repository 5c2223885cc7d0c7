-- ===== src/ProductionTools/RenderJobs.antt =====
-- RenderJobManager of internal/productiontools/render_jobs.go. Submit has three parts, since it
-- takes the lock twice and starts the process between them: the job is stored, the process starts
-- or does not, and the job runs. What the goroutine that waits for the process does in the end is
-- `exited`. The identifiers of newRenderID and the executor's answers are arguments. The kill of a
-- process is a field of the record that stays set; the workspace, the lock and the channel that
-- ends the killing goroutine are not here.
pub mod Final
use blender_shot_preview.Prelude.{
  ℕ, zero, suc, String, Bool, true, false, Option, none, some, List, [], ◌∷◌, Result, ok, err, ◌==◌,
  ◌&&◌, ◌||◌, not, if◌then◌else◌, lookup, insert,
}

pub data RenderStatus : Type 0 where
  queued running succeeded failed cancelled : RenderStatus

abbrev pub is_final : RenderStatus → Bool
is_final queued = false
is_final running = false
is_final _ = true

pub record RenderJob : Type 0 where
  pub id : String
  pub status : RenderStatus
  pub artifact_path : String
  pub created_at : ℕ
  pub completed_at : Option ℕ

-- renderRecord: the job, whether its context is cancelled, and its process, by whether it has one
-- and whether that has been killed.
pub record RenderRecord : Type 0 where
  pub job : RenderJob
  pub context_cancelled : Bool
  pub process : Bool
  pub killed : Bool

-- RenderJobManager: the map `jobs`.
pub record Manager : Type 0 where
  pub jobs : List (String × RenderRecord)

pub data JobError : Type 0 where
  not_found already_final : JobError

unfoldable pub new_manager : Manager
new_manager = record { jobs = [] }

-- A map of records of pointers: a change to the record at `id`, if there is one.
abbrev pub changed :
    String → Manager → (RenderRecord → RenderRecord) → Option RenderRecord → Manager
changed id m change none = m
changed id m change (some r) = record { jobs = insert id (change r) m.jobs }

-- `record.Status = status; record.CompletedAt = &now`
abbrev pub with_final : RenderStatus → ℕ → RenderRecord → RenderRecord
with_final status now r = record r {
  job = record (r.job) { status = status; completed_at = some now };
}

abbrev pub finish_found : RenderStatus → ℕ → RenderRecord → RenderRecord
finish_found status now r = if is_final r.job.status then r else with_final status now r

-- finish
unfoldable pub finish : String → RenderStatus → ℕ → Manager → Manager
finish id status now m = changed id m (finish_found status now) (lookup id m.jobs)

-- The first part of Submit.
unfoldable pub queue : String → String → ℕ → Manager → Manager
queue id output now m = record {
  jobs =
      insert id
        (record {
          job = record {
            id = id;
            status = queued;
            artifact_path = output;
            created_at = now;
            completed_at = none;
          };
          context_cancelled = false;
          process = false;
          killed = false;
        })
        m.jobs;
}

abbrev pub with_process : RenderRecord → RenderRecord
with_process r = record r { job = record (r.job) { status = running }; process = true }

-- The rest of Submit, by whether the executor started the process.
unfoldable pub launch : String → Bool → ℕ → Manager → Manager
launch id started now m =
    if started then changed id m with_process (lookup id m.jobs) else finish id failed now m

abbrev pub job_of : Option RenderRecord → Result JobError RenderJob
job_of none = err not_found
job_of (some r) = ok r.job

-- Get
unfoldable pub get : String → Manager → Result JobError RenderJob
get id m = job_of (lookup id m.jobs)

-- The record as Cancel leaves it.
abbrev pub with_cancel : ℕ → RenderRecord → RenderRecord
with_cancel now r = record (with_final cancelled now r) {
  context_cancelled = true;
  killed = r.process || r.killed;
}

abbrev pub cancel_found :
    String → ℕ → Manager → Option RenderRecord → Result JobError RenderJob × Manager
cancel_found id now m none = (err not_found, m)
cancel_found id now m (some r) =
    if is_final r.job.status
    then (err already_final, m)
    else (ok (with_cancel now r).job, record { jobs = insert id (with_cancel now r) m.jobs })

-- Cancel
unfoldable pub cancel : String → ℕ → Manager → Result JobError RenderJob × Manager
cancel id now m = cancel_found id now m (lookup id m.jobs)

abbrev pub exit_status : Bool → Bool → RenderStatus
exit_status true failure = cancelled
exit_status false true = failed
exit_status false false = succeeded

abbrev pub context_of : Option RenderRecord → Bool
context_of none = false
context_of (some r) = r.context_cancelled

-- The end of the goroutine that waits: `failure` is an error of Wait, or an exit code that is not 0.
unfoldable pub exited : String → Bool → ℕ → Manager → Manager
exited id failure now m = finish id (exit_status (context_of (lookup id m.jobs)) failure) now m
