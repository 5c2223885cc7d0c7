-- ===== src/Examples/Services.antt =====
-- The tool guard, the render jobs and the assets.
use blender_shot_preview.Prelude.{
  ℕ, ◌+◌, ◌≤◌, pos, String, true, false, none, some, List, [], ◌∷◌, ◌++◌, ◌≡◌, ◌≢◌, ◌⊎◌, refl, map,
  take, ok, err, ◌==◌, if◌then◌else◌, arith, lookup, insert, length,
}
use blender_shot_preview.Prelude.Text.{trim_space, decimal}
use blender_shot_preview.Agent.Types.{AgentRun, AgentEvent, RunStatus, message_delta}
use blender_shot_preview.Agent.Repository.Runs.{RunRepository, or_nil, list_events}
use blender_shot_preview.Agent.Repository.Runs.Events.{append_all, of_run, list_events-append_all}
use blender_shot_preview.Agent.ToolGuard.{
  ToolKind, read, write, GuardedTool, new_guard, invokable_run, unreachable_retry_state,
}
use blender_shot_preview.Agent.ToolGuard.Limits.{IsWithin, run_each, run_each-IsWithin}
use blender_shot_preview.Agent.ToolGuard.Attempts.{invokable_run-bounded}
use blender_shot_preview.ProductionTools.RenderJobs.{
  Manager, RenderJob, RenderStatus, new_manager, queue, launch, cancel, exited, get,
}
use blender_shot_preview.ProductionTools.Output.{new_buffer, write_all, read_from, keep, kept}
use blender_shot_preview.ProductionTools.Output.Captured.{joined, write_all-lem}
use blender_shot_preview.ProductionTools.Ledger.{Ledger, runs, conflict, claim, finish}
use blender_shot_preview.ProductionTools.Ledger.Once.{unused, used, finishes, claim_once}
use blender_shot_preview.ProductionTools.RenderJobs.Final.{
  exits, none_more, then_more, cancel_lasts,
}
use blender_shot_preview.Service.AssetStore
use blender_shot_preview.Service.AssetStore.{
  AssetType, model_3d, AssetStore, AssetRecord, new_store, page, get_stats, list, create,
}
use blender_shot_preview.Service.AssetStore.Paging.{pages, pages_cover}
use blender_shot_preview.Service.AssetStore.Counts.{get_stats_total}
use blender_shot_preview.Service.AssetService.{
  RegisterRequest, register_asset, new_record, delete_asset_of,
}
use blender_shot_preview.Service.AssetService.Ownership.{register_asset-get, delete_asset_of-get}

-- A tool that fails so that it may be tried again.
abbrev flaky : ToolKind → GuardedTool
flaky kind = record {
  info = ok "tool";
  run = λ execution. err (record { message = "busy"; retryable = some true });
  kind = kind;
}

run_each-IsWithin_demo : IsWithin (run_each "r" (flaky read ∷ flaky write ∷ []) (new_guard 1))
run_each-IsWithin_demo = run_each-IsWithin "r" 1 (flaky read ∷ flaky write ∷ [])

invokable_run-bounded_demo :
    let ran = invokable_run (flaky read) "r" (new_guard 5) in
    (length ran.calls ≤ 3) × (ran.result ≢ err unreachable_retry_state)
invokable_run-bounded_demo = invokable_run-bounded (flaky read) "r" (new_guard 5)

abbrev launched : Manager
launched = launch "j" true 2 (queue "j" "out" 1 new_manager)

abbrev cancelled_job_demo : RenderJob
cancelled_job_demo = record {
  id = "j";
  status = RenderStatus.cancelled;
  artifact_path = "out";
  created_at = 1;
  completed_at = some 3;
}

job_cancelled : (cancel "j" 3 launched).0 ≡ ok cancelled_job_demo
unfolding cancel launch queue lookup insert new_manager
job_cancelled = refl

cancel_lasts_demo :
    (get "j" (exited "j" true 4 (cancel "j" 3 launched).1) ≡ ok cancelled_job_demo)
    × (cancelled_job_demo.status ≡ RenderStatus.cancelled)
cancel_lasts_demo =
    cancel_lasts "j" 3 launched cancelled_job_demo job_cancelled
      (then_more (exits "j" true 4) none_more)

abbrev demo_run : AgentRun
demo_run = record {
  id = "r";
  agent_id = "intent-agent";
  session_id = "";
  user_id = "";
  tenant_id = "";
  input = "";
  status = RunStatus.running;
  output = "";
  error = "";
  config_snapshot = "";
  started_at = 1;
  finished_at = none;
}

abbrev demo_event : String → AgentEvent
demo_event run_id = record {
  run_id = run_id;
  sequence = pos 1;
  event_type = message_delta;
  content = "x";
  tool_name = "";
  error_code = "";
  created_at = 2;
}

abbrev demo_runs : RunRepository
demo_runs = record { runs = ("r", demo_run) ∷ []; events = [] }

list_events-append_all_demo :
    list_events "r" (append_all (demo_event "r" ∷ demo_event "s" ∷ []) demo_runs)
    ≡ ok (or_nil (lookup "r" []) ++ of_run "r" (demo_event "r" ∷ demo_event "s" ∷ []))
unfolding lookup
list_events-append_all_demo =
    list_events-append_all (demo_event "r" ∷ demo_event "s" ∷ []) demo_runs "r" refl

abbrev three : List ℕ
three = 1 ∷ 2 ∷ 3 ∷ []

pages_cover_demo : pages 2 2 three ≡ three
pages_cover_demo = pages_cover 2 2 three (omega arith)

abbrev demo_request : RegisterRequest
demo_request = record {
  user_id = "u";
  name = "chair";
  asset_type = model_3d;
  file_format = "blend";
  file_size_bytes = 10;
  storage_uri = "file:///chair.blend";
  tags = [];
  description = none;
}

abbrev demo_store : AssetStore
demo_store = create (new_record 7 demo_request) new_store

get_stats_total_demo :
    ((get_stats "u" demo_store).total ≡ (list (λ s. s) "u" none "" (pos 1) (pos 10) demo_store).1)
    × ((get_stats "u" demo_store).models + (get_stats "u" demo_store).presets
        ≤ (get_stats "u" demo_store).total)
get_stats_total_demo = get_stats_total (λ s. s) "u" (pos 1) (pos 10) demo_store refl

register_asset-get_demo :
    let (answer, s') = register_asset 7 (some demo_request) new_store in
    (answer ≡ ok "asset_7")
    × (AssetStore.get "u" "asset_7" s' ≡ some (new_record 7 demo_request))
    × ((u j : String)
        → ("asset_7" == j) ≡ false
        → AssetStore.get u j s' ≡ AssetStore.get u j new_store)
unfolding trim_space decimal
register_asset-get_demo = register_asset-get 7 demo_request new_store refl refl

delete_asset_of-get_demo :
    let (answer, s') = delete_asset_of (some ("v", "asset_7")) demo_store in
    ((AssetStore.get "v" "asset_7" demo_store ≡ none) × (answer ≡ ok false) × (s' ≡ demo_store))
    ⊎ ((a : AssetRecord) × (AssetStore.get "v" "asset_7" demo_store ≡ some a)
        × (◌≡◌ {A = String} "v" "" ⊎ (a.user_id ≡ "v"))
        × (answer ≡ ok true)
        × ((u j : String)
            → AssetStore.get u j s'
              ≡ (if "asset_7" == j then none else AssetStore.get u j demo_store)))
unfolding trim_space
delete_asset_of-get_demo = delete_asset_of-get "v" "asset_7" demo_store refl

abbrev empty_ledger : Ledger
empty_ledger = record { items = [] }

first_runs : (claim "k" "f" empty_ledger).0 ≡ runs
unfolding claim lookup
first_runs = refl

claim_once_demo :
    ((claim "k" "g" (finish "k" "done" (claim "k" "f" empty_ledger).1)).0 ≢ runs)
    × (("f" == "g") ≡ false
        → (claim "k" "g" (finish "k" "done" (claim "k" "f" empty_ledger).1)).0 ≡ conflict)
claim_once_demo = claim_once "k" "f" "g" empty_ledger first_runs (used unused (finishes "k" "done"))

-- The second piece is cut off.
abbrev two_pieces : List (List ℕ)
two_pieces = (1 ∷ 2 ∷ []) ∷ (3 ∷ 4 ∷ []) ∷ []

write_all_cut : (write_all two_pieces (new_buffer 3)).1.bytes ≡ 1 ∷ 2 ∷ 3 ∷ []
unfolding keep kept
write_all_cut = refl

write_all-lem_demo :
    ((write_all two_pieces (new_buffer 3)).1.bytes ≡ take 3 (joined two_pieces))
    × ((write_all two_pieces (new_buffer 3)).0 ≡ map length two_pieces)
    × ((read_from two_pieces (new_buffer 3)).1.bytes ≡ joined two_pieces)
    × ((read_from two_pieces (new_buffer 3)).0 ≡ length (joined two_pieces))
write_all-lem_demo = write_all-lem 3 two_pieces
