-- ===== src/Examples/Agents.antt =====
-- The definitions of agents, their skills, and runs of the agent service.
use blender_shot_preview.Prelude.{
  ℕ, pos, String, true, false, not, ◌&&◌, Option, none, some, List, [], ◌∷◌, ◌≡◌, refl, ok, err,
  ◌==◌, ◌>>=◌, Distinct, contains, map, lookup, insert,
}
use blender_shot_preview.Prelude.Text.{trim_space, hex_digit, digit}
use blender_shot_preview.Agent.Types.{
  AgentDefinition, AgentStatus, enabled, disabled, AgentFields, AgentRequest, AgentRun,
  agent_disabled, skill_not_found, invalid, pending,
}
use blender_shot_preview.Agent.ToolGuard.{ToolKind, write}
use blender_shot_preview.Agent.Skills.{
  Built, is_known, register_with_kind, kind_of, resolve, exists,
}
use blender_shot_preview.Agent.Skills.Registered.{register_with_kind-kind_of}
use blender_shot_preview.Agent.Repository.Runs
use blender_shot_preview.Agent.Repository.Definitions.{DefinitionRepository}
use blender_shot_preview.Agent.Repository.Definitions
use blender_shot_preview.Agent.DefinitionService.{
  Registries, create, get, set_status, unique_trimmed, unique_from, validate, check_skills, bounded,
  validate_schema,
}
use blender_shot_preview.Agent.DefinitionService.Unique.{unique_trimmed-lem}
use blender_shot_preview.Agent.DefinitionService.Bounds.{
  IsValid, Managed, none_yet, creates, get-IsValid,
}
use blender_shot_preview.Agent.Service.{
  Service, Surroundings, assistant, tool, message_output, broken, Executed, completed, is_blocked,
  execute, publish, publish_message, publish_calls, consume, concluded, deadline_exceeded, prepare,
  run_agent,
}
use blender_shot_preview.Agent.Service.Json.{Codec, validate_json}
use blender_shot_preview.Agent.Service.Enabled.{as_it_was, disabled_refused}
use blender_shot_preview.Agent.Gateway.{hex_encode}

unique_trimmed-lem_demo :
    let ids : List String = "a" ∷ " a " ∷ "" ∷ "b" ∷ [] in
    Distinct (unique_trimmed ids)
    × ((k : String)
        → contains k (unique_trimmed ids) ≡ (not (k == "") && contains k (map trim_space ids)))
unique_trimmed-lem_demo = unique_trimmed-lem ("a" ∷ " a " ∷ "" ∷ "b" ∷ [])

abbrev demo_registries : Registries
demo_registries = record {
  skill_exists = λ id. id == "render";
  model_exists = λ id. id == "m";
  is_object = λ text. some true;
}

abbrev demo_fields : AgentFields
demo_fields = record {
  id = " director ";
  name = "Director";
  description = "";
  system_prompt = "Direct.";
  model_profile = "m";
  skill_ids = " render " ∷ "render" ∷ [];
  input_schema = "";
  output_schema = "";
  max_steps = pos 0;
  max_output_tokens = pos 100;
  timeout = pos 0;
}

abbrev demo_definition : AgentStatus → ℕ → AgentDefinition
demo_definition status updated = record {
  id = "director";
  name = "Director";
  description = "";
  system_prompt = "Direct.";
  model_profile = "m";
  skill_ids = "render" ∷ [];
  input_schema = "";
  output_schema = "";
  max_steps = pos 12;
  max_output_tokens = pos 100;
  timeout = pos 2400000000000;
  status = status;
  created_at = 3;
  updated_at = updated;
}

abbrev no_definitions : DefinitionRepository
no_definitions = record { items = [] }

abbrev with_definition : AgentDefinition → DefinitionRepository
with_definition d = record { items = ("director", d) ∷ [] }

definition_created :
    create demo_registries 3 demo_fields no_definitions
    ≡ ok (demo_definition enabled 3, with_definition (demo_definition enabled 3))
unfolding create Definitions.create validate check_skills bounded validate_schema unique_trimmed
    unique_from contains trim_space lookup insert ◌>>=◌
definition_created = refl

demo_managed : Managed demo_registries (with_definition (demo_definition enabled 3))
demo_managed =
    creates 3 demo_fields (demo_definition enabled 3) (with_definition (demo_definition enabled 3))
      definition_created none_yet

get-IsValid_demo : IsValid demo_registries (demo_definition enabled 3)
unfolding get Definitions.get trim_space lookup
get-IsValid_demo =
    get-IsValid demo_registries (with_definition (demo_definition enabled 3)) "director"
      (demo_definition enabled 3) demo_managed refl

register_with_kind-kind_of_demo :
    (kind_of {Tool = ℕ} "s" [] ≡ err (skill_not_found "s"))
    × (is_known write ≡ true)
    × (kind_of {Tool = ℕ} "s" (("s", record { kind = write; build = ok 1 }) ∷ []) ≡ ok write)
    × ((other_id : String)
        → ("s" == other_id) ≡ false
        → resolve {Tool = ℕ} other_id (("s", record { kind = write; build = ok 1 }) ∷ [])
          ≡ resolve other_id [])
    × ((again : ToolKind) (rebuild : Option (Built ℕ))
        → register_with_kind "s" again rebuild (("s", record { kind = write; build = ok 1 }) ∷ [])
          ≡ err invalid)
unfolding register_with_kind exists lookup insert
register_with_kind-kind_of_demo =
    register_with_kind-kind_of "s" write (ok 1) []
      (("s", record { kind = write; build = ok 1 }) ∷ []) refl

abbrev demo_codec : Codec
demo_codec = record {
  parse_map = λ text. none;
  parse_schema = λ text. none;
  marshal = λ d. some "{}";
}

abbrev demo_service : DefinitionRepository → Service
demo_service definitions = record {
  definitions = definitions;
  runs = record { runs = []; events = [] };
  cancels = [];
}

abbrev demo_agent_request : AgentRequest
demo_agent_request = record {
  agent_id = "director";
  session_id = "";
  input = "go";
  user_id = "u";
  tenant_id = "";
  skill_ids = [];
}

-- An agent that says a word, calls a tool, and runs out of time.
abbrev demo_surroundings : Surroundings
demo_surroundings = record {
  built = ok (
      message_output assistant "" (ok (some (record { content = "hm"; tool_calls = "t" ∷ [] })))
      ∷ message_output tool "t" (ok (some (record { content = "done"; tool_calls = [] })))
      ∷ broken (record { message = "late"; cause = some deadline_exceeded })
      ∷ []);
  clock = λ n. n;
  finished_at = 9;
  ended = none;
}

abbrev demo_agent_run : AgentRun
demo_agent_run = record {
  id = "01";
  agent_id = "director";
  session_id = "";
  user_id = "u";
  tenant_id = "";
  input = "go";
  status = pending;
  output = "";
  error = "";
  config_snapshot = "{}";
  started_at = 4;
  finished_at = none;
}

abbrev demo_executed : Executed
demo_executed =
    run_agent demo_surroundings demo_codec 4 (some (1 ∷ [])) demo_agent_request
      (demo_service (with_definition (demo_definition enabled 3)))

-- The channel holds its five events where the caller takes none.
demo_flows : completed (some 0) demo_executed ≡ some demo_executed
unfolding completed is_blocked run_agent execute prepare publish publish_message publish_calls
    consume concluded get Definitions.get validate_json trim_space lookup insert ◌>>=◌ hex_encode
    hex_digit digit Runs.create Runs.update Runs.append_event
demo_flows = refl

definition_disabled :
    set_status 5 "director" disabled (with_definition (demo_definition enabled 3))
    ≡ ok (with_definition (demo_definition disabled 5))
unfolding set_status get Definitions.get Definitions.update lookup insert ◌>>=◌ trim_space
definition_disabled = refl

disabled_refused_demo :
    prepare demo_codec 6 none demo_agent_request
      (demo_service (with_definition (demo_definition disabled 5)))
    ≡ err agent_disabled
unfolding trim_space
disabled_refused_demo =
    disabled_refused demo_registries 5 "director" (with_definition (demo_definition enabled 3))
      (with_definition (demo_definition disabled 5)) (with_definition (demo_definition disabled 5))
      demo_codec 6 none demo_agent_request
      (demo_service (with_definition (demo_definition disabled 5))) demo_managed definition_disabled
      as_it_was refl refl refl refl refl
