-- ===== src/Agent/DefinitionService.antt =====
-- internal/agent/definition_service.go: DefinitionService over the repository in memory. The skills and
-- the models that exist are parameters of the service; a time.Duration is a number of nanoseconds.
-- json.Unmarshal into `any` is a parameter that says whether a text is a JSON object.
pub mod Unique
pub mod Bounds
use blender_shot_preview.Prelude.{
  ℕ, ℤ, pos, negsuc, String, Bool, true, false, not, ◌&&◌, ◌||◌, Option, none, some, List, [], ◌∷◌,
  Result, ok, err, ◌>>=◌, ◌>>◌, refuse_if, ◌==◌, leb, ltb, eqb, contains, if◌then◌else◌,
}
use blender_shot_preview.Prelude.Text.{trim_space}
use blender_shot_preview.Agent.Types.{
  AgentStatus, enabled, disabled, AgentDefinition, AgentError, in_repository, invalid,
  skill_not_found, AgentFields, RepositoryError,
}
use blender_shot_preview.Agent.Repository.Definitions.{DefinitionRepository}
use blender_shot_preview.Agent.Repository.Definitions

-- DefinitionService, less its repository: the skills' and the models' Exists, and whether a text is
-- not JSON, is a JSON object, or is another JSON value.
pub record Registries : Type 0 where
  pub skill_exists : String → Bool
  pub model_exists : String → Bool
  pub is_object : String → Option Bool

-- uniqueTrimmed, past the values whose trimmed forms are `seen`
unfoldable pub unique_from : List String → List String → List String
unique_from seen [] = []
unique_from seen (value ∷ values) =
    let trimmed = trim_space value in
    let skipped = unique_from seen values in
    let kept = unique_from (trimmed ∷ seen) values in
    if trimmed == "" then skipped else if contains trimmed seen then skipped else trimmed ∷ kept

-- uniqueTrimmed
unfoldable pub unique_trimmed : List String → List String
unique_trimmed values = unique_from [] values

-- The skills of a definition all exist.
unfoldable pub check_skills : Registries → List String → Result AgentError (Unit {0})
check_skills s [] = ok tt
check_skills s (skill_id ∷ skill_ids) =
    let rest = check_skills s skill_ids in
    if s.skill_exists skill_id then rest else err (skill_not_found skill_id)

-- A number of a definition: the default where it is 0, and refused outside of its bounds.
unfoldable pub bounded : ℕ → ℕ → ℕ → ℤ → Result AgentError ℤ
bounded default least most (negsuc n) = err invalid
bounded default least most (pos n) =
    let value = if eqb n 0 then default else n in
    if ltb value least || ltb most value then err invalid else ok (pos value)

abbrev pub object_only : Option Bool → Result AgentError (Unit {0})
object_only (some true) = ok tt
object_only other = err invalid

-- validateSchema
unfoldable pub validate_schema : Registries → String → Result AgentError (Unit {0})
validate_schema s value = if value == "" then ok tt else object_only (s.is_object value)

-- The first five assignments of validate.
abbrev pub trimmed_fields : AgentDefinition → AgentDefinition
trimmed_fields d = record d {
  id = trim_space d.id;
  name = trim_space d.name;
  description = trim_space d.description;
  system_prompt = trim_space d.system_prompt;
  model_profile = trim_space d.model_profile;
}

-- Past the first checks of validate, on trimmed fields.
abbrev pub validate_rest : Registries → AgentDefinition → Result AgentError AgentDefinition
validate_rest s d =
    check_skills s (unique_trimmed d.skill_ids) >> bounded 12 1 40 d.max_steps >>= (λ steps.
      bounded 4096 1 8192 d.max_output_tokens >>= (λ tokens.
        bounded 2400000000000 1000000000 2400000000000 d.timeout >>= (λ timeout.
          validate_schema s d.input_schema
          >> validate_schema s d.output_schema
          >> ok (record d {
            skill_ids = unique_trimmed d.skill_ids;
            max_steps = steps;
            max_output_tokens = tokens;
            timeout = timeout;
          }))))

abbrev pub has_blank : AgentDefinition → Bool
has_blank d = d.id == "" || d.name == "" || d.system_prompt == "" || d.model_profile == ""

-- validate, which changes the definition that it is given.
unfoldable pub validate : Registries → AgentDefinition → Result AgentError AgentDefinition
validate s definition =
    let d = trimmed_fields definition in
    refuse_if (has_blank d) invalid
    >> refuse_if (not (s.model_exists d.model_profile)) invalid
    >> validate_rest s d

-- definitionFromCreate; the status and the times are those that Create sets.
abbrev pub definition_from_create : ℕ → AgentFields → AgentDefinition
definition_from_create now f = record {
  id = f.id;
  name = f.name;
  description = f.description;
  system_prompt = f.system_prompt;
  model_profile = f.model_profile;
  skill_ids = f.skill_ids;
  input_schema = f.input_schema;
  output_schema = f.output_schema;
  max_steps = f.max_steps;
  max_output_tokens = f.max_output_tokens;
  timeout = f.timeout;
  status = enabled;
  created_at = now;
  updated_at = now;
}

-- The assignments of Update.
abbrev pub overwritten : ℕ → AgentFields → AgentDefinition → AgentDefinition
overwritten now f d = record d {
  name = f.name;
  description = f.description;
  system_prompt = f.system_prompt;
  model_profile = f.model_profile;
  skill_ids = f.skill_ids;
  input_schema = f.input_schema;
  output_schema = f.output_schema;
  max_steps = f.max_steps;
  max_output_tokens = f.max_output_tokens;
  timeout = f.timeout;
  updated_at = now;
}

-- A repository's answer as the service's.
abbrev pub answer : {A : Type 0} → Result RepositoryError A → Result AgentError A
answer (err e) = err (in_repository e)
answer (ok a) = ok a

-- Create: the definition and the repository with it.
unfoldable pub create :
    Registries
    → ℕ
    → AgentFields
    → DefinitionRepository
    → Result AgentError (AgentDefinition × DefinitionRepository)
create s now request r =
    validate s (definition_from_create now request)
    >>= (λ d. answer (Definitions.create d r) >>= (λ r'. ok (d, r')))

-- Get
unfoldable pub get : String → DefinitionRepository → Result AgentError AgentDefinition
get agent_id r = answer (Definitions.get (trim_space agent_id) r)

-- Update
unfoldable pub update :
    Registries
    → ℕ
    → AgentFields
    → DefinitionRepository
    → Result AgentError (AgentDefinition × DefinitionRepository)
update s now request r = get request.id r >>= (λ old.
    validate s (overwritten now request old)
    >>= (λ d. answer (Definitions.update d r) >>= (λ r'. ok (d, r'))))

-- setStatus
unfoldable pub set_status :
    ℕ → String → AgentStatus → DefinitionRepository → Result AgentError DefinitionRepository
set_status now agent_id status r =
    get agent_id r
    >>= (λ d. answer (Definitions.update (record d { status = status; updated_at = now }) r))

-- Enable and Disable
abbrev pub enable : ℕ → String → DefinitionRepository → Result AgentError DefinitionRepository
enable now agent_id r = set_status now agent_id enabled r

abbrev pub disable : ℕ → String → DefinitionRepository → Result AgentError DefinitionRepository
disable now agent_id r = set_status now agent_id disabled r
