-- ===== src/Agent/Types.antt =====
-- internal/agent/types.go: what the repositories keep. Raw JSON and strings are strings, Go's int and
-- time.Duration integers, and a time is a natural number.
use blender_shot_preview.Prelude.{ℕ, ℤ, String, Option, List}

pub data AgentStatus : Type 0 where
  enabled disabled : AgentStatus

pub data RunStatus : Type 0 where
  pending running succeeded failed cancelled timeout : RunStatus

pub data AgentEventType : Type 0 where
  agent_started message_delta tool_started tool_finished agent_complete agent_failed
        agent_canceled :
      AgentEventType

pub record AgentDefinition : Type 0 where
  pub id : String
  pub name : String
  pub description : String
  pub system_prompt : String
  pub model_profile : String
  pub skill_ids : List String
  pub input_schema : String
  pub output_schema : String
  pub max_steps : ℤ
  pub max_output_tokens : ℤ
  pub timeout : ℤ
  pub status : AgentStatus
  pub created_at : ℕ
  pub updated_at : ℕ

pub record AgentRun : Type 0 where
  pub id : String
  pub agent_id : String
  pub session_id : String
  pub user_id : String
  pub tenant_id : String
  pub input : String
  pub status : RunStatus
  pub output : String
  pub error : String
  pub config_snapshot : String
  pub started_at : ℕ
  pub finished_at : Option ℕ

pub record AgentEvent : Type 0 where
  pub run_id : String
  pub sequence : ℤ
  pub event_type : AgentEventType
  pub content : String
  pub tool_name : String
  pub error_code : String
  pub created_at : ℕ

pub data RepositoryError : Type 0 where
  invalid_definition agent_not_found run_not_found : RepositoryError

-- The errors of internal/agent/errors.go that the services return, and `failure` for any other.
pub data AgentError : Type 0 where
  in_repository : RepositoryError → AgentError
  skill_not_found : String → AgentError
  agent_disabled dynamic_skill_blocked not_implemented run_cancelled : AgentError
  failure : String → AgentError

-- ErrInvalidDefinition
abbrev pub invalid : AgentError
invalid = in_repository invalid_definition

-- CreateAgentRequest and UpdateAgentRequest, which have the same fields.
pub record AgentFields : Type 0 where
  pub id : String
  pub name : String
  pub description : String
  pub system_prompt : String
  pub model_profile : String
  pub skill_ids : List String
  pub input_schema : String
  pub output_schema : String
  pub max_steps : ℤ
  pub max_output_tokens : ℤ
  pub timeout : ℤ

pub record AgentRequest : Type 0 where
  pub agent_id : String
  pub session_id : String
  pub input : String
  pub user_id : String
  pub tenant_id : String
  pub skill_ids : List String

pub record AgentResult : Type 0 where
  pub run_id : String
  pub status : RunStatus
  pub output : String
  pub error : String
  pub started : ℕ
  pub ended : ℕ
