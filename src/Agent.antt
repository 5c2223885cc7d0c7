-- ===== src/Agent.antt =====
-- internal/agent: the agents' definitions, the records of their runs, and the guard between an
-- agent and its tools.
pub mod Types
pub mod Repository
pub mod ToolGuard
pub mod Gateway
pub mod Skills
pub mod DefinitionService
pub mod Service
