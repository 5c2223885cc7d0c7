-- ===== src/Pipeline.antt =====
-- internal/service/pipeline: the workflow graph, its tasks and the runner that executes them.
pub mod Types
pub mod Workflow
pub mod Task
pub mod Repository
pub mod Runner
pub mod ShotPreview
pub mod Run
pub mod Life
pub mod FanOut
