-- ===== src/Examples.antt =====
-- Tests of the definitions, and each theorem at an input that meets its hypotheses.
mod Text
mod Workflows
mod Tasks
mod Services
mod Gateway
mod Agents
mod Previews
mod Assets
