-- ===== src/Lib.antt =====
-- Models and proofs of the Go server of blender-shot-preview: its production pipeline, the agents and
-- their credentials, and the services, stores and guards around them.
--
-- A client submits a workflow, a graph of nodes, each an invocation of an agent, of a step or of a
-- tool. The runner validates it, stores a task under the client's idempotency key, and a worker runs
-- the nodes whose dependencies have succeeded until the task ends; clients confirm, adjust, cancel
-- and retry meanwhile, through a service that checks whose task it is. Agents are defined and run by
-- services of their own, reach their tools through a guard, and have the keys of their models from a
-- gateway; the rendering tools keep asynchronous jobs, and the asset service keeps the metadata of
-- what is made.
--
-- Pipeline (internal/service/pipeline):
--   Types        types.go: statuses, snapshots, workflows, nodes, tasks and errors.
--   Workflow     Workflow.Validate of types.go: check_nodes, check_edges and search_order are its
--                loops, visit its closure. Nodes, Search and Order have the lemmas on each, Validity
--                what the whole decides.
--   Task         the changes that runner.go makes to a task under the task's lock, each a function on
--                the task: set_task_running, start_nodes, finish_node, set_waiting, confirm_node,
--                adjust_output, cancel, retry, recover and complete_if_blocked; Task/Submit has the
--                task of Submit, Task/Invariant the invariant, Task/Steps the lives of a task.
--   Repository   MemoryRepository of repository.go.
--   Runner       runner.go around those changes: the repository, events to subscribers, the channels
--                of confirmations, active workers. Runner/Methods has the methods by their names;
--                Runner/Stored, Runner/Calls and Runner/Lives follow the stored tasks through them,
--                and Runner/Submitted a new task from Submit to Get; Runner/Accepted
--                has what an operation writes back, Runner/Confirmation the channels.
--   Run          run and executeNode; Run/Batch, Run/Termination and Run/Ends show that they end.
--   ShotPreview  shot_preview.go: the workflow of a shot preview.
--   FanOut       asset_fanout.go: the workers that make the assets of a plan, as a step relation;
--                FanOut/Nodes is FanOutNodes of types.go.
--   Life         a task from its submission to its end.
-- Agent (internal/agent):
--   Types, Repository, ToolGuard   types.go and the errors of errors.go, repository.go, tool_guard.go.
--   Skills, DefinitionService      skill_registry.go and definition_service.go.
--   Service      service.go: prepare, execute and consume behind Run and Stream; `completed` tells
--                whether a send to Stream's channel waits for good. Service/Json has the
--                checks of inputs and outputs, Service/Logged and Service/Ends the events of a run,
--                Service/Enabled the definitions and the runs together.
--   Gateway      llm_gateway: Execute with its commands, Use, the adapters and the cipher.
--                Gateway/Types has the interface of the store and its laws, which Gateway/Memory
--                fills; Gateway/Sealed, Gateway/Owners and Gateway/Lifecycle have the proofs.
-- ProductionTools (internal/productiontools): RenderJobs (render_jobs.go), Ledger (the idempotency
-- ledger of production_tools.go) and Output (its limitedBuffer).
-- Service (internal/service): AssetStore and AssetService (asset_service.go), and ShotPreview
-- (shot_preview_service.go) with its types, views, CreateTask, and the proofs on who reaches a task.
-- Prelude has what the parts share: tests, lists, results, association lists for Go's maps, and
-- what the program takes from the packages strings and encoding/json. Examples has the tests.
--
-- Conventions. A method that changes state takes it and returns it. The mutexes make each such change
-- one step, so that concurrent methods are sequences of steps. Times are natural numbers, 0 being
-- Go's zero time, and a clock's reading is an argument; so are random identifiers, the outcomes of
-- invocations and the answers of executors. What encoding/json, url.Parse and cipher.AEAD answer is
-- a parameter, with their documented contracts as hypotheses, and the stores behind the gateway and
-- the shot preview service are interfaces. A function that returns a value or an error is a Result,
-- chained by >>=; Ensures says what holds of its value. A Go map is an association list, read by its keys.
--
-- Fuel. The depth of visit is bounded by one more than the number of nodes, since the nodes on a path
-- of the search are distinct. The loop of run takes fuel for its rounds: twice the attempts left to
-- the nodes that have not ended, and two more, are enough.
--
-- Not modelled: contexts and their cancellation but for how they have ended when an agent's run ends,
-- the event log of an EventRepository, the order in
-- which the nodes of a batch finish in run (they finish in the order of their start), SQLite, HTTP, RPC
-- and generated code, the agents' framework and catalog, files and processes, the
-- handlers of the production tools, and the web client.
pub mod Prelude
pub mod Pipeline
pub mod Agent
pub mod ProductionTools
pub mod Service
pub mod Examples
