-- ===== src/Lib.antt =====
-- A verification library for the backend of the intelligent workflow platform, which runs workflows
-- of deterministic and agentic steps. Paths are from the repository's root; all are below
-- backend/src/workflow_platform/.
--
-- Parts, and the files that model them:
-- - Prelude: shared names, native-number lists, Boolean tests, texts as code points.
-- - Value: the values of a `dict[str, Any]` (JSON), with `get` and `put`.
-- - Workflow.Definition: workflow/definition.py, the schema of a workflow, as records with the
--   fields of the models; Workflow.Definition.Ids is `_safe_id`.
-- - Workflow.Topology: workflow/topology.py. `validate_and_order` and `topological_sort` are the
--   functions of those names; `Kahn` holds the variables of the loop, `visit` is one round. The
--   loop runs on fuel, the number of the steps; Workflow.Topology.Loop shows that this is enough.
-- - Workflow.Validation: workflow/validation.py, which reports every problem at once.
-- - Security.Capabilities: security/capabilities.py, layers of constraints and their intersection.
--   The path matcher and `fnmatch` are parameters.
-- - Elicitation.Catalog, Elicitation.Store, Elicitation.Scheduler: elicitation/catalog.py,
--   elicitation/store.py and elicitation/scheduler.py. The scheduler takes a `QuestionStore`, the
--   record of operations that both stores fill; Elicitation.Store.Contract has the laws that a
--   client relies on. A method of the Postgres store is one transaction, so that interleaved calls
--   are sequences of calls; the clock of the database and the order in which it gives rows are the
--   fields of `Server`, and Elicitation.Store.Rows compares rows up to both. The lookup of answers is a parameter that may raise.
-- - Auth.Grants: auth/raw_trace_grants.py, with the grant of persistence/models.py and its
--   repository in persistence/memory.py. A method of the service is an action on the rows and the
--   audit log, whose raise keeps what was saved before.
-- - Engine.Dag, Engine.Dispatch: engine/executor.py, the dispatch loop. What the tasks, the clock and
--   the store do comes in as a list of ticks, so that a theorem about all lists is about all
--   interleavings; a tick also says which tasks are done when the loop is left, since
--   `_cancel_pending` leaves these alone. Engine.Dispatch.Passes is the rule by which a property of the handling of one
--   edge becomes one of every run. `schedule_or_skip` runs on fuel, the number of the steps, for its recursion along
--   skipped steps; Engine.Dispatch.Fuel shows that this is enough. The evaluator of conditions is a
--   parameter of a tick.
-- - Engine.Retry: engine/executor.py, `_run_step_with_retry`, over the outcome of each attempt.
-- - Engine.Ancestors: engine/executor.py, `_ancestors`, which runs on fuel: one more than the number
--   of the edges, which Engine.Ancestors.Laws shows to be enough.
-- - Engine.Fork: engine/executor.py, what `fork` decides before it writes, over the rows of
--   persistence/models.py in Engine.Rows.
-- - Recovery: recovery.py, the sweep at boot, with `list_by_state` and `update` of
--   persistence/memory.py. Each call of a repository or of the audit log may raise; `Surroundings`
--   says which do.
-- - Agent: agent/agent.py and agent/registry.py. `Session` holds the variables of `run`, `turns` is
--   its loop, on the number of rounds left, and `call_tool` the body of `_execute_tool_calls`. A
--   provider and a tool are functions that may answer each call in their own way, and that may
--   raise; beside the log, a session keeps the calls that reached a tool. A response that `run` cannot
--   read up to its message counts as a call that raises, since nothing but the exception leaves
--   `run`; a tool use that cannot be read (`unreadable`) raises where the loop comes to it. Agent.Loop.Rounds is the
--   loop as a relation. A cancellation from outside, which `_dispatch` does not catch, is left out.
-- - Trace: trace_projection.py, what a reader without a grant gets to see. `project` is `_project`; a
--   `Position` is a node or its absence, a `Route` is what the loop does with one entry of a dict,
--   and `none` stands for the exception that a hostile tool call raises. The JSON encoder and the
--   truth of a float are the fields of `Encoder`. Trace.Schemas has the concrete schemas and their
--   leaves; what a leaf asks of a float or of white space is a field of `Validators`.
-- - Tests: concrete runs, and the theorems applied to them.
--
-- How they interact: a definition is checked by Workflow.Validation on the canvas and ordered by
-- Workflow.Topology in the engine; both read the same records. Capabilities are resolved from the
-- layers of system, workflow and step, and an agent asks them before each tool call and caps the
-- output of its model by them.
--
-- Python's `int` is ℕ where the code keeps a value from being negative, and ℤ elsewhere. Times are
-- whole seconds. Python's character classes (`\s`, `\w`, white space) are parameters.
--
-- Not modelled: the HTTP API, the connectors, tools and triggers (I/O), the database mapping, the
-- trace vault (cryptography), the engine's resume, what a fork writes, the
-- timeout of a whole workflow.
pub mod Prelude
pub mod Value
pub mod Security
pub mod Elicitation
pub mod Workflow
pub mod Auth
pub mod Engine
pub mod Agent
pub mod Trace
pub mod Recovery
mod Tests
