-- ===== src/Lib.antt =====
-- Foliqant runs compiled workflows of model calls. This library models its engine, src/foliqant/core,
-- which runs one workflow step by step, between JSON that comes in and a record of everything that
-- happened; the decisions that a step takes from a model's answer; and the measurements of an
-- evaluation.
--
-- A run (`WorkflowRunner`, core/runner.py) checks the caller's claims and input, takes an admission
-- slot, and walks from flow to flow: it binds a flow's input (core/bindings.py), runs its steps,
-- each guarded by a condition (core/conditions.py), and selects the next flow by the compiled
-- plan's routes (core/plan.py). A step is executed by an adapter with a budget (core/budget.py),
-- or it is a collection, which runs callable flows for the items of a batch and may nest. A flow
-- may be repeated with a retry flow in between. Usage (core/execution.py, core/pricing.py) is added
-- up on the way, and every value is frozen JSON (core/json.py).
--
-- Files, with the code that they model:
--   Core/Errors       core/errors.py, and `Failure` of core/execution.py
--   Core/Json         core/json.py, and `json_equal` of core/conditions.py
--   Core/Usage        `TokenUsage`, `Cost`, `ModelUsage`, `Usage` of core/execution.py
--   Core/Execution    the records of core/execution.py and their JSON
--   Core/Pricing      core/pricing.py
--   Core/Budget       core/budget.py
--   Core/Identity     `validate_identity_id` of core/identity.py
--   Core/Plan         core/plan.py
--   Core/Bindings     core/bindings.py
--   Core/Conditions   core/conditions.py
--   Core/Admission    core/admission.py
--   Core/Runner       core/runner.py: Flow is `_execute_flow`, Repeat `_repeat_decision`, Items
--                     `_run_item`, Batches and Collection `_execute_collection`, Routing `_select`,
--                     `_start` and `_target`, Routed `_run_routed`, Whole `_run`, and Admit
--                     `_admit`, `run`, `run_flow` and `run_step`
--   Decisions/Contracts, Answerability, Graph, Relations   decisions/contracts.py
--   Decisions/Output  `validate_decision_output` of contracts/decisions.py
--   Decisions/Plan, Native   adapters/decisions/native.py: the task of a decision step, and the facts
--                     and the outcome that are made of a model's validated output
--   Core/Retry        core/retry.py
--   Adapters/Responses   adapters/execution/retry.py
--   Evaluation/Spans, Comparisons, Records   evaluation/spans.py, evaluation/comparisons.py and
--                     `document_path_status` of evaluation/records.py
--   Evaluation/Metrics   evaluation/metrics.py: Observe and Fields are `observe_metrics`, Counts and
--                     Summary `summarize_metrics`, Validation `validate_metrics` and the tests of
--                     gold in evaluation/contracts.py
-- Core/Result is a call that returns or raises, Core/Exec a coroutine that changes a state and may
-- raise, with rules for what such an action keeps, returns and raises. Tests holds concrete runs.
--
-- Parameters. `WorkflowRunner` holds what the engine is given: the event loop's clock, the
-- scheduling point `asyncio.sleep(0)`, the executor (with the timeout that surrounds its call), the
-- validator, the admission slot, and Python's `float` of a decimal. They act on a `World` of which
-- nothing is assumed; a theorem that counts calls says which of them may change the count. `Ports` of
-- Core/Retry is the same for a retry. Adapters/Responses takes the library's parsers of numbers and
-- dates, Evaluation/Comparisons `json.dumps` and case folding.
--
-- Bounds. Nested collections recurse on `MAX_COLLECTION_DEPTH - collection_depth` and attempts on what
-- is left of `max_attempts`: where these are used up the source raises, and so does the model. The
-- walk from flow to flow (`flow_loop`) is modelled for one round more than there are flows, and
-- `_has_directed_cycle` (`has_cycle_above`) to a depth of one more than there are edges; both take
-- what would come after that as an argument (`beyond`). `_has_path`
-- recurses on two more than the edges, a retry on the attempts that are left, a search for a source
-- span on the length of the source. Times are natural numbers of clock ticks,
-- differences of times are exact, amounts of money are exact integers (the source rounds a decimal to
-- its context's precision), a double is an integer multiple of 2^-1074. Concurrency inside an adapter
-- is outside; the engine itself awaits one coroutine at a time.
--
-- Not modelled: telemetry and the texts of events; the compiler; the runs, datasets, checkpoints and
-- intervals of the evaluation package; the adapters of models, of MCP and of JSON Schema, which call
-- third-party libraries; the command line and configuration. The engine takes compiled plans as they
-- are, and raises where the source raises on a plan that compilation excludes; a decision step takes
-- results as pydantic has validated them, and a rate of a metric is an exact fraction.
pub mod Prelude
pub mod Core
pub mod Decisions
pub mod Adapters
pub mod Evaluation
pub mod Tests
