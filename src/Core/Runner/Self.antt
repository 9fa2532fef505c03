-- ===== src/Core/Runner/Self.antt =====
-- What a `WorkflowRunner` is given: the plan, the limits, and its ports.
use foliqant.Prelude.{ℕ, String, Bool, Option, List}
use foliqant.Core.Errors.{Exn}
use foliqant.Core.Result.{Result, ok, raise, ◌>>=◌}
use foliqant.Core.Json.{Float, FrozenJson, object, Fields}
use foliqant.Core.Json.Freeze.{Raw, refreeze, max_json_depth, max_execution_json_depth}
use foliqant.Core.Errors.{invalid_input}
use foliqant.Core.Budget.{StepBudget}
use foliqant.Core.Plan.{DecisionIssue, CompiledStep, WorkflowPlan}
use foliqant.Core.Execution.{Origin}
use foliqant.Core.Exec.{Raised}

-- `AcceptedEnvelope`
pub record Envelope : Type 0 where
  pub payload : FrozenJson
  pub metadata : Fields

as_object : FrozenJson → Result Fields
as_object (object fs) = ok fs
as_object _ = raise invalid_input

-- `AcceptedEnvelope._from_frozen`
unfoldable pub from_frozen : FrozenJson → Fields → Result Envelope
unfolding as_object
from_frozen payload metadata = do
  copied ← refreeze max_execution_json_depth payload
  frozen ← refreeze max_json_depth (object metadata)
  fields ← as_object frozen
  ok (record { payload = copied; metadata = fields })

pub record Identity : Type 0 where
  pub tenant_id : Option String
  pub principal_id : Option String

pub data FlowRole : Type 0 where
  routed callable retry : FlowRole

-- `ExecutionLimits`, whose checks are that every limit is positive
pub record ExecutionLimits : Type 0 where
  pub run_timeout : ℕ
  pub model_timeout : ℕ
  pub tool_timeout : ℕ
  pub max_steps : ℕ
  pub model_requests_per_step : ℕ
  pub tool_calls_per_step : ℕ

-- `StepContext`, without the execution id, the trace and the workflow's name and revision
pub record StepContext : Type 0 where
  pub step : String
  pub flow : String
  pub identity : Identity
  pub metadata : Fields
  pub deadline : ℕ
  pub model_timeout : ℕ
  pub tool_timeout : ℕ
  pub attempt : ℕ
  pub collection_item : Option String
  pub role : FlowRole

-- The object that an adapter returns, as far as `_validate_outcome` tells objects apart: an id or a
-- description that is no text, and a category or selection of another type, are `malformed`; an
-- origin or an issue that is none of the known ones is `none`.
pub data SelectionObject : Type 0 where
  malformed : SelectionObject
  selected : String → Option String → Option Origin → SelectionObject

pub data OutcomeObject : Type 0 where
  not_an_outcome : OutcomeObject
  step_outcome :
      Raw
      → Option Bool
      → Option (List (Option DecisionIssue))
      → Option SelectionObject
      → OutcomeObject

-- The runner and its ports. `World` is what lies outside the engine. `clock` reads the event
-- loop's time. `pause` is `asyncio.sleep(0)`. `execute` is the executor's `execute` under
-- `asyncio.timeout_at(deadline)`, with the step's budget, which comes back as the adapter leaves
-- it. `to_float` is Python's `float` of a decimal. `enter_slot` and `leave_slot` are the
-- admission slot.
pub record WorkflowRunner : Type 1 where
  pub World : Type 0
  pub clock : World → ℕ × World
  pub pause : World → Raised (Unit {0}) × World
  pub execute :
      CompiledStep
      → Fields
      → StepContext
      → StepBudget
      → World
      → Raised OutcomeObject × StepBudget × World
  pub validate_input : FrozenJson → Option Exn
  pub validate_flow_input : String → FrozenJson → Option Exn
  pub to_float : ℕ → Float
  pub enter_slot : ℕ → World → Raised (Unit {0}) × World
  pub leave_slot : World → World
  pub plan : WorkflowPlan
  pub limits : ExecutionLimits

-- The part of `_Invocation` and of the outside that every coroutine of a run shares.
pub record Shared (W : Type 0) : Type 0 where
  pub world : W
  pub consumed : ℕ
