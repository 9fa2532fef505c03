-- ===== src/Core/Runner/Flow/Steps.antt =====
-- The local variables of `_execute_flow`, and what one step does before and around the executor's
-- call.
use foliqant.Prelude.{
  ℕ, ◌+◌, String, Bool, true, false, Option, none, some, List, [], ◌∷◌, leb, str_eq, if◌then◌else◌,
  Dict, lookup,
}
use foliqant.Core.Errors.{invalid_input, invalid_output, step_limit_reached, Failure}
use foliqant.Core.Result.{Result, ok, err, raise}
use foliqant.Core.Json.{FrozenJson, object, Fields}
use foliqant.Core.Usage.{Usage, no_usage, usage_plus}
use foliqant.Core.Budget.{StepBudget, snapshot}
use foliqant.Core.Plan.{DecisionIssue, CompiledStep, FlowPlan}
use foliqant.Core.Bindings.{resolve_bindings}
use foliqant.Core.Conditions.{evaluate_condition}
use foliqant.Core.Execution.{StepStatus, StepRecord}
use foliqant.Core.Exec.{
  Raised, returned, raised, Exec, pure, throw, gets, ◌>>=◌, ◌>>◌, modify, raise_when, lift, zoom,
  option_case,
}
use foliqant.Core.Runner.Self.{
  Envelope, Identity, FlowRole, StepContext, OutcomeObject, WorkflowRunner, Shared,
}
use foliqant.Core.Runner.Contexts.{binding_context, step_bindings}
use foliqant.Core.Runner.Ports.{Run, now, run_executor, translated}

-- The arguments of `_execute_flow`, without the depth.
pub record FlowCall : Type 0 where
  pub flow : FlowPlan
  pub envelope : Envelope
  pub identity : Identity
  pub deadline : ℕ
  pub step_id : Option String
  pub attempt : ℕ
  pub role : FlowRole
  pub collection_item : Option String

-- The local variables of `_execute_flow`, and what it shares with the other coroutines.
pub record Locals (W : Type 0) : Type 0 where
  pub shared : Shared W
  pub records : Dict StepRecord
  pub usage : Usage
  pub status : StepStatus
  pub error : Option Failure
  pub result : FrozenJson
  pub active : Option String
  pub step_started : ℕ
  pub step_usage : Usage
  pub issues : List DecisionIssue

-- How the body of the loop ends.
pub data Control : Type 0 where
  next_step break : Control

-- `isinstance(outcome, StepOutcome)` passed: what a collection step is given
pub record Batch : Type 0 where
  pub flows : List String
  pub max_items : ℕ
  pub inputs : Fields
  pub metadata : Fields
  pub identity : Identity
  pub deadline : ℕ

unfoldable pub or_no_usage : Option Usage → Usage
or_no_usage none = no_usage
or_no_usage (some u) = u

-- `tuple(step for step in flow.steps if step_id is None or step.name == step_id)`
unfoldable pub chosen_steps : Option String → List CompiledStep → List CompiledStep
chosen_steps none steps = steps
chosen_steps (some name) [] = []
chosen_steps (some name) (s ∷ steps) =
    let rest = chosen_steps (some name) steps in if str_eq s.name name then s ∷ rest else rest

-- any failure to freeze is the adapter's
unfoldable pub as_output : Result FrozenJson → Result FrozenJson
as_output (ok v) = ok v
as_output (err e) = raise invalid_output

unfoldable pub collection_of : Dict StepRecord → String → Bool
unfolding lookup
collection_of records name = elim (lookup name records) [ none ↦ false | some r ↦ r.is_collection ]

unfoldable pub is_review : StepStatus → Bool
is_review StepStatus.needs_review = true
is_review _ = false

unfoldable pub is_failed : StepStatus → Bool
is_failed StepStatus.failed = true
is_failed _ = false

module _ (self : WorkflowRunner) where
  abbrev pub Body : Type 0 → Type 0
  Body A = Exec (Locals self.World) A

  unfoldable pub outer : {A : Type 0} → Run self A → Body A
  unfolding zoom
  outer = zoom (λ s. s.shared) (λ t s. record s { shared = t })

  -- the context in which a step's bindings and conditions are evaluated
  unfoldable pub context : FlowCall → Body FrozenJson
  unfolding binding_context
  context c = gets (λ s. binding_context c.envelope s.records)

  -- `step.when` holds, or nothing is asked
  unfoldable pub guard : FlowCall → CompiledStep → Body Bool
  unfolding context evaluate_condition
  guard c step =
      option_case c.step_id
        (option_case step.when (pure true)
          (λ condition. do scope ← context c; lift (evaluate_condition condition scope []).0))
        (λ _. pure true)

  -- one step of the run is consumed
  unfoldable pub consume : Run self (Unit {0})
  consume = do
    consumed ← gets (λ s. s.consumed)
    raise_when (leb self.limits.max_steps consumed) step_limit_reached
    modify (λ s. record s { consumed = s.consumed + 1 })

  -- `active, step_started, step_usage = …`
  unfoldable pub activate : CompiledStep → Body (Unit {0})
  activate step = do
    t ← outer (now self)
    modify (λ s. record s { active = some step.name; step_started = t; step_usage = no_usage })

  unfoldable pub payload_fields : FrozenJson → Result Fields
  payload_fields (object fs) = ok fs
  payload_fields _ = raise invalid_input

  unfoldable pub step_inputs : FlowCall → CompiledStep → Body Fields
  unfolding context payload_fields step_bindings resolve_bindings
  step_inputs c step =
      option_case c.step_id
        (do scope ← context c; lift (resolve_bindings (step_bindings step.kind) scope))
        (λ _. lift (payload_fields c.envelope.payload))

  -- `usage = usage.plus(step_usage)`
  unfoldable pub add_step_usage : Usage → Body (Unit {0})
  unfolding usage_plus
  add_step_usage u = do
    modify (λ s. record s { step_usage = u })
    usage ← gets (λ s. s.usage)
    total ← lift (usage_plus usage u)
    modify (λ s. record s { usage = total })

  unfoldable pub resume : {A : Type 0} → Raised A → Body A
  resume (returned a) = pure a
  resume (raised e) = throw e

  -- what follows the executor's call; the usage is counted whether it returns or raises
  unfoldable pub settle : FlowCall → Raised OutcomeObject × StepBudget → Body OutcomeObject
  unfolding outer translated snapshot add_step_usage resume
  settle c (r, budget) = do
    answer ← outer (translated self c.deadline r)
    u ← lift (snapshot budget)
    add_step_usage u
    resume answer

  -- the executor's call
  unfoldable pub perform : FlowCall → CompiledStep → Fields → StepContext → Body OutcomeObject
  unfolding outer run_executor settle
  perform c step inputs ctx = do r ← outer (run_executor self step inputs ctx); settle c r
