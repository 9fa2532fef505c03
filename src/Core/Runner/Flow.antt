-- ===== src/Core/Runner/Flow.antt =====
-- `WorkflowRunner._execute_flow`: the steps of one flow, in their order.
mod Steps
pub mod Limit
pub mod Outcome
pub use Steps.{FlowCall, Locals, Control, Batch, Body, next_step, break}
unfoldable pub use Steps.{
  or_no_usage, chosen_steps, as_output, collection_of, is_review, is_failed, outer, context, guard,
  consume, activate, payload_fields, step_inputs, add_step_usage, resume, settle, perform,
}
use foliqant.Prelude.{
  ℕ, suc, ◌+◌, ◌-◌, String, Bool, true, false, not, ◌&&◌, Option, none, some, List, [], ◌∷◌, leb,
  str_eq, is_some, if◌then◌else◌, Dict, lookup, insert,
}
use foliqant.Core.Errors.{
  ErrorCode, invalid_input, invalid_output, run_timeout, step_limit_reached, Exn, Failure,
}
use foliqant.Core.Result.{Result, ok, err, raise}
use foliqant.Core.Json.{FrozenJson, null, object, Fields}
use foliqant.Core.Json.Freeze.{Raw, freeze_json, max_json_depth}
use foliqant.Core.Usage.{Usage, no_usage, usage_plus}
use foliqant.Core.Budget.{StepBudget, snapshot}
use foliqant.Core.Plan.{
  DecisionIssue, StepKind, flow_collection, CompiledStep, FlowPlan, BindingPlan,
}
use foliqant.Core.Bindings.{resolve_binding, resolve_bindings}
use foliqant.Core.Conditions.{evaluate_condition}
use foliqant.Core.Execution.{StepStatus, StepRecord, StepOutcome, FlowRun}
use foliqant.Core.Exec.{
  Raised, returned, raised, Exec, pure, throw, gets, ◌>>=◌, ◌>>◌, modify, raise_code, raise_when,
  lift, catch, zoom, option_case,
}
use foliqant.Core.Runner.Self.{
  Envelope, Identity, FlowRole, StepContext, OutcomeObject, WorkflowRunner, Shared,
}
use foliqant.Core.Runner.Contexts.{
  binding_context, step_bindings, validate_outcome, is_collection, skipped_steps,
}
use foliqant.Core.Runner.Ports.{Run, now, sleep, check_deadline, run_executor, failure, translated}

module _ (self : WorkflowRunner) where
  -- `if step_id is not None: result = value`
  keep_result : Option String → FrozenJson → Body self (Unit {0})
  keep_result none v = pure tt
  keep_result (some _) v = modify (λ s. record s { result = v })

  pause_for_review : Bool → List DecisionIssue → Body self Control
  pause_for_review false issues = pure next_step
  pause_for_review true issues = do
    modify (λ s. record s { status = StepStatus.needs_review; issues = issues })
    pure break

  step_context : FlowCall → CompiledStep → StepContext
  step_context c step = record {
    step = step.name;
    flow = c.flow.name;
    identity = c.identity;
    metadata = c.envelope.metadata;
    deadline = c.deadline;
    model_timeout = self.limits.model_timeout;
    tool_timeout = self.limits.tool_timeout;
    attempt = c.attempt;
    collection_item = c.collection_item;
    role = c.role;
  }

  done_record : StepOutcome → FrozenJson → Usage → ℕ → StepRecord
  done_record outcome value u elapsed = record {
    status = if outcome.needs_review then StepStatus.needs_review else StepStatus.completed;
    result = value;
    has_result = true;
    error = none;
    elapsed_seconds = some elapsed;
    usage = some u;
    selection = outcome.selection;
    partial_result = none;
    is_collection = false;
  }

  -- a step that an adapter executes
  unfoldable pub adapter_step : FlowCall → CompiledStep → Fields → Body self Control
  unfolding outer perform check_deadline validate_outcome freeze_json as_output now keep_result
      pause_for_review step_context done_record insert
  adapter_step c step inputs = do
    answer ← perform self c step inputs (step_context c step)
    outer self (check_deadline self c.deadline)
    (outcome, raw) ← lift (validate_outcome step.kind answer)
    value ← lift (as_output (freeze_json max_json_depth raw))
    t ← outer self (now self)
    modify (λ s. record s {
      records =
          insert step.name (done_record outcome value s.step_usage (t - s.step_started)) s.records;
      active = none;
    })
    keep_result c.step_id value
    pause_for_review outcome.needs_review outcome.unresolved_issues

  -- what the flow makes of a collection's record
  after_collection : FlowCall → StepRecord → Body self Control
  unfolding keep_result is_failed is_review
  after_collection c r =
      if is_failed r.status
      then (do
        modify (λ s. record s { status = StepStatus.failed; error = r.error; result = null })
        pure break)
      else (do
        keep_result c.step_id r.result
        if is_review r.status
            then (do modify (λ s. record s { status = StepStatus.needs_review }); pure break)
            else pure next_step)

  -- `break` or the next round
  abbrev control_case : Control → Body self (Unit {0}) → Body self (Unit {0})
  control_case next_step m = m
  control_case break m = pure tt

  flow_output : FlowCall → Body self (Unit {0})
  unfolding context resolve_binding is_failed
  flow_output c =
      option_case c.step_id
        (option_case c.flow.output (pure tt) (λ output. do
          failed ← gets (λ s. is_failed s.status)
          if failed then pure tt else (do
            scope ← context self c
            value ← lift (resolve_binding output scope)
            modify (λ s. record s { result = value }))))
        (λ _. pure tt)

  unfoldable pub failed_step : Option Failure → ℕ → Usage → Bool → StepRecord
  failed_step error elapsed u kind = record {
    status = StepStatus.failed;
    result = null;
    has_result = false;
    error = error;
    elapsed_seconds = some elapsed;
    usage = some u;
    selection = none;
    partial_result = none;
    is_collection = kind;
  }

  unfoldable pub close_active : Failure → Option String → Body self (Unit {0})
  unfolding outer now failed_step collection_of insert
  close_active error none = pure tt
  close_active error (some name) = do
    t ← outer self (now self)
    modify (λ s. record s {
      records =
          insert name
            (failed_step (some error) (t - s.step_started) s.step_usage
              (collection_of s.records name))
            s.records;
    })

  -- the `except Exception` clause
  unfoldable pub fail_flow : FlowCall → Exn → Body self (Unit {0})
  unfolding outer failure close_active
  fail_flow c e = do
    error ← outer self (failure self c.deadline e)
    modify (λ s. record s { status = StepStatus.failed; error = some error; result = null })
    active ← gets (λ s. s.active)
    close_active error active

  unfoldable pub flow_run : Locals self.World → ℕ → FlowRun
  unfolding is_failed
  flow_run s elapsed = record {
    status = s.status;
    steps = s.records;
    result = s.result;
    has_result = not (is_failed s.status);
    usage = some s.usage;
    elapsed_seconds = some elapsed;
    error = s.error;
  }

  unfoldable pub locals : FlowCall → ℕ → Shared self.World → Locals self.World
  unfolding skipped_steps chosen_steps
  locals c started shared = record {
    shared = shared;
    records = skipped_steps (chosen_steps c.step_id c.flow.steps);
    usage = no_usage;
    status = StepStatus.completed;
    error = none;
    result = c.envelope.payload;
    active = none;
    step_started = started;
    step_usage = no_usage;
    issues = [];
  }

  unfoldable pub ended :
      Raised (Unit {0}) × Locals self.World → Raised (Locals self.World) × Shared self.World
  ended (returned _, s) = (returned s, s.shared)
  ended (raised e, s) = (raised e, s.shared)

  module _ (collection : Batch → Run self StepRecord) where
    collection_step : FlowCall → CompiledStep → List String → ℕ → Fields → Body self Control
    unfolding outer add_step_usage or_no_usage after_collection insert
    collection_step c step flows max_items inputs = do
      r ← outer self (
          collection (record {
            flows = flows;
            max_items = max_items;
            inputs = inputs;
            metadata = c.envelope.metadata;
            identity = c.identity;
            deadline = c.deadline;
          }))
      modify (λ s. record s { records = insert step.name r s.records })
      add_step_usage self (or_no_usage r.usage)
      modify (λ s. record s { active = none })
      after_collection c r

    run_kind : FlowCall → CompiledStep → StepKind → Fields → Body self Control
    unfolding collection_step adapter_step
    run_kind c step (flow_collection items flows max_items) inputs =
        collection_step c step flows max_items inputs
    run_kind c step _ inputs = adapter_step c step inputs

    -- a step whose condition holds
    take_step : FlowCall → CompiledStep → Body self Control
    unfolding activate step_inputs run_kind
    take_step c step = do
      activate self step
      inputs ← step_inputs self c step
      run_kind c step step.kind inputs

    -- the body of the loop
    unfoldable pub run_step : FlowCall → CompiledStep → Body self Control
    unfolding outer sleep check_deadline guard consume take_step
    run_step c step = do
      outer self (sleep self)
      outer self (check_deadline self c.deadline)
      holds ← guard self c step
      if holds then (do outer self (consume self); take_step c step) else pure next_step

    unfoldable pub run_steps : FlowCall → List CompiledStep → Body self (Unit {0})
    unfolding run_step
    run_steps c [] = pure tt
    run_steps c (step ∷ steps) = do
      control ← run_step c step
      control_case control (run_steps c steps)

    -- what the `try` statement guards
    unfoldable pub flow_tried : FlowCall → Body self (Unit {0})
    unfolding run_steps chosen_steps flow_output
    flow_tried c = do run_steps c (chosen_steps c.step_id c.flow.steps); flow_output c

    -- the `try` statement
    unfoldable pub flow_body : FlowCall → Body self (Unit {0})
    unfolding flow_tried fail_flow
    flow_body c = catch (flow_tried c) (λ e. fail_flow c e)

    -- the `try` statement, whose local variables start anew
    unfoldable pub in_locals : FlowCall → ℕ → Run self (Locals self.World)
    unfolding locals flow_body ended
    in_locals c started shared = ended (flow_body c (locals c started shared))

    -- `_execute_flow`
    unfoldable pub execute_flow_with : FlowCall → Run self (FlowRun × List DecisionIssue)
    unfolding now in_locals flow_run
    execute_flow_with c = do
      started ← now self
      finished ← in_locals c started
      t ← now self
      pure (flow_run finished (t - started), finished.issues)
