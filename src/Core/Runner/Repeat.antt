-- ===== src/Core/Runner/Repeat.antt =====
-- `WorkflowRunner._repeat_decision`: what follows one attempt of a flow with `repeat`.
pub mod Frame
pub mod Limit
pub mod Reasons
use foliqant.Prelude.{
  ℕ, String, Bool, true, false, Option, none, some, List, [], ◌∷◌, ◌++◌, leb, str_eq, ◌⊎◌, inl, inr,
  if◌then◌else◌, Dict, lookup, insert,
}
use foliqant.Core.Errors.{ErrorCode, Exn, other, Failure}
use foliqant.Core.Result.{Result}
use foliqant.Core.Json.{FrozenJson, null, object, Fields, end, field, field_insert}
use foliqant.Core.Usage.{no_usage}
use foliqant.Core.Plan.{
  DecisionIssue, FlowPlan, RepeatPlan, BindingPlan, Bindings, no_bindings, binding, ConditionPlan,
  find_flow,
}
use foliqant.Core.Bindings.{resolve_bindings}
use foliqant.Core.Conditions.{evaluate_condition}
use foliqant.Core.Execution.{StepStatus, RepeatStop, FlowRun, FlowRecord}
use foliqant.Core.Exec.{
  Exec, pure, throw, gets, ◌>>=◌, ◌>>◌, modify, raise_when, lift, call, catch, zoom, option_case,
}
use foliqant.Core.Runner.Self.{Envelope, from_frozen, Identity, FlowRole, WorkflowRunner, Shared}
use foliqant.Core.Runner.Contexts.{workflow_context, skipped_steps}
use foliqant.Core.Runner.Ports.{Run, check_deadline, check_flow_input, failure}
use foliqant.Core.Runner.Flow.{FlowCall}

-- `_Item`, without the depth
pub record Item : Type 0 where
  pub id : String
  pub index : ℕ
  pub payload : Fields

-- `_RepeatDecision`
pub record RepeatDecision : Type 0 where
  pub stop : Option RepeatStop
  pub issues : List DecisionIssue
  pub status : Option StepStatus
  pub failure : Option Failure
  pub inputs : Option Fields

-- The arguments of `_repeat_decision`, without the records.
pub record Attempt : Type 0 where
  pub flow : FlowPlan
  pub repeat : RepeatPlan
  pub run : FlowRun
  pub attempt : ℕ
  pub issues : List DecisionIssue
  pub envelope : Envelope
  pub identity : Identity
  pub deadline : ℕ
  pub item : Option Item

-- The records of the repeat's scope, and what it shares with the other coroutines.
pub record Scope (W : Type 0) : Type 0 where
  pub shared : Shared W
  pub records : Dict FlowRecord

unfoldable pub stop_with : RepeatStop → List DecisionIssue → RepeatDecision
stop_with reason issues = record {
  stop = some reason;
  issues = issues;
  status = none;
  failure = none;
  inputs = none;
}

-- a stop for a failure outside the attempt
failed_with : List DecisionIssue → Option Failure → RepeatDecision
unfolding stop_with
failed_with issues error = record (stop_with RepeatStop.failure issues) { failure = error }

-- `replaced.get(name)`, where the last of equal names counts
replacement : String → Bindings → Option BindingPlan
replacement name no_bindings = none
replacement name (binding other_name b rest) = elim (replacement name rest) [
  | some found ↦ some found
  | none ↦ if str_eq other_name name then some b else none
]

or_base : Option BindingPlan → BindingPlan → BindingPlan
or_base none base = base
or_base (some b) base = b

-- `_overridden`
unfoldable pub overridden : Bindings → Bindings → Bindings
unfolding replacement or_base
overridden no_bindings overrides = no_bindings
overridden (binding name b base) overrides =
    binding name (or_base (replacement name overrides) b) (overridden base overrides)

-- `{**fields, **overrides}`
unfoldable pub merged : Fields → Fields → Fields
unfolding field_insert
merged fields end = fields
merged fields (field k v overrides) = merged (field_insert k v fields) overrides

-- a flow that failed before it ran
unfoldable pub unstarted : FlowPlan → Failure → FlowRun
unfolding skipped_steps
unstarted flow error = record {
  status = StepStatus.failed;
  steps = skipped_steps flow.steps;
  result = null;
  has_result = false;
  usage = some no_usage;
  elapsed_seconds = some 0;
  error = some error;
}

-- `replace(run, attempts=(*runs, run))`
unfoldable pub with_runs : List FlowRun → FlowRun → FlowRecord
with_runs runs run = record { run = run; attempts = runs ++ (run ∷ []); stopped_by = none }

runs_so_far : String → Dict FlowRecord → List FlowRun
unfolding lookup
runs_so_far name records = elim (lookup name records) [ none ↦ [] | some r ↦ r.attempts ]

item_id : Option Item → Option String
item_id none = none
item_id (some i) = some i.id

-- a failed flow, a flow that waits for review, and any other
abbrev pub status_case : {S A : Type 0} → StepStatus → Exec S A → Exec S A → Exec S A → Exec S A
status_case StepStatus.failed m n p = m
status_case StepStatus.needs_review m n p = n
status_case _ m n p = p

module _ (self : WorkflowRunner) where
  abbrev pub Scoped : Type 0 → Type 0
  Scoped A = Exec (Scope self.World) A

  unfoldable pub scoped : {A : Type 0} → Run self A → Scoped A
  unfolding zoom
  scoped = zoom (λ s. s.shared) (λ t s. record s { shared = t })

  scope_context : Envelope → Scoped FrozenJson
  unfolding workflow_context
  scope_context e = gets (λ s. workflow_context e s.records)

  -- `_holds`
  holds : ConditionPlan → Envelope → Scoped Bool
  unfolding scope_context evaluate_condition
  holds condition e = do scope ← scope_context e; lift (evaluate_condition condition scope []).0

  -- `_flow_input`
  unfoldable pub flow_input : String → Bindings → Envelope → Scoped Fields
  unfolding scope_context resolve_bindings scoped
  flow_input name bindings e = do
    scope ← scope_context e
    inputs ← lift (resolve_bindings bindings scope)
    scoped (check_flow_input self name inputs)
    pure inputs

  set_record : String → FlowRecord → Scoped (Unit {0})
  unfolding insert
  set_record name r = modify (λ s. record s { records = insert name r s.records })

  plan_flow : String → Scoped FlowPlan
  unfolding find_flow
  plan_flow name = option_case (find_flow name self.plan.flows) (throw other) pure

  give_up : List DecisionIssue → ℕ → Exn → Scoped RepeatDecision
  unfolding scoped failure failed_with
  give_up issues deadline e = do
    error ← scoped (failure self deadline e)
    pure (failed_with issues (some error))

  next_input : Attempt → Scoped Fields
  unfolding scoped check_deadline flow_input overridden scope_context resolve_bindings merged
  next_input a = do
    scoped (check_deadline self a.deadline)
    option_case a.item
        (flow_input a.flow.name (overridden a.flow.input a.repeat.retry_input) a.envelope)
        (λ item. do
          scope ← scope_context a.envelope
          overrides ← lift (resolve_bindings a.repeat.retry_input scope)
          scoped (check_flow_input self a.flow.name (merged item.payload overrides))
          pure (merged item.payload overrides))

  -- the second `try`
  unfoldable pub next_attempt : Attempt → Scoped RepeatDecision
  unfolding next_input give_up
  next_attempt a =
      catch
        (do
          inputs ← next_input a
          pure (record {
            stop = none;
            issues = a.issues;
            status = none;
            failure = none;
            inputs = some inputs;
          }))
        (give_up a.issues a.deadline)

  module _ (execute_flow : FlowCall → Run self (FlowRun × List DecisionIssue)) where
    unfoldable pub retry_call : Attempt → FlowPlan → Envelope → FlowCall
    unfolding item_id
    retry_call a retry local = record {
      flow = retry;
      envelope = local;
      identity = a.identity;
      deadline = a.deadline;
      step_id = none;
      attempt = a.attempt;
      role = FlowRole.retry;
      collection_item = item_id a.item;
    }

    asks : Option ConditionPlan → Envelope → Scoped Bool
    unfolding holds
    asks none e = pure true
    asks (some condition) e = holds condition e

    after_retry : Attempt → FlowRun → List DecisionIssue → Scoped RepeatDecision
    unfolding asks next_attempt stop_with failed_with
    after_retry a retried issues =
        status_case retried.status (pure (failed_with a.issues retried.error))
          (pure
            (record (stop_with RepeatStop.review issues) { status = some StepStatus.needs_review }))
          (do
            proceeds ← asks a.repeat.continue_when a.envelope
            if proceeds then next_attempt a else pure (stop_with RepeatStop.continue_when a.issues))

    run_retry : Attempt → FlowPlan → List FlowRun → Fields → Scoped RepeatDecision
    unfolding scoped from_frozen retry_call set_record with_runs after_retry
    run_retry a retry runs inputs = do
      local ← lift (from_frozen (object inputs) a.envelope.metadata)
      (retried, issues) ← scoped (execute_flow (retry_call a retry local))
      set_record retry.name (with_runs runs retried)
      after_retry a retried issues

    -- the `except` clause around the retry flow's input
    refuse_retry : Attempt → FlowPlan → List FlowRun → Exn → Scoped (RepeatDecision ⊎ Fields)
    unfolding scoped failure set_record with_runs unstarted failed_with
    refuse_retry a retry runs e = do
      error ← scoped (failure self a.deadline e)
      set_record retry.name (with_runs runs (unstarted retry error))
      pure (inl (failed_with a.issues (some error)))

    abbrev after_refusal :
        RepeatDecision ⊎ Fields → (Fields → Scoped RepeatDecision) → Scoped RepeatDecision
    after_refusal (inl decision) f = pure decision
    after_refusal (inr inputs) f = f inputs

    -- the first `try`
    prepare : Attempt → FlowPlan → List FlowRun → Scoped (RepeatDecision ⊎ Fields)
    unfolding flow_input refuse_retry
    prepare a retry runs =
        catch
          (do
            inputs ← flow_input retry.name a.repeat.retry_flow_input a.envelope
            pure (inr inputs))
          (refuse_retry a retry runs)

    start_retry : Attempt → FlowPlan → List FlowRun → Scoped RepeatDecision
    unfolding prepare run_retry
    start_retry a retry runs = do
      prepared ← prepare a retry runs
      after_refusal prepared (run_retry a retry runs)

    -- `if repeat.retry_flow is not None:` and what follows
    unfoldable pub retry_then_next : Attempt → Option String → Scoped RepeatDecision
    unfolding plan_flow runs_so_far start_retry next_attempt
    retry_then_next a none = next_attempt a
    retry_then_next a (some name) = do
      retry ← plan_flow name
      runs ← gets (λ s. runs_so_far retry.name s.records)
      start_retry a retry runs

    -- `_repeat_decision`
    unfoldable pub repeat_decision : Attempt → Scoped RepeatDecision
    unfolding holds stop_with retry_then_next
    repeat_decision a =
        status_case a.run.status (pure (stop_with RepeatStop.failure a.issues))
          (pure (stop_with RepeatStop.review a.issues))
          (do
            finished ← holds a.repeat.until a.envelope
            if finished
                then pure (stop_with RepeatStop.until a.issues)
                else (if leb a.repeat.max_attempts a.attempt
                    then pure (stop_with RepeatStop.exhausted a.issues)
                    else retry_then_next a a.repeat.retry_flow))
