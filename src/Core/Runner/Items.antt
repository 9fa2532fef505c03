-- ===== src/Core/Runner/Items.antt =====
-- `WorkflowRunner._run_item`: the attempts of one item of a collection.
pub mod Limit
pub mod Attempts
use foliqant.Prelude.{
  ℕ, zero, suc, ◌+◌, String, Option, none, some, List, [], ◌∷◌, ◌++◌, Dict, lookup, insert,
}
use foliqant.Core.Errors.{ErrorCode, invalid_configuration, Failure}
use foliqant.Core.Json.{object, Fields}
use foliqant.Core.Plan.{DecisionIssue, FlowPlan, RepeatPlan}
use foliqant.Core.Execution.{StepStatus, RepeatStop, FlowRun, FlowRecord, plain_record}
use foliqant.Core.Exec.{
  Raised, Exec, pure, gets, ◌>>=◌, ◌>>◌, modify, raise_code, lift, zoom, option_case,
}
use foliqant.Core.Runner.Self.{Envelope, from_frozen, Identity, FlowRole, WorkflowRunner, Shared}
use foliqant.Core.Runner.Ports.{Run}
use foliqant.Core.Runner.Flow.{FlowCall}
use foliqant.Core.Runner.Repeat.{
  Item, RepeatDecision, Attempt, Scope, Scoped, scoped, repeat_decision,
}

-- an accepted item of a collection: its id, flow and input
pub record BatchItem : Type 0 where
  pub id : String
  pub flow : FlowPlan
  pub payload : Fields

-- what `_run_item` returns
pub record ItemRun : Type 0 where
  pub done : FlowRecord
  pub retry : Option FlowRecord
  pub failure : Option Failure

-- what the items of one collection have in common
pub record Caller : Type 0 where
  pub metadata : Fields
  pub identity : Identity
  pub deadline : ℕ

-- `decision.status or record.status`
unfoldable pub or_status : Option StepStatus → StepStatus → StepStatus
or_status none s = s
or_status (some s) _ = s

-- `replace(record, status=…, attempts=attempts, stopped_by=decision.stop)`
unfoldable pub decided : FlowRun → List FlowRun → RepeatDecision → FlowRecord
unfolding or_status
decided run attempts d = record {
  run = record run { status = or_status d.status run.status };
  attempts = attempts;
  stopped_by = d.stop;
}

retry_record : Option String → Dict FlowRecord → Option FlowRecord
unfolding lookup
retry_record none records = none
retry_record (some name) records = lookup name records

-- `max_attempts`
unfoldable pub max_attempts : Option RepeatPlan → ℕ
max_attempts none = 1
max_attempts (some r) = r.max_attempts

module _ (self : WorkflowRunner)
    (execute_flow : FlowCall → Run self (FlowRun × List DecisionIssue)) where
  unfoldable pub item_call : Caller → Item → FlowPlan → ℕ → Envelope → FlowCall
  item_call caller item flow attempt local = record {
    flow = flow;
    envelope = local;
    identity = caller.identity;
    deadline = caller.deadline;
    step_id = none;
    attempt = attempt;
    role = FlowRole.callable;
    collection_item = some item.id;
  }

  unfoldable pub item_attempt :
      Caller → Item → FlowPlan → ℕ → Fields → Scoped self (FlowRun × List DecisionIssue)
  unfolding scoped from_frozen item_call
  item_attempt caller item flow attempt inputs = do
    local ← lift (from_frozen (object inputs) caller.metadata)
    scoped self (execute_flow (item_call caller item flow attempt local))

  item_decision :
      Caller
      → Item
      → FlowPlan
      → RepeatPlan
      → Envelope
      → ℕ
      → List FlowRun
      → FlowRun
      → List DecisionIssue
      → Scoped self RepeatDecision
  unfolding insert repeat_decision decided
  item_decision caller item flow repeat scope attempt attempts run issues = do
    modify (λ s. record s {
      records =
          insert flow.name (record { run = run; attempts = attempts; stopped_by = none }) s.records;
    })
    decision ← repeat_decision self execute_flow (record {
      flow = flow;
      repeat = repeat;
      run = run;
      attempt = attempt;
      issues = issues;
      envelope = scope;
      identity = caller.identity;
      deadline = caller.deadline;
      item = some item;
    })
    modify (λ s. record s { records = insert flow.name (decided run attempts decision) s.records })
    pure decision

  -- the loop, with the number of attempts that are left, the number of the next one, and the runs
  unfoldable pub item_loop :
      Caller
      → Item
      → FlowPlan
      → RepeatPlan
      → Envelope
      → ℕ
      → ℕ
      → List FlowRun
      → Fields
      → Scoped self ItemRun
  unfolding item_attempt item_decision decided retry_record
  item_loop caller item flow repeat scope zero attempt runs inputs =
      raise_code invalid_configuration
  item_loop caller item flow repeat scope (suc left) attempt runs inputs = do
    (run, issues) ← item_attempt caller item flow attempt inputs
    let attempts = runs ++ (run ∷ [])
    decision ← item_decision caller item flow repeat scope attempt attempts run issues
    option_case decision.inputs
        (do
          retry ← gets (λ s. retry_record repeat.retry_flow s.records)
          pure (record {
            done = decided run attempts decision;
            retry = retry;
            failure = decision.failure;
          }))
        (item_loop caller item flow repeat scope left (attempt + 1) attempts)

  single_item : Caller → Item → FlowPlan → Scoped self ItemRun
  unfolding item_attempt
  single_item caller item flow = do
    (run, issues) ← item_attempt caller item flow 1 item.payload
    pure (record { done = plain_record run; retry = none; failure = none })

  item_runs : Caller → Item → FlowPlan → Scoped self ItemRun
  unfolding from_frozen single_item item_loop
  item_runs caller item flow = do
    scope ← lift (from_frozen (object item.payload) caller.metadata)
    option_case flow.repeat (single_item caller item flow)
        (λ repeat. item_loop caller item flow repeat scope repeat.max_attempts 1 [] item.payload)

  -- `_run_item`; the item's records start empty
  unfoldable pub run_item : Caller → ℕ → BatchItem → Run self ItemRun
  unfolding item_runs
  run_item caller index i shared =
      let (r, s) =
        item_runs caller (record { id = i.id; index = index; payload = i.payload }) i.flow
          (record { shared = shared; records = [] }) in
      (r, s.shared)
