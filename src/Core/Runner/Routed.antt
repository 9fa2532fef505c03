-- ===== src/Core/Runner/Routed.antt =====
-- `WorkflowRunner._run_routed`: the attempts of a routed flow, then its boundary target.
pub mod Frame
pub mod Limit
use foliqant.Prelude.{
  ℕ, zero, suc, ◌+◌, String, Bool, true, false, ◌||◌, Option, none, some, List, [], ◌∷◌, ◌++◌,
  is_some, if◌then◌else◌, Dict, insert,
}
use foliqant.Core.Errors.{ErrorCode, invalid_configuration, Failure}
use foliqant.Core.Json.{FrozenJson, object, Fields}
use foliqant.Core.Plan.{DecisionIssue, Outcome, TransitionTargetPlan, FlowPlan, RepeatPlan}
use foliqant.Core.Execution.{
  RunStatus, FlowRun, FlowRecord, plain_record, TransitionRecord, StartRecord,
}
use foliqant.Core.Exec.{Exec, pure, gets, ◌>>=◌, ◌>>◌, modify, raise_code, lift, zoom, option_case}
use foliqant.Core.Runner.Self.{Envelope, from_frozen, Identity, FlowRole, WorkflowRunner, Shared}
use foliqant.Core.Runner.Contexts.{workflow_context}
use foliqant.Core.Runner.Ports.{Run, check_deadline}
use foliqant.Core.Runner.Flow.{FlowCall}
use foliqant.Core.Runner.Repeat.{
  Scope, Scoped, RepeatDecision, Attempt, flow_input, repeat_decision,
}
use foliqant.Core.Runner.Items.{decided}
use foliqant.Core.Runner.Collection.{execute_flow, failed_status}
use foliqant.Core.Runner.Routing.{boundary_target}

-- The arguments of `_run`.
pub record Request : Type 0 where
  pub envelope : Envelope
  pub identity : Identity
  pub deadline : ℕ

-- The records and the active flow of `_Invocation`, and the local variables of `_run`.
pub record RunState (W : Type 0) : Type 0 where
  pub shared : Shared W
  pub records : Dict FlowRecord
  pub active : Option String
  pub transitions : List TransitionRecord
  pub payload : FrozenJson
  pub status : RunStatus
  pub error : Option Failure
  pub start : Option StartRecord

-- `_Routed`: the run ends here, or a target was selected
pub data Routed : Type 0 where
  stopped : FlowRecord → Option Failure → Routed
  left : FlowRecord → TransitionTargetPlan → TransitionRecord → Routed

module _ (self : WorkflowRunner) where
  abbrev pub Engine : Type 0 → Type 0
  Engine A = Exec (RunState self.World) A

  unfoldable pub in_run : {A : Type 0} → Run self A → Engine A
  unfolding zoom
  in_run = zoom (λ s. s.shared) (λ t s. record s { shared = t })

  -- an action on the records of the workflow
  unfoldable pub in_scope : {A : Type 0} → Scoped self A → Engine A
  unfolding zoom
  in_scope =
      zoom (λ s. record { shared = s.shared; records = s.records })
        (λ t s. record s { shared = t.shared; records = t.records })

  unfoldable pub set_active : Option String → Engine (Unit {0})
  set_active a = modify (λ s. record s { active = a })

  unfoldable pub set_flow : String → FlowRecord → Engine (Unit {0})
  unfolding insert
  set_flow name r = modify (λ s. record s { records = insert name r s.records })

  unfoldable pub run_context : Envelope → Engine FrozenJson
  unfolding workflow_context
  run_context e = gets (λ s. workflow_context e s.records)

  routed_call : Request → FlowPlan → ℕ → Envelope → FlowCall
  routed_call q flow attempt local = record {
    flow = flow;
    envelope = local;
    identity = q.identity;
    deadline = q.deadline;
    step_id = none;
    attempt = attempt;
    role = FlowRole.routed;
    collection_item = none;
  }

  -- one attempt
  routed_attempt : Request → FlowPlan → ℕ → Fields → Engine (FlowRun × List DecisionIssue)
  unfolding set_active from_frozen in_run execute_flow routed_call
  routed_attempt q flow attempt inputs = do
    set_active (some flow.name)
    local ← lift (from_frozen (object inputs) q.envelope.metadata)
    in_run (execute_flow self (routed_call q flow attempt local))

  -- what follows the last attempt
  select_boundary :
      Request → FlowPlan → FlowRecord → Option Failure → List DecisionIssue → Engine Routed
  unfolding set_active run_context failed_status boundary_target
  select_boundary q flow r failure issues = do
    set_active none
    if failed_status r.status || is_some failure then pure (stopped r failure) else (do
      scope ← run_context q.envelope
      (target, transition) ← lift (boundary_target flow r.status issues scope)
      pure (left r target transition))

  routed_decision :
      Request
      → FlowPlan
      → RepeatPlan
      → ℕ
      → List FlowRun
      → FlowRun
      → List DecisionIssue
      → Engine RepeatDecision
  unfolding set_flow in_scope repeat_decision execute_flow decided
  routed_decision q flow repeat attempt attempts run issues = do
    set_flow flow.name (record { run = run; attempts = attempts; stopped_by = none })
    decision ← in_scope (
        repeat_decision self (execute_flow self) (record {
          flow = flow;
          repeat = repeat;
          run = run;
          attempt = attempt;
          issues = issues;
          envelope = q.envelope;
          identity = q.identity;
          deadline = q.deadline;
          item = none;
        }))
    set_flow flow.name (decided run attempts decision)
    pure decision

  -- the loop of a flow with `repeat`
  unfoldable pub routed_loop :
      Request → FlowPlan → RepeatPlan → ℕ → ℕ → List FlowRun → Fields → Engine Routed
  unfolding routed_attempt routed_decision decided select_boundary
  routed_loop q flow repeat zero attempt runs inputs = raise_code invalid_configuration
  routed_loop q flow repeat (suc remaining) attempt runs inputs = do
    (run, issues) ← routed_attempt q flow attempt inputs
    let attempts = runs ++ (run ∷ [])
    decision ← routed_decision q flow repeat attempt attempts run issues
    option_case decision.inputs
        (select_boundary q flow (decided run attempts decision) decision.failure decision.issues)
        (routed_loop q flow repeat remaining (attempt + 1) attempts)

  single_run : Request → FlowPlan → Fields → Engine Routed
  unfolding routed_attempt set_flow select_boundary
  single_run q flow inputs = do
    (run, issues) ← routed_attempt q flow 1 inputs
    set_flow flow.name (plain_record run)
    select_boundary q flow (plain_record run) none issues

  -- `_run_routed`
  unfoldable pub run_routed : Request → FlowPlan → Engine Routed
  unfolding in_run check_deadline set_active in_scope flow_input single_run routed_loop
  run_routed q flow = do
    in_run (check_deadline self q.deadline)
    set_active (some flow.name)
    inputs ← in_scope (flow_input self flow.name flow.input q.envelope)
    option_case flow.repeat (single_run q flow inputs)
        (λ repeat. routed_loop q flow repeat repeat.max_attempts 1 [] inputs)
