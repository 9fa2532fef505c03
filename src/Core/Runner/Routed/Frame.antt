-- ===== src/Core/Runner/Routed/Frame.antt =====
-- What `_run_routed` leaves alone: a property of the run's state that its parts keep.
use foliqant.Prelude.{ℕ, zero, suc, ◌+◌, String, Option, List}
use foliqant.Core.Errors.{Failure}
use foliqant.Core.Json.{Fields}
use foliqant.Core.Plan.{DecisionIssue, FlowPlan, RepeatPlan, Bindings}
use foliqant.Core.Execution.{FlowRun, FlowRecord}
use foliqant.Core.Exec.Keeps.{Keeps, keeps_rules}
use foliqant.Core.Runner.Self.{Envelope, WorkflowRunner}
use foliqant.Core.Runner.Ports.{check_deadline}
use foliqant.Core.Runner.Flow.{FlowCall}
use foliqant.Core.Runner.Repeat.{Attempt, flow_input, repeat_decision}
use foliqant.Core.Runner.Collection.{execute_flow}
use foliqant.Core.Runner.Routed.{
  Request, RunState, in_run, in_scope, set_active, set_flow, run_context, routed_attempt,
  select_boundary, routed_decision, routed_loop, single_run, run_routed,
}

-- The parts of `_run_routed` that change the run's state keep `P`.
pub record IsFrame (self : WorkflowRunner) (P : RunState self.World → Type 0) : Type 0 where
  pub deadline : (d : ℕ) → Keeps P (in_run self (check_deadline self d))
  pub execute : (c : FlowCall) → Keeps P (in_run self (execute_flow self c))
  pub input :
      (name : String) (b : Bindings) (e : Envelope)
      → Keeps P (in_scope self (flow_input self name b e))
  pub decision :
      (a : Attempt) → Keeps P (in_scope self (repeat_decision self (execute_flow self) a))
  pub active : (a : Option String) → Keeps P (set_active self a)
  pub store : (name : String) (r : FlowRecord) → Keeps P (set_flow self name r)

module _ (self : WorkflowRunner) (P : RunState self.World → Type 0) (frame : IsFrame self P) where
  routed_attempt-Keeps :
      (q : Request) (flow : FlowPlan) (attempt : ℕ) (inputs : Fields)
      → Keeps P (routed_attempt self q flow attempt inputs)
  unfolding routed_attempt
  routed_attempt-Keeps q flow attempt inputs =
      search (keeps_rules, frame.active, frame.execute) depth 12

  select_boundary-Keeps :
      (q : Request) (flow : FlowPlan) (r : FlowRecord) (failure : Option Failure)
      (issues : List DecisionIssue)
      → Keeps P (select_boundary self q flow r failure issues)
  unfolding select_boundary run_context
  select_boundary-Keeps q flow r failure issues = search (keeps_rules, frame.active) depth 12

  routed_decision-Keeps :
      (q : Request) (flow : FlowPlan) (repeat : RepeatPlan) (attempt : ℕ) (attempts : List FlowRun)
      (run : FlowRun) (issues : List DecisionIssue)
      → Keeps P (routed_decision self q flow repeat attempt attempts run issues)
  unfolding routed_decision
  routed_decision-Keeps q flow repeat attempt attempts run issues =
      search (keeps_rules, frame.store, frame.decision) depth 12

  routed_loop-Keeps :
      (q : Request) (flow : FlowPlan) (repeat : RepeatPlan) (remaining attempt : ℕ)
      (runs : List FlowRun) (inputs : Fields)
      → Keeps P (routed_loop self q flow repeat remaining attempt runs inputs)
  unfolding routed_loop
  routed_loop-Keeps q flow repeat zero attempt runs inputs = search keeps_rules
  routed_loop-Keeps q flow repeat (suc remaining) attempt runs inputs =
      search
        (
          keeps_rules,
          routed_attempt-Keeps,
          routed_decision-Keeps,
          select_boundary-Keeps,
          routed_loop-Keeps q flow repeat remaining (attempt + 1),
        )
        depth 12

  single_run-Keeps :
      (q : Request) (flow : FlowPlan) (inputs : Fields) → Keeps P (single_run self q flow inputs)
  unfolding single_run
  single_run-Keeps q flow inputs =
      search (keeps_rules, routed_attempt-Keeps, frame.store, select_boundary-Keeps) depth 12

  pub run_routed-Keeps : (q : Request) (flow : FlowPlan) → Keeps P (run_routed self q flow)
  unfolding run_routed
  run_routed-Keeps q flow =
      search
        (
          keeps_rules, frame.deadline, frame.active, frame.input, single_run-Keeps,
          routed_loop-Keeps,
        )
        depth 12
