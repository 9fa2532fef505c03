-- ===== src/Core/Runner/Items/Limit.antt =====
-- The step limit in `_run_item`.
use foliqant.Prelude.{ℕ, zero, suc, ◌+◌, ◌≡◌, List, []}
use foliqant.Core.Json.{Fields}
use foliqant.Core.Plan.{DecisionIssue, FlowPlan, RepeatPlan}
use foliqant.Core.Execution.{FlowRun}
use foliqant.Core.Exec.{modify}
use foliqant.Core.Exec.Keeps.{Keeps, keeps_rules, Keeps-modify}
use foliqant.Core.Runner.Self.{Envelope, WorkflowRunner}
use foliqant.Core.Runner.Ports.{Run}
use foliqant.Core.Runner.Ports.Limit.{Counts, IsWithin}
use foliqant.Core.Runner.Flow.{FlowCall}
use foliqant.Core.Runner.Repeat.{Item, Scope, scoped}
use foliqant.Core.Runner.Repeat.Limit.{scoped-Within, repeat_decision-Within}
use foliqant.Core.Runner.Items.{
  BatchItem, Caller, item_attempt, item_decision, item_loop, single_item, item_runs, run_item,
}

module _ (self : WorkflowRunner) (calls : self.World → ℕ) (counts : Counts self calls) (base : ℕ)
    (execute_flow : FlowCall → Run self (FlowRun × List DecisionIssue))
    (inner : (c : FlowCall) → Keeps (IsWithin self calls base) (execute_flow c)) where
  abbrev Within : Scope self.World → Type 0
  Within s = IsWithin self calls base s.shared

  modify-Within :
      (f : Scope self.World → Scope self.World)
      → ((s : Scope self.World) → (f s).shared ≡ s.shared)
      → Keeps Within (modify f)
  modify-Within f h = Keeps-modify f (λ s w. rw (h s) w)

  execute_flow-Within : (c : FlowCall) → Keeps Within (scoped self (execute_flow c))
  execute_flow-Within c = scoped-Within self calls counts base _ (inner c)

  item_attempt-Within :
      (caller : Caller) (item : Item) (flow : FlowPlan) (attempt : ℕ) (inputs : Fields)
      → Keeps Within (item_attempt self execute_flow caller item flow attempt inputs)
  unfolding item_attempt
  item_attempt-Within caller item flow attempt inputs = search (keeps_rules, execute_flow-Within)

  item_decision-Within :
      (caller : Caller) (item : Item) (flow : FlowPlan) (repeat : RepeatPlan) (scope : Envelope)
      (attempt : ℕ) (attempts : List FlowRun) (run : FlowRun) (issues : List DecisionIssue)
      → Keeps Within (
          item_decision self execute_flow caller item flow repeat scope attempt attempts run issues)
  unfolding item_decision
  item_decision-Within caller item flow repeat scope attempt attempts run issues =
      search
        (
          keeps_rules,
          modify-Within,
          repeat_decision-Within self calls counts base execute_flow inner,
        )
        depth 12

  item_loop-Within :
      (caller : Caller) (item : Item) (flow : FlowPlan) (repeat : RepeatPlan) (scope : Envelope)
      (left attempt : ℕ) (runs : List FlowRun) (inputs : Fields)
      → Keeps Within
          (item_loop self execute_flow caller item flow repeat scope left attempt runs inputs)
  unfolding item_loop
  item_loop-Within caller item flow repeat scope zero attempt runs inputs = search keeps_rules
  item_loop-Within caller item flow repeat scope (suc left) attempt runs inputs =
      search
        (
          keeps_rules,
          item_attempt-Within,
          item_decision-Within,
          item_loop-Within caller item flow repeat scope left (attempt + 1),
        )
        depth 12

  single_item-Within :
      (caller : Caller) (item : Item) (flow : FlowPlan)
      → Keeps Within (single_item self execute_flow caller item flow)
  unfolding single_item
  single_item-Within caller item flow = search (keeps_rules, item_attempt-Within)

  item_runs-Within :
      (caller : Caller) (item : Item) (flow : FlowPlan)
      → Keeps Within (item_runs self execute_flow caller item flow)
  unfolding item_runs
  item_runs-Within caller item flow =
      search (keeps_rules, single_item-Within, item_loop-Within) depth 12

  pub run_item-IsWithin :
      (caller : Caller) (index : ℕ) (i : BatchItem)
      → Keeps (IsWithin self calls base) (run_item self execute_flow caller index i)
  unfolding run_item
  run_item-IsWithin caller index i = record {
    at = λ shared h.
        let s : Scope self.World = record { shared = shared; records = [] } in
        (item_runs-Within caller (record { id = i.id; index = index; payload = i.payload })
            i.flow).at
          s h;
  }
