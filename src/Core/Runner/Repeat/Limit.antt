-- ===== src/Core/Runner/Repeat/Limit.antt =====
-- The step limit in `_repeat_decision`.
use foliqant.Prelude.{ℕ, List, String}
use foliqant.Core.Plan.{DecisionIssue, Bindings}
use foliqant.Core.Execution.{FlowRun}
use foliqant.Core.Exec.Keeps.{Keeps}
use foliqant.Core.Runner.Self.{Envelope, WorkflowRunner}
use foliqant.Core.Runner.Ports.{Run}
use foliqant.Core.Runner.Ports.Limit.{Counts, IsWithin, check_deadline-IsWithin, failure-IsWithin}
use foliqant.Core.Runner.Flow.{FlowCall}
use foliqant.Core.Runner.Repeat.{Attempt, Scope, scoped, flow_input, repeat_decision}
use foliqant.Core.Runner.Repeat.Frame.{
  IsTimeless, scoped-Keeps, flow_input-Keeps, repeat_decision-Keeps,
}

module _ (self : WorkflowRunner) (calls : self.World → ℕ) (counts : Counts self calls)
    (base : ℕ) where
  abbrev Within : Scope self.World → Type 0
  Within s = IsWithin self calls base s.shared

  IsWithin-IsTimeless : IsTimeless self (IsWithin self calls base)
  IsWithin-IsTimeless = record {
    deadline = check_deadline-IsWithin self calls counts base;
    failure = failure-IsWithin self calls counts base;
  }

  pub scoped-Within :
      {A : Type 0} (m : Run self A)
      → Keeps (IsWithin self calls base) m
      → Keeps Within (scoped self m)
  scoped-Within m km = scoped-Keeps self (IsWithin self calls base) IsWithin-IsTimeless m km

  pub flow_input-Within :
      (name : String) (b : Bindings) (e : Envelope) → Keeps Within (flow_input self name b e)
  flow_input-Within = flow_input-Keeps self (IsWithin self calls base) IsWithin-IsTimeless

  pub repeat_decision-Within :
      (execute_flow : FlowCall → Run self (FlowRun × List DecisionIssue))
      → ((c : FlowCall) → Keeps (IsWithin self calls base) (execute_flow c))
      → (a : Attempt) → Keeps Within (repeat_decision self execute_flow a)
  repeat_decision-Within execute_flow inner =
      repeat_decision-Keeps self (IsWithin self calls base) IsWithin-IsTimeless execute_flow
        (λ c _. inner c)
