-- ===== src/Core/Runner/Routed/Limit.antt =====
-- The step limit in `_run_routed`.
use foliqant.Prelude.{ℕ, ◌≡◌, refl, String, Option}
use foliqant.Core.Plan.{FlowPlan, Bindings}
use foliqant.Core.Execution.{FlowRecord}
use foliqant.Core.Exec.{modify}
use foliqant.Core.Exec.Keeps.{Keeps, Keeps-modify, Keeps-zoom}
use foliqant.Core.Runner.Self.{Envelope, WorkflowRunner}
use foliqant.Core.Runner.Ports.{Run, check_deadline}
use foliqant.Core.Runner.Ports.Limit.{Counts, IsWithin, check_deadline-IsWithin}
use foliqant.Core.Runner.Flow.{FlowCall}
use foliqant.Core.Runner.Repeat.{Scoped, Attempt, flow_input, repeat_decision}
use foliqant.Core.Runner.Repeat.Limit.{flow_input-Within, repeat_decision-Within}
use foliqant.Core.Runner.Collection.{execute_flow}
use foliqant.Core.Runner.Collection.Limit.{execute_flow-IsWithin}
use foliqant.Core.Runner.Routed.Frame.{IsFrame, run_routed-Keeps}
use foliqant.Core.Runner.Routed.{
  Request, RunState, in_run, in_scope, set_active, set_flow, run_routed,
}

module _ (self : WorkflowRunner) (calls : self.World → ℕ) (counts : Counts self calls)
    (base : ℕ) where
  abbrev pub Within : RunState self.World → Type 0
  Within s = IsWithin self calls base s.shared

  pub in_run-Within :
      {A : Type 0} (m : Run self A)
      → Keeps (IsWithin self calls base) m
      → Keeps Within (in_run self m)
  unfolding in_run
  in_run-Within m km = Keeps-zoom _ (λ t s. record s { shared = t }) m (λ t s. refl) km

  in_scope-Within :
      {A : Type 0} (m : Scoped self A)
      → Keeps (λ s. IsWithin self calls base s.shared) m
      → Keeps Within (in_scope self m)
  unfolding in_scope
  in_scope-Within m km =
      Keeps-zoom _ (λ t s. record s { shared = t.shared; records = t.records }) m (λ t s. refl) km

  pub modify-Within :
      (f : RunState self.World → RunState self.World)
      → ((s : RunState self.World) → (f s).shared ≡ s.shared)
      → Keeps Within (modify f)
  modify-Within f h = Keeps-modify f (λ s w. rw (h s) w)

  pub set_active-Within : (a : Option String) → Keeps Within (set_active self a)
  unfolding set_active
  set_active-Within a = search modify-Within

  pub set_flow-Within : (name : String) (r : FlowRecord) → Keeps Within (set_flow self name r)
  unfolding set_flow
  set_flow-Within name r = search modify-Within

  pub check_deadline-Within :
      (deadline : ℕ) → Keeps Within (in_run self (check_deadline self deadline))
  check_deadline-Within deadline =
      in_run-Within _ (check_deadline-IsWithin self calls counts base deadline)

  pub execute_flow-Within : (c : FlowCall) → Keeps Within (in_run self (execute_flow self c))
  execute_flow-Within c = in_run-Within _ (execute_flow-IsWithin self calls counts base c)

  flow_input-Keeps :
      (name : String) (b : Bindings) (e : Envelope)
      → Keeps Within (in_scope self (flow_input self name b e))
  flow_input-Keeps name b e = in_scope-Within _ (flow_input-Within self calls counts base name b e)

  repeat_decision-Keeps :
      (a : Attempt) → Keeps Within (in_scope self (repeat_decision self (execute_flow self) a))
  repeat_decision-Keeps a = in_scope-Within _ (
      repeat_decision-Within self calls counts base _ (execute_flow-IsWithin self calls counts base)
        a)

  Within-IsFrame : IsFrame self Within
  Within-IsFrame = record {
    deadline = check_deadline-Within;
    execute = execute_flow-Within;
    input = flow_input-Keeps;
    decision = repeat_decision-Keeps;
    active = set_active-Within;
    store = set_flow-Within;
  }

  pub run_routed-Within : (q : Request) (flow : FlowPlan) → Keeps Within (run_routed self q flow)
  run_routed-Within = run_routed-Keeps self Within Within-IsFrame
