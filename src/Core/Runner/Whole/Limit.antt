-- ===== src/Core/Runner/Whole/Limit.antt =====
-- The step limit in `_run`.
use foliqant.Prelude.{ℕ, zero, suc, ◌≡◌, String, Option, none, some, List, [], ◌∷◌, Dict}
use foliqant.Core.Errors.{Exn, Failure}
use foliqant.Core.Usage.{Usage}
use foliqant.Core.Plan.{Outcome, FlowPlan}
use foliqant.Core.Execution.{FlowRecord}
use foliqant.Core.Exec.{modify}
use foliqant.Core.Exec.Keeps.{Keeps, keeps_rules, Keeps-catch}
use foliqant.Core.Runner.Self.{WorkflowRunner}
use foliqant.Core.Runner.Ports.{check_deadline, failure}
use foliqant.Core.Runner.Ports.Limit.{Counts, IsWithin, failure-IsWithin}
use foliqant.Core.Runner.Routed.{
  Request, Routed, stopped, left, Engine, RunState, in_run, run_context, set_active, set_flow,
  run_routed,
}
use foliqant.Core.Runner.Flow.{FlowCall}
use foliqant.Core.Runner.Collection.{execute_flow}
use foliqant.Core.Runner.Routed.Limit.{
  Within, in_run-Within, modify-Within, set_active-Within, set_flow-Within, check_deadline-Within,
  execute_flow-Within, run_routed-Within,
}
use foliqant.Core.Runner.Whole.{
  Entry, whole, only_flow, add_usages, or_other, add_name, enter_flow, set_outcome, fail_run,
  after_routed, flow_loop, unreached, single_flow, workflow_output, run_entry, close_flow, recover,
  run_guarded, finished, initial_state, run_all,
}

pub add_usages-Keeps :
    {S : Type 0} {P : S → Type 0} (total : Usage) (records : Dict FlowRecord)
    → Keeps P (add_usages total records)
unfolding add_usages
add_usages-Keeps {S} {P} total [] = search keeps_rules
add_usages-Keeps {S} {P} total ((name, r) ∷ records) =
    search (keeps_rules, λ (u : Usage). add_usages-Keeps {P = P} u records)

pub or_other-Keeps : {S A : Type 0} {P : S → Type 0} (o : Option A) → Keeps P (or_other {S = S} o)
unfolding or_other
or_other-Keeps none = search keeps_rules
or_other-Keeps (some a) = search keeps_rules

module _ (self : WorkflowRunner) (calls : self.World → ℕ) (counts : Counts self calls)
    (base : ℕ) where
  abbrev Held : RunState self.World → Type 0
  Held = Within self calls counts base

  kept :
      (f : RunState self.World → RunState self.World)
      → ((s : RunState self.World) → (f s).shared ≡ s.shared)
      → Keeps Held (modify f)
  kept = modify-Within self calls counts base

  checked : (deadline : ℕ) → Keeps Held (in_run self (check_deadline self deadline))
  checked = check_deadline-Within self calls counts base

  executed : (c : FlowCall) → Keeps Held (in_run self (execute_flow self c))
  executed = execute_flow-Within self calls counts base

  activated : (a : Option String) → Keeps Held (set_active self a)
  activated = set_active-Within self calls counts base

  stored : (name : String) (r : FlowRecord) → Keeps Held (set_flow self name r)
  stored = set_flow-Within self calls counts base

  explained : (deadline : ℕ) (e : Exn) → Keeps Held (in_run self (failure self deadline e))
  explained deadline e =
      in_run-Within self calls counts base _ (failure-IsWithin self calls counts base deadline e)

  module _ (q : Request) where
    enter_flow-Within :
        (visited : List String) (current : String) → Keeps Held (enter_flow self q visited current)
    unfolding enter_flow
    enter_flow-Within visited current = search keeps_rules

    set_outcome-Within : (o : Option Outcome) → Keeps Held (set_outcome self q o)
    unfolding set_outcome
    set_outcome-Within none = search keeps_rules
    set_outcome-Within (some o) = search kept

    fail_run-Within : (e : Option Failure) → Keeps Held (fail_run self q e)
    unfolding fail_run
    fail_run-Within e = search kept

    after_routed-Within :
        (r : Routed) (f : String → Engine self (Unit {0}))
        → ((next : String) → Keeps Held (f next))
        → Keeps Held (after_routed self q r f)
    unfolding after_routed
    after_routed-Within (stopped r error) f kf = fail_run-Within _
    after_routed-Within (left r target transition) f kf =
        search (keeps_rules, kept, set_outcome-Within, kf) depth 12

    routed-Within : (flow : FlowPlan) → Keeps Held (run_routed self q flow)
    routed-Within flow = run_routed-Within self calls counts base q flow

    flow_loop-Within :
        (remaining : ℕ) (visited : List String) (current : String)
        → Keeps Held (flow_loop self q (unreached self q) remaining visited current)
    unfolding flow_loop
    flow_loop-Within zero visited current = search keeps_rules
    flow_loop-Within (suc remaining) visited current =
        search
          (
            keeps_rules,
            checked,
            enter_flow-Within,
            routed-Within,
            after_routed-Within,
            flow_loop-Within remaining (add_name current visited),
          )
          depth 16

    single_flow-Within :
        (name : String) (step_id : Option String) → Keeps Held (single_flow self q name step_id)
    unfolding single_flow
    single_flow-Within name step_id =
        search
          (
            keeps_rules, checked, enter_flow-Within, activated, executed, stored, fail_run-Within,
            kept,
          )
          depth 20

    workflow_output-Within : Keeps Held (workflow_output self q)
    unfolding workflow_output run_context
    workflow_output-Within = search (keeps_rules, kept) depth 16

    run_entry-Within : (entry : Entry) → Keeps Held (run_entry self q entry)
    unfolding run_entry
    run_entry-Within whole =
        search (keeps_rules, kept, flow_loop-Within, workflow_output-Within) depth 12
    run_entry-Within (only_flow name step_id) = single_flow-Within name step_id

    close_flow-Within :
        (error : Failure) (active : Option String) → Keeps Held (close_flow self q error active)
    unfolding close_flow
    close_flow-Within error none = search keeps_rules
    close_flow-Within error (some name) = search (keeps_rules, or_other-Keeps, stored) depth 12

    recover-Within : (e : Exn) → Keeps Held (recover self q e)
    unfolding recover
    recover-Within e = search (keeps_rules, explained, kept, close_flow-Within) depth 12

    run_guarded-Within : (entry : Entry) → Keeps Held (run_guarded self q entry)
    unfolding run_guarded
    run_guarded-Within entry =
        search (keeps_rules, Keeps-catch, run_entry-Within, checked, recover-Within) depth 12

    finished-Within : (entry : Entry) → Keeps Held (finished self q entry)
    unfolding finished
    finished-Within entry = search (keeps_rules, run_guarded-Within, add_usages-Keeps) depth 12

    pub run_all-IsWithin : (entry : Entry) → Keeps (IsWithin self calls base) (run_all self q entry)
    unfolding run_all initial_state
    run_all-IsWithin entry = record {
      at = λ shared h. (finished-Within entry).at (initial_state self q entry shared) h;
    }
