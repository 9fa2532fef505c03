-- ===== src/Core/Runner/Flow/Limit.antt =====
-- The step limit in `_execute_flow`.
use foliqant.Prelude.{
  ℕ, ◌-◌, ◌≡◌, refl, arith, String, Bool, true, false, Option, none, some, List, [], ◌∷◌, leb, inl,
  inr, Bool-cases,
}
use foliqant.Core.Errors.{Exn, Failure}
use foliqant.Core.Json.{Fields, FrozenJson}
use foliqant.Core.Usage.{Usage}
use foliqant.Core.Budget.{StepBudget}
use foliqant.Core.Plan.{CompiledStep, StepKind, DecisionIssue}
use foliqant.Core.Execution.{StepRecord}
use foliqant.Core.Exec.{Raised, returned, raised, ◌>>=◌, gets, modify, throw, pure}
use foliqant.Core.Exec.Keeps.{
  Keeps, keeps_rules, Keeps-zoom, Keeps-modify, Keeps-bind, Keeps-pure, Keeps-catch, Takes,
  Takes-zoom, Takes-before, Takes-after, Keeps-Takes, Leads, Leads-bind, Leads-zoom,
}
use foliqant.Core.Runner.Self.{WorkflowRunner, StepContext, OutcomeObject}
use foliqant.Core.Runner.Ports.{Run, now, sleep, check_deadline, run_executor, failure, translated}
use foliqant.Core.Runner.Ports.Limit.{
  Counts, IsWithin, HasCredit, HasCredit-IsWithin, now-IsWithin, now-HasCredit, sleep-IsWithin,
  check_deadline-IsWithin, failure-IsWithin, translated-IsWithin, run_executor-IsWithin,
}
use foliqant.Core.Runner.Flow.{
  FlowCall, Locals, Control, next_step, break, control_case, step_context, Batch, Body, outer,
  context, guard, consume, activate, step_inputs, add_step_usage, resume, settle, take_step,
  in_locals, locals, ended, flow_run, perform, keep_result, pause_for_review, adapter_step,
  after_collection, collection_step, run_kind, run_step, run_steps, flow_output, close_active,
  fail_flow, flow_body, execute_flow_with,
}

module _ (self : WorkflowRunner) (calls : self.World → ℕ) (counts : Counts self calls)
    (base : ℕ) where
  abbrev Within : Locals self.World → Type 0
  Within s = IsWithin self calls base s.shared

  abbrev Credit : Locals self.World → Type 0
  Credit s = HasCredit self calls base s.shared

  spent : (s : Locals self.World) → Credit s → Within s
  spent s h = HasCredit-IsWithin self calls counts base s.shared h

  consume-Leads : Leads (IsWithin self calls base) (HasCredit self calls base) (consume self)
  unfolding consume ◌>>=◌ gets modify throw pure
  consume-Leads = record {
    at = λ s h. elim (Bool-cases (leb self.limits.max_steps s.consumed)) [
      | inl full ↦ rw full h
      | inr open_step ↦
          rw open_step (record { steps = ground arith; covered = omega (arith, h.covered) })
    ];
  }

  outer-Within :
      {A : Type 0} (m : Run self A)
      → Keeps (IsWithin self calls base) m
      → Keeps Within (outer self m)
  unfolding outer
  outer-Within m km = Keeps-zoom _ (λ t s. record s { shared = t }) m (λ t s. refl) km

  outer-Takes :
      {A : Type 0} (m : Run self A)
      → Takes (HasCredit self calls base) (IsWithin self calls base) m
      → Takes Credit Within (outer self m)
  unfolding outer
  outer-Takes m tm = Takes-zoom _ (λ t s. record s { shared = t }) m (λ t s. refl) tm

  outer-Credit :
      {A : Type 0} (m : Run self A)
      → Keeps (HasCredit self calls base) m
      → Keeps Credit (outer self m)
  unfolding outer
  outer-Credit m km = Keeps-zoom _ (λ t s. record s { shared = t }) m (λ t s. refl) km

  modify-Within :
      (f : Locals self.World → Locals self.World)
      → ((s : Locals self.World) → (f s).shared ≡ s.shared)
      → Keeps Within (modify f)
  modify-Within f h = Keeps-modify f (λ s w. rw (h s) w)

  modify-Credit :
      (f : Locals self.World → Locals self.World)
      → ((s : Locals self.World) → (f s).shared ≡ s.shared)
      → Keeps Credit (modify f)
  modify-Credit f h = Keeps-modify f (λ s w. rw (h s) w)

  now-Within : Keeps Within (outer self (now self))
  now-Within = outer-Within _ (now-IsWithin self calls counts base)

  now-Credit : Keeps Credit (outer self (now self))
  now-Credit = outer-Credit _ (now-HasCredit self calls counts base)

  check_deadline-Within : (deadline : ℕ) → Keeps Within (outer self (check_deadline self deadline))
  check_deadline-Within deadline =
      outer-Within _ (check_deadline-IsWithin self calls counts base deadline)

  sleep-Within : Keeps Within (outer self (sleep self))
  sleep-Within = outer-Within _ (sleep-IsWithin self calls counts base)

  outer-Leads : Leads Within Credit (outer self (consume self))
  unfolding outer
  outer-Leads =
      Leads-zoom _ (λ t s. record s { shared = t }) (consume self) (λ t s. refl) consume-Leads

  guard-Within : (c : FlowCall) (step : CompiledStep) → Keeps Within (guard self c step)
  unfolding guard context
  guard-Within c step = search keeps_rules depth 12

  activate-Credit : (step : CompiledStep) → Keeps Credit (activate self step)
  unfolding activate
  activate-Credit step = search (keeps_rules, now-Credit, modify-Credit)

  step_inputs-Credit : (c : FlowCall) (step : CompiledStep) → Keeps Credit (step_inputs self c step)
  unfolding step_inputs context
  step_inputs-Credit c step = search keeps_rules depth 12

  add_step_usage-Within : (u : Usage) → Keeps Within (add_step_usage self u)
  unfolding add_step_usage
  add_step_usage-Within u = search (keeps_rules, modify-Within)

  resume-Within : {A : Type 0} (r : Raised A) → Keeps Within (resume self r)
  unfolding resume
  resume-Within (returned a) = search keeps_rules
  resume-Within (raised e) = search keeps_rules

  translated-Within :
      (deadline : ℕ) (r : Raised OutcomeObject)
      → Keeps Within (outer self (translated self deadline r))
  translated-Within deadline r =
      outer-Within _ (translated-IsWithin self calls counts base deadline r)

  settle-Within :
      (c : FlowCall) (a : Raised OutcomeObject × StepBudget) → Keeps Within (settle self c a)
  unfolding settle
  settle-Within c (r, budget) =
      search (keeps_rules, translated-Within, add_step_usage-Within, resume-Within) depth 12

  perform-Takes :
      (c : FlowCall) (step : CompiledStep) (inputs : Fields) (ctx : StepContext)
      → Takes Credit Within (perform self c step inputs ctx)
  unfolding perform
  perform-Takes c step inputs ctx =
      Takes-after (outer self (run_executor self step inputs ctx)) (settle self c)
        (outer-Takes _ (run_executor-IsWithin self calls counts base step inputs ctx))
        (settle-Within c)

  keep_result-Within :
      (step_id : Option String) (v : FrozenJson) → Keeps Within (keep_result self step_id v)
  unfolding keep_result
  keep_result-Within none v = search keeps_rules
  keep_result-Within (some _) v = search modify-Within

  pause_for_review-Within :
      (b : Bool) (issues : List DecisionIssue) → Keeps Within (pause_for_review self b issues)
  unfolding pause_for_review
  pause_for_review-Within true issues = search (keeps_rules, modify-Within)
  pause_for_review-Within false issues = search keeps_rules

  adapter_step-Takes :
      (c : FlowCall) (step : CompiledStep) (inputs : Fields)
      → Takes Credit Within (adapter_step self c step inputs)
  unfolding adapter_step
  adapter_step-Takes c step inputs =
      Takes-after (perform self c step inputs (step_context self c step)) _
        (perform-Takes c step inputs _)
        (λ a.
          search
            (
              keeps_rules, check_deadline-Within, now-Within, modify-Within, keep_result-Within,
              pause_for_review-Within,
            )
            depth 20)

  after_collection-Within :
      (c : FlowCall) (r : StepRecord) → Keeps Within (after_collection self c r)
  unfolding after_collection
  after_collection-Within c r = search (keeps_rules, modify-Within, keep_result-Within)

  close_active-Within :
      (error : Failure) (active : Option String) → Keeps Within (close_active self error active)
  unfolding close_active
  close_active-Within error none = search keeps_rules
  close_active-Within error (some name) = search (keeps_rules, now-Within, modify-Within)

  failure-Within : (deadline : ℕ) (e : Exn) → Keeps Within (outer self (failure self deadline e))
  failure-Within deadline e = outer-Within _ (failure-IsWithin self calls counts base deadline e)

  fail_flow-Within : (c : FlowCall) (e : Exn) → Keeps Within (fail_flow self c e)
  unfolding fail_flow
  fail_flow-Within c e =
      search (keeps_rules, failure-Within, modify-Within, close_active-Within) depth 12

  flow_output-Within : (c : FlowCall) → Keeps Within (flow_output self c)
  unfolding flow_output context
  flow_output-Within c = search (keeps_rules, modify-Within) depth 20

  control_case-Within :
      (control : Control) (m : Body self (Unit {0}))
      → Keeps Within m
      → Keeps Within (control_case self control m)
  control_case-Within next_step m km = km
  control_case-Within break m km = search keeps_rules

  module _ (collection : Batch → Run self StepRecord)
      (inner : (b : Batch) → Keeps (IsWithin self calls base) (collection b)) where
    collection-Within : (b : Batch) → Keeps Within (outer self (collection b))
    collection-Within b = outer-Within _ (inner b)

    collection_step-Within :
        (c : FlowCall) (step : CompiledStep) (flows : List String) (max_items : ℕ) (inputs : Fields)
        → Keeps Within (collection_step self collection c step flows max_items inputs)
    unfolding collection_step
    collection_step-Within c step flows max_items inputs =
        search
          (
            keeps_rules, collection-Within, modify-Within, add_step_usage-Within,
            after_collection-Within,
          )
          depth 12

    run_kind-Takes :
        (c : FlowCall) (step : CompiledStep) (kind : StepKind) (inputs : Fields)
        → Takes Credit Within (run_kind self collection c step kind inputs)
    unfolding run_kind
    run_kind-Takes c step (StepKind.flow_collection items flows max_items) inputs =
        Keeps-Takes _ (collection_step-Within c step flows max_items inputs) spent
    run_kind-Takes c step (StepKind.decision _) inputs = adapter_step-Takes c step inputs
    run_kind-Takes c step (StepKind.llm _) inputs = adapter_step-Takes c step inputs
    run_kind-Takes c step (StepKind.mcp _) inputs = adapter_step-Takes c step inputs
    run_kind-Takes c step (StepKind.handler _) inputs = adapter_step-Takes c step inputs

    take_step-Takes :
        (c : FlowCall) (step : CompiledStep)
        → Takes Credit Within (take_step self collection c step)
    unfolding take_step
    take_step-Takes c step = Takes-before _ _ (activate-Credit step) spent (λ _.
        Takes-before _ _ (step_inputs-Credit c step) spent
          (λ inputs. run_kind-Takes c step step.kind inputs))

    consumed_step-Within :
        (c : FlowCall) (step : CompiledStep)
        → Keeps Within (outer self (consume self) >>= λ _. take_step self collection c step)
    consumed_step-Within c step = Leads-bind _ _ outer-Leads (λ _. take_step-Takes c step)

    run_step-Within :
        (c : FlowCall) (step : CompiledStep) → Keeps Within (run_step self collection c step)
    unfolding run_step
    run_step-Within c step =
        search
          (keeps_rules, sleep-Within, check_deadline-Within, guard-Within, consumed_step-Within)
          depth 12

    run_steps-Within :
        (c : FlowCall) (steps : List CompiledStep)
        → Keeps Within (run_steps self collection c steps)
    unfolding run_steps
    run_steps-Within c [] = search keeps_rules
    run_steps-Within c (step ∷ steps) =
        Keeps-bind _ _ (run_step-Within c step)
          (λ control. control_case-Within control _ (run_steps-Within c steps))

    flow_body-Within : (c : FlowCall) → Keeps Within (flow_body self collection c)
    unfolding flow_body
    flow_body-Within c =
        search (keeps_rules, Keeps-catch, run_steps-Within, flow_output-Within, fail_flow-Within)

    ended-IsWithin :
        (r : Raised (Unit {0})) (s : Locals self.World)
        → Within s
        → IsWithin self calls base (ended self (r, s)).1
    unfolding ended
    ended-IsWithin (returned _) s h = h
    ended-IsWithin (raised _) s h = h

    in_locals-IsWithin :
        (c : FlowCall) (started : ℕ)
        → Keeps (IsWithin self calls base) (in_locals self collection c started)
    unfolding in_locals locals
    in_locals-IsWithin c started = record {
      at = λ shared h.
          let begun = locals self c started shared in
          ended-IsWithin _ _ ((flow_body-Within c).at begun h);
    }

    pub execute_flow_with-IsWithin :
        (c : FlowCall) → Keeps (IsWithin self calls base) (execute_flow_with self collection c)
    unfolding execute_flow_with
    execute_flow_with-IsWithin c = Keeps-bind _ _ (now-IsWithin self calls counts base) (λ started.
        Keeps-bind _ _ (in_locals-IsWithin c started) (λ s.
          Keeps-bind _ _ (now-IsWithin self calls counts base)
            (λ t. Keeps-pure (flow_run self s (t - started), s.issues))))
