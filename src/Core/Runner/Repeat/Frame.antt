-- ===== src/Core/Runner/Repeat/Frame.antt =====
-- What `_repeat_decision` leaves alone: a property of what coroutines share that its calls keep.
use foliqant.Prelude.{ℕ, ◌≡◌, refl, String, Option, none, some, List, ◌⊎◌, inl, inr}
use foliqant.Core.Errors.{Exn}
use foliqant.Core.Json.{Fields}
use foliqant.Core.Plan.{DecisionIssue, FlowPlan, Bindings, ConditionPlan}
use foliqant.Core.Execution.{StepStatus, FlowRun, FlowRecord}
use foliqant.Core.Exec.{Exec, modify}
use foliqant.Core.Exec.Keeps.{Keeps, keeps_rules, Keeps-zoom, Keeps-modify, Keeps-catch}
use foliqant.Core.Runner.Self.{Envelope, FlowRole, WorkflowRunner, Shared}
use foliqant.Core.Runner.Ports.{Run, check_deadline, failure, check_flow_input}
use foliqant.Core.Runner.Flow.{FlowCall}
use foliqant.Core.Runner.Repeat.{
  RepeatDecision, Attempt, Scope, Scoped, scoped, scope_context, holds, flow_input, set_record,
  plan_flow, give_up, next_input, next_attempt, asks, after_retry, retry_call, run_retry,
  refuse_retry, after_refusal, prepare, start_retry, retry_then_next, repeat_decision, status_case,
}

-- The time keeps `P`.
pub record IsTimeless (self : WorkflowRunner) (P : Shared self.World → Type 0) : Type 0 where
  pub deadline : (d : ℕ) → Keeps P (check_deadline self d)
  pub failure : (d : ℕ) (e : Exn) → Keeps P (failure self d e)

module _ (self : WorkflowRunner) (P : Shared self.World → Type 0)
    (timeless : IsTimeless self P) where
  abbrev Held : Scope self.World → Type 0
  Held s = P s.shared

  pub scoped-Keeps : {A : Type 0} (m : Run self A) → Keeps P m → Keeps Held (scoped self m)
  unfolding scoped
  scoped-Keeps m km = Keeps-zoom _ (λ t s. record s { shared = t }) m (λ t s. refl) km

  modify-Keeps :
      (f : Scope self.World → Scope self.World)
      → ((s : Scope self.World) → (f s).shared ≡ s.shared)
      → Keeps Held (modify f)
  modify-Keeps f h = Keeps-modify f (λ s w. rw (h s) w)

  check_deadline-Keeps : (deadline : ℕ) → Keeps Held (scoped self (check_deadline self deadline))
  check_deadline-Keeps deadline = scoped-Keeps _ (timeless.deadline deadline)

  failure-Keeps : (deadline : ℕ) (e : Exn) → Keeps Held (scoped self (failure self deadline e))
  failure-Keeps deadline e = scoped-Keeps _ (timeless.failure deadline e)

  check_flow_input-Keeps :
      (name : String) (fs : Fields) → Keeps Held (scoped self (check_flow_input self name fs))
  check_flow_input-Keeps name fs = scoped-Keeps _ (search keeps_rules)

  holds-Keeps : (c : ConditionPlan) (e : Envelope) → Keeps Held (holds self c e)
  unfolding holds scope_context
  holds-Keeps c e = search keeps_rules depth 12

  pub flow_input-Keeps :
      (name : String) (b : Bindings) (e : Envelope) → Keeps Held (flow_input self name b e)
  unfolding flow_input scope_context
  flow_input-Keeps name b e = search (keeps_rules, check_flow_input-Keeps) depth 12

  set_record-Keeps : (name : String) (r : FlowRecord) → Keeps Held (set_record self name r)
  unfolding set_record
  set_record-Keeps name r = search modify-Keeps

  plan_flow-Keeps : (name : String) → Keeps Held (plan_flow self name)
  unfolding plan_flow
  plan_flow-Keeps name = search keeps_rules

  give_up-Keeps :
      (issues : List DecisionIssue) (deadline : ℕ) (e : Exn)
      → Keeps Held (give_up self issues deadline e)
  unfolding give_up
  give_up-Keeps issues deadline e = search (keeps_rules, failure-Keeps)

  next_input-Keeps : (a : Attempt) → Keeps Held (next_input self a)
  unfolding next_input scope_context
  next_input-Keeps a =
      search (keeps_rules, check_deadline-Keeps, flow_input-Keeps, check_flow_input-Keeps) depth 16

  next_attempt-Keeps : (a : Attempt) → Keeps Held (next_attempt self a)
  unfolding next_attempt
  next_attempt-Keeps a = search (keeps_rules, Keeps-catch, next_input-Keeps, give_up-Keeps) depth 12

  pub status_case-Keeps :
      {S A : Type 0} {P : S → Type 0} (status : StepStatus) (m n p : Exec S A)
      → Keeps P m
      → Keeps P n
      → Keeps P p
      → Keeps P (status_case status m n p)
  status_case-Keeps StepStatus.completed m n p km kn kp = kp
  status_case-Keeps StepStatus.needs_review m n p km kn kp = kn
  status_case-Keeps StepStatus.failed m n p km kn kp = km
  status_case-Keeps StepStatus.cancelled m n p km kn kp = kp
  status_case-Keeps StepStatus.skipped m n p km kn kp = kp

  module _ (execute_flow : FlowCall → Run self (FlowRun × List DecisionIssue))
      (inner : (c : FlowCall) → c.role ≡ FlowRole.retry → Keeps P (execute_flow c)) where
    execute_flow-Keeps :
        (a : Attempt) (retry : FlowPlan) (local : Envelope)
        → Keeps Held (scoped self (execute_flow (retry_call self execute_flow a retry local)))
    unfolding retry_call
    execute_flow-Keeps a retry local = scoped-Keeps _ (inner _ refl)

    asks-Keeps : (o : Option ConditionPlan) (e : Envelope) → Keeps Held (asks self execute_flow o e)
    unfolding asks
    asks-Keeps none e = search keeps_rules
    asks-Keeps (some c) e = holds-Keeps c e

    after_retry-Keeps :
        (a : Attempt) (r : FlowRun) (issues : List DecisionIssue)
        → Keeps Held (after_retry self execute_flow a r issues)
    unfolding after_retry
    after_retry-Keeps a r issues =
        search (keeps_rules, status_case-Keeps, asks-Keeps, next_attempt-Keeps) depth 12

    run_retry-Keeps :
        (a : Attempt) (retry : FlowPlan) (runs : List FlowRun) (inputs : Fields)
        → Keeps Held (run_retry self execute_flow a retry runs inputs)
    unfolding run_retry
    run_retry-Keeps a retry runs inputs =
        search (keeps_rules, execute_flow-Keeps, set_record-Keeps, after_retry-Keeps) depth 12

    refuse_retry-Keeps :
        (a : Attempt) (retry : FlowPlan) (runs : List FlowRun) (e : Exn)
        → Keeps Held (refuse_retry self execute_flow a retry runs e)
    unfolding refuse_retry
    refuse_retry-Keeps a retry runs e =
        search (keeps_rules, failure-Keeps, set_record-Keeps) depth 12

    after_refusal-Keeps :
        (o : RepeatDecision ⊎ Fields) (f : Fields → Scoped self RepeatDecision)
        → ((inputs : Fields) → Keeps Held (f inputs))
        → Keeps Held (after_refusal self execute_flow o f)
    after_refusal-Keeps (inl d) f kf = search keeps_rules
    after_refusal-Keeps (inr inputs) f kf = kf inputs

    start_retry-Keeps :
        (a : Attempt) (retry : FlowPlan) (runs : List FlowRun)
        → Keeps Held (start_retry self execute_flow a retry runs)
    unfolding start_retry prepare
    start_retry-Keeps a retry runs =
        search
          (
            keeps_rules, Keeps-catch, flow_input-Keeps, refuse_retry-Keeps, after_refusal-Keeps,
            run_retry-Keeps,
          )
          depth 16

    retry_then_next-Keeps :
        (a : Attempt) (name : Option String) → Keeps Held (retry_then_next self execute_flow a name)
    unfolding retry_then_next
    retry_then_next-Keeps a none = next_attempt-Keeps a
    retry_then_next-Keeps a (some name) =
        search (keeps_rules, plan_flow-Keeps, start_retry-Keeps) depth 12

    pub repeat_decision-Keeps : (a : Attempt) → Keeps Held (repeat_decision self execute_flow a)
    unfolding repeat_decision
    repeat_decision-Keeps a =
        search (keeps_rules, status_case-Keeps, holds-Keeps, retry_then_next-Keeps) depth 12
