-- ===== src/Core/Runner/Repeat/Reasons.antt =====
-- `_repeat_decision` of core/runner.py: the reasons why a repeat stops.
use foliqant.Prelude.{
  ℕ, leb, ltb, arith, ◌&&◌, ◌≡◌, refl, Bool, true, false, not, Option, none, some, is_some, List,
  String, ◌⊎◌, inl, inr,
}
use foliqant.Core.Errors.{Exn, Failure}
use foliqant.Core.Json.{Fields}
use foliqant.Core.Plan.{DecisionIssue, FlowPlan}
use foliqant.Core.Execution.{StepStatus, RepeatStop, FlowRun}
use foliqant.Core.Exec.{Exec, pure}
use foliqant.Core.Exec.Yields.{
  Yields, Yields-pure, Yields-if, Yields-catch, Yields-then, Yields-bind,
}
use foliqant.Core.Runner.Self.{WorkflowRunner}
use foliqant.Core.Runner.Ports.{Run}
use foliqant.Core.Runner.Flow.{FlowCall}
use foliqant.Core.Runner.Repeat.{
  RepeatDecision, Attempt, Scoped, stop_with, failed_with, give_up, next_attempt, after_retry,
  run_retry, refuse_retry, after_refusal, flow_input, prepare, start_retry, retry_then_next,
  repeat_decision, status_case,
}

unfoldable pub is_exhausted : Option RepeatStop → Bool
is_exhausted (some RepeatStop.exhausted) = true
is_exhausted _ = false

-- Either the repeat stops for a reason, or there is a next input; and it is exhausted only after
-- the last attempt that the plan allows.
pub record IsDecision (a : Attempt) (d : RepeatDecision) : Type 0 where
  pub either : is_some d.inputs ≡ not (is_some d.stop)
  pub last : (is_exhausted d.stop && ltb a.attempt a.repeat.max_attempts) ≡ false

stops :
    (a : Attempt) (d : RepeatDecision)
    → is_some d.inputs ≡ not (is_some d.stop)
    → is_exhausted d.stop ≡ false
    → IsDecision a d
stops a d e h = record { either = e; last = rw h refl }

not_below : (n m : ℕ) → leb m n ≡ true → ltb n m ≡ false
not_below n m h = ground arith

module _ (self : WorkflowRunner) where
  give_up-IsDecision :
      (a : Attempt) (issues : List DecisionIssue) (deadline : ℕ) (e : Exn)
      → Yields (IsDecision a) (give_up self issues deadline e)
  unfolding give_up failed_with stop_with is_exhausted
  give_up-IsDecision a issues deadline e =
      Yields-then _ _ (λ error. Yields-pure _ (stops a _ refl refl))

  next_attempt-IsDecision : (a : Attempt) → Yields (IsDecision a) (next_attempt self a)
  unfolding next_attempt is_exhausted
  next_attempt-IsDecision a =
      Yields-catch _ _ (Yields-then _ _ (λ inputs. Yields-pure _ (stops a _ refl refl)))
        (give_up-IsDecision a a.issues a.deadline)

  status_case-Yields :
      {S A : Type 0} {Q : A → Type 0} (status : StepStatus) (m n p : Exec S A)
      → Yields Q m
      → Yields Q n
      → Yields Q p
      → Yields Q (status_case status m n p)
  status_case-Yields StepStatus.completed m n p ym yn yp = yp
  status_case-Yields StepStatus.needs_review m n p ym yn yp = yn
  status_case-Yields StepStatus.failed m n p ym yn yp = ym
  status_case-Yields StepStatus.cancelled m n p ym yn yp = yp
  status_case-Yields StepStatus.skipped m n p ym yn yp = yp

  module _ (execute_flow : FlowCall → Run self (FlowRun × List DecisionIssue)) where
    after_retry-IsDecision :
        (a : Attempt) (r : FlowRun) (issues : List DecisionIssue)
        → Yields (IsDecision a) (after_retry self execute_flow a r issues)
    unfolding after_retry failed_with stop_with is_exhausted
    after_retry-IsDecision a r issues =
        status_case-Yields r.status _ _ _ (Yields-pure _ (stops a _ refl refl))
          (Yields-pure _ (stops a _ refl refl))
          (Yields-then _ _ (λ proceeds.
            Yields-if proceeds _ _ (λ _. next_attempt-IsDecision a)
              (λ _.
                Yields-pure (stop_with RepeatStop.continue_when a.issues) (stops a _ refl refl))))

    run_retry-IsDecision :
        (a : Attempt) (retry : FlowPlan) (runs : List FlowRun) (inputs : Fields)
        → Yields (IsDecision a) (run_retry self execute_flow a retry runs inputs)
    unfolding run_retry
    run_retry-IsDecision a retry runs inputs = search (Yields-then, after_retry-IsDecision)

    abbrev Prepared : Attempt → RepeatDecision ⊎ Fields → Type 0
    Prepared a (inl d) = IsDecision a d
    Prepared a (inr inputs) = Unit

    failed_with-Prepared :
        {S : Type 0} (a : Attempt) (issues : List DecisionIssue) (e : Option Failure)
        → Yields {S = S} (Prepared a) (pure (inl (failed_with issues e)))
    unfolding failed_with stop_with is_exhausted
    failed_with-Prepared a issues e =
        Yields-pure (inl (failed_with issues e)) (stops a (failed_with issues e) refl refl)

    refuse_retry-Prepared :
        (a : Attempt) (retry : FlowPlan) (runs : List FlowRun) (e : Exn)
        → Yields (Prepared a) (refuse_retry self execute_flow a retry runs e)
    unfolding refuse_retry
    refuse_retry-Prepared a retry runs e = search (Yields-then, failed_with-Prepared)

    refused :
        (a : Attempt) (o : RepeatDecision ⊎ Fields) (f : Fields → Scoped self RepeatDecision)
        → Prepared a o
        → ((inputs : Fields) → Yields (IsDecision a) (f inputs))
        → Yields (IsDecision a) (after_refusal self execute_flow o f)
    refused a (inl d) f q yf = Yields-pure d q
    refused a (inr inputs) f q yf = yf inputs

    prepare-Prepared :
        (a : Attempt) (retry : FlowPlan) (runs : List FlowRun)
        → Yields (Prepared a) (prepare self execute_flow a retry runs)
    unfolding prepare
    prepare-Prepared a retry runs =
        Yields-catch _ (refuse_retry self execute_flow a retry runs)
          (Yields-then (flow_input self retry.name a.repeat.retry_flow_input a.envelope) _
            (λ inputs. Yields-pure (inr inputs) tt))
          (refuse_retry-Prepared a retry runs)

    start_retry-IsDecision :
        (a : Attempt) (retry : FlowPlan) (runs : List FlowRun)
        → Yields (IsDecision a) (start_retry self execute_flow a retry runs)
    unfolding start_retry
    start_retry-IsDecision a retry runs =
        Yields-bind (prepare self execute_flow a retry runs) _ (prepare-Prepared a retry runs)
          (λ o q.
            refused a o (run_retry self execute_flow a retry runs) q
              (run_retry-IsDecision a retry runs))

    retry_then_next-IsDecision :
        (a : Attempt) (name : Option String)
        → Yields (IsDecision a) (retry_then_next self execute_flow a name)
    unfolding retry_then_next
    retry_then_next-IsDecision a none = next_attempt-IsDecision a
    retry_then_next-IsDecision a (some name) = search (Yields-then, start_retry-IsDecision)

    -- After each attempt either the repeat stops with a reason, or the next attempt has an input;
    -- the reason is "exhausted" only if the attempt was the last that `max_attempts` allows.
    pub repeat_decision_lem :
        (a : Attempt) → Yields (IsDecision a) (repeat_decision self execute_flow a)
    unfolding repeat_decision stop_with is_exhausted
    repeat_decision_lem a =
        status_case-Yields a.run.status _ _ _ (Yields-pure _ (stops a _ refl refl))
          (Yields-pure _ (stops a _ refl refl))
          (Yields-then _ _ (λ finished.
            Yields-if finished _ _
              (λ _. Yields-pure (stop_with RepeatStop.until a.issues) (stops a _ refl refl))
              (λ _.
                Yields-if (leb a.repeat.max_attempts a.attempt) _ _
                  (λ full. Yields-pure (stop_with RepeatStop.exhausted a.issues) (record {
                    either = refl;
                    last = not_below a.attempt a.repeat.max_attempts full;
                  }))
                  (λ _. retry_then_next-IsDecision a a.repeat.retry_flow))))
