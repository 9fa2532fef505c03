-- ===== src/Core/Runner/Flow/Outcome.antt =====
-- How `_execute_flow` of core/runner.py ends.
use foliqant.Prelude.{
  inl, inr, Bool-cases, ℕ, ◌-◌, ◌≡◌, refl, String, false, Option, none, some, List, Dict, insert,
}
use foliqant.Core.Errors.{Exn, service, timeout, other, cancelled, Failure}
use foliqant.Core.Json.{null}
use foliqant.Core.Plan.{DecisionIssue}
use foliqant.Core.Execution.{StepStatus, StepRecord, FlowRun}
use foliqant.Core.Exec.{
  Raised, returned, raised, Exec, ◌>>◌, pure, gets, modify, zoom, ◌>>=◌, continue, catch,
  handle_raised,
}
use foliqant.Core.Runner.Self.{WorkflowRunner, Shared}
use foliqant.Core.Runner.Ports.{Run, now, is_timeout, failure}
use foliqant.Core.Runner.Flow.{
  FlowCall, Locals, Batch, outer, failed_step, close_active, fail_flow, flow_tried, flow_body,
  ended, locals, in_locals, flow_run, execute_flow_with,
}

-- The record of a step that an exception interrupted.
pub record IsClosed (cause : Failure) (r : StepRecord) : Type 0 where
  pub status : r.status ≡ StepStatus.failed
  pub error : r.error ≡ some cause
  pub has_result : r.has_result ≡ false

-- The records of the steps after an exception: the active step's is closed, where there is one.
abbrev pub ClosesActive : Failure → Option String → Dict StepRecord → Dict StepRecord → Type 0
ClosesActive error none before after = after ≡ before
ClosesActive error (some name) before after =
    (r : StepRecord) × (after ≡ insert name r before) × IsClosed error r

module _ (self : WorkflowRunner) where
  -- After the exception `e` with the local variables `s`, `_execute_flow` returned a failed record:
  -- its error is what `_failure` makes of the exception, and it has no result.
  pub record IsFailed (c : FlowCall) (e : Exn) (s : Locals self.World)
      (out : Raised (FlowRun × List DecisionIssue)) : Type 0 where
    pub run : FlowRun
    pub is_returned : out ≡ returned (run, s.issues)
    pub error : Failure
    pub is_failure : (failure self c.deadline e s.shared).0 ≡ returned error
    pub has_error : run.error ≡ some error
    pub status : run.status ≡ StepStatus.failed
    pub result : run.result ≡ null
    pub has_result : run.has_result ≡ false
    pub steps : ClosesActive error s.active s.records run.steps

  -- The record of a flow whose steps raised nothing.
  pub record IsRecorded (s : Locals self.World) (out : Raised (FlowRun × List DecisionIssue))
      : Type 0 where
    pub run : FlowRun
    pub is_returned : out ≡ returned (run, s.issues)
    pub status : run.status ≡ s.status
    pub steps : run.steps ≡ s.records
    pub result : run.result ≡ s.result
    pub error : run.error ≡ s.error

  -- How the call ends, by how what the `try` statement guards ended.
  abbrev pub EndsAs :
      FlowCall
      → Raised (Unit {0}) × Locals self.World
      → Raised (FlowRun × List DecisionIssue)
      → Type 0
  EndsAs c (returned _, s) out = IsRecorded s out
  EndsAs c (raised cancelled, s) out = out ≡ raised cancelled
  EndsAs c (raised e, s) out = IsFailed c e s out

  failure-returns :
      (deadline : ℕ) (e : Exn) (s : Shared self.World)
      → (error : Failure) × ((failure self deadline e s).0 ≡ returned error)
  unfolding failure now ◌>>=◌ pure
  failure-returns deadline e s = elim (Bool-cases (is_timeout self e)) [
    | inl late ↦ rw late (_, refl)
    | inr early ↦ rw early (_, refl)
  ]

  module _ (c : FlowCall) (started : ℕ) where
    -- after the `try` statement
    finish : Raised (Locals self.World) → Run self (FlowRun × List DecisionIssue)
    finish = continue (λ s. do t ← now self; pure (flow_run self s (t - started), s.issues))

    after_body : Raised (Unit {0}) × Locals self.World → Raised (FlowRun × List DecisionIssue)
    after_body x = let (r, shared) = ended self x in (finish r shared).0

    -- what follows the call of `_failure` in the `except` clause
    record_failure : Raised Failure → Exec (Locals self.World) (Unit {0})
    record_failure = continue (λ error. do
      modify (λ s. record s { status = StepStatus.failed; error = some error; result = null })
      active ← gets (λ s. s.active)
      close_active self error active)

    module _ (e : Exn) (s : Locals self.World) where
      in_shared : Shared self.World → Locals self.World
      in_shared t = record s { shared = t }

      closing-IsFailed :
          (error : Failure) (t : Shared self.World) (active : Option String)
          → s.active ≡ active
          → (failure self c.deadline e s.shared).0 ≡ returned error
          → IsFailed c e s (after_body (record_failure (returned error) (in_shared t)))
      unfolding close_active now outer zoom ended flow_run failed_step ◌>>=◌ modify gets pure
          after_body finish record_failure in_shared
      closing-IsFailed error t none q p = rw q (record {
        run = _;
        is_returned = refl;
        error = error;
        is_failure = p;
        has_error = refl;
        status = refl;
        result = refl;
        has_result = refl;
        steps = refl;
      })
      closing-IsFailed error t (some name) q p = rw q (record {
        run = _;
        is_returned = refl;
        error = error;
        is_failure = p;
        has_error = refl;
        status = refl;
        result = refl;
        has_result = refl;
        steps = (_, refl, record { status = refl; error = refl; has_result = refl });
      })

      recording-IsFailed :
          (x : Raised Failure × Shared self.World) (error : Failure)
          → x.0 ≡ returned error
          → (failure self c.deadline e s.shared).0 ≡ x.0
          → IsFailed c e s (after_body (record_failure x.0 (in_shared x.1)))
      recording-IsFailed (raised e', t) error q p = absurd (cc q)
      recording-IsFailed (returned error', t) error q p = closing-IsFailed error' t s.active refl p

      fail_flow-IsFailed : IsFailed c e s (after_body (fail_flow self c e s))
      unfolding fail_flow outer zoom ◌>>=◌ record_failure in_shared
      fail_flow-IsFailed =
          let (error, q) = failure-returns c.deadline e s.shared in
          recording-IsFailed (failure self c.deadline e s.shared) error q refl

    handled-EndsAs :
        (r : Raised (Unit {0})) (s : Locals self.World)
        → EndsAs c (r, s) (after_body (handle_raised (λ e. fail_flow self c e) r s))
    unfolding after_body finish ended flow_run now ◌>>=◌ pure
    handled-EndsAs (returned _) s = record {
      run = _;
      is_returned = refl;
      status = refl;
      steps = refl;
      result = refl;
      error = refl;
    }
    handled-EndsAs (raised cancelled) s = refl
    handled-EndsAs (raised (service e)) s = fail_flow-IsFailed (service e) s
    handled-EndsAs (raised timeout) s = fail_flow-IsFailed timeout s
    handled-EndsAs (raised other) s = fail_flow-IsFailed other s

  module _ (collection : Batch → Run self StepRecord) where
    -- what the `try` statement of a call guards, run
    abbrev pub guarded : FlowCall → Shared self.World → Raised (Unit {0}) × Locals self.World
    guarded c shared =
        let (started, w) = self.clock shared.world in
        flow_tried self collection c (locals self c started (record shared { world = w }))

    -- `_execute_flow` ends as what its `try` statement guards does. If that raised nothing, the
    -- record has the status, steps, result and error that it left. If that raised a cancellation,
    -- so does the call. After any other exception the call returns a failed record without a
    -- result, whose error is what `_failure` makes of the exception; the active step's record, if
    -- there is one, becomes a failed record with that error, and the other records stay.
    pub execute_flow_with-EndsAs :
        (c : FlowCall) (shared : Shared self.World)
        → EndsAs c (guarded c shared) (execute_flow_with self collection c shared).0
    unfolding execute_flow_with in_locals flow_body catch now ◌>>=◌ after_body finish
    execute_flow_with-EndsAs c shared =
        let (started, w) = self.clock shared.world in
        let (r, s) = guarded c shared in handled-EndsAs c started r s
