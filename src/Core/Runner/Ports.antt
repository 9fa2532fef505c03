-- ===== src/Core/Runner/Ports.antt =====
-- What a run asks of the outside in core/runner.py: the time, the executor and the validator.
pub mod Limit
use foliqant.Prelude.{
  ℕ, String, Bool, true, false, not, ◌&&◌, Option, none, some, leb, if◌then◌else◌,
}
use foliqant.Core.Errors.{
  ErrorCode, run_timeout, dependency_failure, Exn, service, timeout, other, cancelled, ServiceError,
  service_error, Failure, failure_of, failure_of_code, is_timeout_code, timeout_code,
}
use foliqant.Core.Json.{Fields, object}
use foliqant.Core.Budget.{StepBudget, new_budget}
use foliqant.Core.Plan.{CompiledStep}
use foliqant.Core.Exec.{Raised, returned, raised, Exec, pure, throw, ◌>>=◌, ◌>>◌, raise_when, call}
use foliqant.Core.Runner.Self.{WorkflowRunner, Shared, StepContext, OutcomeObject}

module _ (self : WorkflowRunner) where
  abbrev pub Run : Type 0 → Type 0
  Run A = Exec (Shared self.World) A

  -- `asyncio.get_running_loop().time()`
  unfoldable pub now : Run ℕ
  now s = let (t, w) = self.clock s.world in (returned t, record s { world = w })

  -- `await asyncio.sleep(0)`
  unfoldable pub sleep : Run (Unit {0})
  sleep s = let (r, w) = self.pause s.world in (r, record s { world = w })

  -- `if time() >= deadline: raise ServiceError(RUN_TIMEOUT)`
  unfoldable pub check_deadline : ℕ → Run (Unit {0})
  unfolding now
  check_deadline deadline = do t ← now; raise_when (leb deadline t) run_timeout

  -- `self._validator.validate_flow_input`
  abbrev pub check_flow_input : String → Fields → Run (Unit {0})
  check_flow_input name inputs = call (self.validate_flow_input name (object inputs))

  -- the executor's `execute` on a fresh budget, which comes back with what it raised or returned
  unfoldable pub run_executor :
      CompiledStep → Fields → StepContext → Run (Raised OutcomeObject × StepBudget)
  unfolding new_budget
  run_executor step inputs context s =
      let budget = new_budget self.limits.model_requests_per_step self.limits.tool_calls_per_step in
      let (r, budget', w) = self.execute step inputs context budget s.world in
      (returned (r, budget'), record s { world = w })

  -- a timeout that no retry of the step's own can mend
  unfoldable pub is_timeout : Exn → Bool
  unfolding is_timeout_code
  is_timeout (service e) = is_timeout_code e.code && not e.retryable
  is_timeout timeout = true
  is_timeout _ = false

  -- `_failure`
  recorded : Exn → Failure
  unfolding failure_of failure_of_code
  recorded (service e) = failure_of e
  recorded _ = failure_of_code dependency_failure

  unfoldable pub failure : ℕ → Exn → Run Failure
  unfolding now is_timeout recorded timeout_code failure_of_code
  failure deadline e =
      if is_timeout e
      then (do t ← now; pure (failure_of_code (timeout_code t deadline)))
      else pure (recorded e)

  -- the two `except` clauses around the executor's call
  unfoldable pub translated : ℕ → Raised OutcomeObject → Run (Raised OutcomeObject)
  unfolding now is_timeout timeout_code
  translated deadline (raised timeout) = pure (raised (service (service_error run_timeout)))
  translated deadline (raised (service e)) =
      if is_timeout (service e)
      then (do t ← now; pure (raised (service (service_error (timeout_code t deadline)))))
      else pure (raised (service e))
  translated deadline r = pure r
