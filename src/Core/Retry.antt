-- ===== src/Core/Retry.antt =====
-- core/retry.py: the loop that repeats an operation after a transient failure. Times are ticks of
-- the event loop's clock.
pub mod Attempts
pub mod Causes
use foliqant.Prelude.{
  ℕ, zero, suc, ◌+◌, ◌-◌, ◌*◌, ◌^◌, ◌≡◌, refl, min, max, Bool, true, false, ◌&&◌, ◌||◌, Option,
  none, some, leb, ltb, ◌==◌, if◌then◌else◌,
}
use foliqant.Core.Errors.{
  ErrorCode, ServiceError, service_error, request_timeout, model_request_limit_reached,
  tool_call_limit_reached,
}

pub record RetryPolicy : Type 0 where
  pub max_attempts : ℕ
  pub initial_delay_seconds : ℕ
  pub max_delay_seconds : ℕ

-- the tests of `RetryPolicy.__post_init__`, with the ticks of a second
unfoldable pub valid_policy : ℕ → RetryPolicy → Bool
valid_policy second p =
    leb 1 p.max_attempts
    && leb p.max_attempts 8
    && leb p.initial_delay_seconds (60 * second)
    && leb p.max_delay_seconds (300 * second)
    && leb p.initial_delay_seconds p.max_delay_seconds

pub record TransientFailure : Type 0 where
  pub error : ServiceError
  pub retry_after_seconds : Option ℕ

-- what a coroutine may raise; `unreachable` is the assertion after the loop
pub data Raise : Type 0 where
  transient : TransientFailure → Raise
  service : ServiceError → Raise
  unclassified cancelled unreachable : Raise

pub data Attempted (A : Type 0) : Type 0 where
  returned : A → Attempted A
  raised : Raise → Attempted A

-- the end of `async with asyncio.timeout_at(end): await asyncio.sleep(delay)`
pub data Slept : Type 0 where
  slept timed_out interrupted : Slept

-- What the loop calls: the operation, the deadline, the event loop's clock, `random.uniform(0, cap)`
-- and the sleep that ends at a deadline. `World` is what they act on.
pub record Ports (World A : Type 0) : Type 0 where
  pub operation : ℕ → World → Attempted A × World
  pub deadline : World → ℕ × World
  pub clock : World → ℕ × World
  pub uniform : ℕ → World → ℕ × World
  pub sleep : ℕ → ℕ → World → Slept × World

-- `error.code in _ATTEMPT_LIMITS`
unfoldable pub is_attempt_limit : ErrorCode → Bool
is_attempt_limit model_request_limit_reached = true
is_attempt_limit tool_call_limit_reached = true
is_attempt_limit _ = false

abbrev pub or_zero : Option ℕ → ℕ
or_zero none = 0
or_zero (some seconds) = seconds

-- `except ServiceError`, with the last transient failure
unfoldable pub reported : Option TransientFailure → ServiceError → Raise
reported none e = service e
reported (some last) e = if is_attempt_limit e.code then transient last else service e

module _ {World A : Type 0} (self : Ports World A) (policy : RetryPolicy) where
  unfoldable pub cap : ℕ → ℕ
  cap attempt = min policy.max_delay_seconds (policy.initial_delay_seconds * 2 ^ (attempt - 1))

  -- after the sleep: the next round of the loop
  unfoldable pub after_sleep : (World → Attempted A × World) → Slept × World → Attempted A × World
  after_sleep next (slept, w) = next w
  after_sleep next (timed_out, w) = (raised (service (service_error request_timeout)), w)
  after_sleep next (interrupted, w) = (raised cancelled, w)

  -- the wait after a failed attempt that was not the last
  unfoldable pub wait :
      (World → Attempted A × World) → TransientFailure → ℕ → World → Attempted A × World
  unfolding after_sleep
  wait next failure drawn w =
      let delay = max drawn (or_zero failure.retry_after_seconds) in
      let (end, w1) = self.deadline w in
      let (now, w2) = self.clock w1 in
      if ltb policy.max_delay_seconds delay
      then (raised (transient failure), w1)
      else (if leb end (now + delay)
          then (raised (transient failure), w2)
          else after_sleep next (self.sleep end delay w2))

  -- the `except` clauses
  unfoldable pub after_attempt :
      (Option TransientFailure → World → Attempted A × World)
      → ℕ
      → Option TransientFailure
      → Attempted A × World
      → Attempted A × World
  unfolding cap wait reported
  after_attempt next attempt last (returned a, w) = (returned a, w)
  after_attempt next attempt last (raised (transient failure), w) =
      let (drawn, w1) = self.uniform (cap attempt) w in
      if attempt == policy.max_attempts
      then (raised (transient failure), w)
      else wait (next (some failure)) failure drawn w1
  after_attempt next attempt last (raised (service e), w) = (raised (reported last e), w)
  after_attempt next attempt last (raised other, w) = (raised other, w)

  -- the loop, with the attempts that are left
  unfoldable pub attempts : ℕ → ℕ → Option TransientFailure → World → Attempted A × World
  unfolding after_attempt
  attempts zero attempt last w = (raised unreachable, w)
  attempts (suc left) attempt last w =
      let (end, w1) = self.deadline w in
      let (now, w2) = self.clock w1 in
      let run =
        after_attempt (attempts left (attempt + 1)) attempt last (self.operation attempt w2) in
      if leb end now then (raised (service (service_error request_timeout)), w2) else run

  -- one round
  pub attempts-suc :
      (left attempt : ℕ) (last : Option TransientFailure) (w : World)
      → let w1 = (self.deadline w).1 in
        let w2 = (self.clock w1).1 in
        attempts (suc left) attempt last w ≡ (
          if leb (self.deadline w).0 (self.clock w1).0
          then (raised (service (service_error request_timeout)), w2)
          else after_attempt (attempts left (attempt + 1)) attempt last (self.operation attempt w2))
  unfolding attempts
  attempts-suc left attempt last w = refl

  unfoldable pub retry : World → Attempted A × World
  unfolding attempts
  retry = attempts policy.max_attempts 1 none
