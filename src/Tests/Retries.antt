-- ===== src/Tests/Retries.antt =====
-- A retry of core/retry.py in a small world: a clock, the attempts so far and the longest sleep.
use foliqant.Prelude.{
  ℕ, ◌+◌, ◌≤◌, max, ◌≡◌, ◌≢◌, refl, inl, inr, ◌==◌, if◌then◌else◌, Bool-cases, arith, some,
}
use foliqant.Core.Errors.{service_error, rate_limited}
use foliqant.Core.Retry.{
  RetryPolicy, valid_policy, Ports, Attempted, returned, raised, transient, unreachable, slept,
  retry,
}
use foliqant.Core.Retry.Attempts.{Within, Steps, retry-Within}
use foliqant.Core.Retry.Causes.{Begins, retry-Begins}

record Lab : Type 0 where
  now : ℕ
  calls : ℕ
  longest : ℕ

abbrev twice : RetryPolicy
twice = record { max_attempts = 3; initial_delay_seconds = 2; max_delay_seconds = 5 }

abbrev limited : Attempted ℕ
limited =
    raised (transient (record { error = service_error rate_limited; retry_after_seconds = some 4 }))

-- the first attempt is limited, the others return their number
abbrev answer : ℕ → Attempted ℕ
answer n = if n == 1 then limited else returned n

answer_reached : (n : ℕ) → answer n ≢ raised unreachable
answer_reached n e = elim (Bool-cases (n == 1)) [
  | inl one ↦ cc (rw one at e)
  | inr more ↦ cc (rw more at e)
]

abbrev lab : Ports Lab ℕ
lab = record {
  operation = λ attempt w. (answer attempt, record w { now = w.now + 1; calls = w.calls + 1 });
  deadline = λ w. (100, w);
  clock = λ w. (w.now, w);
  uniform = λ cap w. (cap, w);
  sleep = λ end delay w. (slept, record w { now = w.now + delay; longest = max w.longest delay });
}

abbrev start : Lab
start = record { now = 10; calls = 0; longest = 0 }

retry_second_test :
    retry lab twice start ≡ (returned 2, record { now = 16; calls = 2; longest = 4 })
unfolding retry
retry_second_test = refl

abbrev Count : ℕ → Lab → Type 0
Count k w = (w.calls ≡ k) × (w.longest ≤ 5)

lab-Steps : Steps lab twice Count
lab-Steps = record {
  run = λ k w q. (omega arith, q.1);
  no_assertion = λ k w. answer_reached k;
  deadline = λ k w q. q;
  clock = λ k w q. q;
  uniform = λ k c w q. q;
  sleep = λ k end now delay w h e q. (q.0, omega arith);
}

retry-Within_example : Within Count 3 (retry lab twice start)
unfolding valid_policy
retry-Within_example = retry-Within lab twice Count 1 start lab-Steps refl (refl, omega arith)

retry-Begins_example : Begins lab start (retry lab twice start)
unfolding valid_policy
retry-Begins_example = retry-Begins lab twice 1 start refl
