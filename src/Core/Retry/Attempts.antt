-- ===== src/Core/Retry/Attempts.antt =====
-- The attempts and the waits of `retry` of core/retry.py.
use foliqant.Prelude.{
  ℕ, zero, suc, ◌+◌, ◌≤◌, ◌<◌, max, ◌≡◌, ◌≢◌, refl, inl, inr, arith, true, Option, none, some, leb,
  ltb, ◌==◌, Bool-cases,
}
use foliqant.Core.Errors.{ServiceError}
use foliqant.Core.Retry.{
  reported, RetryPolicy, TransientFailure, Ports, Attempted, returned, raised, Raise, transient,
  service, unclassified, cancelled, unreachable, Slept, slept, timed_out, interrupted, or_zero,
  after_sleep, wait, after_attempt, attempts, attempts-suc, retry, valid_policy,
}

-- Some number of attempts within `bound` has the state, and the loop did not fall through.
pub record Within {World A : Type 0} (Q : ℕ → World → Type 0) (bound : ℕ) (r : Attempted A × World)
    : Type 0 where
  pub made : ℕ
  pub bounded : made ≤ bound
  pub state : Q made r.1
  pub reached : r.0 ≢ raised unreachable

reported-reached :
    (last : Option TransientFailure) (e : ServiceError) → reported last e ≢ unreachable
unfolding reported
reported-reached last e h = ground arith

-- `Q k` holds after `k` attempts: what each call does to it. A sleep has to keep it only where it is
-- within the policy and ends before the deadline that was read.
pub record Steps {World A : Type 0} (self : Ports World A) (policy : RetryPolicy)
    (Q : ℕ → World → Type 0) : Type 0 where
  pub run : (k : ℕ) (w : World) → Q k w → Q (k + 1) (self.operation (k + 1) w).1
  pub no_assertion : (k : ℕ) (w : World) → (self.operation k w).0 ≢ raised unreachable
  pub deadline : (k : ℕ) (w : World) → Q k w → Q k (self.deadline w).1
  pub clock : (k : ℕ) (w : World) → Q k w → Q k (self.clock w).1
  pub uniform : (k c : ℕ) (w : World) → Q k w → Q k (self.uniform c w).1
  pub sleep :
      (k end now delay : ℕ) (w : World)
      → delay ≤ policy.max_delay_seconds
      → now + delay < end
      → Q k w
      → Q k (self.sleep end delay w).1

module _ {World A : Type 0} (self : Ports World A) (policy : RetryPolicy) (Q : ℕ → World → Type 0)
    (steps : Steps self policy Q) where
  abbrev Good : Attempted A × World → Type 0
  Good = Within Q policy.max_attempts

  abbrev Next : ℕ → (World → Attempted A × World) → Type 0
  Next k next = (w : World) → Q k w → Good (next w)

  ends :
      (r : Raise) (k : ℕ) (w : World)
      → k ≤ policy.max_attempts
      → r ≢ unreachable
      → Q k w
      → Good (raised r, w)
  ends r k w b u q = record { made = k; bounded = b; state = q; reached = λ e. u (cc e) }

  after_sleep-Within :
      (next : World → Attempted A × World) (k : ℕ) (r : Slept × World)
      → k ≤ policy.max_attempts
      → Next k next
      → Q k r.1
      → Good (after_sleep self policy next r)
  unfolding after_sleep
  after_sleep-Within next k (slept, w) b h q = h w q
  after_sleep-Within next k (timed_out, w) b h q = ends (service _) k w b (λ e. cc) q
  after_sleep-Within next k (interrupted, w) b h q = ends cancelled k w b (λ e. cc) q

  wait-Within :
      (next : World → Attempted A × World) (failure : TransientFailure) (drawn k : ℕ) (w : World)
      → k ≤ policy.max_attempts
      → Next k next
      → Q k w
      → Good (wait self policy next failure drawn w)
  unfolding wait
  wait-Within next failure drawn k w b h q =
      let delay = max drawn (or_zero failure.retry_after_seconds) in
      let w1 = (self.deadline w).1 in
      let q1 = steps.deadline k w q in
      let q2 = steps.clock k w1 q1 in
      elim (Bool-cases (ltb policy.max_delay_seconds delay)) [
        | inl long ↦ rw long (ends (transient failure) k w1 b (λ e. cc) q1)
        | inr short ↦ elim (Bool-cases (leb (self.deadline w).0 ((self.clock w1).0 + delay))) [
          | inl late ↦ rw (short, late) (ends (transient failure) k _ b (λ e. cc) q2)
          | inr early ↦
              rw (short, early)
                (after_sleep-Within next k _ b h (
                  steps.sleep k (self.deadline w).0 (self.clock w1).0 delay _ (ground arith)
                    (ground arith) q2))
        ]
      ]

  after_attempt-Within :
      (next : Option TransientFailure → World → Attempted A × World) (k : ℕ)
      (last : Option TransientFailure) (r : Attempted A × World)
      → k + 1 ≤ policy.max_attempts
      → (k + 1 < policy.max_attempts
          → (failure : TransientFailure) → Next (k + 1) (next (some failure)))
      → r.0 ≢ raised unreachable
      → Q (k + 1) r.1
      → Good (after_attempt self policy next (k + 1) last r)
  unfolding after_attempt
  after_attempt-Within next k last (returned a, w) b h u q = record {
    made = k + 1;
    bounded = b;
    state = q;
    reached = λ e. cc;
  }
  after_attempt-Within next k last (raised (transient failure), w) b h u q =
      elim (Bool-cases (k + 1 == policy.max_attempts)) [
        | inl end ↦ rw end (ends (transient failure) (k + 1) w b (λ e. cc) q)
        | inr more ↦ rw more (
            wait-Within (next (some failure)) failure _ (k + 1) _ b (h (ground arith) failure)
              (steps.uniform (k + 1) _ w q))
      ]
  after_attempt-Within next k last (raised (service e), w) b h u q =
      ends (reported last e) (k + 1) w b (reported-reached last e) q
  after_attempt-Within next k last (raised unclassified, w) b h u q =
      ends unclassified (k + 1) w b (λ e. cc) q
  after_attempt-Within next k last (raised cancelled, w) b h u q =
      ends cancelled (k + 1) w b (λ e. cc) q
  after_attempt-Within next k last (raised unreachable, w) b h u q = absurd (u refl)

  round-Within :
      (left k : ℕ) (last : Option TransientFailure) (w : World)
      → k + suc left ≡ policy.max_attempts
      → Q k w
      → (k + 1 < policy.max_attempts
          → (failure : TransientFailure)
          → Next (k + 1) (attempts self policy left (k + 1 + 1) (some failure)))
      → Good (attempts self policy (suc left) (k + 1) last w)
  round-Within left k last w total q next =
      let w1 = (self.deadline w).1 in
      let q2 = steps.clock k w1 (steps.deadline k w q) in
      elim (Bool-cases (leb (self.deadline w).0 (self.clock w1).0)) [
        | inl late ↦
            rw (attempts-suc self policy left (k + 1) last w, late)
              (ends (service _) k _ (omega arith) (λ e. cc) q2)
        | inr early ↦
            rw (attempts-suc self policy left (k + 1) last w, early)
              (after_attempt-Within (attempts self policy left (k + 1 + 1)) k last
                (self.operation (k + 1) (self.clock w1).1) (omega arith) next
                (steps.no_assertion (k + 1) _) (steps.run k _ q2))
      ]

  attempts-Within :
      (left k : ℕ) (last : Option TransientFailure) (w : World)
      → k + suc left ≡ policy.max_attempts
      → Q k w
      → Good (attempts self policy (suc left) (k + 1) last w)
  attempts-Within zero k last w total q =
      round-Within zero k last w total q (λ more. absurd (omega arith))
  attempts-Within (suc left) k last w total q =
      round-Within (suc left) k last w total q
        (λ more failure w' q'. attempts-Within left (k + 1) (some failure) w' (omega arith) q')

  positive-Within :
      (n : ℕ) (w : World)
      → 1 ≤ n
      → n ≡ policy.max_attempts
      → Q 0 w
      → Good (attempts self policy n 1 none w)
  positive-Within zero w p e q = absurd (omega arith)
  positive-Within (suc left) w p e q = attempts-Within left 0 none w (omega arith) q

-- Let `Q` be a property of a number of attempts and the world that the attempt of the next number
-- moves on to that number, that reading the deadline and the clock and drawing a delay keep, and that
-- a sleep keeps where it is at most `max_delay_seconds` long and ends before the deadline that was
-- read; and let the operation not raise the loop's own assertion. Under a valid policy `retry` then
-- ends with `Q` after at most `max_attempts` attempts, and never reaches the assertion after its loop.
pub retry-Within :
    {World A : Type 0} (self : Ports World A) (policy : RetryPolicy) (Q : ℕ → World → Type 0)
    (second : ℕ) (w : World)
    → Steps self policy Q
    → valid_policy second policy ≡ true
    → Q 0 w
    → Within Q policy.max_attempts (retry self policy w)
unfolding retry valid_policy
retry-Within self policy Q second w steps valid q =
    positive-Within self policy Q steps policy.max_attempts w (ground arith) refl q
