-- ===== src/Core/Retry/Causes.antt =====
-- The causes that `retry` of core/retry.py reports.
use foliqant.Prelude.{
  ℕ, zero, suc, ◌+◌, max, ◌≡◌, ◌≤◌, ◌<◌, ◌⊎◌, refl, inl, inr, arith, true, false, Option, none,
  some, leb, ltb, ◌==◌, Bool-cases,
}
use foliqant.Core.Errors.{ServiceError, service_error, request_timeout}
use foliqant.Core.Retry.{
  RetryPolicy, TransientFailure, Ports, Attempted, returned, raised, transient, service,
  unclassified, cancelled, unreachable, Slept, slept, timed_out, interrupted, or_zero, after_sleep,
  wait, after_attempt, attempts, attempts-suc, retry, reported, is_attempt_limit, valid_policy,
}

-- An outcome that `retry` passes on as it is.
abbrev pub IsFinal : {A : Type 0} → Attempted A → Type 0
IsFinal (raised (transient _)) = ⊥
IsFinal _ = Unit

-- the code that is raised, if it is one, is no limit of requests or tool calls
abbrev pub NoLimit : {A : Type 0} → Attempted A → Type 0
NoLimit (raised (service e)) = is_attempt_limit e.code ≡ false
NoLimit _ = Unit

reported-NoLimit :
    (A : Type 0) (failure : TransientFailure) (e : ServiceError)
    → NoLimit {A = A} (raised (reported (some failure) e))
unfolding reported
reported-NoLimit A failure e = elim (Bool-cases (is_attempt_limit e.code)) [
  | inl limit ↦ rw limit tt
  | inr free ↦ rw free free
]

module _ {World A : Type 0} (self : Ports World A) (policy : RetryPolicy) where
  abbrev Quiet : (World → Attempted A × World) → Type 0
  Quiet next = (w : World) → NoLimit (next w).0

  after_sleep-NoLimit :
      (next : World → Attempted A × World) (r : Slept × World)
      → Quiet next
      → NoLimit (after_sleep self policy next r).0
  unfolding after_sleep is_attempt_limit
  after_sleep-NoLimit next (slept, w) h = h w
  after_sleep-NoLimit next (timed_out, w) h = refl
  after_sleep-NoLimit next (interrupted, w) h = tt

  wait-NoLimit :
      (next : World → Attempted A × World) (failure : TransientFailure) (drawn : ℕ) (w : World)
      → Quiet next
      → NoLimit (wait self policy next failure drawn w).0
  unfolding wait
  wait-NoLimit next failure drawn w h =
      let delay = max drawn (or_zero failure.retry_after_seconds) in
      let w1 = (self.deadline w).1 in
      elim (Bool-cases (ltb policy.max_delay_seconds delay)) [
        | inl long ↦ rw long tt
        | inr short ↦ elim (Bool-cases (leb (self.deadline w).0 ((self.clock w1).0 + delay))) [
          | inl late ↦ rw (short, late) tt
          | inr early ↦ rw (short, early) (after_sleep-NoLimit next _ h)
        ]
      ]

  after_attempt-NoLimit :
      (next : Option TransientFailure → World → Attempted A × World) (attempt : ℕ)
      (last : TransientFailure) (r : Attempted A × World)
      → ((failure : TransientFailure) → Quiet (next (some failure)))
      → NoLimit (after_attempt self policy next attempt (some last) r).0
  unfolding after_attempt
  after_attempt-NoLimit next attempt last (returned a, w) h = tt
  after_attempt-NoLimit next attempt last (raised (transient failure), w) h =
      elim (Bool-cases (attempt == policy.max_attempts)) [
        | inl end ↦ rw end tt
        | inr more ↦ rw more (wait-NoLimit (next (some failure)) failure _ _ (h failure))
      ]
  after_attempt-NoLimit next attempt last (raised (service e), w) h = reported-NoLimit A last e
  after_attempt-NoLimit next attempt last (raised unclassified, w) h = tt
  after_attempt-NoLimit next attempt last (raised cancelled, w) h = tt
  after_attempt-NoLimit next attempt last (raised unreachable, w) h = tt

  attempts-NoLimit :
      (left attempt : ℕ) (last : TransientFailure)
      → Quiet (attempts self policy left attempt (some last))
  unfolding attempts is_attempt_limit
  attempts-NoLimit zero attempt last w = tt
  attempts-NoLimit (suc left) attempt last w =
      let w1 = (self.deadline w).1 in
      elim (Bool-cases (leb (self.deadline w).0 (self.clock w1).0)) [
        | inl late ↦ rw late refl
        | inr early ↦ rw early (
            after_attempt-NoLimit (attempts self policy left (attempt + 1)) attempt last
              (self.operation attempt (self.clock w1).1) (attempts-NoLimit left (attempt + 1)))
      ]

-- The first round of the loop, by its cases.
pub data Begins {World A : Type 0} (self : Ports World A) (w : World) (result : Attempted A × World)
    : Type 0 where
  expired :
      (self.deadline w).0 ≤ (self.clock (self.deadline w).1).0
      → result
        ≡ (raised (service (service_error request_timeout)), (self.clock (self.deadline w).1).1)
      → Begins self w result
  final :
      (self.clock (self.deadline w).1).0 < (self.deadline w).0
      → IsFinal (self.operation 1 (self.clock (self.deadline w).1).1).0
      → result ≡ self.operation 1 (self.clock (self.deadline w).1).1
      → Begins self w result
  repeated :
      (failure : TransientFailure)
      → (self.clock (self.deadline w).1).0 < (self.deadline w).0
      → (self.operation 1 (self.clock (self.deadline w).1).1).0 ≡ raised (transient failure)
      → NoLimit result.0
      → Begins self w result

module _ {World A : Type 0} (self : Ports World A) (policy : RetryPolicy) where
  -- the first attempt, by what it ended with
  first-cases :
      (left : ℕ) (r : Attempted A × World)
      → (IsFinal r.0 × (after_attempt self policy (attempts self policy left 2) 1 none r ≡ r))
        ⊎ ((failure : TransientFailure) × (r.0 ≡ raised (transient failure))
            × NoLimit (after_attempt self policy (attempts self policy left 2) 1 none r).0)
  unfolding after_attempt reported
  first-cases left (returned a, w) = inl (tt, refl)
  first-cases left (raised (transient failure), w) = inr (
    failure,
    refl,
    elim (Bool-cases (1 == policy.max_attempts)) [
      | inl end ↦ rw end tt
      | inr more ↦ rw more (
          wait-NoLimit self policy (attempts self policy left 2 (some failure)) failure _ _
            (attempts-NoLimit self policy left 2 failure))
    ],
  )
  first-cases left (raised (service e), w) = inl (tt, refl)
  first-cases left (raised unclassified, w) = inl (tt, refl)
  first-cases left (raised cancelled, w) = inl (tt, refl)
  first-cases left (raised unreachable, w) = inl (tt, refl)

  first_round : (left : ℕ) (w : World) → Begins self w (attempts self policy (suc left) 1 none w)
  first_round left w =
      let w1 = (self.deadline w).1 in
      let w2 = (self.clock w1).1 in
      elim (Bool-cases (leb (self.deadline w).0 (self.clock w1).0)) [
        | inl late ↦ rw (attempts-suc self policy left 1 none w, late) (expired (ground arith) refl)
        | inr early ↦
            rw (attempts-suc self policy left 1 none w, early)
              (elim (first-cases left (self.operation 1 w2)) [
                | inl (settled, same) ↦ final (ground arith) settled same
                | inr (failure, is, quiet) ↦ repeated failure (ground arith) is quiet
              ])
      ]

  first_of : (n : ℕ) (w : World) → 1 ≤ n → Begins self w (attempts self policy n 1 none w)
  first_of zero w p = absurd (omega arith)
  first_of (suc left) w p = first_round left w

-- Under a valid policy `retry` raises request_timeout without a call where the deadline has passed,
-- passes on whatever the first attempt ended with unless it failed transiently, and after a transient
-- failure never reports that the step's limit of requests or tool calls refused another attempt.
pub retry-Begins :
    {World A : Type 0} (self : Ports World A) (policy : RetryPolicy) (second : ℕ) (w : World)
    → valid_policy second policy ≡ true
    → Begins self w (retry self policy w)
unfolding retry valid_policy
retry-Begins self policy second w valid = first_of self policy policy.max_attempts w (ground arith)
