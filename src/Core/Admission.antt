-- ===== src/Core/Admission.antt =====
-- core/admission.py: the limiter of concurrent operations, and the tasks that use it. The semaphore
-- is its number of free permits: `acquire` takes one or waits, and `release` gives one back.
pub mod Capacity
use foliqant.Prelude.{
  ℕ, zero, suc, ◌+◌, ◌-◌, Bool, true, false, Option, none, some, leb, if◌then◌else◌, ◌≡◌,
}
use foliqant.Core.Errors.{ErrorCode, capacity_exceeded, ServiceError, service_error}
use foliqant.Core.Result.{Result, ok, err, raise_if, ◌>>=◌, ◌>>◌}

-- `CapacityLimiter`; `maximum` is the concurrency and the limit of the queue together
pub record Limiter : Type 0 where
  pub concurrency : ℕ
  pub maximum : ℕ
  pub permits : ℕ
  pub admitted : ℕ
  pub active : ℕ

-- `CapacityLimiter.__init__`, whose checks are that the concurrency is positive
unfoldable pub new_limiter : ℕ → ℕ → Limiter
new_limiter concurrency queue_limit = record {
  concurrency = concurrency;
  maximum = concurrency + queue_limit;
  permits = concurrency;
  admitted = 0;
  active = 0;
}

full : ServiceError
full = record (service_error capacity_exceeded) { retryable = true }

-- the beginning of `slot`: a late or a supernumerary task is refused
count_in : Bool → Limiter → Result Limiter
unfolding full
count_in true l = err full
count_in false l = ok (record l { admitted = l.admitted + 1 })

unfoldable pub enter : ℕ → ℕ → ErrorCode → Limiter → Result Limiter
unfolding count_in
enter now deadline timeout l = do
  raise_if (leb deadline now) timeout
  count_in (leb l.maximum l.admitted) l

-- `await self._semaphore.acquire()` and what follows, or `none` while the task has to wait; the
-- number is that of the free permits
take : Limiter → ℕ → Option Limiter
take l zero = none
take l (suc n) = some (record l { permits = n; active = l.active + 1 })

unfoldable pub acquire : Limiter → Option Limiter
unfolding take
acquire l = take l l.permits

-- the `finally` of a task that did not acquire a permit
unfoldable pub leave_waiting : Limiter → Limiter
leave_waiting l = record l { admitted = l.admitted - 1 }

-- the `finally` of a task that did, however its operation ended
unfoldable pub leave_active : Limiter → Limiter
leave_active l = record l {
  active = l.active - 1;
  permits = l.permits + 1;
  admitted = l.admitted - 1;
}

-- The limiter with the numbers of tasks inside `slot` that wait for a permit and that have one.
pub record System : Type 0 where
  pub limiter : Limiter
  pub waiting : ℕ
  pub running : ℕ

-- What one task does between two scheduling points: it enters, gets a permit, gives up waiting for
-- it (at its deadline, or cancelled), or leaves with it (late, failed, cancelled or done).
pub data Step : System → System → Type 0 where
  entered :
      (now deadline : ℕ) (timeout : ErrorCode) {l l' : Limiter} {w r : ℕ}
      → enter now deadline timeout l ≡ ok l'
      → Step
          (record { limiter = l; waiting = w; running = r })
          (record { limiter = l'; waiting = suc w; running = r })
  granted :
      {l l' : Limiter} {w r : ℕ}
      → acquire l ≡ some l'
      → Step
          (record { limiter = l; waiting = suc w; running = r })
          (record { limiter = l'; waiting = w; running = suc r })
  gave_up :
      {l : Limiter} {w r : ℕ}
      → Step
          (record { limiter = l; waiting = suc w; running = r })
          (record { limiter = leave_waiting l; waiting = w; running = r })
  left :
      {l : Limiter} {w r : ℕ}
      → Step
          (record { limiter = l; waiting = w; running = suc r })
          (record { limiter = leave_active l; waiting = w; running = r })

-- What the tasks of a limiter can reach, in any order of their steps.
pub data Reach (concurrency queue_limit : ℕ) : System → Type 0 where
  start :
      Reach concurrency queue_limit
        (record { limiter = new_limiter concurrency queue_limit; waiting = 0; running = 0 })
  step :
      {s t : System} → Reach concurrency queue_limit s → Step s t → Reach concurrency queue_limit t
