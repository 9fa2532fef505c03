-- ===== src/Core/Admission/Capacity.antt =====
-- The counts of the limiter of core/admission.py over the steps of its tasks.
use mathlib.Core.Bool.{true≢false}
use foliqant.Prelude.{
  is_some, ℕ, zero, suc, ◌+◌, ◌≤◌, ◌≡◌, refl, sym, arith, leb, Bool, true, false, some, some_inj,
  ap, ◌∙◌,
}
use foliqant.Core.Errors.{ErrorCode}
use foliqant.Core.Result.{OkHas, OkHas-raise_if, OkHas-ok}
use foliqant.Core.Admission.{
  Limiter, new_limiter, enter, acquire, leave_waiting, leave_active, System, Step, entered, granted,
  gave_up, left, Reach, start, step, count_in, take,
}

-- The limiter's counters are the numbers of tasks, no permit is lost, and the bounds hold.
pub record IsBounded (concurrency queue_limit : ℕ) (s : System) : Type 0 where
  pub same_concurrency : s.limiter.concurrency ≡ concurrency
  pub maximum : s.limiter.maximum ≡ concurrency + queue_limit
  pub running : s.limiter.active ≡ s.running
  pub waiting : s.limiter.admitted ≡ s.waiting + s.running
  pub permits : s.limiter.permits + s.running ≡ concurrency
  pub active_bound : s.limiter.active ≤ concurrency
  pub admitted_bound : s.limiter.admitted ≤ concurrency + queue_limit

-- What entering changes.
record Entered (l l' : Limiter) : Type 0 where
  room : leb l.maximum l.admitted ≡ false
  same : l' ≡ record l { admitted = l.admitted + 1 }

count_in-Entered :
    (l : Limiter) (b : Bool) → leb l.maximum l.admitted ≡ b → OkHas (Entered l) (count_in b l)
unfolding count_in
count_in-Entered l true e = record { at = tt }
count_in-Entered l false e = record { at = record { room = e; same = refl } }

enter-Entered :
    (now deadline : ℕ) (timeout : ErrorCode) (l : Limiter)
    → OkHas (Entered l) (enter now deadline timeout l)
unfolding enter
enter-Entered now deadline timeout l =
    OkHas-raise_if (leb deadline now) timeout (count_in (leb l.maximum l.admitted) l)
      (λ _. count_in-Entered l _ refl)

-- What a permit changes.
record Granted (l l' : Limiter) : Type 0 where
  permits : l'.permits + 1 ≡ l.permits
  active : l'.active ≡ l.active + 1
  admitted : l'.admitted ≡ l.admitted
  maximum : l'.maximum ≡ l.maximum
  concurrency : l'.concurrency ≡ l.concurrency

take-Granted : (l l' : Limiter) (n : ℕ) → l.permits ≡ n → take l n ≡ some l' → Granted l l'
unfolding take
take-Granted l l' zero same e = absurd (true≢false (sym (ap is_some e)))
take-Granted l l' (suc n) same e = rw (sym (some_inj e)) (record {
  permits = omega (arith, same);
  active = refl;
  admitted = refl;
  maximum = refl;
  concurrency = refl;
})

acquire-Granted : (l l' : Limiter) → acquire l ≡ some l' → Granted l l'
unfolding acquire
acquire-Granted l l' e = take-Granted l l' l.permits refl e

module _ (concurrency queue_limit : ℕ) where
  Step-IsBounded :
      (s t : System)
      → Step s t
      → IsBounded concurrency queue_limit s
      → IsBounded concurrency queue_limit t
  unfolding leave_waiting leave_active
  Step-IsBounded _ _ (entered now deadline timeout {l} {l'} {w} {r} e) h =
      let g : Entered l l' = OkHas-ok _ l' (enter-Entered now deadline timeout l) e in
      rw (g.same) (record {
        same_concurrency = h.same_concurrency;
        maximum = h.maximum;
        running = h.running;
        waiting = omega (arith, h.waiting);
        permits = h.permits;
        active_bound = h.active_bound;
        admitted_bound = ground (arith, g.room, h.maximum);
      })
  Step-IsBounded _ _ (granted {l} {l'} {w} {r} e) h =
      let g = acquire-Granted l l' e in
      record {
        same_concurrency = g.concurrency ∙ h.same_concurrency;
        maximum = g.maximum ∙ h.maximum;
        running = omega (arith, g.active, h.running);
        waiting = omega (arith, g.admitted, h.waiting);
        permits = omega (arith, g.permits, h.permits);
        active_bound = omega (arith, g.active, g.permits, h.running, h.permits);
        admitted_bound = omega (arith, g.admitted, h.admitted_bound);
      }
  Step-IsBounded _ _ (gave_up {l} {w} {r}) h = record {
    same_concurrency = h.same_concurrency;
    maximum = h.maximum;
    running = h.running;
    waiting = omega (arith, h.waiting);
    permits = h.permits;
    active_bound = h.active_bound;
    admitted_bound = omega (arith, h.admitted_bound);
  }
  Step-IsBounded _ _ (left {l} {w} {r}) h = record {
    same_concurrency = h.same_concurrency;
    maximum = h.maximum;
    running = omega (arith, h.running);
    waiting = omega (arith, h.waiting);
    permits = omega (arith, h.permits);
    active_bound = omega (arith, h.active_bound);
    admitted_bound = omega (arith, h.admitted_bound);
  }

  -- In every state that the tasks can reach, the limiter counts them exactly, no permit is lost, at
  -- most `concurrency` of them are active and at most `concurrency + queue_limit` are admitted.
  pub Reach-IsBounded :
      (s : System) → Reach concurrency queue_limit s → IsBounded concurrency queue_limit s
  unfolding new_limiter
  Reach-IsBounded _ start = record {
    same_concurrency = refl;
    maximum = refl;
    running = refl;
    waiting = omega arith;
    permits = omega arith;
    active_bound = omega arith;
    admitted_bound = omega arith;
  }
  Reach-IsBounded _ (step {s} {t} r e) = Step-IsBounded s t e (Reach-IsBounded s r)
