-- ===== src/Core/Runner/Ports/Limit.antt =====
-- The invariant of the step limit, for what a run asks of the outside.
use foliqant.Prelude.{ℕ, ◌+◌, ◌≤◌, arith}
use foliqant.Core.Errors.{Exn}
use foliqant.Core.Json.{Fields}
use foliqant.Core.Budget.{StepBudget}
use foliqant.Core.Plan.{CompiledStep}
use foliqant.Core.Exec.{Raised}
use foliqant.Core.Exec.Keeps.{Keeps, keeps_rules, Takes}
use foliqant.Core.Runner.Self.{WorkflowRunner, Shared, StepContext, OutcomeObject}
use foliqant.Core.Runner.Ports.{now, sleep, check_deadline, run_executor, failure, translated}

-- `calls` counts how often the executor was called: nothing else that the run does outside
-- changes it, and one call adds one.
pub record Counts (self : WorkflowRunner) (calls : self.World → ℕ) : Type 0 where
  pub clock : (w : self.World) → calls (self.clock w).1 ≤ calls w
  pub pause : (w : self.World) → calls (self.pause w).1 ≤ calls w
  pub execute :
      (step : CompiledStep) (inputs : Fields) (context : StepContext) (budget : StepBudget)
      (w : self.World)
      → calls (self.execute step inputs context budget w).2 ≤ calls w + 1
  pub enter_slot : (deadline : ℕ) (w : self.World) → calls (self.enter_slot deadline w).1 ≤ calls w
  pub leave_slot : (w : self.World) → calls (self.leave_slot w) ≤ calls w

-- Steps within the limit, and no more calls of the executor than steps.
pub record IsWithin (self : WorkflowRunner) (calls : self.World → ℕ) (base : ℕ)
    (s : Shared self.World) : Type 0 where
  pub steps : s.consumed ≤ self.limits.max_steps
  pub covered : calls s.world ≤ base + s.consumed

-- A step is consumed and its call is not made yet.
pub record HasCredit (self : WorkflowRunner) (calls : self.World → ℕ) (base : ℕ)
    (s : Shared self.World) : Type 0 where
  pub steps : s.consumed ≤ self.limits.max_steps
  pub covered : calls s.world + 1 ≤ base + s.consumed

module _ (self : WorkflowRunner) (calls : self.World → ℕ) (counts : Counts self calls)
    (base : ℕ) where
  pub HasCredit-IsWithin :
      (s : Shared self.World) → HasCredit self calls base s → IsWithin self calls base s
  HasCredit-IsWithin s h = record { steps = h.steps; covered = omega (arith, h.covered) }

  pub now-IsWithin : Keeps (IsWithin self calls base) (now self)
  unfolding now
  now-IsWithin = record {
    at =
        λ s h. record { steps = h.steps; covered = omega (arith, h.covered, counts.clock s.world) };
  }

  pub now-HasCredit : Keeps (HasCredit self calls base) (now self)
  unfolding now
  now-HasCredit = record {
    at =
        λ s h. record { steps = h.steps; covered = omega (arith, h.covered, counts.clock s.world) };
  }

  pub sleep-IsWithin : Keeps (IsWithin self calls base) (sleep self)
  unfolding sleep
  sleep-IsWithin = record {
    at =
        λ s h. record { steps = h.steps; covered = omega (arith, h.covered, counts.pause s.world) };
  }

  pub check_deadline-IsWithin :
      (deadline : ℕ) → Keeps (IsWithin self calls base) (check_deadline self deadline)
  unfolding check_deadline
  check_deadline-IsWithin deadline = search (keeps_rules, now-IsWithin)

  pub failure-IsWithin :
      (deadline : ℕ) (e : Exn) → Keeps (IsWithin self calls base) (failure self deadline e)
  unfolding failure
  failure-IsWithin deadline e = search (keeps_rules, now-IsWithin)

  pub translated-IsWithin :
      (deadline : ℕ) (r : Raised OutcomeObject)
      → Keeps (IsWithin self calls base) (translated self deadline r)
  unfolding translated
  translated-IsWithin deadline (Raised.returned a) = search keeps_rules
  translated-IsWithin deadline (Raised.raised (Exn.service e)) = search (keeps_rules, now-IsWithin)
  translated-IsWithin deadline (Raised.raised Exn.timeout) = search keeps_rules
  translated-IsWithin deadline (Raised.raised Exn.other) = search keeps_rules
  translated-IsWithin deadline (Raised.raised Exn.cancelled) = search keeps_rules

  pub run_executor-IsWithin :
      (step : CompiledStep) (inputs : Fields) (context : StepContext)
      → Takes
          (HasCredit self calls base)
          (IsWithin self calls base)
          (run_executor self step inputs context)
  unfolding run_executor
  run_executor-IsWithin step inputs context = record {
    at = λ s h. record {
      steps = h.steps;
      covered = omega (arith, h.covered, counts.execute step inputs context _ s.world);
    };
  }
