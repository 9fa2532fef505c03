-- ===== src/Core/Runner/Admit/Limit.antt =====
-- The step limit of a run, as a caller sees it.
use foliqant.Prelude.{ℕ, ◌+◌, ◌≤◌, arith, String, Option, none, some}
use foliqant.Core.Json.{FrozenJson, Fields}
use foliqant.Core.Execution.{RunResult}
use foliqant.Core.Exec.{Raised, returned, raised, ◌>>=◌, modify}
use foliqant.Core.Exec.Keeps.{Keeps, keeps_rules, Takes, Takes-before}
use foliqant.Core.Runner.Self.{Envelope, Identity, WorkflowRunner, Shared}
use foliqant.Core.Runner.Ports.{Run, now}
use foliqant.Core.Runner.Ports.Limit.{Counts, IsWithin}
use foliqant.Core.Runner.Routed.{Request}
use foliqant.Core.Runner.Whole.{Entry, whole, only_flow}
use foliqant.Core.Runner.Whole.Limit.{run_all-IsWithin}
use foliqant.Core.Runner.Admit.{
  check_claim, check_payload, in_slot, with_slot, new_run, end_of_run, admit_at, admit,
}

module _ (self : WorkflowRunner) (calls : self.World → ℕ) (counts : Counts self calls) where
  -- at most `n` calls so far
  record AtMost (n : ℕ) (s : Shared self.World) : Type 0 where
    bound : calls s.world ≤ n

  now-AtMost : (n : ℕ) → Keeps (AtMost n) (now self)
  unfolding now
  now-AtMost n = record {
    at = λ s h. record { bound = omega (arith, h.bound, counts.clock s.world) };
  }

  grow : (n m : ℕ) (s : Shared self.World) → AtMost n s → AtMost (n + m) s
  grow n m s h = record { bound = omega (arith, h.bound) }

  check_claim-AtMost :
      (n : ℕ) (metadata : Fields) (key : String) (value : Option String)
      → Keeps (AtMost n) (check_claim self metadata key value)
  unfolding check_claim
  check_claim-AtMost n metadata key value = search keeps_rules depth 12

  check_payload-AtMost :
      (n : ℕ) (entry : Entry) (payload : FrozenJson)
      → Keeps (AtMost n) (check_payload self entry payload)
  unfolding check_payload
  check_payload-AtMost n whole payload = search keeps_rules
  check_payload-AtMost n (only_flow name none) payload = search keeps_rules
  check_payload-AtMost n (only_flow name (some step_id)) payload = search keeps_rules

  new_run-AtMost :
      (n : ℕ) (entry : Entry) (q : Request)
      → Takes (AtMost n) (AtMost (n + self.limits.max_steps)) (new_run self entry q)
  unfolding new_run ◌>>=◌ modify
  new_run-AtMost n entry q = record {
    at = λ s h.
        let begun : Shared self.World = record s { consumed = 0 } in
        let within : IsWithin self calls n begun = record {
          steps = omega arith;
          covered = omega (arith, h.bound);
        } in
        let after = (run_all-IsWithin self calls counts n q entry).at begun within in
        record { bound = omega (arith, after.covered, after.steps) };
  }

  in_slot-AtMost :
      (n m : ℕ) (body : Run self RunResult) (r : Raised (Unit {0}))
      → Takes (AtMost n) (AtMost (n + m)) body
      → Takes (AtMost n) (AtMost (n + m)) (in_slot self body r)
  unfolding in_slot
  in_slot-AtMost n m body (returned _) tb = record {
    at = λ s h.
        let (answer, s') = body s in
        record { bound = omega (arith, (tb.at s h).bound, counts.leave_slot (body s).1.world) };
  }
  in_slot-AtMost n m body (raised e) tb = record { at = λ s h. grow n m s h }

  with_slot-AtMost :
      (n m deadline : ℕ) (body : Run self RunResult)
      → Takes (AtMost n) (AtMost (n + m)) body
      → Takes (AtMost n) (AtMost (n + m)) (with_slot self deadline body)
  unfolding with_slot
  with_slot-AtMost n m deadline body tb = record {
    at = λ s h.
        (in_slot-AtMost n m body _ tb).at
          (record s { world = (self.enter_slot deadline s.world).1 })
          (record { bound = omega (arith, h.bound, counts.enter_slot deadline s.world) });
  }

  admit_at-AtMost :
      (n : ℕ) (entry : Entry) (envelope : Envelope) (identity : Identity) (deadline : Option ℕ)
      (t : ℕ)
      → Takes
          (AtMost n)
          (AtMost (n + self.limits.max_steps))
          (admit_at self entry envelope identity deadline t)
  unfolding admit_at
  admit_at-AtMost n entry envelope identity deadline t =
      let m = self.limits.max_steps in
      let q : Request = record {
        envelope = envelope;
        identity = identity;
        deadline = end_of_run self t deadline;
      } in
      let tenant = check_claim-AtMost n envelope.metadata "tenant_id" identity.tenant_id in
      let principal = check_claim-AtMost n envelope.metadata "principal_id" identity.principal_id in
      let payload = check_payload-AtMost n entry envelope.payload in
      let slot =
        with_slot-AtMost n m q.deadline (new_run self entry q) (new_run-AtMost n entry q) in
      Takes-before _ _ tenant (grow n m) (λ _.
        Takes-before _ _ principal (grow n m)
          (λ _. Takes-before _ _ payload (grow n m) (λ _. slot)))

  admit-AtMost :
      (n : ℕ) (entry : Entry) (envelope : Envelope) (identity : Identity) (deadline : Option ℕ)
      → Takes
          (AtMost n)
          (AtMost (n + self.limits.max_steps))
          (admit self entry envelope identity deadline)
  unfolding admit
  admit-AtMost n entry envelope identity deadline =
      Takes-before _ _ (now-AtMost n) (grow n self.limits.max_steps)
        (λ t. admit_at-AtMost n entry envelope identity deadline t)

  -- The executor is called at most `max_steps` times by `run`, `run_flow` or `run_step`, whatever
  -- the plan, its repeats, retries and nested collections: it is counted by any `calls` that only
  -- the executor's call changes, by one.
  pub max_steps_hold :
      (entry : Entry) (envelope : Envelope) (identity : Identity) (deadline : Option ℕ)
      (s : Shared self.World)
      → calls (admit self entry envelope identity deadline s).1.world
        ≤ calls s.world + self.limits.max_steps
  max_steps_hold entry envelope identity deadline s =
      let start : AtMost (calls s.world) s = record { bound = omega arith } in
      ((admit-AtMost (calls s.world) entry envelope identity deadline).at s start).bound
