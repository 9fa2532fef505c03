-- ===== src/Core/Runner/Admit.antt =====
-- The public operations of `WorkflowRunner`: `run`, `run_flow` and `run_step`, and `_admit`.
pub mod Limit
use foliqant.Prelude.{
  ℕ, ◌+◌, min, String, Bool, true, false, not, ◌&&◌, ◌||◌, Option, none, some, ◌==◌, str_eq,
  is_some, if◌then◌else◌,
}
use foliqant.Core.Errors.{
  ErrorCode, invalid_input, not_found, forbidden, dependency_failure, Exn, service, timeout, other,
  cancelled, service_error,
}
use foliqant.Core.Json.{
  FrozenJson, null, str, object, Fields, field, end, field_lookup, has_field, fields_length,
}
use foliqant.Core.Plan.{
  Bindings, no_bindings, binding, FlowPlan, CompiledStep, find_flow, find_step,
}
use foliqant.Core.Identity.{validate_identity_id}
use foliqant.Core.Execution.{RunResult}
use foliqant.Core.Exec.{
  Raised, returned, raised, Exec, modify, pure, throw, ◌>>=◌, ◌>>◌, raise_code, raise_when, lift,
  call, or_raise, option_case,
}
use foliqant.Core.Runner.Self.{Envelope, Identity, WorkflowRunner, Shared}
use foliqant.Core.Runner.Contexts.{step_bindings}
use foliqant.Core.Runner.Ports.{Run, now}
use foliqant.Core.Runner.Routed.{Request}
use foliqant.Core.Runner.Whole.{Entry, whole, only_flow, run_all}

-- `claim != value`, where an absent claim and null are `None`
differs : Option FrozenJson → Option String → Bool
differs none none = false
differs (some null) none = false
differs (some (str claim)) (some value) = not (str_eq claim value)
differs _ _ = true

-- every name is a key
all_present : Bindings → Fields → Bool
unfolding field_lookup
all_present no_bindings fs = true
all_present (binding name b rest) fs = has_field name fs && all_present rest fs

named : String → Bindings → Bool
named key no_bindings = false
named key (binding name b rest) = str_eq name key || named key rest

-- every key is a name
all_named : Fields → Bindings → Bool
unfolding named
all_named end sources = true
all_named (field key v fs) sources = named key sources && all_named fs sources

-- `set(envelope.payload) == {key for key, _ in _step_bindings(step)}`
unfoldable pub has_keys : FrozenJson → Bindings → Bool
unfolding all_present all_named
has_keys (object fs) sources = all_present sources fs && all_named fs sources
has_keys _ sources = false

-- what a validator raises, unless it is a service error or a cancellation, is a failed dependency
as_dependency : Option Exn → Option Exn
as_dependency none = none
as_dependency (some (service e)) = some (service e)
as_dependency (some cancelled) = some cancelled
as_dependency (some _) = some (service (service_error dependency_failure))

module _ (self : WorkflowRunner) where
  end_of_run : ℕ → Option ℕ → ℕ
  end_of_run t none = t + self.limits.run_timeout
  end_of_run t (some deadline) = min (t + self.limits.run_timeout) deadline

  check_claim : Fields → String → Option String → Run self (Unit {0})
  unfolding field_lookup validate_identity_id differs
  check_claim metadata key value = do
    option_case (field_lookup key metadata) (pure tt)
        (λ claim. do id ← lift (validate_identity_id claim); pure tt)
    raise_when (differs (field_lookup key metadata) value) forbidden

  check_payload : Entry → FrozenJson → Run self (Unit {0})
  unfolding as_dependency
  check_payload whole payload = call (as_dependency (self.validate_input payload))
  check_payload (only_flow name none) payload =
      call (as_dependency (self.validate_flow_input name payload))
  check_payload (only_flow name (some step_id)) payload = pure tt

  -- the body of `async with self._admission.slot(…)`; the slot is left however the body ends
  in_slot : {A : Type 0} → Run self A → Raised (Unit {0}) → Run self A
  in_slot m (raised e) s = (raised e, s)
  in_slot m (returned _) s =
      let (answer, s') = m s in (answer, record s' { world = self.leave_slot s'.world })

  unfoldable pub with_slot : {A : Type 0} → ℕ → Run self A → Run self A
  unfolding in_slot
  with_slot deadline m s =
      let (r, w) = self.enter_slot deadline s.world in in_slot m r (record s { world = w })

  -- the run of a new invocation, whose step counter starts at 0
  new_run : Entry → Request → Run self RunResult
  unfolding run_all
  new_run entry q = do modify (λ s. record s { consumed = 0 }); run_all self q entry

  -- `_admit`, from the time of the call on
  admit_at : Entry → Envelope → Identity → Option ℕ → ℕ → Run self RunResult
  unfolding end_of_run check_claim check_payload with_slot new_run
  admit_at entry envelope identity deadline t = do
    check_claim envelope.metadata "tenant_id" identity.tenant_id
    check_claim envelope.metadata "principal_id" identity.principal_id
    check_payload entry envelope.payload
    with_slot (end_of_run t deadline) (
        new_run entry
          (record { envelope = envelope; identity = identity; deadline = end_of_run t deadline }))

  -- `_admit`; each run counts its own steps
  unfoldable pub admit : Entry → Envelope → Identity → Option ℕ → Run self RunResult
  unfolding now admit_at
  admit entry envelope identity deadline = do
    t ← now self
    admit_at entry envelope identity deadline t

  -- `_flow`
  named_flow : String → Run self FlowPlan
  unfolding find_flow
  named_flow name = or_raise (find_flow name self.plan.flows) not_found

  unfoldable pub run : Envelope → Identity → Option ℕ → Run self RunResult
  unfolding admit
  run envelope identity deadline = admit whole envelope identity deadline

  unfoldable pub run_flow : String → Envelope → Identity → Option ℕ → Run self RunResult
  unfolding named_flow admit
  run_flow flow_id envelope identity deadline = do
    flow ← named_flow flow_id
    admit (only_flow flow_id none) envelope identity deadline

  unfoldable pub run_step : String → String → Envelope → Identity → Option ℕ → Run self RunResult
  unfolding named_flow find_step has_keys step_bindings admit
  run_step flow_id step_id envelope identity deadline = do
    flow ← named_flow flow_id
    step ← or_raise (find_step step_id flow.steps) not_found
    raise_when (not (has_keys envelope.payload (step_bindings step.kind))) invalid_input
    admit (only_flow flow_id (some step_id)) envelope identity deadline
