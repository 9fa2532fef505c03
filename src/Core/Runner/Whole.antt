-- ===== src/Core/Runner/Whole.antt =====
-- `WorkflowRunner._run`: a whole workflow, one of its flows, or one step of a flow.
pub mod Limit
pub mod Rounds
pub mod Visits
use foliqant.Prelude.{
  ℕ, zero, suc, ◌+◌, String, Bool, true, false, not, ◌&&◌, ◌||◌, Option, none, some, List, [], ◌∷◌,
  ◌++◌, leb, str_eq, is_some, mem_str, length, if◌then◌else◌, Dict, lookup, insert,
}
use foliqant.Core.Errors.{
  ErrorCode, invalid_configuration, invalid_input, not_found, forbidden, dependency_failure, Exn,
  service, timeout, other, cancelled, service_error, Failure,
}
use foliqant.Core.Json.{FrozenJson, null, object}
use foliqant.Core.Usage.{Usage, no_usage, usage_plus}
use foliqant.Core.Plan.{
  Outcome, completed, needs_review, TransitionTargetPlan, FlowPlan, WorkflowPlan, find_flow,
}
use foliqant.Core.Bindings.{resolve_binding}
use foliqant.Core.Execution.{
  RunStatus, StepStatus, FlowRun, FlowRecord, plain_record, RepeatStop, TransitionRecord,
  StartRecord, RunResult, total_usage,
}
use foliqant.Core.Exec.{
  Raised, returned, raised, Exec, pure, throw, gets, ◌>>=◌, ◌>>◌, modify, raise_code, raise_when,
  lift, or_raise, catch, option_case,
}
use foliqant.Core.Runner.Self.{Envelope, FlowRole, WorkflowRunner, Shared}
use foliqant.Core.Runner.Contexts.{skipped_flow}
use foliqant.Core.Runner.Ports.{Run, check_deadline, failure}
use foliqant.Core.Runner.Flow.{FlowCall}
use foliqant.Core.Runner.Repeat.{unstarted}
use foliqant.Core.Runner.Collection.{execute_flow, failed_status}
use foliqant.Core.Runner.Routing.{select_start}
use foliqant.Core.Runner.Routed.{
  Request, RunState, Routed, stopped, left, Engine, in_run, set_active, set_flow, run_context,
  run_routed,
}

-- What is run: the workflow, a flow, or a step of a flow.
pub data Entry : Type 0 where
  whole : Entry
  only_flow : String → Option String → Entry

retry_flow_of : FlowPlan → Option String
retry_flow_of f = if f.callable then none else elim f.repeat [ none ↦ none | some r ↦ r.retry_flow ]

names_retry : String → FlowPlan → Bool
unfolding retry_flow_of
names_retry name f = elim (retry_flow_of f) [ none ↦ false | some retry ↦ str_eq retry name ]

-- `name in self._retry_flows`
unfoldable pub is_retry_flow : List FlowPlan → String → Bool
unfolding names_retry
is_retry_flow [] name = false
is_retry_flow (f ∷ flows) name = names_retry name f || is_retry_flow flows name

is_recorded : Entry → List FlowPlan → FlowPlan → Bool
unfolding is_retry_flow
is_recorded whole flows f = not f.callable || is_retry_flow flows f.name
is_recorded (only_flow name _) flows f = str_eq f.name name

-- the records with which a run starts
unfoldable pub initial_records :
    Entry → List FlowPlan → List FlowPlan → Dict FlowRecord → Dict FlowRecord
unfolding is_recorded skipped_flow insert
initial_records entry flows [] records = records
initial_records entry flows (f ∷ rest) records =
    let added = insert f.name (skipped_flow f) records in
    initial_records entry flows rest (if is_recorded entry flows f then added else records)

run_status : Outcome → RunStatus
run_status completed = RunStatus.completed
run_status needs_review = RunStatus.needs_review

flow_status : StepStatus → RunStatus
flow_status StepStatus.needs_review = RunStatus.needs_review
flow_status _ = RunStatus.completed

unfoldable pub run_failed : RunStatus → Bool
run_failed RunStatus.failed = true
run_failed _ = false

either : Option Failure → Option Failure → Option Failure
either (some f) _ = some f
either none e = e

-- the usage of the records, from the given total
unfoldable pub add_usages : {S : Type 0} → Usage → Dict FlowRecord → Exec S Usage
unfolding total_usage usage_plus
add_usages total [] = pure total
add_usages total ((name, r) ∷ records) = do
  used ← lift (total_usage r)
  option_case used (add_usages total records)
      (λ u. do sum ← lift (usage_plus total u); add_usages sum records)

-- a `KeyError`, which is no service error
unfoldable pub or_other : {S A : Type 0} → Option A → Exec S A
or_other none = throw other
or_other (some a) = pure a

-- `visited.add(name)`
unfoldable pub add_name : String → List String → List String
add_name name names = if mem_str name names then names else name ∷ names

module _ (self : WorkflowRunner) (q : Request) where
  -- the checks before a flow runs
  unfoldable pub enter_flow : List String → String → Engine self FlowPlan
  unfolding find_flow
  enter_flow visited current = do
    raise_when (mem_str current visited || leb (length self.plan.flows) (length visited))
        invalid_configuration
    or_raise (find_flow current self.plan.flows) invalid_configuration

  set_outcome : Option Outcome → Engine self (Unit {0})
  unfolding run_status
  set_outcome none = pure tt
  set_outcome (some outcome) = modify (λ s. record s { status = run_status outcome })

  fail_run : Option Failure → Engine self (Unit {0})
  fail_run error = modify (λ s. record s { status = RunStatus.failed; error = error })

  -- the end of the run, or the flow that was selected
  unfoldable pub after_routed : Routed → (String → Engine self (Unit {0})) → Engine self (Unit {0})
  unfolding fail_run either set_outcome
  after_routed (stopped r error) f = fail_run (either error r.error)
  after_routed (left r target transition) f = do
    modify (λ s. record s { transitions = s.transitions ++ (transition ∷ []) })
    set_outcome target.outcome
    option_case target.flow (pure tt) f

  -- a round of the loop, with the flows that were visited and the current one
  abbrev pub Round : Type 0
  Round = List String → String → Engine self (Unit {0})

  -- the loop of a workflow, with the number of rounds that are modelled; `beyond` stands for the
  -- rounds after them
  unfoldable pub flow_loop : Round → ℕ → Round
  unfolding in_run check_deadline enter_flow run_routed after_routed add_name
  flow_loop beyond zero visited current = beyond visited current
  flow_loop beyond (suc rounds) visited current = do
    in_run self (check_deadline self q.deadline)
    flow ← enter_flow visited current
    raise_when flow.callable invalid_configuration
    routed ← run_routed self q flow
    after_routed routed (flow_loop beyond rounds (add_name current visited))

  -- a round that the loop does not come to
  abbrev pub unreached : Round
  unreached visited current = throw other

  only_call : FlowPlan → Option String → FlowCall
  only_call flow step_id = record {
    flow = flow;
    envelope = q.envelope;
    identity = q.identity;
    deadline = q.deadline;
    step_id = step_id;
    attempt = 1;
    role = if flow.callable then FlowRole.callable else FlowRole.routed;
    collection_item = none;
  }

  -- the loop of `run_flow` and `run_step`, which breaks after its first flow
  unfoldable pub single_flow : String → Option String → Engine self (Unit {0})
  unfolding in_run check_deadline enter_flow set_active execute_flow only_call set_flow
      failed_status fail_run flow_status
  single_flow name step_id = do
    in_run self (check_deadline self q.deadline)
    flow ← enter_flow [] name
    set_active self (some name)
    (run, issues) ← in_run self (execute_flow self (only_call flow step_id))
    set_flow self name (plain_record run)
    set_active self none
    if failed_status run.status
        then fail_run run.error
        else modify (λ s. record s { status = flow_status run.status; payload = run.result })

  workflow_output : Engine self (Unit {0})
  unfolding run_failed run_context resolve_binding
  workflow_output = option_case self.plan.output (pure tt) (λ output. do
    failed ← gets (λ s. run_failed s.status)
    if failed then pure tt else (do
      scope ← run_context self q.envelope
      value ← lift (resolve_binding output scope)
      modify (λ s. record s { payload = value })))

  unfoldable pub run_entry : Entry → Engine self (Unit {0})
  unfolding select_start flow_loop workflow_output single_flow
  run_entry whole = do
    start ← lift (select_start self.plan.start q.envelope)
    modify (λ s. record s { start = some start })
    flow_loop unreached (length self.plan.flows + 1) [] start.flow
    workflow_output
  run_entry (only_flow name step_id) = single_flow name step_id

  interrupted : FlowPlan → List FlowRun → Failure → FlowRecord
  unfolding unstarted
  interrupted flow attempts error = record {
    run = unstarted flow error;
    attempts = attempts;
    stopped_by = elim attempts [ [] ↦ none | _ ∷ _ ↦ some RepeatStop.failure ];
  }

  -- the record of a flow that an exception interrupted
  close_flow : Failure → Option String → Engine self (Unit {0})
  unfolding lookup find_flow or_other set_flow interrupted
  close_flow error none = pure tt
  close_flow error (some name) = do
    found ← gets (λ s. lookup name s.records)
    previous ← or_other found
    flow ← or_other (find_flow name self.plan.flows)
    set_flow self name (interrupted flow previous.attempts error)

  -- the `except Exception` clause
  unfoldable pub recover : Exn → Engine self (Unit {0})
  unfolding in_run failure close_flow
  recover e = do
    error ← in_run self (failure self q.deadline e)
    modify (λ s. record s {
      status = RunStatus.failed;
      error = some error;
      payload = q.envelope.payload;
    })
    active ← gets (λ s. s.active)
    close_flow error active

  -- the `try` statement
  unfoldable pub run_guarded : Entry → Engine self (Unit {0})
  unfolding run_entry in_run check_deadline recover
  run_guarded entry =
      catch (do run_entry entry; in_run self (check_deadline self q.deadline)) recover

  run_result : Usage → RunState self.World → RunResult
  run_result usage s = record {
    workflow = self.plan.name;
    revision = self.plan.revision;
    status = s.status;
    payload = s.payload;
    metadata = q.envelope.metadata;
    flows = s.records;
    usage = usage;
    error = s.error;
    transitions = s.transitions;
    start = s.start;
  }

  finished : Entry → Engine self RunResult
  unfolding run_guarded add_usages run_result
  finished entry = do
    run_guarded entry
    records ← gets (λ s. s.records)
    usage ← add_usages no_usage records
    gets (λ s. run_result usage s)

  unfoldable pub initial_state : Entry → Shared self.World → RunState self.World
  unfolding initial_records
  initial_state entry shared = record {
    shared = shared;
    records = initial_records entry self.plan.flows self.plan.flows [];
    active = none;
    transitions = [];
    payload = q.envelope.payload;
    status = RunStatus.completed;
    error = none;
    start = none;
  }

  -- `_run`
  unfoldable pub run_all : Entry → Run self RunResult
  unfolding finished initial_state
  run_all entry shared = let (r, s) = finished entry (initial_state entry shared) in (r, s.shared)
