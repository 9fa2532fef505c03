-- ===== src/Tests/Runs.antt =====
-- Runs of the engine at the workflow of Sample.
use foliqant.Prelude.{
  ℕ, ◌+◌, ◌≤◌, ◌≡◌, arith, length-append, true, false, none, some, List, [], ◌∷◌, length,
}
use foliqant.Tests.Sample.{
  to_end, act, main, never, repeat, item_flow, runner, calls_of, nobody, envelope, begun, Outside,
}
use foliqant.Core.Result.{OkHas}
use foliqant.Core.Json.{null, str, object, Items, nil, cons, field, end, tuple, Fields}
use foliqant.Core.Json.Freeze.{Raw}
use foliqant.Core.Usage.{no_usage}
use foliqant.Core.Plan.{DecisionIssue, RouteEntryPlan}
use foliqant.Core.Execution.{StepStatus, StepRecord, FlowRun, RunResult, Origin}
use foliqant.Core.Errors.{Exn}
use foliqant.Core.Exec.{returned, raised, pure}
use foliqant.Core.Exec.Gives.{Gives}
use foliqant.Core.Exec.Keeps.{Keeps, keeps_rules}
use foliqant.Core.Exec.Yields.{Returned, Yields}
use foliqant.Core.Runner.Self.{
  FlowRole, WorkflowRunner, Shared, OutcomeObject, step_outcome, selected,
}
use foliqant.Core.Runner.Contexts.{validate_outcome}
use foliqant.Core.Runner.Contexts.Outcomes.{IsOutcome, validate_outcome-IsOutcome}
use foliqant.Core.Runner.Ports.{Run, now, check_deadline, failure}
use foliqant.Core.Runner.Ports.Limit.{Counts}
use foliqant.Core.Runner.Flow.{FlowCall, Batch, execute_flow_with}
use foliqant.Core.Runner.Flow.Outcome.{EndsAs, guarded, execute_flow_with-EndsAs}
use foliqant.Core.Runner.Repeat.{Attempt, repeat_decision}
use foliqant.Core.Runner.Repeat.Frame.{IsTimeless}
use foliqant.Core.Runner.Repeat.Reasons.{IsDecision, repeat_decision_lem}
use foliqant.Core.Runner.Items.{BatchItem, Caller, run_item}
use foliqant.Core.Runner.Items.Attempts.{IsItemRun, runs_of, IsLog, run_item_attempts}
use foliqant.Core.Runner.Collection.{accept_items, execute_collection, execute_flow}
use foliqant.Core.Runner.Collection.Accepted.{AreAccepted, accept_items-AreAccepted}
use foliqant.Core.Runner.Routing.{select, boundary_target}
use foliqant.Core.Runner.Routing.Boundary.{
  FirstHolding, select-FirstHolding, IsBoundary, boundary_target-IsBoundary,
}
use foliqant.Core.Runner.Routed.{Request}
use foliqant.Core.Runner.Whole.{whole, flow_loop, unreached, run_guarded, initial_state, run_all}
use foliqant.Core.Runner.Whole.Visits.{run_transitions}
use foliqant.Core.Runner.Admit.{admit}
use foliqant.Core.Runner.Admit.Limit.{max_steps_hold}

runner-Counts : Counts runner calls_of
runner-Counts = record {
  clock = λ w. omega arith;
  pause = λ w. omega arith;
  execute = λ step inputs context budget w. omega arith;
  enter_slot = λ deadline w. omega arith;
  leave_slot = λ w. omega arith;
}

max_steps_hold_example : calls_of (admit runner whole envelope nobody none begun).1.world ≤ 7 + 4
max_steps_hold_example =
    max_steps_hold runner calls_of runner-Counts whole envelope nobody none begun

abbrev flow_call : FlowCall
flow_call = record {
  flow = main;
  envelope = envelope;
  identity = nobody;
  deadline = 900;
  step_id = none;
  attempt = 1;
  role = FlowRole.routed;
  collection_item = none;
}

-- an executor that raises
abbrev failing : WorkflowRunner
failing = record runner {
  execute =
      λ step inputs context budget w. (raised Exn.other, budget, record w { calls = w.calls + 1 });
}

abbrev collect : Batch → Run failing StepRecord
collect = execute_collection failing (execute_flow failing)

execute_flow_with-EndsAs_example :
    EndsAs failing flow_call
      (guarded failing collect flow_call begun)
      (execute_flow_with failing collect flow_call begun).0
execute_flow_with-EndsAs_example = execute_flow_with-EndsAs failing collect flow_call begun

abbrev completed_run : FlowRun
completed_run = record {
  status = StepStatus.completed;
  steps = [];
  result = null;
  has_result = true;
  usage = some no_usage;
  elapsed_seconds = some 0;
  error = none;
}

abbrev last_attempt : Attempt
last_attempt = record {
  flow = item_flow;
  repeat = repeat;
  run = completed_run;
  attempt = 3;
  issues = [];
  envelope = envelope;
  identity = nobody;
  deadline = 900;
  item = none;
}

repeat_decision_lem_example :
    Yields (IsDecision last_attempt) (repeat_decision runner (execute_flow runner) last_attempt)
repeat_decision_lem_example = repeat_decision_lem runner (execute_flow runner) last_attempt

abbrev item : BatchItem
item = record { id = "first"; flow = item_flow; payload = end }

abbrev caller : Caller
caller = record { metadata = end; identity = nobody; deadline = 900 }

abbrev per_run : FlowRole → ℕ
per_run FlowRole.callable = 1
per_run _ = 0

-- a flow that completes and counts the calls for items
abbrev counted_flow : FlowCall → Run runner (FlowRun × List DecisionIssue)
counted_flow c s = (
  returned (completed_run, []),
  record s { world = record { time = s.world.time; calls = s.world.calls + per_run c.role } },
)

abbrev CallsLog : List FlowRun → Shared Outside → Type 0
CallsLog runs s = s.world.calls ≡ 7 + length runs

now-CallsLog : (runs : List FlowRun) → Keeps (CallsLog runs) (now runner)
unfolding now
now-CallsLog runs = record { at = λ s h. h }

CallsLog-IsTimeless : (runs : List FlowRun) → IsTimeless runner (CallsLog runs)
unfolding check_deadline failure
CallsLog-IsTimeless runs = record {
  deadline = λ d. search (keeps_rules, now-CallsLog);
  failure = λ d e. search (keeps_rules, now-CallsLog);
}

CallsLog-IsLog : IsLog runner counted_flow item_flow CallsLog
CallsLog-IsLog = record {
  attempt = λ runs c f role n. record {
    at = λ s h. rw role (omega (arith, h, length-append runs (completed_run ∷ [])));
  };
  retry = λ runs c role. record { at = λ s h. rw role (omega (arith, h)) };
  timeless = CallsLog-IsTimeless;
}

run_item_attempts_example :
    Gives
      (CallsLog [])
      (λ r s. IsItemRun (some repeat) r × CallsLog (runs_of (some repeat) r) s)
      (run_item runner counted_flow caller 0 item)
run_item_attempts_example =
    run_item_attempts runner counted_flow caller 0 item CallsLog CallsLog-IsLog

abbrev batch : Items
batch =
    cons
      (object
        (field "id" (str "first") (field "flow" (str "item") (field "input" (object end) end))))
      nil

accept_items-AreAccepted_example :
    Yields
      (AreAccepted runner ("item" ∷ []) [] batch)
      (accept_items runner ("item" ∷ []) 900 [] batch)
accept_items-AreAccepted_example = accept_items-AreAccepted runner ("item" ∷ []) 900 [] batch

abbrev inputs : Fields
inputs = field "items" (tuple batch) end

abbrev whole_batch : Batch
whole_batch = record {
  flows = "item" ∷ [];
  max_items = 5;
  inputs = inputs;
  metadata = end;
  identity = nobody;
  deadline = 900;
}

abbrev routes : List RouteEntryPlan
routes =
    (record { target = to_end; when = some never }) ∷ (record { target = to_end; when = none }) ∷ []

select-FirstHolding_example :
    OkHas
      (λ (target, k). (n : ℕ) × (k ≡ 0 + n) × FirstHolding (object end) routes n target)
      (select 0 routes (object end))
select-FirstHolding_example = select-FirstHolding 0 routes (object end)

boundary_target-IsBoundary_example :
    OkHas
      (λ (target, t). IsBoundary StepStatus.completed target t)
      (boundary_target main StepStatus.completed [] (object end))
boundary_target-IsBoundary_example =
    boundary_target-IsBoundary main StepStatus.completed [] (object end)

abbrev chosen : OutcomeObject
chosen =
    step_outcome (Raw.str "done") (some false) (some [])
      (some (selected "invoice" none (some Origin.model)))

validate_outcome-IsOutcome_example :
    OkHas (λ (outcome, raw). IsOutcome act.kind outcome) (validate_outcome act.kind chosen)
validate_outcome-IsOutcome_example = validate_outcome-IsOutcome act.kind chosen

abbrev request : Request
request = record { envelope = envelope; identity = nobody; deadline = 900 }

run_transitions_example :
    (length
        (run_guarded runner request whole (initial_state runner request whole begun)).1.transitions
      ≤ 2)
    × Returned (λ (r : RunResult). length r.transitions ≤ 2) (run_all runner request whole begun).0
    × (flow_loop runner request (λ visited current. pure tt) 3 [] "main"
        ≡ flow_loop runner request (unreached runner request) 3 [] "main")
run_transitions_example =
    run_transitions runner request whole begun (λ visited current. pure tt) "main"
