-- ===== src/Tests/Sample.antt =====
-- A small workflow: one handler step, and a callable flow with `repeat`.
use foliqant.Prelude.{ℕ, ◌+◌, true, false, none, some, [], ◌∷◌}
use foliqant.Prelude.Int.{pos}
use foliqant.Core.Json.{finite, null, bool, object, end}
use foliqant.Core.Json.Freeze.{Raw}
use foliqant.Core.Plan.{
  BindingKind, plan, no_bindings, ConditionOperator, ConditionPlan, leaf, Outcome, Start,
  Transition, TransitionTargetPlan, RepeatPlan, StepKind, CompiledStep, FlowPlan,
}
use foliqant.Core.Exec.{returned}
use foliqant.Core.Runner.Self.{Envelope, Identity, WorkflowRunner, Shared, step_outcome}

-- the time, and how often the executor was called
pub record Outside : Type 0 where
  pub time : ℕ
  pub calls : ℕ

abbrev pub to_end : TransitionTargetPlan
to_end = record { flow = none; outcome = some Outcome.completed }

abbrev pub act : CompiledStep
act = record { name = "act"; when = none; kind = StepKind.handler no_bindings }

abbrev pub main : FlowPlan
main = record {
  name = "main";
  input = no_bindings;
  steps = act ∷ [];
  output = none;
  transition = some (Transition.direct to_end);
  on_unresolved = none;
  callable = false;
  repeat = none;
}

-- `present` of a payload that is never there
abbrev pub never : ConditionPlan
never = leaf (record {
  source = plan BindingKind.pointer (some "/payload/missing") null false null [] no_bindings;
  operator = ConditionOperator.present;
  operand = bool true;
  comparison = none;
  pattern = none;
})

abbrev pub repeat : RepeatPlan
repeat = record {
  max_attempts = 3;
  until = never;
  retry_flow = none;
  retry_flow_input = no_bindings;
  continue_when = none;
  retry_input = no_bindings;
}

abbrev pub item_flow : FlowPlan
item_flow = record {
  name = "item";
  input = no_bindings;
  steps = act ∷ [];
  output = none;
  transition = none;
  on_unresolved = none;
  callable = true;
  repeat = some repeat;
}

abbrev pub runner : WorkflowRunner
runner = record {
  World = Outside;
  clock = λ w. (w.time, w);
  pause = λ w. (returned tt, w);
  execute = λ step inputs context budget w. (
    returned (step_outcome (Raw.str "done") (some false) (some []) none),
    budget,
    record w { calls = w.calls + 1 },
  );
  validate_input = λ v. none;
  validate_flow_input = λ name v. none;
  to_float = λ n. finite (pos n);
  enter_slot = λ deadline w. (returned tt, w);
  leave_slot = λ w. w;
  plan = record {
    name = "sample";
    revision = "1";
    start = Start.direct "main";
    output = none;
    flows = main ∷ item_flow ∷ [];
  };
  limits = record {
    run_timeout = 900;
    model_timeout = 300;
    tool_timeout = 30;
    max_steps = 4;
    model_requests_per_step = 16;
    tool_calls_per_step = 16;
  };
}

abbrev pub calls_of : Outside → ℕ
calls_of w = w.calls

abbrev pub nobody : Identity
nobody = record { tenant_id = none; principal_id = none }

abbrev pub envelope : Envelope
envelope = record { payload = object end; metadata = end }

abbrev pub begun : Shared Outside
begun = record { world = record { time = 5; calls = 7 }; consumed = 0 }
