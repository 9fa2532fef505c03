-- ===== src/Core/Execution.antt =====
-- core/execution.py: the records of a run, and how they are shown as JSON. The clock counts units
-- of 2^-1074 seconds, so that every time that Python reads is a natural number of them; a
-- difference of times is taken exactly.
mod Records
mod Failures
mod Project
pub use Records.{
  RunStatus, StepStatus, Origin, Selection, StepRecord, StepOutcome, RepeatStop, FlowRun,
  FlowRecord, plain_record, skipped_run, RouteKind, TransitionRecord, StartRecord, RunResult,
}
unfoldable pub use Records.{
  attempt_count, total_usage, total_elapsed_seconds, sum_usages, sum_elapsed,
}
pub use Failures.{code_value, message_of, status_value, text, number, flag}
unfoldable pub use Failures.{with_option, failure_fields, failure_value}
unfoldable pub use Project.{
  cost_fields, usage_value, selection_value, record_fields, step_record_value, steps_fields,
  run_fields, attempt_values, flow_record_value, round_half_even, model_usage_value,
}
