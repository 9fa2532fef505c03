-- ===== src/Decisions/Native/Outcome.antt =====
-- The outcome that adapters/decisions/native.py makes of a decision, and the engine's check of it.
mod Selections
use foliqant.Prelude.{
  ◌≡◌, refl, inl, inr, arith, String, not, Option, none, some, List, [], map, ◌⊎◌,
}
use foliqant.Core.Errors.{Exn}
use foliqant.Core.Result.{ok}
use foliqant.Core.Exec.{Raised, returned, raised}
use foliqant.Core.Json.{FrozenJson, Fields}
use foliqant.Core.Json.Freeze.{Raw, as_raw}
use foliqant.Core.Plan.{Bindings, StepKind}
use foliqant.Core.Runner.Self.{OutcomeObject, step_outcome}
use foliqant.Core.Runner.Contexts.{validate_outcome}
use foliqant.Core.Runner.Contexts.Accepts.{as_object, validate_outcome-accepts}
use foliqant.Decisions.Contracts.{question_ids, DecisionInput, DecisionResult}
use foliqant.Decisions.Plan.{QuestionMode, single, multiple, DecisionStepPlan, build_decision_input}
use foliqant.Decisions.Plan.Task.{build_decision_input-valid}
use foliqant.Decisions.Native.{
  in_order, ValidatedDecision, validate_decision_result, decision_facts, all_answerable,
  unresolved_issues, selection_of, key_of,
}
pub use foliqant.Decisions.Native.Outcome.Selections.{IsCategory}
use foliqant.Decisions.Native.Outcome.Selections.{
  unresolved-AreDistinct, issues_reviewed, selection_of-IsSelectable, task-FirstIsSelectable,
}

-- the outcome that `_run_decision` of adapters/models/executor.py returns
unfoldable pub decision_outcome : ValidatedDecision → OutcomeObject
decision_outcome v =
    step_outcome (as_raw v.value) (some (not v.answerable)) (some (map some v.unresolved_issues))
      (as_object v.selection)

Raised-cases :
    {A : Type 0} (r : Raised A) → ((a : A) × (r ≡ returned a)) ⊎ ((e : Exn) × (r ≡ raised e))
Raised-cases (returned a) = inl (a, refl)
Raised-cases (raised e) = inr (e, refl)

module _ (dump : QuestionMode → List DecisionResult → Raw) (step : DecisionStepPlan) where
  record HasFacts (results : List DecisionResult) (v : ValidatedDecision) : Type 0 where
    answerable : v.answerable ≡ all_answerable results
    issues : v.unresolved_issues ≡ unresolved_issues results
    selection :
        (v.selection ≡ none)
        ⊎ (selection_of step step.questions results
              (all_answerable results)
              (key_of (all_answerable results) results)
              (unresolved_issues results)
            ≡ returned v.selection)

  decision_facts-HasFacts :
      (mode : QuestionMode) (results : List DecisionResult) (v : ValidatedDecision)
      → decision_facts dump step mode results ≡ returned v
      → HasFacts results v
  unfolding decision_facts
  decision_facts-HasFacts single results v h = ground arith
  decision_facts-HasFacts multiple results v h = ground arith

  decision-HasFacts :
      (task : DecisionInput) (results : List DecisionResult) (v : ValidatedDecision)
      → validate_decision_result dump step task results ≡ returned v
      → (ordered : List DecisionResult) × HasFacts ordered v
  unfolding validate_decision_result
  decision-HasFacts task results v h =
      elim (Raised-cases (in_order (question_ids task.questions) results)) [
        | inl (ordered, e) ↦
            (ordered, decision_facts-HasFacts step.question_mode ordered v (ground arith))
        | inr (e, fails) ↦ absurd (ground arith)
      ]

-- An outcome of a validated decision passes `_validate_outcome` unchanged: whatever the model's
-- output is, if `validate_decision_result` returns facts for the step's task, the engine accepts the
-- outcome made of them, with its selection and its issues, provided that the category of the step's
-- fallback is well formed.
pub decision_outcome-accepted :
    (dumps : FrozenJson → Option String) (dump : QuestionMode → List DecisionResult → Raw)
    (step : DecisionStepPlan) (inputs : Fields) (task : DecisionInput)
    (results : List DecisionResult) (v : ValidatedDecision) (sources : Bindings)
    → IsCategory step.fallback
    → build_decision_input dumps step inputs ≡ ok task
    → validate_decision_result dump step task results ≡ returned v
    → validate_outcome (StepKind.decision sources) (decision_outcome v)
      ≡ ok (
        record {
          needs_review = not v.answerable;
          selection = v.selection;
          unresolved_issues = v.unresolved_issues;
        },
        as_raw v.value,
      )
unfolding decision_outcome
decision_outcome-accepted dumps dump step inputs task results v sources c b h =
    let (valid, questions) = build_decision_input-valid dumps step inputs task b in
    let (ordered, facts) = decision-HasFacts dump step task results v h in
    let first = task-FirstIsSelectable step.questions task valid questions in
    validate_outcome-accepts (StepKind.decision sources) (as_raw v.value) (not v.answerable)
      v.unresolved_issues v.selection refl (rw facts.issues (unresolved-AreDistinct ordered))
      (rw (facts.issues, facts.answerable) (issues_reviewed ordered))
      (elim facts.selection [
        | inl absent ↦ rw absent tt
        | inr made ↦
            rw facts.answerable
              (selection_of-IsSelectable step step.questions ordered _ _ _ v.selection c first made)
      ])
