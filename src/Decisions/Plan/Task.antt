-- ===== src/Decisions/Plan/Task.antt =====
-- The task that `build_decision_input` of adapters/decisions/native.py returns.
use foliqant.Prelude.{◌≡◌, refl, arith, String, true, Option, List, ◌∷◌}
use foliqant.Core.Result.{Result, ok, err, ◌>>=◌}
use foliqant.Core.Json.{FrozenJson, Fields}
use foliqant.Decisions.Contracts.{QuestionType, DecisionQuestion, DecisionInput, valid_input}
use foliqant.Decisions.Answerability.{TaskType}
use foliqant.Decisions.Plan.{
  DecisionQuestionPlan, DecisionStepPlan, question_value, question_values, build_decision_input,
}

-- what ran first when a chain of two calls returned
ran_first {ℓ κ} :
    {X : Type ℓ} {Y : Type κ} {y : Y} (next : X → Result Y) (call : Result X)
    → (call >>= next) ≡ ok y
    → (x : X) × (next x ≡ ok y) × (call ≡ ok x)
ran_first next (ok x) returned = (x, returned, refl)
ran_first next (err e) returned = absurd (cc returned)

pub build_decision_input-valid :
    (dumps : FrozenJson → Option String) (step : DecisionStepPlan) (inputs : Fields)
    (task : DecisionInput)
    → build_decision_input dumps step inputs ≡ ok task
    → (valid_input task ≡ true) × (question_values step.questions ≡ ok task.questions)
unfolding build_decision_input
build_decision_input-valid dumps step inputs task h = ground arith

question_value-choice :
    (q : DecisionQuestionPlan) (v : DecisionQuestion)
    → question_value q ≡ ok v
    → q.type ≡ TaskType.choice
    → v.type ≡ QuestionType.choice q.options
unfolding question_value
question_value-choice q v h e = ground arith

-- the first question keeps its type and options
pub question_values-choice :
    (q : DecisionQuestionPlan) (qs : List DecisionQuestionPlan) (values : List DecisionQuestion)
    → question_values (q ∷ qs) ≡ ok values
    → q.type ≡ TaskType.choice
    → (v : DecisionQuestion) × (rest : List DecisionQuestion) × (values ≡ v ∷ rest)
      × (v.type ≡ QuestionType.choice q.options)
unfolding question_values
question_values-choice q qs values h e =
    let (v, h1, is) =
      ran_first (λ value. question_values qs >>= λ rest. ok (value ∷ rest)) (question_value q) h in
    let (rest, h2, _) = ran_first (λ rest. ok (v ∷ rest)) (question_values qs) h1 in
    (v, rest, cc h2, question_value-choice q v is e)
