-- ===== src/Decisions/Answerability.antt =====
-- `validate_answerability` of decisions/contracts.py.
pub mod Coherence
use Prim.Native.String.{◌++◌ as ◌<>◌}
use foliqant.Prelude.{
  String, Bool, true, false, not, ◌&&◌, ◌||◌, Option, none, some, List, [], ◌∷◌, ◌++◌, is_some,
}
use foliqant.Core.Plan.{DecisionIssue}
use foliqant.Core.Runner.Contexts.{no_issues}
use foliqant.Decisions.Problems.{problem_if}
use foliqant.Decisions.Contracts.{
  AnswerabilityStatus, answerable, partially_answerable, not_answerable, undetermined,
  Answerability, PredicateValue, unknown, Answer, DecisionResult,
}

-- the literal `type`
pub data TaskType : Type 0 where
  choice multiselect predicate ordinal request_units : TaskType

abbrev pub is_answerable : AnswerabilityStatus → Bool
is_answerable answerable = true
is_answerable _ = false

abbrev pub is_partial : AnswerabilityStatus → Bool
is_partial partially_answerable = true
is_partial _ = false

-- `status in {"not_answerable", "undetermined"}`
abbrev is_abstention : AnswerabilityStatus → Bool
is_abstention not_answerable = true
is_abstention undetermined = true
is_abstention _ = false

-- `task_type in {"multiselect", "request_units"}`
abbrev is_collection : TaskType → Bool
is_collection TaskType.multiselect = true
is_collection TaskType.request_units = true
is_collection _ = false

abbrev is_predicate : TaskType → Bool
is_predicate TaskType.predicate = true
is_predicate _ = false

-- `predicate_value == "unknown"`
abbrev is_unknown : Option PredicateValue → Bool
is_unknown (some unknown) = true
is_unknown _ = false

answer_problems : String → Bool → AnswerabilityStatus → Bool → Option PredicateValue → List String
answer_problems prefix true status has_answer value =
    problem_if (is_answerable status && is_unknown value) (prefix <> ":unknown-on-answerable")
    ++ problem_if (is_abstention status && not (is_unknown value))
        (prefix <> ":substantive-on-unanswerable")
answer_problems prefix false status has_answer value =
    problem_if ((is_answerable status || is_partial status) && not has_answer)
      (prefix <> ":answer-required")
    ++ problem_if (is_abstention status && has_answer) (prefix <> ":answer-must-be-null")

unfoldable pub validate_answerability :
    String → TaskType → Answerability → Bool → Option PredicateValue → List String
unfolding answer_problems
validate_answerability prefix task_type a has_answer value =
    problem_if (not (is_answerable a.status) && no_issues a.issues) (prefix <> ":issues-required")
    ++ (problem_if (is_partial a.status && not (is_collection task_type))
          (prefix <> ":partial-not-supported")
        ++ answer_problems prefix (is_predicate task_type) a.status has_answer value)

-- `item.type`
abbrev pub type_of : Answer → TaskType
type_of (Answer.choice _) = TaskType.choice
type_of (Answer.multiselect _) = TaskType.multiselect
type_of (Answer.predicate _) = TaskType.predicate
type_of (Answer.ordinal _) = TaskType.ordinal
type_of (Answer.request_units _) = TaskType.request_units

-- `item.answer is not None`
abbrev pub has_answer : Answer → Bool
has_answer (Answer.choice a) = is_some a
has_answer (Answer.multiselect a) = is_some a
has_answer (Answer.predicate _) = true
has_answer (Answer.ordinal a) = is_some a
has_answer (Answer.request_units a) = is_some a

-- `item.answer.value if isinstance(item, PredicateResult) else None`
abbrev pub predicate_value : Answer → Option PredicateValue
predicate_value (Answer.predicate value) = some value
predicate_value _ = none

-- the call that both the result models and `validate_decision_output` make
unfoldable pub answerability_problems : String → DecisionResult → List String
unfolding validate_answerability
answerability_problems prefix item =
    validate_answerability prefix (type_of item.answer) item.answerability (has_answer item.answer)
      (predicate_value item.answer)
