-- ===== src/Decisions/Output.antt =====
-- `validate_decision_output` of contracts/decisions.py. A task is a validated `DecisionInput`, so its
-- questions have distinct ids and every allowed source is one of its sources; a source that is not
-- there contains no subject.
pub mod Accepted
mod Answers
use Prim.Native.String.{◌++◌ as ◌<>◌}
use text.Mathlib.Text.{find?}
use foliqant.Prelude.{
  Member, any-false, In-Member, ℕ, String, Bool, true, false, not, ◌&&◌, ◌||◌, Option, none, some,
  List, [], ◌∷◌, ◌++◌, map, any, leb, ◌==◌, length, str_eq, mem_str, is_some, if◌then◌else◌,
  sort_texts,
}
use foliqant.Core.Plan.{no_supported_answer}
use foliqant.Core.Runner.Contexts.{mem_issue}
use foliqant.Decisions.Contracts.{
  DecisionSource, DecisionOption, option_ids, QuestionType, DecisionQuestion, DecisionInput,
  question_ids, AnswerabilityStatus, Answer, RequestUnit, RequestUnitsAnswer, DecisionResult,
  result_ids, all_distinct, all_in,
}
use foliqant.Decisions.Problems.{problem_if, no_problem, no_problem_not, split_nil}
use foliqant.Decisions.Answerability.{TaskType, is_partial, type_of, answerability_problems}
use foliqant.Decisions.Relations.{validate_request_relations}

-- `question.type`
abbrev pub question_type : QuestionType → TaskType
question_type (QuestionType.choice _) = TaskType.choice
question_type (QuestionType.multiselect _ _ _) = TaskType.multiselect
question_type QuestionType.predicate = TaskType.predicate
question_type (QuestionType.ordinal _) = TaskType.ordinal
question_type (QuestionType.request_units _ _) = TaskType.request_units

abbrev type_index : TaskType → ℕ
type_index TaskType.choice = 0
type_index TaskType.multiselect = 1
type_index TaskType.predicate = 2
type_index TaskType.ordinal = 3
type_index TaskType.request_units = 4

-- `questions.get(id)`: the last question with the id
unfoldable pub find_question : String → List DecisionQuestion → Option DecisionQuestion
find_question id [] = none
find_question id (q ∷ questions) = elim (find_question id questions) [
  | some later ↦ some later
  | none ↦ if str_eq q.id id then some q else none
]

-- `sources[id].text`
source_text : String → List DecisionSource → Option String
source_text id [] = none
source_text id (s ∷ sources) = elim (source_text id sources) [
  | some later ↦ some later
  | none ↦ if str_eq s.id id then some s.text else none
]

-- `subject in text`
abbrev contains : String → Option String → Bool
contains subject none = false
contains subject (some text) = is_some (find? text subject)

unfoldable pub in_some_source : String → List String → List DecisionSource → Bool
unfolding source_text
in_some_source subject ids sources = any (λ id. contains subject (source_text id sources)) ids

abbrev pub unit_ids : List RequestUnit → List String
unit_ids = map (λ u. u.id)

abbrev pub lacks_category : RequestUnit → Bool
lacks_category u = not (is_some u.category_id)

abbrev is_predicate_question : DecisionQuestion → Bool
is_predicate_question q = type_index (question_type q.type) == type_index TaskType.predicate

-- the ids of the predicate questions
unfoldable pub predicate_ids : List DecisionQuestion → List String
predicate_ids [] = []
predicate_ids (q ∷ questions) =
    let rest = predicate_ids questions in if is_predicate_question q then q.id ∷ rest else rest

module _ (task : DecisionInput) (prefix : String) (allowed : List String) where
  category_problems : String → List String → Bool → Option String → List String
  category_problems unit_prefix catalog allow_no_match none =
      problem_if (not allow_no_match) (unit_prefix <> ":no-match-forbidden")
  category_problems unit_prefix catalog allow_no_match (some category) =
      problem_if (not (mem_str category catalog)) (unit_prefix <> ":unknown-category")

  subject_problems : String → Option String → List String
  unfolding in_some_source
  subject_problems unit_prefix none = []
  subject_problems unit_prefix (some subject) =
      problem_if (not (in_some_source subject allowed task.sources))
        (unit_prefix <> ":subject-not-in-source")

  -- the loop over the units
  unfoldable pub unit_problems : List String → Bool → List RequestUnit → List String
  unfolding category_problems subject_problems
  unit_problems catalog allow_no_match [] = []
  unit_problems catalog allow_no_match (u ∷ units) =
      category_problems (prefix <> (":request:" <> u.id)) catalog allow_no_match u.category_id
      ++ (subject_problems (prefix <> (":request:" <> u.id)) u.subject
          ++ unit_problems catalog allow_no_match units)

  request_problems : List DecisionOption → Bool → DecisionResult → RequestUnitsAnswer → List String
  unfolding unit_problems all_distinct validate_request_relations predicate_ids mem_issue
  request_problems catalog allow_no_match item answer =
      problem_if (is_partial item.answerability.status && length answer.units == 0)
        (prefix <> ":partial-answer-empty")
      ++ (problem_if
            (any lacks_category answer.units
              && not (mem_issue no_supported_answer item.answerability.issues))
            (prefix <> ":null-category-without-no-supported-answer-issue")
          ++ (problem_if (not (all_distinct (unit_ids answer.units)))
                (prefix <> ":duplicate-request-unit")
              ++ (unit_problems (option_ids catalog) allow_no_match answer.units
                  ++ validate_request_relations prefix (unit_ids answer.units)
                      (predicate_ids task.questions) answer.relations)))

  selection_problems : List DecisionOption → ℕ → ℕ → DecisionResult → List String → List String
  unfolding all_in
  selection_problems options low high item chosen =
      problem_if (not (all_in chosen (option_ids options))) (prefix <> ":unknown-option")
      ++ (problem_if (is_partial item.answerability.status && length chosen == 0)
            (prefix <> ":partial-answer-empty")
          ++ problem_if (not (leb low (length chosen) && leb (length chosen) high))
              (prefix <> ":selection-cardinality"))

  -- the branches by the type, which question and result share
  unfoldable pub typed_problems : QuestionType → DecisionResult → Answer → List String
  unfolding request_problems selection_problems
  typed_problems (QuestionType.choice options) item (Answer.choice (some chosen)) =
      problem_if (not (mem_str chosen (option_ids options))) (prefix <> ":unknown-option")
  typed_problems (QuestionType.multiselect options low high) item
        (Answer.multiselect (some chosen)) =
      selection_problems options low high item chosen
  typed_problems (QuestionType.ordinal levels) item (Answer.ordinal (some level)) =
      problem_if (not (mem_str level (option_ids levels))) (prefix <> ":unknown-level")
  typed_problems (QuestionType.request_units catalog allow_no_match) item
        (Answer.request_units (some answer)) =
      request_problems catalog allow_no_match item answer
  typed_problems _ item _ = []

-- the body of the loop for a question that is found
unfoldable pub question_problems :
    DecisionInput → String → DecisionQuestion → DecisionResult → List String
unfolding answerability_problems typed_problems
question_problems task prefix q item =
    if type_index (type_of item.answer) == type_index (question_type q.type)
    then answerability_problems prefix item
      ++ typed_problems task prefix q.allowed_source_ids q.type item item.answer
    else (prefix <> ":type-mismatch") ∷ []

module _ (task : DecisionInput) where
  abbrev pub prefix_of : DecisionResult → String
  prefix_of item = "question:" <> item.question_id

  unfoldable pub found_problems : Option DecisionQuestion → DecisionResult → List String
  unfolding question_problems
  found_problems none item = (prefix_of item <> ":unknown-question") ∷ []
  found_problems (some q) item = question_problems task (prefix_of item) q item

  -- the loop over the results, with the ids that were seen
  unfoldable pub item_problems : List String → List DecisionResult → List String
  unfolding found_problems find_question
  item_problems seen [] = []
  item_problems seen (item ∷ items) =
      problem_if (mem_str item.question_id seen) (prefix_of item <> ":duplicate-result")
      ++ (found_problems (find_question item.question_id task.questions) item
          ++ item_problems (item.question_id ∷ seen) items)

-- `questions.keys() - seen`
unfoldable pub missing_problems : List String → List DecisionQuestion → List String
missing_problems seen [] = []
missing_problems seen (q ∷ questions) =
    problem_if (not (mem_str q.id seen)) ("question:" <> (q.id <> ":missing-result"))
    ++ missing_problems seen questions

-- `set(problems)`
distinct_texts : List String → List String
distinct_texts [] = []
distinct_texts (a ∷ texts) =
    let rest = distinct_texts texts in if mem_str a texts then rest else a ∷ rest

-- `validate_decision_output`
unfoldable pub validate_decision_output : DecisionInput → List DecisionResult → List String
unfolding item_problems missing_problems distinct_texts sort_texts
validate_decision_output task results = sort_texts (
    distinct_texts
      (item_problems task [] results ++ missing_problems (result_ids results) task.questions))
