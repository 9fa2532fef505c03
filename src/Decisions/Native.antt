-- ===== src/Decisions/Native.antt =====
-- `validate_decision_result` of adapters/decisions/native.py, and `contract_violation` of
-- adapters/validation/violations.py.
pub mod Outcome
use Prim.Native.Char.{Char}
use text.Mathlib.Text.{starts_with}
use foliqant.Prelude.{
  ℕ, zero, suc, code, String, Bool, true, false, not, ◌&&◌, ◌||◌, Option, none, some, List, [], ◌∷◌,
  ◌++◌, map, all, ◌==◌, leb, length, str_eq, mem_str, if◌then◌else◌,
}
use foliqant.Core.Errors.{
  invalid_output, decision_contract, Exn, service, other, service_error, make_service_error,
  ServiceError,
}
use foliqant.Core.Result.{Result, ok, err}
use foliqant.Core.Exec.{Raised, returned, raised}
use foliqant.Core.Json.{FrozenJson, object}
use foliqant.Core.Json.Freeze.{Raw, freeze_json, max_json_depth}
use foliqant.Core.Plan.{DecisionIssue}
use foliqant.Core.Execution.{Origin, Selection}
use foliqant.Core.Runner.Contexts.{mem_issue, no_issues}
use foliqant.Decisions.Contracts.{
  DecisionOption, DecisionInput, question_ids, AnswerabilityStatus, not_answerable, undetermined,
  PredicateValue, yes_true, no_false, unknown, Answer, DecisionResult,
}
use foliqant.Decisions.Answerability.{TaskType, is_answerable}
use foliqant.Decisions.Plan.{
  CategoryPlan, FallbackPlan, DecisionQuestionPlan, QuestionMode, single, multiple,
  DecisionStepPlan,
}
use foliqant.Decisions.Output.{validate_decision_output}

infixl 5 ◌>>=◌
abbrev pub ◌>>=◌ : {A B : Type 0} → Raised A → (A → Raised B) → Raised B
returned a >>= f = f a
raised e >>= f = raised e

abbrev pub fail_if : Bool → ServiceError → Raised (Unit {0})
fail_if true e = raised (service e)
fail_if false e = returned tt

-- a `KeyError` or `StopIteration`
abbrev or_other : {A : Type 0} → Option A → Raised A
or_other none = raised other
or_other (some a) = returned a

-- `text.rpartition(":")`, without the separator
last_colon : String → Option (String × String)
last_colon String.[] = none
last_colon (String.◌∷◌ c s) = elim (last_colon s) [
  | some (before, after) ↦ some (String.◌∷◌ c before, after)
  | none ↦ if code c == b':' then some ("", s) else none
]

rpartition : String → String × String
unfolding last_colon
rpartition s = elim (last_colon s) [ some parts ↦ parts | none ↦ ("", s) ]

drop_chars : ℕ → String → String
drop_chars zero s = s
drop_chars (suc n) String.[] = String.[]
drop_chars (suc n) (String.◌∷◌ c s) = drop_chars n s

-- `prefix.removeprefix("question:")`
without_prefix : String → String
unfolding drop_chars
without_prefix s = if starts_with s "question:" then drop_chars 9 s else s

-- `re.sub(r"[^a-z0-9_]", "_", text)` and the cut at 64 characters; the kinds are in lower case
keyword : ℕ → String → String
keyword zero s = String.[]
keyword (suc n) String.[] = String.[]
keyword (suc n) (String.◌∷◌ c s) =
    let is_kept =
      (leb b'a' (code c) && leb (code c) b'z')
      || (leb b'0' (code c) && leb (code c) b'9')
      || code c == b'_' in
    String.◌∷◌ (if is_kept then c else "_") (keyword n s)

first_or : String → List String → String
first_or d [] = d
first_or d (x ∷ xs) = x

-- `contract_violation`, without the feedback for the model
unfoldable pub contract_violation : List String → List String → ServiceError
unfolding rpartition without_prefix keyword first_or make_service_error
contract_violation problems questions =
    let (prefix, kind) = rpartition (first_or "result:invalid" problems) in
    make_service_error invalid_output false (some decision_contract)
      (if mem_str (without_prefix prefix) questions then some prefix else none)
      (some (keyword 64 kind))

-- `by_question.get(id)`: the last result for the question
unfoldable pub find_result : String → List DecisionResult → Option DecisionResult
find_result id [] = none
find_result id (r ∷ results) = elim (find_result id results) [
  | some later ↦ some later
  | none ↦ if str_eq r.question_id id then some r else none
]

-- `[by_question[question.id] for question in task.questions]`
unfoldable pub in_order : List String → List DecisionResult → Raised (List DecisionResult)
unfolding find_result
in_order [] results = returned []
in_order (id ∷ ids) results = or_other (find_result id results) >>= λ first.
    in_order ids results >>= λ rest. returned (first ∷ rest)

abbrev pub is_settled : DecisionResult → Bool
is_settled r = is_answerable r.answerability.status

-- `bool(statuses) and all(status == "answerable" for status in statuses)`
unfoldable pub all_answerable : List DecisionResult → Bool
all_answerable [] = false
all_answerable (r ∷ results) = all is_settled (r ∷ results)

-- `_answer_key`
unfoldable pub answer_key : Answer → Option String
answer_key (Answer.choice chosen) = chosen
answer_key (Answer.ordinal level) = level
answer_key (Answer.predicate yes_true) = some "true"
answer_key (Answer.predicate no_false) = some "false"
answer_key (Answer.predicate unknown) = none
answer_key (Answer.multiselect _) = none
answer_key (Answer.request_units _) = none

abbrev is_undetermined : AnswerabilityStatus → Bool
is_undetermined undetermined = true
is_undetermined _ = false

-- `dict.fromkeys(issues)`, after the issues that are already keys
add_issues : List DecisionIssue → List DecisionIssue → List DecisionIssue
unfolding mem_issue
add_issues keys [] = keys
add_issues keys (i ∷ issues) = add_issues (if mem_issue i keys then keys else keys ++ i ∷ []) issues

-- the issues of the results that are not answerable
open_issues : List DecisionIssue → List DecisionResult → List DecisionIssue
unfolding add_issues
open_issues keys [] = keys
open_issues keys (r ∷ results) =
    open_issues (if is_settled r then keys else add_issues keys r.answerability.issues) results

any_undetermined : List DecisionResult → Bool
any_undetermined [] = false
any_undetermined (r ∷ results) = is_undetermined r.answerability.status || any_undetermined results

-- `unresolved_issues`
unfoldable pub unresolved_issues : List DecisionResult → List DecisionIssue
unfolding open_issues any_undetermined
unresolved_issues results = if any_undetermined results then [] else open_issues [] results

pub record ValidatedDecision : Type 0 where
  pub value : FrozenJson
  pub answerable : Bool
  pub answer_key : Option String
  pub selection : Option Selection
  pub unresolved_issues : List DecisionIssue

option_with : String → List DecisionOption → Option DecisionOption
option_with id [] = none
option_with id (o ∷ options) = if str_eq o.id id then some o else option_with id options

option_for : Option String → List DecisionOption → Option DecisionOption
unfolding option_with
option_for none options = none
option_for (some id) options = option_with id options

abbrev within_issues : List DecisionIssue → List DecisionIssue → Bool
within_issues issues on = all (λ i. mem_issue i on) issues

-- the fallback category, where it applies
fallback_selection :
    Option FallbackPlan → AnswerabilityStatus → List DecisionIssue → Option Selection
unfolding mem_issue
fallback_selection (some plan) not_answerable issues =
    if not (no_issues issues) && within_issues issues plan.on
    then some (record {
      category_id = plan.category.id;
      category_description = plan.category.description;
      origin = Origin.fallback;
    })
    else none
fallback_selection _ status issues = none

abbrev pub chosen : DecisionOption → Selection
chosen o = record {
  category_id = o.id;
  category_description = some o.description;
  origin = Origin.model;
}

-- the option with the answer's key
choice_of : Option String → List DecisionOption → Raised (Option Selection)
unfolding option_for
choice_of key options = or_other (option_for key options) >>= λ o. returned (some (chosen o))

-- the selection of a single choice
choice_selection :
    DecisionStepPlan
    → List DecisionOption
    → DecisionResult
    → Bool
    → Option String
    → List DecisionIssue
    → Raised (Option Selection)
unfolding choice_of fallback_selection
choice_selection step options item true key issues = choice_of key options
choice_selection step options item false key issues =
    returned (fallback_selection step.fallback item.answerability.status issues)

-- `if step.questions[0].type == "choice"`
when_choice : TaskType → Raised (Option Selection) → Raised (Option Selection)
when_choice TaskType.choice selection = selection
when_choice _ selection = returned none

pub selection_of :
    DecisionStepPlan
    → List DecisionQuestionPlan
    → List DecisionResult
    → Bool
    → Option String
    → List DecisionIssue
    → Raised (Option Selection)
unfolding choice_selection when_choice
selection_of step [] results answerable key issues = raised other
selection_of step (q ∷ questions) [] answerable key issues = raised other
selection_of step (q ∷ questions) (item ∷ items) answerable key issues =
    when_choice q.type (choice_selection step q.options item answerable key issues)

abbrev pub key_of : Bool → List DecisionResult → Option String
key_of true (item ∷ items) = answer_key item.answer
key_of _ _ = none

as_mapping : Result FrozenJson → Raised FrozenJson
as_mapping (ok (object fs)) = returned (object fs)
as_mapping _ = raised (service (service_error invalid_output))

-- `dump` is `model_dump` of the only result, or of the whole output
module _ (dump : QuestionMode → List DecisionResult → Raw) where
  -- what follows the reordering of the results
  unfoldable pub decision_facts :
      DecisionStepPlan → QuestionMode → List DecisionResult → Raised ValidatedDecision
  unfolding all_answerable answer_key unresolved_issues selection_of as_mapping contract_violation
  decision_facts step single results =
      fail_if (not (length results == 1)) (contract_violation ("result:result-count" ∷ []) [])
      >>= λ _. as_mapping (freeze_json max_json_depth (dump single results)) >>= λ value.
          selection_of step step.questions results (all_answerable results)
            (key_of (all_answerable results) results) (unresolved_issues results)
          >>= λ selection. returned (record {
            value = value;
            answerable = all_answerable results;
            answer_key = key_of (all_answerable results) results;
            selection = selection;
            unresolved_issues = unresolved_issues results;
          })
  decision_facts step multiple results =
      as_mapping (freeze_json max_json_depth (dump multiple results)) >>= λ value.
      returned (record {
        value = value;
        answerable = all_answerable results;
        answer_key = none;
        selection = none;
        unresolved_issues = unresolved_issues results;
      })

  -- `validate_decision_result` of the results that `_validate_output` returned
  unfoldable pub validate_decision_result :
      DecisionStepPlan → DecisionInput → List DecisionResult → Raised ValidatedDecision
  unfolding validate_decision_output in_order decision_facts contract_violation
  validate_decision_result step task results =
      let problems = validate_decision_output task results in
      fail_if (not (length problems == 0))
        (contract_violation problems (question_ids task.questions))
      >>= λ _. in_order (question_ids task.questions) results >>= λ ordered.
          decision_facts step step.question_mode ordered
