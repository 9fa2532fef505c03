-- ===== src/Decisions/Plan.antt =====
-- The compiled decision step of core/plan.py, and `build_decision_input` of
-- adapters/decisions/native.py. `dumps` is the JSON text that `json.dumps` writes of a value, or
-- none where it raises.
pub mod Task
use foliqant.Prelude.{
  ℕ, String, Bool, true, false, not, ◌&&◌, ◌||◌, Option, none, some, List, [], ◌∷◌, map, all, ◌==◌,
  length, str_eq, mem_str, if◌then◌else◌, Dict, lookup,
}
use foliqant.Core.Errors.{invalid_configuration, invalid_input}
use foliqant.Core.Result.{Result, ok, err, raise, raise_if, ◌>>=◌, ◌>>◌}
use foliqant.Core.Json.{FrozenJson, str, Fields, field_lookup, has_field, fields_length}
use foliqant.Core.Budget.{is_blank}
use foliqant.Core.Plan.{DecisionIssue}
use foliqant.Decisions.Contracts.{
  SourceKind, document, DecisionSource, DecisionOption, QuestionType, DecisionQuestion,
  DecisionInput, valid_input,
}
use foliqant.Decisions.Answerability.{TaskType}

pub record CategoryPlan : Type 0 where
  pub id : String
  pub description : Option String

pub record FallbackPlan : Type 0 where
  pub category : CategoryPlan
  pub on : List DecisionIssue

-- an option of a question is a `DecisionOptionPlan`, which has the fields of `DecisionOption`
pub record DecisionQuestionPlan : Type 0 where
  pub id : String
  pub type : TaskType
  pub prompt : String
  pub criteria : List String
  pub allowed_source_ids : List String
  pub options : List DecisionOption
  pub min_selections : Option ℕ
  pub max_selections : Option ℕ
  pub allow_no_match : Option Bool

pub data QuestionMode : Type 0 where
  single multiple : QuestionMode

pub data SourceFormat : Type 0 where
  plain json : SourceFormat

-- `sources` are the ids of the bound sources
pub record DecisionStepPlan : Type 0 where
  pub sources : List String
  pub source_formats : Dict SourceFormat
  pub questions : List DecisionQuestionPlan
  pub question_mode : QuestionMode
  pub fallback : Option FallbackPlan

or_misconfigured : {A : Type 0} → Option A → Result A
or_misconfigured none = raise invalid_configuration
or_misconfigured (some a) = ok a

-- the part of `_question_value` that depends on the type
type_value : TaskType → DecisionQuestionPlan → Result QuestionType
unfolding or_misconfigured
type_value TaskType.choice q = ok (QuestionType.choice q.options)
type_value TaskType.multiselect q = do
  low ← or_misconfigured q.min_selections
  high ← or_misconfigured q.max_selections
  ok (QuestionType.multiselect q.options low high)
type_value TaskType.predicate q = ok QuestionType.predicate
type_value TaskType.ordinal q = ok (QuestionType.ordinal q.options)
type_value TaskType.request_units q = do
  allow ← or_misconfigured q.allow_no_match
  ok (QuestionType.request_units q.options allow)

-- `_question_value`
unfoldable pub question_value : DecisionQuestionPlan → Result DecisionQuestion
unfolding type_value
question_value q = do
  type ← type_value q.type q
  ok (record {
    id = q.id;
    prompt = q.prompt;
    criteria = q.criteria;
    allowed_source_ids = q.allowed_source_ids;
    type = type;
  })

unfoldable pub question_values : List DecisionQuestionPlan → Result (List DecisionQuestion)
unfolding question_value
question_values [] = ok []
question_values (q ∷ questions) = do
  value ← question_value q
  rest ← question_values questions
  ok (value ∷ rest)

is_json : Option SourceFormat → Bool
is_json (some SourceFormat.json) = true
is_json _ = false

or_invalid : {A : Type 0} → Option A → Result A
or_invalid none = raise invalid_input
or_invalid (some a) = ok a

as_text : FrozenJson → Option String
as_text (str s) = some s
as_text _ = none

module _ (dumps : FrozenJson → Option String) where
  -- the body of the loop over the sources
  source_value : DecisionStepPlan → Fields → String → Result DecisionSource
  unfolding is_json or_invalid as_text lookup field_lookup is_blank
  source_value step sources id = do
    value ← or_invalid (field_lookup id sources)
    text ←
        or_invalid (if is_json (lookup id step.source_formats) then dumps value else as_text value)
    raise_if (is_blank text) invalid_input
    ok (record { id = id; kind = document; text = text })

  source_values : DecisionStepPlan → Fields → List String → Result (List DecisionSource)
  unfolding source_value
  source_values step sources [] = ok []
  source_values step sources (id ∷ ids) = do
    value ← source_value step sources id
    rest ← source_values step sources ids
    ok (value ∷ rest)

  -- `build_decision_input`
  unfoldable pub build_decision_input : DecisionStepPlan → Fields → Result DecisionInput
  unfolding source_values question_values valid_input field_lookup
  build_decision_input step sources = do
    raise_if
        (not (all (λ id. has_field id sources) step.sources)
          || not (fields_length sources == length step.sources))
        invalid_input
    native ← source_values step sources step.sources
    questions ← question_values step.questions
    raise_if (not (valid_input (record { sources = native; questions = questions })))
        invalid_configuration
    ok (record { sources = native; questions = questions })
