-- ===== src/Decisions/Contracts.antt =====
-- decisions/contracts.py and contracts/decisions.py: questions, answers, and what their validators
-- accept. A validator is the test that its field or model must pass.
pub mod Ids
use Prim.Native.String.{count}
use foliqant.Prelude.{
  ℕ, code, String, Bool, true, false, not, ◌&&◌, ◌||◌, Option, none, some, List, [], ◌∷◌, map, all,
  any, leb, ltb, ◌==◌, str_eq, mem_str, length, is_some, if◌then◌else◌,
}
use foliqant.Core.Plan.{DecisionIssue}
use foliqant.Core.Runner.Contexts.{mem_issue}

-- `len(set(values)) == len(values)`
unfoldable pub all_distinct : List String → Bool
all_distinct [] = true
all_distinct (value ∷ values) = not (mem_str value values) && all_distinct values

-- `set(values) <= set(known)`
unfoldable pub all_in : List String → List String → Bool
all_in values known = all (λ v. mem_str v known) values

is_id_start : ℕ → Bool
is_id_start c =
    (leb b'A' c && leb c b'Z') || (leb b'a' c && leb c b'z') || (leb b'0' c && leb c b'9')

is_id_char : ℕ → Bool
unfolding is_id_start
is_id_char c = is_id_start c || c == b'.' || c == b'_' || c == b'-'

all_id_chars : String → Bool
unfolding is_id_char
all_id_chars String.[] = true
all_id_chars (String.◌∷◌ c s) = is_id_char (code c) && all_id_chars s

-- `Id`
unfoldable pub is_id : String → Bool
unfolding is_id_start all_id_chars
is_id String.[] = false
is_id (String.◌∷◌ c s) = is_id_start (code c) && all_id_chars s && leb (count (String.◌∷◌ c s)) 128

abbrev within : ℕ → ℕ → ℕ → Bool
within low high n = leb low n && leb n high

pub data SourceKind : Type 0 where
  message document table policy metadata : SourceKind

pub record DecisionSource : Type 0 where
  pub id : String
  pub kind : SourceKind
  pub text : String

pub record DecisionOption : Type 0 where
  pub id : String
  pub description : String

abbrev pub option_ids : List DecisionOption → List String
option_ids = map (λ o. o.id)

-- the five question models; the fields that they share are in `DecisionQuestion`
pub data QuestionType : Type 0 where
  choice : List DecisionOption → QuestionType
  multiselect : List DecisionOption → ℕ → ℕ → QuestionType
  predicate : QuestionType
  ordinal : List DecisionOption → QuestionType
  request_units : List DecisionOption → Bool → QuestionType

pub record DecisionQuestion : Type 0 where
  pub id : String
  pub prompt : String
  pub criteria : List String
  pub allowed_source_ids : List String
  pub type : QuestionType

valid_option : DecisionOption → Bool
unfolding is_id
valid_option o = is_id o.id && not (str_eq o.description "")

-- a list of options with its bounds, and `_unique_options`
valid_options : ℕ → ℕ → List DecisionOption → Bool
unfolding valid_option all_distinct
valid_options low high options =
    within low high (length options)
    && all valid_option options
    && all_distinct (option_ids options)

valid_type : QuestionType → Bool
unfolding valid_options
valid_type (QuestionType.choice options) = valid_options 2 1024 options
valid_type (QuestionType.multiselect options low high) =
    valid_options 1 1024 options
    && leb low 1024
    && within 1 1024 high
    && leb low high
    && leb high (length options)
valid_type QuestionType.predicate = true
valid_type (QuestionType.ordinal levels) = valid_options 2 128 levels
valid_type (QuestionType.request_units catalog allow_no_match) = valid_options 0 1024 catalog

unfoldable pub valid_question : DecisionQuestion → Bool
unfolding is_id valid_type all_distinct
valid_question q =
    is_id q.id
    && not (str_eq q.prompt "")
    && within 1 64 (length q.criteria)
    && all (λ c. not (str_eq c "")) q.criteria
    && all_distinct q.criteria
    && within 1 256 (length q.allowed_source_ids)
    && all is_id q.allowed_source_ids
    && all_distinct q.allowed_source_ids
    && valid_type q.type

-- `state` is its list of sources
pub record DecisionInput : Type 0 where
  pub sources : List DecisionSource
  pub questions : List DecisionQuestion

abbrev pub question_ids : List DecisionQuestion → List String
question_ids = map (λ q. q.id)

abbrev pub source_ids : List DecisionSource → List String
source_ids = map (λ s. s.id)

valid_source : DecisionSource → Bool
unfolding is_id
valid_source s = is_id s.id && not (str_eq s.text "")

-- `DecisionInput` with `DecisionState`, `unique_sources` and `valid_references`
unfoldable pub valid_input : DecisionInput → Bool
unfolding valid_source valid_question all_distinct all_in
valid_input task =
    within 1 256 (length task.sources)
    && all valid_source task.sources
    && all_distinct (source_ids task.sources)
    && within 1 256 (length task.questions)
    && all valid_question task.questions
    && all_distinct (question_ids task.questions)
    && all (λ q. all_in q.allowed_source_ids (source_ids task.sources)) task.questions

pub data AnswerabilityStatus : Type 0 where
  answerable partially_answerable not_answerable undetermined : AnswerabilityStatus

pub record Answerability : Type 0 where
  pub status : AnswerabilityStatus
  pub issues : List DecisionIssue

pub data PredicateValue : Type 0 where
  yes_true no_false unknown : PredicateValue

pub data RequestRelation : Type 0 where
  conditional_on : String → String → Bool → RequestRelation
  requires : String → String → RequestRelation
  precedes : String → String → RequestRelation
  mutually_exclusive : List String → RequestRelation

pub data UnitStatus : Type 0 where
  active withdrawn conditional quoted : UnitStatus

pub record RequestUnit : Type 0 where
  pub id : String
  pub status : UnitStatus
  pub category_id : Option String
  pub subject : Option String
  pub description : String

pub record RequestUnitsAnswer : Type 0 where
  pub units : List RequestUnit
  pub relations : List RequestRelation

-- the answers of the five result models
pub data Answer : Type 0 where
  choice : Option String → Answer
  multiselect : Option (List String) → Answer
  predicate : PredicateValue → Answer
  ordinal : Option String → Answer
  request_units : Option RequestUnitsAnswer → Answer

pub data EvidenceStrength : Type 0 where
  limited strong : EvidenceStrength

pub record DecisionResult : Type 0 where
  pub question_id : String
  pub answerability : Answerability
  pub reason : String
  pub evidence_strength : Option EvidenceStrength
  pub answer : Answer

abbrev pub result_ids : List DecisionResult → List String
result_ids = map (λ r. r.question_id)
