-- ===== src/Decisions/Contracts/Ids.antt =====
-- What the validators of decisions/contracts.py say of the options of a choice.
use Prim.Native.String.{count}
use foliqant.Prelude.{all-Member, ◌≡◌, arith, String, true, false, leb, List, str_eq, all, Member}
use foliqant.Core.Budget.{is_blank}
use foliqant.Decisions.Contracts.{
  is_id, DecisionOption, QuestionType, DecisionQuestion, DecisionInput, valid_option, valid_type,
  valid_question, valid_input,
}

pub is_id-bounds : (s : String) → is_id s ≡ true → (is_blank s ≡ false) × (leb (count s) 128 ≡ true)
unfolding is_id is_blank
is_id-bounds String.[] h = absurd (cc h)
is_id-bounds (String.◌∷◌ c s) h = ground arith

options_valid :
    (options : List DecisionOption)
    → valid_type (QuestionType.choice options) ≡ true
    → all valid_option options ≡ true
unfolding valid_type
options_valid options h = ground arith

option_lem :
    (o : DecisionOption)
    → valid_option o ≡ true
    → (is_id o.id ≡ true) × (str_eq o.description "" ≡ false)
unfolding valid_option
option_lem o h = ground arith

-- an option of a valid question of choice has a well-formed id and a description
pub choice_option :
    (q : DecisionQuestion) (options : List DecisionOption) (o : DecisionOption)
    → valid_question q ≡ true
    → q.type ≡ QuestionType.choice options
    → Member o options
    → (is_id o.id ≡ true) × (str_eq o.description "" ≡ false)
unfolding valid_question
choice_option q options o h e m =
    let type : valid_type q.type ≡ true = ground arith in
    let each : all valid_option options ≡ true = options_valid options (rw e at type) in
    option_lem o (all-Member valid_option options o each m)

-- the questions of a valid task are valid
pub valid_input-questions :
    (task : DecisionInput) → valid_input task ≡ true → all valid_question task.questions ≡ true
unfolding valid_input
valid_input-questions task h = ground arith
