-- ===== src/Decisions/Answerability/Coherence.antt =====
-- `validate_answerability` of decisions/contracts.py against a coherent assessment.
use foliqant.Prelude.{
  ◌≡◌, ◌≢◌, ◌↔◌, ◌⊎◌, arith, String, Bool, true, false, none, some, List, [], is_some,
}
use foliqant.Core.Plan.{DecisionIssue}
use foliqant.Decisions.Contracts.{
  AnswerabilityStatus, answerable, partially_answerable, not_answerable, undetermined, yes_true,
  no_false, unknown, Answer, DecisionResult,
}
use foliqant.Decisions.Answerability.{
  answerability_problems, validate_answerability, type_of, has_answer, predicate_value,
}

-- the statuses that come with an answer
abbrev pub concludes : AnswerabilityStatus → Bool
concludes answerable = true
concludes partially_answerable = true
concludes not_answerable = false
concludes undetermined = false

-- a null answer and the predicate value unknown say nothing
abbrev pub is_substantive : Answer → Bool
is_substantive (Answer.choice a) = is_some a
is_substantive (Answer.multiselect a) = is_some a
is_substantive (Answer.predicate yes_true) = true
is_substantive (Answer.predicate no_false) = true
is_substantive (Answer.predicate unknown) = false
is_substantive (Answer.ordinal a) = is_some a
is_substantive (Answer.request_units a) = is_some a

-- the answers that may be given in part
abbrev pub is_divisible : Answer → Bool
is_divisible (Answer.multiselect _) = true
is_divisible (Answer.request_units _) = true
is_divisible _ = false

-- what a status, its issues and an answer say together
pub record Coherent (status : AnswerabilityStatus) (issues : List DecisionIssue) (a : Answer)
    : Type 0 where
  -- an answer is given exactly if the status says so
  pub agrees : concludes status ≡ is_substantive a
  pub divisible : status ≡ partially_answerable → is_divisible a ≡ true
  pub explained : (status ≡ answerable) ⊎ (issues ≢ [])

abbrev pub IsCoherent : DecisionResult → Type 0
IsCoherent r = Coherent r.answerability.status r.answerability.issues r.answer

coherent_lem :
    (prefix : String) (status : AnswerabilityStatus) (issues : List DecisionIssue) (a : Answer)
    → (validate_answerability prefix
          (type_of a)
          (record { status = status; issues = issues })
          (has_answer a)
          (predicate_value a)
        ≡ [])
      ↔ Coherent status issues a
unfolding validate_answerability
coherent_lem prefix status issues (Answer.choice none) = ground arith
coherent_lem prefix status issues (Answer.choice (some _)) = ground arith
coherent_lem prefix status issues (Answer.multiselect none) = ground arith
coherent_lem prefix status issues (Answer.multiselect (some _)) = ground arith
coherent_lem prefix status issues (Answer.predicate yes_true) = ground arith
coherent_lem prefix status issues (Answer.predicate no_false) = ground arith
coherent_lem prefix status issues (Answer.predicate unknown) = ground arith
coherent_lem prefix status issues (Answer.ordinal none) = ground arith
coherent_lem prefix status issues (Answer.ordinal (some _)) = ground arith
coherent_lem prefix status issues (Answer.request_units none) = ground arith
coherent_lem prefix status issues (Answer.request_units (some _)) = ground arith

-- `validate_answerability` finds no problem exactly when a substantive answer is given just where
-- the status has one, only a collection is answered in part, and every status but answerable is
-- explained by an issue.
pub answerability_problems_iff :
    (prefix : String) (r : DecisionResult) → (answerability_problems prefix r ≡ []) ↔ IsCoherent r
unfolding answerability_problems
answerability_problems_iff prefix r =
    coherent_lem prefix r.answerability.status r.answerability.issues r.answer
