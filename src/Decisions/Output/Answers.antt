-- ===== src/Decisions/Output/Answers.antt =====
-- What an answer satisfies when `validate_decision_output` finds no problem in it.
use Prim.Native.String.{◌++◌ as ◌<>◌}
use foliqant.Prelude.{
  Member, ℕ, ◌≤◌, ◌≡◌, ◌≢◌, inl, inr, sym, arith, String, Bool, true, false, not, ◌&&◌, Option,
  none, some, List, [], ◌∷◌, any, ◌==◌, length,
}
use foliqant.Core.Plan.{no_supported_answer}
use foliqant.Core.Runner.Contexts.{mem_issue}
use foliqant.Decisions.Graph.Paths.{In}
use foliqant.Decisions.Contracts.{
  DecisionOption, option_ids, QuestionType, DecisionInput, AnswerabilityStatus,
  partially_answerable, Answer, RequestUnit, RequestUnitsAnswer, DecisionResult, all_distinct,
  all_in,
}
use foliqant.Decisions.Problems.{problem_if, no_problem, no_problem_not, split_nil}
use foliqant.Decisions.Answerability.{is_partial, type_of}
use foliqant.Decisions.Relations.Meaning.{IsConsistent}
use foliqant.Decisions.Relations.Consistency.{validate_request_relations-IsConsistent}
use foliqant.Decisions.Output.{
  question_type, type_index, in_some_source, unit_ids, lacks_category, predicate_ids, unit_problems,
  typed_problems, category_problems, subject_problems, request_problems, selection_problems,
}

abbrev pub HasCategory : List String → Bool → Option String → Type 0
HasCategory catalog allow_no_match none = allow_no_match ≡ true
HasCategory catalog allow_no_match (some category) = In category catalog

abbrev pub HasSubject : DecisionInput → List String → Option String → Type 0
HasSubject task allowed none = Unit
HasSubject task allowed (some subject) = in_some_source subject allowed task.sources ≡ true

-- a unit has a category of the catalog, or none where that is allowed, and its subject stands in a
-- source that the question may use
pub record IsUnit (task : DecisionInput) (allowed catalog : List String) (allow_no_match : Bool)
    (u : RequestUnit) : Type 0 where
  pub category : HasCategory catalog allow_no_match u.category_id
  pub subject : HasSubject task allowed u.subject

pub record IsUnitsAnswer (task : DecisionInput) (allowed catalog : List String)
    (allow_no_match : Bool) (item : DecisionResult) (answer : RequestUnitsAnswer) : Type 0 where
  pub partial : item.answerability.status ≡ partially_answerable → answer.units ≢ []
  pub unmatched :
      any lacks_category answer.units ≡ true
      → mem_issue no_supported_answer item.answerability.issues ≡ true
  pub distinct : all_distinct (unit_ids answer.units) ≡ true
  pub each :
      (u : RequestUnit) → Member u answer.units → IsUnit task allowed catalog allow_no_match u
  pub relations :
      IsConsistent (unit_ids answer.units) (predicate_ids task.questions) answer.relations

pub record IsChoice (options : List DecisionOption) (low high : ℕ) (item : DecisionResult)
    (chosen : List String) : Type 0 where
  pub known : all_in chosen (option_ids options) ≡ true
  pub partial : item.answerability.status ≡ partially_answerable → chosen ≢ []
  pub enough : low ≤ length chosen
  pub few : length chosen ≤ high

-- the answer is one that the question allows
abbrev pub Fits : DecisionInput → List String → QuestionType → DecisionResult → Answer → Type 0
Fits task allowed (QuestionType.choice options) item (Answer.choice none) = Unit
Fits task allowed (QuestionType.choice options) item (Answer.choice (some chosen)) =
    In chosen (option_ids options)
Fits task allowed (QuestionType.multiselect options low high) item (Answer.multiselect none) = Unit
Fits task allowed (QuestionType.multiselect options low high) item
      (Answer.multiselect (some chosen)) =
    IsChoice options low high item chosen
Fits task allowed QuestionType.predicate item (Answer.predicate value) = Unit
Fits task allowed (QuestionType.ordinal levels) item (Answer.ordinal none) = Unit
Fits task allowed (QuestionType.ordinal levels) item (Answer.ordinal (some level)) =
    In level (option_ids levels)
Fits task allowed (QuestionType.request_units catalog allow) item (Answer.request_units none) = Unit
Fits task allowed (QuestionType.request_units catalog allow) item
      (Answer.request_units (some answer)) =
    IsUnitsAnswer task allowed (option_ids catalog) allow item answer
Fits task allowed _ item _ = ⊥

partial_lem :
    {A : Type 0} (status : AnswerabilityStatus) (xs : List A) (p : String)
    → problem_if (is_partial status && length xs == 0) p ≡ []
    → status ≡ partially_answerable
    → xs ≢ []
partial_lem status xs p h e empty = cc (rw (e, empty) at h)

implied : (a b : Bool) → (a && not b) ≡ false → a ≡ true → b ≡ true
implied a b h k = ground arith

module _ (task : DecisionInput) (prefix : String) (allowed : List String) where
  category_lem :
      (p : String) (catalog : List String) (allow : Bool) (c : Option String)
      → category_problems task prefix allowed p catalog allow c ≡ []
      → HasCategory catalog allow c
  unfolding category_problems
  category_lem p catalog allow none h = no_problem_not _ _ h
  category_lem p catalog allow (some c) h = no_problem_not _ _ h

  subject_lem :
      (p : String) (s : Option String)
      → subject_problems task prefix allowed p s ≡ []
      → HasSubject task allowed s
  unfolding subject_problems
  subject_lem p none h = tt
  subject_lem p (some s) h = no_problem_not _ _ h

  units-IsUnit :
      (catalog : List String) (allow : Bool) (units : List RequestUnit)
      → unit_problems task prefix allowed catalog allow units ≡ []
      → (u : RequestUnit) → Member u units
      → IsUnit task allowed catalog allow u
  unfolding unit_problems
  units-IsUnit catalog allow [] h u m = absurd m
  units-IsUnit catalog allow (x ∷ units) h u m =
      let p : String = prefix <> (":request:" <> x.id) in
      let (category, h1) =
        split_nil (category_problems task prefix allowed p catalog allow x.category_id) _ h in
      let (subject, h2) = split_nil (subject_problems task prefix allowed p x.subject) _ h1 in
      elim m [
        | inl e ↦ rw (sym e) (record {
          category = category_lem p catalog allow x.category_id category;
          subject = subject_lem p x.subject subject;
        })
        | inr later ↦ units-IsUnit catalog allow units h2 u later
      ]

  request-IsUnitsAnswer :
      (catalog : List DecisionOption) (allow : Bool) (item : DecisionResult)
      (answer : RequestUnitsAnswer)
      → request_problems task prefix allowed catalog allow item answer ≡ []
      → IsUnitsAnswer task allowed (option_ids catalog) allow item answer
  unfolding request_problems
  request-IsUnitsAnswer catalog allow item answer h =
      let (partial, h1) = split_nil _ _ h in
      let (unmatched, h2) = split_nil _ _ h1 in
      let (distinct, h3) = split_nil _ _ h2 in
      let (units, relations) = split_nil _ _ h3 in
      record {
        partial = partial_lem item.answerability.status answer.units _ partial;
        unmatched = λ lacking. implied _ _ (no_problem _ _ unmatched) lacking;
        distinct = no_problem_not _ _ distinct;
        each = units-IsUnit (option_ids catalog) allow answer.units units;
        relations = validate_request_relations-IsConsistent prefix _ _ answer.relations relations;
      }

  selection-IsChoice :
      (options : List DecisionOption) (low high : ℕ) (item : DecisionResult) (chosen : List String)
      → selection_problems task prefix allowed options low high item chosen ≡ []
      → IsChoice options low high item chosen
  unfolding selection_problems
  selection-IsChoice options low high item chosen h =
      let (known, h1) = split_nil _ _ h in
      let (partial, count) = split_nil _ _ h1 in
      let in_bounds = no_problem_not _ _ count in
      record {
        known = no_problem_not _ _ known;
        partial = partial_lem item.answerability.status chosen _ partial;
        enough = ground arith;
        few = ground arith;
      }

  pub typed-Fits :
      (type : QuestionType) (item : DecisionResult) (answer : Answer)
      → (type_index (type_of answer) == type_index (question_type type)) ≡ true
      → typed_problems task prefix allowed type item answer ≡ []
      → Fits task allowed type item answer
  unfolding typed_problems
  typed-Fits (QuestionType.choice options) item (Answer.choice none) e h = tt
  typed-Fits (QuestionType.choice options) item (Answer.choice (some chosen)) e h =
      no_problem_not _ _ h
  typed-Fits (QuestionType.multiselect options low high) item (Answer.multiselect none) e h = tt
  typed-Fits (QuestionType.multiselect options low high) item (Answer.multiselect (some chosen)) e
        h =
      selection-IsChoice options low high item chosen h
  typed-Fits QuestionType.predicate item (Answer.predicate value) e h = tt
  typed-Fits (QuestionType.ordinal levels) item (Answer.ordinal none) e h = tt
  typed-Fits (QuestionType.ordinal levels) item (Answer.ordinal (some level)) e h =
      no_problem_not _ _ h
  typed-Fits (QuestionType.request_units catalog allow) item (Answer.request_units none) e h = tt
  typed-Fits (QuestionType.request_units catalog allow) item (Answer.request_units (some answer)) e
        h =
      request-IsUnitsAnswer catalog allow item answer h
  typed-Fits (QuestionType.choice options) item (Answer.multiselect _) e h = absurd (cc e)
  typed-Fits (QuestionType.choice options) item (Answer.predicate _) e h = absurd (cc e)
  typed-Fits (QuestionType.choice options) item (Answer.ordinal _) e h = absurd (cc e)
  typed-Fits (QuestionType.choice options) item (Answer.request_units _) e h = absurd (cc e)
  typed-Fits (QuestionType.multiselect options low high) item (Answer.choice _) e h = absurd (cc e)
  typed-Fits (QuestionType.multiselect options low high) item (Answer.predicate _) e h =
      absurd (cc e)
  typed-Fits (QuestionType.multiselect options low high) item (Answer.ordinal _) e h = absurd (cc e)
  typed-Fits (QuestionType.multiselect options low high) item (Answer.request_units _) e h =
      absurd (cc e)
  typed-Fits QuestionType.predicate item (Answer.choice _) e h = absurd (cc e)
  typed-Fits QuestionType.predicate item (Answer.multiselect _) e h = absurd (cc e)
  typed-Fits QuestionType.predicate item (Answer.ordinal _) e h = absurd (cc e)
  typed-Fits QuestionType.predicate item (Answer.request_units _) e h = absurd (cc e)
  typed-Fits (QuestionType.ordinal levels) item (Answer.choice _) e h = absurd (cc e)
  typed-Fits (QuestionType.ordinal levels) item (Answer.multiselect _) e h = absurd (cc e)
  typed-Fits (QuestionType.ordinal levels) item (Answer.predicate _) e h = absurd (cc e)
  typed-Fits (QuestionType.ordinal levels) item (Answer.request_units _) e h = absurd (cc e)
  typed-Fits (QuestionType.request_units catalog allow) item (Answer.choice _) e h = absurd (cc e)
  typed-Fits (QuestionType.request_units catalog allow) item (Answer.multiselect _) e h =
      absurd (cc e)
  typed-Fits (QuestionType.request_units catalog allow) item (Answer.predicate _) e h =
      absurd (cc e)
  typed-Fits (QuestionType.request_units catalog allow) item (Answer.ordinal _) e h = absurd (cc e)
