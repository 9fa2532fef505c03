-- ===== src/Decisions/Native/Outcome/Selections.antt =====
-- The issues and the selection that `validate_decision_result` of adapters/decisions/native.py makes.
use Prim.Native.String.{count}
use mathlib.Core.Path.{subst}
use foliqant.Prelude.{
  all-Member, ◌≡◌, refl, inl, inr, arith, String, Bool, true, false, not, ◌&&◌, leb, Option, none,
  some, List, [], ◌∷◌, ◌++◌, all, Member, str_eq, Bool-cases, Option-cases, ◌⊎◌,
}
use foliqant.Core.Result.{ok}
use foliqant.Core.Exec.{Raised, returned}
use foliqant.Core.Budget.{is_blank}
use foliqant.Core.Plan.{DecisionIssue}
use foliqant.Core.Execution.{Selection}
use foliqant.Core.Runner.Contexts.{mem_issue, no_issues, is_fallback, empty_text}
use foliqant.Core.Runner.Contexts.Accepts.{AreDistinct, snoc-AreDistinct, IsSelectable}
use foliqant.Decisions.Contracts.{
  is_id, DecisionOption, DecisionInput, DecisionResult, AnswerabilityStatus, valid_question,
  valid_input,
}
use foliqant.Decisions.Contracts.Ids.{is_id-bounds, choice_option, valid_input-questions}
use foliqant.Decisions.Answerability.{TaskType}
use foliqant.Decisions.Plan.{FallbackPlan, DecisionQuestionPlan, DecisionStepPlan, question_values}
use foliqant.Decisions.Plan.Task.{question_values-choice}
use foliqant.Decisions.Native.{
  chosen, is_settled, all_answerable, unresolved_issues, open_issues, add_issues, option_with,
  option_for, choice_of, choice_selection, selection_of, fallback_selection, when_choice,
  any_undetermined, within_issues,
}

-- the category of a fallback is well formed
abbrev pub IsCategory : Option FallbackPlan → Type 0
IsCategory none = Unit
IsCategory (some f) =
    (is_blank f.category.id ≡ false)
    × (leb (count f.category.id) 128 ≡ true)
    × (empty_text f.category.description ≡ false)

add_issues-AreDistinct :
    (keys issues : List DecisionIssue) → AreDistinct keys → AreDistinct (add_issues keys issues)
unfolding add_issues
add_issues-AreDistinct keys [] d = d
add_issues-AreDistinct keys (i ∷ issues) d = elim (Bool-cases (mem_issue i keys)) [
  | inl old ↦ rw old (add_issues-AreDistinct keys issues d)
  | inr new ↦
      rw new (add_issues-AreDistinct (keys ++ i ∷ []) issues (snoc-AreDistinct i keys d new))
]

open_issues-AreDistinct :
    (keys : List DecisionIssue) (results : List DecisionResult)
    → AreDistinct keys
    → AreDistinct (open_issues keys results)
unfolding open_issues
open_issues-AreDistinct keys [] d = d
open_issues-AreDistinct keys (r ∷ results) d = elim (Bool-cases (is_settled r)) [
  | inl settled ↦ rw settled (open_issues-AreDistinct keys results d)
  | inr unsettled ↦ rw unsettled (
      open_issues-AreDistinct (add_issues keys r.answerability.issues) results
        (add_issues-AreDistinct keys r.answerability.issues d))
]

pub unresolved-AreDistinct :
    (results : List DecisionResult) → AreDistinct (unresolved_issues results)
unfolding unresolved_issues
unresolved-AreDistinct results = elim (Bool-cases (any_undetermined results)) [
  | inl undetermined ↦ rw undetermined tt
  | inr all_known ↦ rw all_known (open_issues-AreDistinct [] results tt)
]

settled_open_issues :
    (keys : List DecisionIssue) (results : List DecisionResult)
    → all is_settled results ≡ true
    → open_issues keys results ≡ keys
unfolding open_issues
settled_open_issues keys [] h = refl
settled_open_issues keys (r ∷ results) h = ground (arith, settled_open_issues keys results)

-- issues come only with a review
pub issues_reviewed :
    (results : List DecisionResult)
    → (not (no_issues (unresolved_issues results)) && not (not (all_answerable results))) ≡ false
unfolding unresolved_issues all_answerable
issues_reviewed [] = refl
issues_reviewed (r ∷ results) = ground (arith, settled_open_issues [] (r ∷ results))

option_with-Member :
    (id : String) (options : List DecisionOption) (o : DecisionOption)
    → option_with id options ≡ some o
    → Member o options
unfolding option_with
option_with-Member id [] o h = absurd (cc h)
option_with-Member id (x ∷ options) o h = elim (Bool-cases (str_eq x.id id)) [
  | inl same ↦ inl (cc (rw (same, option_with) at h))
  | inr apart ↦ inr (option_with-Member id options o (rw (apart, option_with) at h))
]

when_choice-cases :
    (type : TaskType) (m : Raised (Option Selection)) (s : Option Selection)
    → when_choice type m ≡ returned s
    → (type ≡ TaskType.choice) × (m ≡ returned s) ⊎ (s ≡ none)
unfolding when_choice
when_choice-cases TaskType.choice m s h = inl (refl, h)
when_choice-cases TaskType.multiselect m s h = inr (cc h)
when_choice-cases TaskType.predicate m s h = inr (cc h)
when_choice-cases TaskType.ordinal m s h = inr (cc h)
when_choice-cases TaskType.request_units m s h = inr (cc h)

fallback-IsSelectable :
    (f : Option FallbackPlan) (status : AnswerabilityStatus) (issues : List DecisionIssue)
    → IsCategory f
    → IsSelectable true (fallback_selection f status issues)
unfolding fallback_selection is_fallback
fallback-IsSelectable none status issues c = tt
fallback-IsSelectable (some f) AnswerabilityStatus.not_answerable issues c =
    elim (Bool-cases (not (no_issues issues) && within_issues issues f.on)) [
      | inl applies ↦ rw applies (c.0, c.1, c.2, refl)
      | inr fails ↦ rw fails tt
    ]
fallback-IsSelectable (some f) AnswerabilityStatus.answerable issues c = tt
fallback-IsSelectable (some f) AnswerabilityStatus.partially_answerable issues c = tt
fallback-IsSelectable (some f) AnswerabilityStatus.undetermined issues c = tt

abbrev AllSelectable : List DecisionOption → Type 0
AllSelectable options =
    (o : DecisionOption)
    → Member o options
    → (is_id o.id ≡ true) × (str_eq o.description "" ≡ false)

option_for-IsSelectable :
    (key : Option String) (options : List DecisionOption) (s : Option Selection)
    → AllSelectable options
    → choice_of key options ≡ returned s
    → IsSelectable false s
unfolding choice_of option_for is_fallback empty_text
option_for-IsSelectable none options s a h = absurd (cc h)
option_for-IsSelectable (some id) options s a h = elim (Option-cases (option_with id options)) [
  | inl absent ↦ absurd (cc (rw (absent, choice_of) at h))
  | inr (o, e) ↦
      let (is, described) = a o (option_with-Member id options o e) in
      let bounds = is_id-bounds o.id is in
      let same : some (chosen o) ≡ s = cc (rw (e, choice_of) at h) in
      subst (IsSelectable false) same (bounds.0, bounds.1, described, refl)
]

choice_selection-IsSelectable :
    (step : DecisionStepPlan) (options : List DecisionOption) (item : DecisionResult)
    (answerable : Bool) (key : Option String) (issues : List DecisionIssue) (s : Option Selection)
    → IsCategory step.fallback
    → AllSelectable options
    → choice_selection step options item answerable key issues ≡ returned s
    → IsSelectable (not answerable) s
unfolding choice_selection
choice_selection-IsSelectable step options item true key issues s c a h =
    option_for-IsSelectable key options s a h
choice_selection-IsSelectable step options item false key issues s c a h =
    let same : fallback_selection step.fallback item.answerability.status issues ≡ s = cc h in
    subst (IsSelectable true) same
      (fallback-IsSelectable step.fallback item.answerability.status issues c)

-- the options of the first question, if it is a choice, are well formed
abbrev FirstIsSelectable : List DecisionQuestionPlan → Type 0
FirstIsSelectable [] = Unit
FirstIsSelectable (q ∷ qs) = q.type ≡ TaskType.choice → AllSelectable q.options

pub selection_of-IsSelectable :
    (step : DecisionStepPlan) (questions : List DecisionQuestionPlan)
    (results : List DecisionResult) (answerable : Bool) (key : Option String)
    (issues : List DecisionIssue) (s : Option Selection)
    → IsCategory step.fallback
    → FirstIsSelectable questions
    → selection_of step questions results answerable key issues ≡ returned s
    → IsSelectable (not answerable) s
unfolding selection_of
selection_of-IsSelectable step [] results answerable key issues s c a h = absurd (cc h)
selection_of-IsSelectable step (q ∷ qs) [] answerable key issues s c a h = absurd (cc h)
selection_of-IsSelectable step (q ∷ qs) (item ∷ items) answerable key issues s c a h =
    elim (when_choice-cases q.type (choice_selection step q.options item answerable key issues) s
      h) [
        | inl (e, chose) ↦
            choice_selection-IsSelectable step q.options item answerable key issues s c (a e) chose
        | inr absent ↦ rw absent tt
      ]

pub task-FirstIsSelectable :
    (questions : List DecisionQuestionPlan) (task : DecisionInput)
    → valid_input task ≡ true
    → question_values questions ≡ ok task.questions
    → FirstIsSelectable questions
task-FirstIsSelectable [] task v h = tt
task-FirstIsSelectable (q ∷ qs) task v h = λ e o m.
    let (value, rest, is, type) = question_values-choice q qs task.questions h e in
    let valid =
      all-Member valid_question task.questions value (valid_input-questions task v)
        (rw is (inl refl)) in
    choice_option value q.options o valid type m
