-- ===== src/Decisions/Output/Accepted.antt =====
-- `validate_decision_output` of contracts/decisions.py against what a complete output is.
use Prim.Native.String.{◌++◌ as ◌<>◌}
use mathlib.Core.Path.{subst}
use foliqant.Prelude.{
  Member, ◌≡◌, inl, inr, refl, sym, arith, String, true, false, Option, none, some, List, [], ◌∷◌,
  ◌==◌, str_eq, mem_str, Bool-cases, eq_iff, sort_texts-nil, Option-cases,
}
use foliqant.Decisions.Graph.Paths.{In, In-here}
use foliqant.Decisions.Contracts.{
  DecisionQuestion, DecisionInput, DecisionResult, result_ids, all_distinct,
}
use foliqant.Decisions.Problems.{problem_if, no_problem, no_problem_not, split_nil}
use foliqant.Decisions.Answerability.{type_of, answerability_problems}
use foliqant.Decisions.Answerability.Coherence.{IsCoherent, answerability_problems_iff}
use foliqant.Decisions.Output.{
  question_type, type_index, find_question, question_problems, prefix_of, found_problems,
  item_problems, missing_problems, validate_decision_output, distinct_texts,
}
use foliqant.Decisions.Output.Answers.{Fits, typed-Fits}

-- the result answers the question
pub record Answers (task : DecisionInput) (q : DecisionQuestion) (r : DecisionResult) : Type 0 where
  pub of : r.question_id ≡ q.id
  pub coherent : IsCoherent r
  pub fits : Fits task q.allowed_source_ids q.type r r.answer

pub record IsAccepted (task : DecisionInput) (results : List DecisionResult) : Type 0 where
  pub once : all_distinct (result_ids results) ≡ true
  pub answers :
      (r : DecisionResult)
      → Member r results
      → (q : DecisionQuestion) × Member q task.questions × Answers task q r
  pub complete : (q : DecisionQuestion) → Member q task.questions → In q.id (result_ids results)

distinct_texts-nil : (texts : List String) → distinct_texts texts ≡ [] → texts ≡ []
unfolding distinct_texts
distinct_texts-nil [] h = refl
distinct_texts-nil (a ∷ texts) h = ground (arith, distinct_texts-nil texts)

-- a question that is found is one of the questions, and has the id
found-Member :
    (id : String) (qs : List DecisionQuestion) (q : DecisionQuestion)
    → find_question id qs ≡ some q
    → Member q qs × (q.id ≡ id)
unfolding find_question
found-Member id [] q h = absurd (cc h)
found-Member id (x ∷ qs) q h = elim (Option-cases (find_question id qs)) [
  | inl absent ↦ elim (Bool-cases (str_eq x.id id)) [
    | inl same ↦
        let e : x ≡ q = cc (rw (absent, same, find_question) at h) in
        (inl e, rw (sym e) ((eq_iff x.id id).0 same))
    | inr apart ↦ absurd (cc (rw (absent, apart, find_question) at h))
  ]
  | inr (later, e) ↦
      let same : later ≡ q = cc (rw (e, find_question) at h) in
      let (m, of) = found-Member id qs later e in
      (inr (subst (λ x. Member x qs) same m), subst (λ (x : DecisionQuestion). x.id ≡ id) same of)
]

module _ (task : DecisionInput) where
  question-Fits :
      (item : DecisionResult) (q : DecisionQuestion)
      → question_problems task (prefix_of task item) q item ≡ []
      → IsCoherent item × Fits task q.allowed_source_ids q.type item item.answer
  unfolding question_problems
  question-Fits item q h =
      elim (Bool-cases (type_index (type_of item.answer) == type_index (question_type q.type))) [
        | inl same ↦
            let (a, b) =
              split_nil (answerability_problems (prefix_of task item) item) _ (rw same at h) in
            (
              (answerability_problems_iff _ item).0 a,
              typed-Fits task _ q.allowed_source_ids q.type item item.answer same b,
            )
        | inr apart ↦ absurd (cc (rw apart at h))
      ]

  found-Answers :
      (item : DecisionResult) (o : Option DecisionQuestion)
      → found_problems task o item ≡ []
      → (q : DecisionQuestion) × (o ≡ some q)
        × IsCoherent item
        × Fits task q.allowed_source_ids q.type item item.answer
  unfolding found_problems
  found-Answers item none h = absurd (cc h)
  found-Answers item (some q) h = let (c, f) = question-Fits item q h in (q, refl, c, f)

  item_split :
      (seen : List String) (item : DecisionResult) (items : List DecisionResult)
      → item_problems task seen (item ∷ items) ≡ []
      → (mem_str item.question_id seen ≡ false)
        × (found_problems task (find_question item.question_id task.questions) item ≡ [])
        × (item_problems task (item.question_id ∷ seen) items ≡ [])
  unfolding item_problems
  item_split seen item items h =
      let repeated =
        problem_if (mem_str item.question_id seen) (prefix_of task item <> ":duplicate-result") in
      let found = found_problems task (find_question item.question_id task.questions) item in
      let (fresh, h1) = split_nil repeated _ h in
      let (known, later) = split_nil found _ h1 in (no_problem _ _ fresh, known, later)

  items-Answers :
      (seen : List String) (items : List DecisionResult)
      → item_problems task seen items ≡ []
      → (r : DecisionResult) → Member r items
      → (q : DecisionQuestion) × Member q task.questions × Answers task q r
  items-Answers seen [] h r m = absurd m
  items-Answers seen (item ∷ items) h r m =
      let (fresh, found, later) = item_split seen item items h in
      elim m [
        | inl e ↦
            let (q, is, c, f) = found-Answers item _ found in
            let (member, of) = found-Member item.question_id task.questions q is in
            (q, member, rw (sym e) (record { of = sym of; coherent = c; fits = f }))
        | inr m' ↦ items-Answers (item.question_id ∷ seen) items later r m'
      ]

  items-unseen :
      (seen : List String) (items : List DecisionResult)
      → item_problems task seen items ≡ []
      → (k : String) → In k seen
      → mem_str k (result_ids items) ≡ false
  items-unseen seen [] h k i = refl
  items-unseen seen (item ∷ items) h k i =
      let (fresh, found, later) = item_split seen item items h in
      ground
        (arith, items-unseen (item.question_id ∷ seen) items later k, eq_iff item.question_id k)

  items-distinct :
      (seen : List String) (items : List DecisionResult)
      → item_problems task seen items ≡ []
      → all_distinct (result_ids items) ≡ true
  unfolding all_distinct
  items-distinct seen [] h = refl
  items-distinct seen (item ∷ items) h =
      let (fresh, found, later) = item_split seen item items h in
      let unseen =
        items-unseen (item.question_id ∷ seen) items later item.question_id
          (In-here item.question_id seen) in
      rw unseen (items-distinct (item.question_id ∷ seen) items later)

missing_complete :
    (seen : List String) (qs : List DecisionQuestion)
    → missing_problems seen qs ≡ []
    → (q : DecisionQuestion) → Member q qs
    → In q.id seen
unfolding missing_problems
missing_complete seen [] h q m = absurd m
missing_complete seen (x ∷ qs) h q m =
    let (now, later) = split_nil _ (missing_problems seen qs) h in
    elim m [
      | inl e ↦ rw (sym e) (no_problem_not _ _ now)
      | inr m' ↦ missing_complete seen qs later q m'
    ]

-- An output in which `validate_decision_output` finds no problem has exactly one result for each
-- question and no other; each has a substantive answer exactly where its status says so, and its
-- answer is of the question's type, from the question's options, catalog and sources, within the
-- bounds of a selection, and with consistent relations between requests.
pub validate_decision_output-IsAccepted :
    (task : DecisionInput) (results : List DecisionResult)
    → validate_decision_output task results ≡ []
    → IsAccepted task results
unfolding validate_decision_output
validate_decision_output-IsAccepted task results h =
    let (items, missing) =
      split_nil (item_problems task [] results) _ (distinct_texts-nil _ (sort_texts-nil _ h)) in
    record {
      once = items-distinct task [] results items;
      answers = items-Answers task [] results items;
      complete = missing_complete (result_ids results) task.questions missing;
    }
