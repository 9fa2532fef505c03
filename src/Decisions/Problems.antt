-- ===== src/Decisions/Problems.antt =====
-- The problems that a validator of decisions lists.
use foliqant.Prelude.{
  ◌≡◌, refl, arith, String, Bool, true, false, not, List, [], ◌∷◌, ◌++◌, Bool-cases, inl, inr,
}

-- `problems.append(problem)` under a test
abbrev pub problem_if : Bool → String → List String
problem_if true problem = problem ∷ []
problem_if false problem = []

pub no_problem : (test : Bool) (p : String) → problem_if test p ≡ [] → test ≡ false
no_problem test p h = elim (Bool-cases test) [ inl t ↦ absurd (cc (rw t at h)) | inr f ↦ f ]

pub no_problem_not : (test : Bool) (p : String) → problem_if (not test) p ≡ [] → test ≡ true
no_problem_not test p h = ground arith

pub split_nil : {A : Type 0} (xs ys : List A) → xs ++ ys ≡ [] → (xs ≡ []) × (ys ≡ [])
split_nil [] ys h = (refl, h)
split_nil (x ∷ xs) ys h = cc
