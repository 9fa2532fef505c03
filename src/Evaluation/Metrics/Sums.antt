-- ===== src/Evaluation/Metrics/Sums.antt =====
-- Laws of the sums and counts that evaluation/metrics.py takes over lists.
use foliqant.Prelude.{
  ℕ, ◌+◌, ◌≤◌, ◌≡◌, inl, inr, refl, arith, Bool, true, false, not, ◌&&◌, List, [], ◌∷◌, map, length,
  Member,
}
use foliqant.Evaluation.Metrics.Counts.{count_if, keep, total}

abbrev pub indicator : Bool → ℕ
indicator true = 1
indicator false = 0

module _ {ℓ} {A : Type ℓ} where
  pub count_if-cons :
      (p : A → Bool) (x : A) (xs : List A) → count_if p (x ∷ xs) ≡ indicator (p x) + count_if p xs
  unfolding count_if
  count_if-cons p x xs = ground arith

  pub length-keep : (p : A → Bool) (xs : List A) → length (keep p xs) ≡ count_if p xs
  unfolding keep count_if
  length-keep p [] = refl
  length-keep p (x ∷ xs) = ground (arith, length-keep p xs)

  pub count_if-le : (p : A → Bool) (xs : List A) → count_if p xs ≤ length xs
  unfolding count_if
  count_if-le p [] = omega arith
  count_if-le p (x ∷ xs) = ground (arith, count_if-le p xs)

  -- the four ways that two tests can end
  pub four_ways :
      (p q : A → Bool) (xs : List A)
      → count_if (λ x. p x && q x) xs
          + count_if (λ x. p x && not (q x)) xs
          + count_if (λ x. not (p x) && q x) xs
          + count_if (λ x. not (p x) && not (q x)) xs
        ≡ length xs
  unfolding count_if
  four_ways p q [] = omega arith
  four_ways p q (x ∷ xs) = ground (arith, four_ways p q xs)

  pub total-add : (f g : A → ℕ) (xs : List A) → total (λ x. f x + g x) xs ≡ total f xs + total g xs
  unfolding total
  total-add f g [] = refl
  total-add f g (x ∷ xs) = omega (arith, total-add f g xs)

  pub total-same : (f g : A → ℕ) (xs : List A) → ((x : A) → f x ≡ g x) → total f xs ≡ total g xs
  unfolding total
  total-same f g [] h = refl
  total-same f g (x ∷ xs) h = omega (arith, h x, total-same f g xs h)

  pub total-zero : (xs : List A) → total (λ x. 0) xs ≡ 0
  unfolding total
  total-zero [] = refl
  total-zero (x ∷ xs) = omega (arith, total-zero xs)

pub total-map :
    {A : Type 0} (f : A → ℕ) {B : Type 0} (g : B → A) (xs : List B)
    → total f (map g xs) ≡ total (λ x. f (g x)) xs
unfolding total
total-map f g [] = refl
total-map f g (x ∷ xs) = omega (arith, total-map f g xs)

pub Member-map :
    {A B : Type 0} (f : A → B) (xs : List A) (y : B)
    → Member y (map f xs)
    → (x : A) × Member x xs × (f x ≡ y)
Member-map f [] y m = absurd m
Member-map f (x ∷ xs) y (inl e) = (x, inl refl, e)
Member-map f (x ∷ xs) y (inr m) = let (z, in_xs, e) = Member-map f xs y m in (z, inr in_xs, e)
