-- ===== src/Evaluation/Metrics/Matrix/Catalog.antt =====
-- Sums over a catalog of labels without repetitions, for evaluation/metrics.py.
use foliqant.Prelude.{
  ℕ, ◌+◌, ◌≡◌, refl, sym, ◌∙◌, inl, inr, arith, Bool, true, false, ◌&&◌, ◌||◌, none, some, List, [],
  ◌∷◌, eq_iff, Bool-cases,
}
use foliqant.Evaluation.Metrics.{Label, label_eq, has_label, all_differ}
use foliqant.Evaluation.Metrics.Counts.{total}
use foliqant.Evaluation.Metrics.Sums.{indicator, total-same, total-zero}

pub label_eq-sym : (a b : Label) → label_eq a b ≡ label_eq b a
label_eq-sym none none = refl
label_eq-sym none (some b) = refl
label_eq-sym (some a) none = refl
label_eq-sym (some a) (some b) = ground (arith, eq_iff a b, eq_iff b a)

label_eq-is : (a b : Label) → label_eq a b ≡ true → a ≡ b
label_eq-is none none h = refl
label_eq-is none (some b) h = absurd (cc h)
label_eq-is (some a) none h = absurd (cc h)
label_eq-is (some a) (some b) h = ground (arith, eq_iff a b)

has_label-cons :
    (a x : Label) (labels : List Label)
    → has_label a (x ∷ labels) ≡ (label_eq a x || has_label a labels)
unfolding has_label
has_label-cons a x labels = refl

pub total-cons :
    {A : Type 0} (f : A → ℕ) (x : A) (xs : List A) → total f (x ∷ xs) ≡ f x + total f xs
unfolding total
total-cons f x xs = refl

differ-cons :
    (x : Label) (labels : List Label)
    → all_differ (x ∷ labels) ≡ true
    → (has_label x labels ≡ false) × (all_differ labels ≡ true)
unfolding all_differ
differ-cons x labels h = ground arith

once_nil :
    (label : Label) → total (λ x. indicator (label_eq x label)) [] ≡ indicator (has_label label [])
unfolding total has_label
once_nil label = refl

-- a label occurs in a catalog without repetitions once, or not at all
once :
    (label : Label) (labels : List Label)
    → all_differ labels ≡ true
    → total (λ x. indicator (label_eq x label)) labels ≡ indicator (has_label label labels)
once label [] h = once_nil label
once label (x ∷ labels) h =
    let (fresh, rest) = differ-cons x labels h in
    let tail = once label labels rest in
    elim (Bool-cases (label_eq x label)) [
      | inl same ↦
          let none_left : has_label label labels ≡ false = rw (label_eq-is x label same) at fresh in
          ground (
            arith,
            total-cons (λ y. indicator (label_eq y label)) x labels,
            has_label-cons label x labels,
            label_eq-sym x label,
            tail,
            none_left,
          )
      | inr apart ↦ ground (
        arith,
        total-cons (λ y. indicator (label_eq y label)) x labels,
        has_label-cons label x labels,
        label_eq-sym x label,
        tail,
      )
    ]

-- one label of the first catalog and one of the second, for each pair of known labels
row_sum :
    (e a g : Label) (labels : List Label)
    → all_differ labels ≡ true
    → has_label a labels ≡ true
    → total (λ p. indicator (label_eq g e && label_eq p a)) labels ≡ indicator (label_eq g e)
row_sum e a g labels d k = elim (Bool-cases (label_eq g e)) [
  | inl same ↦ rw same (cc (once a labels d, k))
  | inr apart ↦ rw apart (total-zero labels)
]

pub cell_sum :
    (e a : Label) (labels : List Label)
    → all_differ labels ≡ true
    → has_label e labels ≡ true
    → has_label a labels ≡ true
    → total (λ g. total (λ p. indicator (label_eq g e && label_eq p a)) labels) labels ≡ 1
cell_sum e a labels d ke ka =
    let rows =
      total-same (λ g. total (λ p. indicator (label_eq g e && label_eq p a)) labels)
        (λ g. indicator (label_eq g e)) labels (λ g. row_sum e a g labels d ka) in
    cc (rows, once e labels d, ke)

pair-zero : (e a g : Label) → label_eq e a ≡ false → indicator (label_eq g e && label_eq g a) ≡ 0
pair-zero e a g apart = elim (Bool-cases (label_eq g e)) [
  | inl same ↦ rw (same, label_eq-is g e same, apart) refl
  | inr other ↦ rw other refl
]

twice : (b : Bool) → indicator (b && b) ≡ indicator b
twice true = refl
twice false = refl

pub diagonal_sum :
    (e a : Label) (labels : List Label)
    → all_differ labels ≡ true
    → has_label e labels ≡ true
    → total (λ g. indicator (label_eq g e && label_eq g a)) labels ≡ indicator (label_eq e a)
diagonal_sum e a labels d k = elim (Bool-cases (label_eq e a)) [
  | inl same ↦
      let all : total (λ g. indicator (label_eq g e)) labels ≡ 1 = cc (once e labels d, k) in
      rw (same, sym (label_eq-is e a same))
        (total-same (λ g. indicator (label_eq g e && label_eq g e)) (λ g. indicator (label_eq g e))
            labels (λ g. twice (label_eq g e))
          ∙ all)
  | inr apart ↦ rw apart (
      total-same (λ g. indicator (label_eq g e && label_eq g a)) (λ g. 0) labels
        (λ g. pair-zero e a g apart)
      ∙ total-zero labels)
]
