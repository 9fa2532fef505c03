-- ===== src/Prelude/Texts.antt =====
-- The order of texts, by code points, and sorting.
use Prim.Native.Nat.{ℕ, Ordering, compare as compare_ℕ}
use Prim.Native.Char.{code}
use Prim.Native.String.compare
use Prim.Native.String.{String, compare, then as next_by}
use mathlib.Core.Path.{◌≡◌, refl}
use mathlib.Core.Logic.{◌⊎◌, ◌≢◌}
use mathlib.Core.Bool.{Bool, true, false}
use mathlib.Core.List.{List, [], ◌∷◌}
use native.Mathlib.Omega.{arith}
use text.Mathlib.TextEquality.{path_by_compare}
use foliqant.Prelude.Tests.{if◌then◌else◌}

abbrev pub text_lt : String → String → Bool
text_lt a b = elim (compare a b) [ Ordering.lt ↦ true | _ ↦ false ]

abbrev pub text_leb : String → String → Bool
text_leb a b = elim (compare a b) [ Ordering.gt ↦ false | _ ↦ true ]

flip : Ordering → Ordering
flip Ordering.lt = Ordering.gt
flip Ordering.eq = Ordering.eq
flip Ordering.gt = Ordering.lt

flip-then : (a b : Ordering) → flip (next_by a b) ≡ next_by (flip a) (flip b)
unfolding flip
flip-then Ordering.lt b = refl
flip-then Ordering.eq b = refl
flip-then Ordering.gt b = refl

compare_ℕ-flip : (m n : ℕ) → compare_ℕ n m ≡ flip (compare_ℕ m n)
unfolding flip
compare_ℕ-flip m n = ground arith

compare-flip : (s t : String) → compare t s ≡ flip (compare s t)
unfolding flip
compare-flip String.[] String.[] = rw compare.nil-nil refl
compare-flip String.[] (String.◌∷◌ d t) = rw (compare.nil-cons, compare.cons-nil) refl
compare-flip (String.◌∷◌ c s) String.[] = rw (compare.nil-cons, compare.cons-nil) refl
compare-flip (String.◌∷◌ c s) (String.◌∷◌ d t) =
    rw
      (
        compare.cons-cons d c t s,
        compare.cons-cons c d s t,
        compare_ℕ-flip (code c) (code d),
        compare-flip s t,
        flip-then (compare_ℕ (code c) (code d)) (compare s t),
      )
      refl

pub text_lt-total : (a b : String) → a ≢ b → (text_lt a b ≡ true) ⊎ (text_lt b a ≡ true)
unfolding flip
text_lt-total a b h = ground (arith, compare-flip a b, path_by_compare a b)

insert_text : String → List String → List String
insert_text a [] = a ∷ []
insert_text a (b ∷ texts) =
    let rest = insert_text a texts in if text_leb a b then a ∷ b ∷ texts else b ∷ rest

-- `sorted` of texts
unfoldable pub sort_texts : List String → List String
unfolding insert_text
sort_texts [] = []
sort_texts (a ∷ texts) = insert_text a (sort_texts texts)

insert_text-ne-nil : (a : String) (texts : List String) → insert_text a texts ≢ []
unfolding insert_text
insert_text-ne-nil a [] h = cc h
insert_text-ne-nil a (b ∷ texts) h = ground arith

pub sort_texts-nil : (texts : List String) → sort_texts texts ≡ [] → texts ≡ []
unfolding sort_texts
sort_texts-nil [] h = refl
sort_texts-nil (a ∷ texts) h = absurd (insert_text-ne-nil a (sort_texts texts) h)
