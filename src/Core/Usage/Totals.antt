-- ===== src/Core/Usage/Totals.antt =====
-- `Usage.plus` of core/execution.py on valid values.
use foliqant.Prelude.{
  ◌+◌, ◌≤◌, String, ◌≡◌, refl, inl, inr, false, Option, none, some, [], ◌∷◌, arith, str_eq, ltb,
  Bool-cases, Dict, lookup, insert, IsUnique,
}
use foliqant.Core.Result.{ok}
use foliqant.Core.Usage.Defs.{
  ModelUsage, Usage, no_usage, make_model_usage, model_usage_sum, model_usage_plus, joined,
  joined_checked, merge_into, merge_checked, merge_models, sort_by_name, insert_by_name, name_leb,
  sorted_unless_empty, usage_sum, usage_plus,
}
use foliqant.Core.Usage.Tokens.{IsConsistent, token_usage_sum-IsConsistent, token_usage_plus-total}
use foliqant.Core.Usage.Models.{total_requests, total_requests-merge, merge_models-IsUnique}

pub record IsCounted (m : ModelUsage) : Type 0 where
  pub some_requests : 1 ≤ m.requests
  pub consistent : IsConsistent m.tokens

abbrev pub AreCounted : Dict ModelUsage → Type 0
AreCounted [] = Unit
AreCounted ((_, m) ∷ d) = IsCounted m × AreCounted d

-- What holds of every `Usage` of the engine.
pub record IsValid (u : Usage) : Type 0 where
  pub consistent : IsConsistent u.tokens
  pub models : AreCounted u.by_model
  pub unique : IsUnique u.by_model
  pub counted : total_requests u.by_model ≡ u.model_requests

lookup-IsCounted :
    (k : String) (m : ModelUsage) (d : Dict ModelUsage)
    → AreCounted d
    → lookup k d ≡ some m
    → IsCounted m
unfolding lookup
lookup-IsCounted k m [] h e = cc
lookup-IsCounted k m ((j, n) ∷ d) h e = elim (Bool-cases (str_eq j k)) [
  | inl same ↦ let one : n ≡ m = ground arith in rw (← one) h.0
  | inr apart ↦ lookup-IsCounted k m d h.1 (ground arith)
]

insert-AreCounted :
    (k : String) (m : ModelUsage) (d : Dict ModelUsage)
    → IsCounted m
    → AreCounted d
    → AreCounted (insert k m d)
unfolding insert
insert-AreCounted k m [] h hs = (h, tt)
insert-AreCounted k m ((j, n) ∷ d) h hs = elim (Bool-cases (str_eq j k)) [
  | inl same ↦ rw same (h, hs.1)
  | inr apart ↦ rw apart (hs.0, insert-AreCounted k m d h hs.1)
]

model_usage_sum-IsCounted :
    (a b : ModelUsage) → IsCounted a → IsCounted b → IsCounted (model_usage_sum a b)
unfolding model_usage_sum
model_usage_sum-IsCounted a b h k = record {
  some_requests = omega (arith, h.some_requests);
  consistent = token_usage_sum-IsConsistent a.tokens b.tokens h.consistent k.consistent;
}

model_usage_plus-total :
    (a b : ModelUsage) → IsCounted a → IsCounted b → model_usage_plus a b ≡ ok (model_usage_sum a b)
unfolding model_usage_plus model_usage_sum make_model_usage
model_usage_plus-total a b h k =
    let enough : ltb (a.requests + b.requests) 1 ≡ false = ground (arith, h.some_requests) in
    rw ((token_usage_plus-total a.tokens b.tokens h.consistent k.consistent).0, enough)

joined_checked-total :
    (o : Option ModelUsage) (u : ModelUsage)
    → ((p : ModelUsage) → o ≡ some p → IsCounted p)
    → IsCounted u
    → (joined_checked o u ≡ ok (joined o u)) × IsCounted (joined o u)
unfolding joined_checked joined
joined_checked-total none u h k = (refl, k)
joined_checked-total (some p) u h k =
    (model_usage_plus-total p u (h p refl) k, model_usage_sum-IsCounted p u (h p refl) k)

merge_checked-total :
    (m r : Dict ModelUsage)
    → AreCounted m
    → AreCounted r
    → (merge_checked m r ≡ ok (merge_into m r)) × AreCounted (merge_into m r)
unfolding merge_checked merge_into
merge_checked-total m [] h k = (refl, h)
merge_checked-total m ((j, u) ∷ r) h k =
    let (made, counted) =
      joined_checked-total (lookup j m) u (λ p e. lookup-IsCounted j p m h e) k.0 in
    let entry = joined (lookup j m) u in
    let (merged, all_counted) =
      merge_checked-total (insert j entry m) r (insert-AreCounted j entry m counted h) k.1 in
    (rw made merged, all_counted)

insert_by_name-AreCounted :
    (e : String × ModelUsage) (d : Dict ModelUsage)
    → IsCounted e.1
    → AreCounted d
    → AreCounted (insert_by_name e d)
unfolding insert_by_name
insert_by_name-AreCounted e [] h hs = (h, tt)
insert_by_name-AreCounted e (f ∷ d) h hs = elim (Bool-cases (name_leb e.0 f.0)) [
  | inl before ↦ rw before (h, hs)
  | inr after ↦ rw after (hs.0, insert_by_name-AreCounted e d h hs.1)
]

sort-AreCounted : (d : Dict ModelUsage) → AreCounted d → AreCounted (sort_by_name d)
unfolding sort_by_name
sort-AreCounted [] h = tt
sort-AreCounted (e ∷ d) h = insert_by_name-AreCounted e (sort_by_name d) h.0 (sort-AreCounted d h.1)

merge_models-AreCounted :
    (l r : Dict ModelUsage) → AreCounted l → AreCounted r → AreCounted (merge_models l r)
unfolding merge_models
merge_models-AreCounted l [] h k = h
merge_models-AreCounted l (e ∷ r) h k = sort-AreCounted _ (merge_checked-total l (e ∷ r) h k).1

sorted-merge : (l r : Dict ModelUsage) → sorted_unless_empty l r (merge_into l r) ≡ merge_models l r
unfolding sorted_unless_empty merge_models
sorted-merge l [] = refl
sorted-merge l (e ∷ r) = refl

pub usage_sum-IsValid : (a b : Usage) → IsValid a → IsValid b → IsValid (usage_sum a b)
unfolding usage_sum
usage_sum-IsValid a b h k = record {
  consistent = token_usage_sum-IsConsistent a.tokens b.tokens h.consistent k.consistent;
  models = merge_models-AreCounted a.by_model b.by_model h.models k.models;
  unique = merge_models-IsUnique a.by_model b.by_model h.unique;
  counted = omega (arith, total_requests-merge a.by_model b.by_model, h.counted, k.counted);
}

pub no_usage-IsValid : IsValid no_usage
unfolding total_requests
no_usage-IsValid = record {
  consistent = record {
    cache_read = omega arith;
    cache_write = omega arith;
    reasoning = omega arith;
  };
  models = tt;
  unique = tt;
  counted = refl;
}

-- Adding two valid usages never raises, although every constructor on the way checks its fields:
-- it returns the plain sum, and that is valid again, so its requests are those of its models.
pub usage_plus-total :
    (a b : Usage)
    → IsValid a
    → IsValid b
    → (usage_plus a b ≡ ok (usage_sum a b)) × IsValid (usage_sum a b)
unfolding usage_plus
usage_plus-total a b h k = (computed, usage_sum-IsValid a b h k)
  where
    computed : usage_plus a b ≡ ok (usage_sum a b)
    computed =
        rw
          (
            (token_usage_plus-total a.tokens b.tokens h.consistent k.consistent).0,
            (merge_checked-total a.by_model b.by_model h.models k.models).0,
          )
          (rw (sorted-merge a.by_model b.by_model) (unfold usage_sum in refl))
