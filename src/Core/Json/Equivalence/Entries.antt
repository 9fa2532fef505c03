-- ===== src/Core/Json/Equivalence/Entries.antt =====
-- Equality of the entries of two objects, for `json_equal` of core/conditions.py.
use foliqant.Prelude.{
  ◌≡◌, refl, inl, inr, true, String, none, some, arith, eq_iff, eq_refl, str_eq, Bool-cases,
  Option-cases,
}
use foliqant.Core.Json.Values.{finite, infinity, nan, FrozenJson, Fields, end, field, field_lookup}
use foliqant.Core.Json.Numbers.{Number, whole, real, number_eq}
use foliqant.Core.Json.Equal.{json_equal, fields_equal, keys_within}
use foliqant.Core.Json.WellFormed.{IsWellFormed, HasWellFormed}

pub number_eq_sym : (a b : Number) → number_eq a b ≡ number_eq b a
unfolding number_eq
number_eq_sym (whole a) (whole b) = ground arith
number_eq_sym (whole a) (real (finite b)) = ground arith
number_eq_sym (whole a) (real (infinity b)) = ground arith
number_eq_sym (whole a) (real nan) = refl
number_eq_sym (real (finite a)) (whole b) = ground arith
number_eq_sym (real (finite a)) (real (finite b)) = ground arith
number_eq_sym (real (finite a)) (real (infinity b)) = ground arith
number_eq_sym (real (finite a)) (real nan) = refl
number_eq_sym (real (infinity a)) (whole b) = ground arith
number_eq_sym (real (infinity a)) (real (finite b)) = ground arith
number_eq_sym (real (infinity a)) (real (infinity b)) = ground arith
number_eq_sym (real (infinity a)) (real nan) = ground arith
number_eq_sym (real nan) (whole b) = refl
number_eq_sym (real nan) (real (finite b)) = refl
number_eq_sym (real nan) (real (infinity b)) = ground arith
number_eq_sym (real nan) (real nan) = refl

-- What the comparison of two dictionaries says of one key.
pub fields_equal_at :
    (fs gs : Fields) (k : String) (v : FrozenJson)
    → fields_equal fs gs ≡ true
    → field_lookup k fs ≡ some v
    → (w : FrozenJson) × (field_lookup k gs ≡ some w) × (json_equal v w ≡ true)
unfolding json_equal field_lookup
fields_equal_at end gs k v h e = cc
fields_equal_at (field j u fs) gs k v h e = elim (Bool-cases (str_eq j k)) [
  | inl same ↦ elim (Option-cases (field_lookup j gs)) [
    | inl missing ↦ absurd (ground arith)
    | inr (w, found) ↦ (w, ground (arith, eq_iff j k), ground arith)
  ]
  | inr apart ↦ fields_equal_at fs gs k v (ground arith) (ground arith)
]

pub keys_within_at :
    (fs gs : Fields) (k : String) (v : FrozenJson)
    → keys_within fs gs ≡ true
    → field_lookup k fs ≡ some v
    → (w : FrozenJson) × (field_lookup k gs ≡ some w)
unfolding keys_within field_lookup
keys_within_at end gs k v h e = cc
keys_within_at (field j u fs) gs k v h e = elim (Bool-cases (str_eq j k)) [
  | inl same ↦ elim (Option-cases (field_lookup j gs)) [
    | inl missing ↦ absurd (ground arith)
    | inr (w, found) ↦ (w, ground (arith, eq_iff j k))
  ]
  | inr apart ↦ keys_within_at fs gs k v (ground arith) (ground arith)
]

-- An entry behind a new key is found as before.
lookup_behind :
    (j k : String) (u v : FrozenJson) (fs : Fields)
    → field_lookup j fs ≡ none
    → field_lookup k fs ≡ some v
    → field_lookup k (field j u fs) ≡ some v
unfolding field_lookup
lookup_behind j k u v fs h e = elim (Bool-cases (str_eq j k)) [
  | inl same ↦ let p : j ≡ k = (eq_iff j k).0 same in absurd (ground arith)
  | inr apart ↦ rw apart e
]

lookup_first : (j : String) (u : FrozenJson) (fs : Fields) → field_lookup j (field j u fs) ≡ some u
unfolding field_lookup
lookup_first j u fs = rw (eq_refl j)

pub fields_equal_intro :
    (fs gs : Fields)
    → HasWellFormed fs
    → ((k : String) (v : FrozenJson)
        → field_lookup k fs ≡ some v
        → (w : FrozenJson) × (field_lookup k gs ≡ some w) × (json_equal v w ≡ true))
    → fields_equal fs gs ≡ true
unfolding json_equal IsWellFormed
fields_equal_intro end gs h all_keys = refl
fields_equal_intro (field k v fs) gs h all_keys =
    let (w, found, same) = all_keys k v (lookup_first k v fs) in
    rw (found, same)
      (fields_equal_intro fs gs h.2 (λ j u e. all_keys j u (lookup_behind k j v u fs h.1 e)))

pub keys_within_refl :
    (fs gs : Fields)
    → HasWellFormed fs
    → ((k : String) (v : FrozenJson)
        → field_lookup k fs ≡ some v
        → (w : FrozenJson) × (field_lookup k gs ≡ some w))
    → keys_within fs gs ≡ true
unfolding keys_within IsWellFormed
keys_within_refl end gs h all_keys = refl
keys_within_refl (field k v fs) gs h all_keys =
    let (w, found) = all_keys k v (lookup_first k v fs) in
    rw found (keys_within_refl fs gs h.2 (λ j u e. all_keys j u (lookup_behind k j v u fs h.1 e)))
