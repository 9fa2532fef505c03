-- ===== src/Core/Json/Equivalence.antt =====
-- `json_equal` of core/conditions.py as a relation on frozen values.
mod Entries
use foliqant.Prelude.{
  ◌≡◌, refl, sym, ◌∙◌, inl, inr, true, String, some, arith, eq_iff, eq_refl, ==_iff, str_eq,
  Bool-cases, some_inj, &&_split, &&_join,
}
use foliqant.Core.Json.Values.{
  finite, infinity, nan, FrozenJson, null, bool, int, float, str, tuple, object, Items, nil, cons,
  Fields, end, field, field_lookup, items_length,
}
use foliqant.Core.Json.Numbers.{whole, real}
use foliqant.Core.Json.Equal.{json_equal, items_equal, fields_equal, keys_within}
use foliqant.Core.Json.WellFormed.{IsWellFormed, AreWellFormed, HasWellFormed}
use foliqant.Core.Json.Equivalence.Entries.{
  number_eq_sym, fields_equal_at, keys_within_at, fields_equal_intro, keys_within_refl,
}

-- Equality of objects, taken apart and put together.
object_equal_split :
    (fs gs : Fields)
    → json_equal (object fs) (object gs) ≡ true
    → (keys_within fs gs ≡ true) × (keys_within gs fs ≡ true) × (fields_equal fs gs ≡ true)
unfolding json_equal
object_equal_split fs gs h = ground arith

object_equal_join :
    (fs gs : Fields)
    → keys_within fs gs ≡ true
    → keys_within gs fs ≡ true
    → fields_equal fs gs ≡ true
    → json_equal (object fs) (object gs) ≡ true
unfolding json_equal
object_equal_join fs gs h k e = ground arith

object_equal_sym :
    (fs gs : Fields)
    → HasWellFormed gs
    → json_equal (object fs) (object gs) ≡ true
    → ((k : String) (v w : FrozenJson)
        → field_lookup k fs ≡ some v
        → field_lookup k gs ≡ some w
        → json_equal v w ≡ true
        → json_equal w v ≡ true)
    → json_equal (object gs) (object fs) ≡ true
object_equal_sym fs gs hg e back =
    let (forth, rest, same) = object_equal_split fs gs e in
    object_equal_join gs fs rest forth (
      fields_equal_intro gs fs hg (λ k w found.
        let (v, here) = keys_within_at gs fs k w rest found in
        let (w', there, equal) = fields_equal_at fs gs k v same here in
        let one : w ≡ w' = some_inj (sym found ∙ there) in
        (v, here, back k v w here found (rw one equal))))

lookup-IsWellFormed :
    (k : String) (v : FrozenJson) (fs : Fields)
    → HasWellFormed fs
    → field_lookup k fs ≡ some v
    → IsWellFormed v
unfolding IsWellFormed field_lookup
lookup-IsWellFormed k v end h e = cc
lookup-IsWellFormed k v (field j u fs) h e = elim (Bool-cases (str_eq j k)) [
  | inl same ↦ let one : u ≡ v = ground arith in rw (← one) h.0
  | inr apart ↦ lookup-IsWellFormed k v fs h.2 (ground arith)
]

tuple_equal_split :
    (xs ys : Items)
    → json_equal (tuple xs) (tuple ys) ≡ true
    → (items_length xs ≡ items_length ys) × (items_equal xs ys ≡ true)
unfolding json_equal
tuple_equal_split xs ys h = ((==_iff _ _).0 (&&_split _ _ h).0, (&&_split _ _ h).1)

tuple_equal_join :
    (xs ys : Items)
    → items_length xs ≡ items_length ys
    → items_equal xs ys ≡ true
    → json_equal (tuple xs) (tuple ys) ≡ true
unfolding json_equal
tuple_equal_join xs ys l h = &&_join _ _ ((==_iff _ _).1 l) h

str_eq_sym : (s t : String) → str_eq s t ≡ str_eq t s
str_eq_sym s t = ground (arith, eq_iff s t, eq_iff t s)

mutual
  unfolding json_equal IsWellFormed field_lookup

  json_equal_flip :
      (a b : FrozenJson) → IsWellFormed b → json_equal a b ≡ true → json_equal b a ≡ true
  json_equal_flip (tuple xs) (tuple ys) wb h =
      let (l, e) = tuple_equal_split xs ys h in
      tuple_equal_join ys xs (sym l) (items_equal_flip xs ys wb l e)
  json_equal_flip (object fs) (object gs) wb h = object_equal_sym fs gs wb h (λ k v w here there e.
      fields_equal_flip fs k v w here (lookup-IsWellFormed k w gs wb there) e)
  json_equal_flip (int a) (int b) wb h = number_eq_sym (whole b) (whole a) ∙ h
  json_equal_flip (int a) (float b) wb h = number_eq_sym (real b) (whole a) ∙ h
  json_equal_flip (float a) (int b) wb h = number_eq_sym (whole b) (real a) ∙ h
  json_equal_flip (float a) (float b) wb h = number_eq_sym (real b) (real a) ∙ h
  json_equal_flip (str a) (str b) wb h = str_eq_sym b a ∙ h
  json_equal_flip (bool a) (bool b) wb h = ground arith
  json_equal_flip null null wb h = refl
  json_equal_flip a b wb h = cc

  items_equal_flip :
      (xs ys : Items)
      → AreWellFormed ys
      → items_length xs ≡ items_length ys
      → items_equal xs ys ≡ true
      → items_equal ys xs ≡ true
  items_equal_flip nil nil wy l h = refl
  items_equal_flip nil (cons y ys) wy l h = absurd (omega arith)
  items_equal_flip (cons x xs) nil wy l h = refl
  items_equal_flip (cons x xs) (cons y ys) wy l h =
      &&_join _ _ (json_equal_flip x y wy.0 (&&_split _ _ h).0)
        (items_equal_flip xs ys wy.1 (omega arith) (&&_split _ _ h).1)

  fields_equal_flip :
      (fs : Fields) (k : String) (v w : FrozenJson)
      → field_lookup k fs ≡ some v
      → IsWellFormed w
      → json_equal v w ≡ true
      → json_equal w v ≡ true
  fields_equal_flip end k v w e hw h = cc
  fields_equal_flip (field j u fs) k v w e hw h = elim (Bool-cases (str_eq j k)) [
    | inl same ↦ let one : u ≡ v = ground arith in rw (← one) (json_equal_flip u w hw (rw one h))
    | inr apart ↦ fields_equal_flip fs k v w (ground arith) hw h
  ]

mutual
  unfolding json_equal IsWellFormed field_lookup

  json_equal_self : (a : FrozenJson) → IsWellFormed a → json_equal a a ≡ true
  json_equal_self null w = refl
  json_equal_self (bool b) w = ground arith
  json_equal_self (int n) w = ground arith
  json_equal_self (float (finite m)) w = ground arith
  json_equal_self (float (infinity _)) w = absurd w
  json_equal_self (float nan) w = absurd w
  json_equal_self (str s) w = eq_refl s
  json_equal_self (tuple xs) w = tuple_equal_join xs xs refl (items_equal_self xs w)
  json_equal_self (object fs) w =
      object_equal_join fs fs (keys_within_refl fs fs w (λ k v e. (v, e)))
        (keys_within_refl fs fs w (λ k v e. (v, e)))
        (fields_equal_intro fs fs w (λ k v e. (v, e, fields_equal_self fs w k v e)))

  items_equal_self : (xs : Items) → AreWellFormed xs → items_equal xs xs ≡ true
  items_equal_self nil w = refl
  items_equal_self (cons x xs) w = &&_join _ _ (json_equal_self x w.0) (items_equal_self xs w.1)

  fields_equal_self :
      (fs : Fields)
      → HasWellFormed fs
      → (k : String) (v : FrozenJson) → field_lookup k fs ≡ some v
      → json_equal v v ≡ true
  fields_equal_self end w k v e = cc
  fields_equal_self (field j u fs) w k v e = elim (Bool-cases (str_eq j k)) [
    | inl same ↦ let one : u ≡ v = ground arith in rw (← one) (json_equal_self u w.0)
    | inr apart ↦ fields_equal_self fs w.2 k v (ground arith)
  ]

-- On well-formed values `json_equal` is reflexive, and it does not depend on the side on which a
-- value stands: neither number kinds nor the order of keys make it one-sided.
pub json_equal_laws :
    (a b : FrozenJson)
    → IsWellFormed a
    → IsWellFormed b
    → (json_equal a a ≡ true) × (json_equal a b ≡ json_equal b a)
json_equal_laws a b wa wb = (json_equal_self a wa, agree)
  where
    agree : json_equal a b ≡ json_equal b a
    agree = elim (Bool-cases (json_equal a b)) [
      | inl same ↦ same ∙ sym (json_equal_flip a b wb same)
      | inr apart ↦ elim (Bool-cases (json_equal b a)) [
        | inl back ↦ json_equal_flip b a wa back ∙ sym back
        | inr neither ↦ apart ∙ sym neither
      ]
    ]
