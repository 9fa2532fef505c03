-- ===== src/Core/Json/WellFormed.antt =====
-- The well-formed values of core/json.py, whose floats are finite and whose dictionaries have no key
-- twice; and how deep a value is nested.
use foliqant.Prelude.{
  ℕ, suc, ◌≤◌, max, String, ◌≡◌, refl, inl, inr, none, some, arith, eq_iff, str_eq, if◌then◌else◌,
  Bool-cases,
}
use foliqant.Core.Json.Values.{
  Float, finite, FrozenJson, float, tuple, object, Items, nil, cons, Fields, end, field,
  field_lookup, field_insert, field_append,
}

unfoldable mutual
  pub depth : FrozenJson → ℕ
  depth (tuple xs) = depth_items xs
  depth (object fs) = depth_fields fs
  depth _ = 0

  pub depth_items : Items → ℕ
  depth_items nil = 0
  depth_items (cons x xs) = max (suc (depth x)) (depth_items xs)

  pub depth_fields : Fields → ℕ
  depth_fields end = 0
  depth_fields (field _ v fs) = max (suc (depth v)) (depth_fields fs)

abbrev pub IsFinite : Float → Type 0
IsFinite (finite _) = Unit
IsFinite _ = ⊥

unfoldable mutual
  pub IsWellFormed : FrozenJson → Type 0
  IsWellFormed (float x) = IsFinite x
  IsWellFormed (tuple xs) = AreWellFormed xs
  IsWellFormed (object fs) = HasWellFormed fs
  IsWellFormed _ = Unit

  pub AreWellFormed : Items → Type 0
  AreWellFormed nil = Unit
  AreWellFormed (cons x xs) = IsWellFormed x × AreWellFormed xs

  pub HasWellFormed : Fields → Type 0
  HasWellFormed end = Unit
  HasWellFormed (field k v fs) = IsWellFormed v × (field_lookup k fs ≡ none) × HasWellFormed fs

pub field_lookup-insert :
    (k j : String) (v : FrozenJson) (fs : Fields)
    → field_lookup j (field_insert k v fs) ≡ (if str_eq k j then some v else field_lookup j fs)
unfolding field_lookup field_insert
field_lookup-insert k j v end = refl
field_lookup-insert k j v (field i w fs) =
    ground (arith, eq_iff k j, eq_iff i k, eq_iff i j, field_lookup-insert k j v fs)

pub field_insert-HasWellFormed :
    (k : String) (v : FrozenJson) (fs : Fields)
    → IsWellFormed v
    → HasWellFormed fs
    → HasWellFormed (field_insert k v fs)
unfolding IsWellFormed field_lookup field_insert
field_insert-HasWellFormed k v end h hs = (h, refl, tt)
field_insert-HasWellFormed k v (field j w fs) h hs = elim (Bool-cases (str_eq j k)) [
  | inl same ↦ rw same (h, hs.1, hs.2)
  | inr apart ↦ rw apart (
    hs.0,
    ground (arith, field_lookup-insert k j v fs, eq_iff k j, eq_iff j k, hs.1),
    field_insert-HasWellFormed k v fs h hs.2,
  )
]

pub depth-field_insert :
    (k : String) (v : FrozenJson) (fs : Fields)
    → depth_fields (field_insert k v fs) ≤ max (suc (depth v)) (depth_fields fs)
unfolding depth field_insert
depth-field_insert k v end = omega arith
depth-field_insert k v (field j w fs) = elim (Bool-cases (str_eq j k)) [
  | inl same ↦ rw same (omega arith)
  | inr apart ↦ rw apart (omega (arith, depth-field_insert k v fs))
]

-- `fs` shares no key with `acc`
abbrev pub IsFresh : Fields → Fields → Type 0
IsFresh acc end = Unit
IsFresh acc (field k _ fs) = (field_lookup k acc ≡ none) × IsFresh acc fs

-- A new key is added at the end.
pub field_insert_new :
    (k : String) (v : FrozenJson) (acc : Fields)
    → field_lookup k acc ≡ none
    → field_insert k v acc ≡ field_append acc (field k v end)
unfolding field_lookup field_insert field_append
field_insert_new k v end h = refl
field_insert_new k v (field j w acc) h = ground (arith, field_insert_new k v acc)

pub IsFresh-insert :
    (k : String) (v : FrozenJson) (acc fs : Fields)
    → IsFresh acc fs
    → field_lookup k fs ≡ none
    → IsFresh (field_insert k v acc) fs
unfolding field_lookup
IsFresh-insert k v acc end fresh h = tt
IsFresh-insert k v acc (field j w fs) fresh h = (
  ground (arith, field_lookup-insert k j v acc, eq_iff k j, eq_iff j k, fresh.0),
  IsFresh-insert k v acc fs fresh.1 (ground arith),
)

pub field_append_assoc :
    (fs gs hs : Fields)
    → field_append (field_append fs gs) hs ≡ field_append fs (field_append gs hs)
unfolding field_append
field_append_assoc end gs hs = refl
field_append_assoc (field k v fs) gs hs = rw (field_append_assoc fs gs hs)

pub field_append-end : (fs : Fields) → field_append fs end ≡ fs
unfolding field_append
field_append-end end = refl
field_append-end (field k v fs) = rw (field_append-end fs)

pub IsFresh-end : (fs : Fields) → IsFresh end fs
unfolding field_lookup
IsFresh-end end = tt
IsFresh-end (field k v fs) = (refl, IsFresh-end fs)
