-- ===== src/Prelude/Lists.antt =====
-- Lists measured and indexed by native numbers, and dictionaries in insertion order.
use Prim.Native.Nat.{ℕ, zero, suc, ◌+◌}
use Prim.Native.String.{String}
use mathlib.Core.Path.{◌≡◌, refl}
use mathlib.Core.Logic.{◌⊎◌, inl, inr}
use mathlib.Core.Bool.{Bool, true, false, ◌&&◌, ◌||◌}
use mathlib.Core.Option.{Option, none, some}
use mathlib.Core.List.{List, [], ◌∷◌, ◌++◌}
use native.Mathlib.Omega.{arith}
use text.Mathlib.TextEquality.{eq_iff}
use text.Mathlib.TextPositions.{eq_refl}
use foliqant.Prelude.Tests.{str_eq, if◌then◌else◌, Bool-cases}

module _ {ℓ} {A : Type ℓ} where
  abbrev pub length : List A → ℕ
  length [] = 0
  length (x ∷ xs) = suc (length xs)

  abbrev pub get_elem? : List A → ℕ → Option A
  get_elem? [] i = none
  get_elem? (x ∷ xs) zero = some x
  get_elem? (x ∷ xs) (suc i) = get_elem? xs i

  abbrev pub all : (A → Bool) → List A → Bool
  all p [] = true
  all p (x ∷ xs) = p x && all p xs

  abbrev pub any : (A → Bool) → List A → Bool
  any p [] = false
  any p (x ∷ xs) = p x || any p xs

  pub length-append : (xs ys : List A) → length (xs ++ ys) ≡ length xs + length ys
  length-append [] ys = omega arith
  length-append (x ∷ xs) ys = omega (arith, length-append xs ys)

-- `key in names`
abbrev pub mem_str : String → List String → Bool
mem_str k = any (λ j. str_eq j k)

-- what occurs in a list, with its place
abbrev pub Member : {A : Type 0} → A → List A → Type 0
Member a [] = ⊥
Member a (x ∷ xs) = (x ≡ a) ⊎ Member a xs

pub all-Member :
    {A : Type 0} (p : A → Bool) (xs : List A) (a : A) → all p xs ≡ true → Member a xs → p a ≡ true
all-Member p [] a h m = absurd m
all-Member p (x ∷ xs) a h (inl e) = ground arith
all-Member p (x ∷ xs) a h (inr m) = all-Member p xs a (ground arith) m

pub any-false :
    {A : Type 0} (p : A → Bool) (xs : List A) (a : A) → any p xs ≡ false → Member a xs → p a ≡ false
any-false p [] a h m = absurd m
any-false p (x ∷ xs) a h (inl e) = ground arith
any-false p (x ∷ xs) a h (inr m) = any-false p xs a (ground arith) m

pub In-Member : (k : String) (xs : List String) → mem_str k xs ≡ true → Member k xs
In-Member k [] h = cc
In-Member k (x ∷ xs) h = ground (arith, In-Member k xs, eq_iff x k)

-- Python's `dict` with text keys: entries in insertion order, a key at most once.
abbrev pub Dict {ℓ} : Type ℓ → Type ℓ
Dict V = List (String × V)

module _ {ℓ} {V : Type ℓ} where
  -- `d.get(k)`
  unfoldable pub lookup : String → Dict V → Option V
  lookup key [] = none
  lookup key ((name, value) ∷ entries) =
      let later = lookup key entries in if str_eq name key then some value else later

  -- `d[k] = v`: an old key keeps its place, a new one goes to the end
  unfoldable pub insert : String → V → Dict V → Dict V
  insert k v [] = (k, v) ∷ []
  insert k v ((j, w) ∷ d) =
      let rest = insert k v d in if str_eq j k then (j, v) ∷ d else (j, w) ∷ rest

  pub lookup-insert :
      (k j : String) (v : V) (d : Dict V)
      → lookup j (insert k v d) ≡ (if str_eq k j then some v else lookup j d)
  unfolding lookup insert
  lookup-insert k j v [] = refl
  lookup-insert k j v ((i, w) ∷ d) =
      ground (arith, eq_iff k j, eq_iff i k, eq_iff i j, lookup-insert k j v d)

abbrev pub keys {ℓ} : {V : Type ℓ} → Dict V → List String
keys [] = []
keys ((k, _) ∷ d) = k ∷ keys d

-- No key occurs twice.
abbrev pub IsUnique {ℓ} : {V : Type ℓ} → Dict V → Type ℓ
IsUnique [] = Unit
IsUnique ((k, _) ∷ d) = (lookup k d ≡ none) × IsUnique d

module _ {ℓ} {V : Type ℓ} where
  pub insert-IsUnique : (k : String) (v : V) (d : Dict V) → IsUnique d → IsUnique (insert k v d)
  unfolding lookup insert
  insert-IsUnique k v [] h = (refl, tt)
  insert-IsUnique k v ((j, w) ∷ d) h = elim (Bool-cases (str_eq j k)) [
    | inl same ↦ rw same h
    | inr apart ↦ rw apart (
      ground (arith, lookup-insert k j v d, eq_iff k j, eq_iff j k, h.0),
      insert-IsUnique k v d h.1,
    )
  ]

  pub lookup-insert_self :
      (key : String) (value : V) (entries : Dict V)
      → lookup key (insert key value entries) ≡ some value
  lookup-insert_self key value entries = rw (lookup-insert key key value entries, eq_refl key)
