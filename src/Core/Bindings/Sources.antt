-- ===== src/Core/Bindings/Sources.antt =====
-- `resolve_source` of core/bindings.py on the sources of compiled conditions.
use foliqant.Prelude.{
  ℕ, ◌≤◌, String, Bool, true, false, not, ◌&&◌, ◌||◌, none, some, List, [], ◌∷◌, ◌≡◌, refl, inl,
  inr, ltb, length, Bool-cases,
}
use foliqant.Core.Errors.{invalid_configuration}
use foliqant.Core.Result.{Result, ok, raise, ◌>>=◌}
use foliqant.Core.Json.{FrozenJson}
use foliqant.Core.Json.Freeze.{max_json_depth}
use foliqant.Core.Json.WellFormed.{IsWellFormed, depth}
use foliqant.Core.Json.RoundTrip.{freeze-thaw}
use foliqant.Core.Plan.{pointer, literal, first_of, fields, BindingPlan, plan}
use foliqant.Core.Bindings.Pointer.{
  lookup_pointer, lacks_slash, invalid_escape, split_slash, walk, walk_parts, parts_of,
}
use foliqant.Core.Bindings.{resolve_source, source_pointers, candidates, first_value, non_null}

-- the parts of a pointer
unfoldable pub part_count : String → ℕ
part_count String.[] = 0
part_count (String.◌∷◌ _ rest) = length (split_slash rest)

-- The syntax of a JSON pointer, which does not limit the number of its parts.
abbrev pub IsPointer : String → Type 0
IsPointer p = (lacks_slash p || invalid_escape p) ≡ false

abbrev pub ArePointers : List String → Type 0
ArePointers [] = Unit
ArePointers (p ∷ pointers) = IsPointer p × ArePointers pointers

-- a pointer of at most 64 parts
abbrev pub is_short : String → Bool
is_short p = not (ltb max_json_depth (part_count p))

abbrev pub all_short : List String → Bool
all_short [] = true
all_short (p ∷ pointers) = is_short p && all_short pointers

-- A call that returns where the test holds and is a configuration failure where it does not.
abbrev pub ReturnsIf {ℓ} : {A : Type ℓ} → Bool → Result A → Type ℓ
ReturnsIf {A = A} true r = (a : A) × (r ≡ ok a)
ReturnsIf false r = r ≡ raise invalid_configuration

-- a call after a call
and_then :
    {A B : Type 0} (b c : Bool) (r : Result A) (f : A → Result B)
    → ReturnsIf b r
    → ((a : A) → ReturnsIf c (f a))
    → ReturnsIf (b && c) (r >>= f)
and_then true c r f (a, e) k = rw e (k a)
and_then false c r f e k = rw e refl

-- a result that is only mapped
later :
    {A B : Type 0} (b : Bool) (r : Result A) (f : A → B)
    → ReturnsIf b r
    → ReturnsIf b (r >>= λ a. ok (f a))
later true r f (a, e) = rw e (f a, refl)
later false r f e = rw e refl

parts_of-ReturnsIf :
    (p : String) (context : FrozenJson) → ReturnsIf (is_short p) (parts_of p context)
unfolding parts_of part_count walk_parts
parts_of-ReturnsIf String.[] context = (some context, refl)
parts_of-ReturnsIf (String.◌∷◌ c rest) context =
    elim (Bool-cases (ltb max_json_depth (length (split_slash rest)))) [
      | inl long ↦ rw long refl
      | inr short ↦ rw short (walk (split_slash rest) context, refl)
    ]

lookup_pointer-ReturnsIf :
    (p : String) (context : FrozenJson)
    → IsPointer p
    → ReturnsIf (is_short p) (lookup_pointer p context)
unfolding lookup_pointer
lookup_pointer-ReturnsIf p context h = rw h (parts_of-ReturnsIf p context)

candidates-ReturnsIf :
    (pointers : List String) (context : FrozenJson)
    → ArePointers pointers
    → ReturnsIf (all_short pointers) (candidates pointers context)
unfolding candidates
candidates-ReturnsIf [] context h = ([], refl)
candidates-ReturnsIf (p ∷ pointers) context h =
    and_then (is_short p) (all_short pointers) _ _ (lookup_pointer-ReturnsIf p context h.0) (λ o.
      later (all_short pointers) (candidates pointers context) (λ found. o ∷ found)
        (candidates-ReturnsIf pointers context h.1))

-- The sources that compilation produces: a literal that is JSON, or pointers without a default.
-- Neither the contract nor the compiler limits the number of parts of a pointer.
abbrev pub IsSource : BindingPlan → Type 0
IsSource (plan literal _ lit _ _ _ _) = IsWellFormed lit × (depth lit ≤ max_json_depth)
IsSource (plan pointer (some p) _ has_default _ _ _) = (has_default ≡ false) × IsPointer p
IsSource (plan first_of _ _ has_default _ (m ∷ members) _) =
    (has_default ≡ false) × ArePointers (m ∷ members)
IsSource _ = ⊥

-- a source whose pointers have at most 64 parts
abbrev pub has_short_pointers : BindingPlan → Bool
has_short_pointers (plan pointer (some p) _ _ _ _ _) = all_short (p ∷ [])
has_short_pointers (plan first_of _ _ _ _ members _) = all_short members
has_short_pointers _ = true

-- In every context a compiled source resolves to a value or to its absence where each of its
-- pointers has at most 64 parts, and raises INVALID_CONFIGURATION where one has more.
pub resolve_source_outcome :
    (b : BindingPlan) (context : FrozenJson)
    → IsSource b
    → ReturnsIf (has_short_pointers b) (resolve_source b context)
unfolding resolve_source source_pointers
resolve_source_outcome (plan literal p lit d df ms fs) context h =
    (non_null lit, rw (freeze-thaw max_json_depth lit h.0 h.1).1)
resolve_source_outcome (plan pointer none lit d df ms fs) context h = absurd h
resolve_source_outcome (plan pointer (some p) lit d df ms fs) context h =
    rw h.0
      (later (all_short (p ∷ [])) _ first_value (candidates-ReturnsIf (p ∷ []) context (h.1, tt)))
resolve_source_outcome (plan first_of p lit d df [] fs) context h = absurd h
resolve_source_outcome (plan first_of p lit d df (m ∷ ms) fs) context h =
    rw h.0 (later (all_short (m ∷ ms)) _ first_value (candidates-ReturnsIf (m ∷ ms) context h.1))
resolve_source_outcome (plan fields p lit d df ms fs) context h = absurd h
