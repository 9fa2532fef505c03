-- ===== src/Core/Bindings/Rfc6901.antt =====
-- `lookup_pointer` of core/bindings.py on pointers that are written as RFC 6901 has it.
use text.Mathlib.TextEquality.{Char-path}
use foliqant.Prelude.{
  ℕ, suc, Char, code, String, ◌≡◌, refl, ap, ◌∙◌, inl, inr, true, false, Option, none, some, List,
  [], ◌∷◌, ltb, ◌==◌, ==_iff, if◌then◌else◌, length, Bool-cases,
}
use foliqant.Core.Errors.{invalid_configuration}
use foliqant.Core.Result.{ok, raise}
use foliqant.Core.Json.{FrozenJson}
use foliqant.Core.Json.Freeze.{max_json_depth}
use foliqant.Core.Bindings.Pointer.{
  lookup_pointer, lacks_slash, invalid_escape, split_slash, replace_escape, unescape, child, walk,
  walk_parts,
}

-- RFC 6901, section 3: `~` is written `~0` and `/` is written `~1`; here in front of a rest.
unfoldable pub escape_onto : String → String → String
escape_onto String.[] rest = rest
escape_onto (String.◌∷◌ c s) rest =
    if code c == b'~'
    then String.◌∷◌ "~" (String.◌∷◌ "0" (escape_onto s rest))
    else if code c == b'/'
    then String.◌∷◌ "~" (String.◌∷◌ "1" (escape_onto s rest))
    else String.◌∷◌ c (escape_onto s rest)

-- The pointer of a list of keys.
unfoldable pub encode : List String → String
unfolding escape_onto
encode [] = ""
encode (k ∷ keys) = String.◌∷◌ "/" (escape_onto k (encode keys))

-- Where the keys lead: an object's member, or a tuple's item.
unfoldable pub descend : List String → FrozenJson → Option FrozenJson
descend [] value = some value
descend (k ∷ keys) value = elim (child k value) [ none ↦ none | some v ↦ descend keys v ]

invalid_escape-escape_onto :
    (k rest : String) → invalid_escape (escape_onto k rest) ≡ invalid_escape rest
unfolding escape_onto invalid_escape
invalid_escape-escape_onto String.[] rest = refl
invalid_escape-escape_onto (String.◌∷◌ c s) rest = elim (Bool-cases (code c == b'~')) [
  | inl tilde ↦ rw tilde (invalid_escape-escape_onto s rest)
  | inr plain ↦ elim (Bool-cases (code c == b'/')) [
    | inl slash ↦ rw (plain, slash) (invalid_escape-escape_onto s rest)
    | inr other ↦ rw (plain, other) (rw plain (invalid_escape-escape_onto s rest))
  ]
]

invalid_escape-encode : (keys : List String) → invalid_escape (encode keys) ≡ false
unfolding encode invalid_escape
invalid_escape-encode [] = refl
invalid_escape-encode (k ∷ keys) =
    invalid_escape-escape_onto k (encode keys) ∙ invalid_escape-encode keys

split-escape_onto :
    (k rest : String) (parts : List String)
    → split_slash rest ≡ "" ∷ parts
    → split_slash (escape_onto k rest) ≡ escape_onto k "" ∷ parts
unfolding escape_onto split_slash
split-escape_onto String.[] rest parts h = h
split-escape_onto (String.◌∷◌ c s) rest parts h =
    let ih = split-escape_onto s rest parts h in
    elim (Bool-cases (code c == b'~')) [
      | inl tilde ↦ rw tilde (rw ih)
      | inr plain ↦ elim (Bool-cases (code c == b'/')) [
        | inl slash ↦ rw (plain, slash) (rw ih)
        | inr other ↦ rw (plain, other) (rw (other, ih))
      ]
    ]

escaped : String → String
escaped k = escape_onto k ""

parts_of_keys : List String → List String
parts_of_keys [] = []
parts_of_keys (k ∷ keys) = escaped k ∷ parts_of_keys keys

split-encode :
    (k : String) (keys : List String)
    → split_slash (escape_onto k (encode keys)) ≡ parts_of_keys (k ∷ keys)
unfolding encode parts_of_keys escaped split_slash
split-encode k [] = split-escape_onto k "" [] refl
split-encode k (j ∷ keys) =
    split-escape_onto k (encode (j ∷ keys)) (parts_of_keys (j ∷ keys)) (rw (split-encode j keys))

-- one `replace`, in front of a character that is no tilde
replace-plain :
    (d : ℕ) (r c : Char) (s : String)
    → (code c == b'~') ≡ false
    → replace_escape d r (String.◌∷◌ c s) ≡ String.◌∷◌ c (replace_escape d r s)
unfolding replace_escape
replace-plain d r c String.[] h = refl
replace-plain d r c (String.◌∷◌ e s) h = rw h

char_of_code : (c d : Char) → (code c == code d) ≡ true → c ≡ d
char_of_code c d h = Char-path c d ((==_iff _ _).0 h)

replace-tilde_zero :
    (s : String)
    → replace_escape b'1' "/" (String.◌∷◌ "~" (String.◌∷◌ "0" s))
      ≡ String.◌∷◌ "~" (String.◌∷◌ "0" (replace_escape b'1' "/" s))
unfolding replace_escape
replace-tilde_zero String.[] = refl
replace-tilde_zero (String.◌∷◌ c s) = refl

replace-hit :
    (d r : Char) (s : String)
    → replace_escape (code d) r (String.◌∷◌ "~" (String.◌∷◌ d s))
      ≡ String.◌∷◌ r (replace_escape (code d) r s)
unfolding replace_escape
replace-hit d r s = rw ((==_iff (code d) (code d)).1 refl)

-- `~` alone is escaped
tilde_only : String → String
tilde_only String.[] = String.[]
tilde_only (String.◌∷◌ c s) =
    if code c == b'~'
    then String.◌∷◌ "~" (String.◌∷◌ "0" (tilde_only s))
    else String.◌∷◌ c (tilde_only s)

replace-slash : (k : String) → replace_escape b'1' "/" (escaped k) ≡ tilde_only k
unfolding escaped escape_onto tilde_only
replace-slash String.[] = unfold replace_escape in refl
replace-slash (String.◌∷◌ c s) = elim (Bool-cases (code c == b'~')) [
  | inl tilde ↦ rw tilde (rw (replace-tilde_zero _) (rw (replace-slash s)))
  | inr plain ↦ elim (Bool-cases (code c == b'/')) [
    | inl slash ↦
        rw (plain, slash)
          (rw (char_of_code c "/" slash)
            (replace-hit "1" "/" _ ∙ ap (λ t. String.◌∷◌ "/" t) (replace-slash s)))
    | inr other ↦ rw (plain, other) (rw (replace-plain b'1' "/" c _ plain) (rw (replace-slash s)))
  ]
]

replace-tilde : (k : String) → replace_escape b'0' "~" (tilde_only k) ≡ k
unfolding tilde_only
replace-tilde String.[] = unfold replace_escape in refl
replace-tilde (String.◌∷◌ c s) = elim (Bool-cases (code c == b'~')) [
  | inl tilde ↦ rw tilde (
      rw (char_of_code c "~" tilde)
        (replace-hit "0" "~" _ ∙ ap (λ t. String.◌∷◌ "~" t) (replace-tilde s)))
  | inr plain ↦ rw plain (rw (replace-plain b'0' "~" c _ plain) (rw (replace-tilde s)))
]

unescape-escaped : (k : String) → unescape (escaped k) ≡ k
unfolding unescape
unescape-escaped k = rw (replace-slash k) (replace-tilde k)

walk-parts : (keys : List String) (v : FrozenJson) → walk (parts_of_keys keys) v ≡ descend keys v
unfolding walk descend parts_of_keys
walk-parts [] v = refl
walk-parts (k ∷ keys) v = rw (unescape-escaped k, walk) (onwards (walk-parts keys) (child k v))
  where
    onwards :
        ((w : FrozenJson) → walk (parts_of_keys keys) w ≡ descend keys w)
        → (o : Option FrozenJson)
        → ◌≡◌ {A = Option FrozenJson}
            (elim o [ none ↦ none | some w ↦ walk (parts_of_keys keys) w ])
            (elim o [ none ↦ none | some w ↦ descend keys w ])
    onwards ih none = refl
    onwards ih (some w) = ih w

length-parts : (keys : List String) → length (parts_of_keys keys) ≡ length keys
unfolding parts_of_keys
length-parts [] = refl
length-parts (k ∷ keys) = ap suc (length-parts keys)

-- Looking up the pointer that RFC 6901 writes for a list of keys, whatever characters are in them,
-- raises INVALID_CONFIGURATION where there are more than 64 keys, and else leads to the value that
-- the keys themselves lead to, or to nothing where they do.
pub pointer_resolves :
    (keys : List String) (context : FrozenJson)
    → lookup_pointer (encode keys) context ≡ (
        if ltb max_json_depth (length keys)
        then raise invalid_configuration
        else ok (descend keys context))
unfolding lookup_pointer encode lacks_slash invalid_escape
pointer_resolves [] context = unfold descend in refl
pointer_resolves (k ∷ keys) context =
    let valid = invalid_escape-encode (k ∷ keys) in
    rw valid (
      rw (split-encode k keys) (
        unfold walk_parts in
        rw (length-parts (k ∷ keys)) (elim (Bool-cases (ltb max_json_depth (length (k ∷ keys)))) [
          | inl long ↦ rw long refl
          | inr short ↦ rw short (rw (walk-parts (k ∷ keys) context))
        ])))
