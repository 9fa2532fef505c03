-- ===== src/Core/Usage/Models.antt =====
-- `_merge_models` of core/execution.py, model by model.
use foliqant.Prelude.{
  ℕ, ◌+◌, String, ◌≡◌, refl, inl, inr, Option, none, some, [], ◌∷◌, arith, eq_iff, str_eq,
  if◌then◌else◌, Bool-cases, Dict, lookup, insert, lookup-insert, IsUnique, insert-IsUnique, ◌∙◌,
}
use foliqant.Core.Usage.Defs.{
  ModelUsage, joined, merge_into, merge_models, sort_by_name, insert_by_name, name_leb,
}

-- requests over all models
unfoldable pub total_requests : Dict ModelUsage → ℕ
total_requests [] = 0
total_requests ((_, u) ∷ d) = u.requests + total_requests d

-- The requests that a dictionary holds under one name.
abbrev pub requests_of : Option ModelUsage → ℕ
requests_of none = 0
requests_of (some u) = u.requests

total_requests-insert :
    (k : String) (u : ModelUsage) (d : Dict ModelUsage)
    → total_requests (insert k u d) + requests_of (lookup k d) ≡ total_requests d + u.requests
unfolding total_requests insert lookup
total_requests-insert k u [] = omega arith
total_requests-insert k u ((j, v) ∷ d) = elim (Bool-cases (str_eq j k)) [
  | inl same ↦ rw same (omega arith)
  | inr apart ↦ rw apart (omega (arith, total_requests-insert k u d))
]

requests-joined :
    (o : Option ModelUsage) (u : ModelUsage) → (joined o u).requests ≡ requests_of o + u.requests
unfolding joined
requests-joined none u = omega arith
requests-joined (some p) u = refl

total_requests-merge_into :
    (m r : Dict ModelUsage) → total_requests (merge_into m r) ≡ total_requests m + total_requests r
unfolding total_requests merge_into
total_requests-merge_into m [] = omega arith
total_requests-merge_into m ((k, u) ∷ r) = omega (
  arith,
  total_requests-merge_into (insert k (joined (lookup k m) u) m) r,
  total_requests-insert k (joined (lookup k m) u) m,
  requests-joined (lookup k m) u,
)

total_requests-insert_by_name :
    (e : String × ModelUsage) (d : Dict ModelUsage)
    → total_requests (insert_by_name e d) ≡ e.1.requests + total_requests d
unfolding total_requests insert_by_name
total_requests-insert_by_name e [] = refl
total_requests-insert_by_name e (f ∷ d) = elim (Bool-cases (name_leb e.0 f.0)) [
  | inl before ↦ rw before
  | inr after ↦ rw after (omega (arith, total_requests-insert_by_name e d))
]

total_requests-sort : (d : Dict ModelUsage) → total_requests (sort_by_name d) ≡ total_requests d
unfolding total_requests sort_by_name
total_requests-sort [] = refl
total_requests-sort (e ∷ d) =
    omega (arith, total_requests-insert_by_name e (sort_by_name d), total_requests-sort d)

pub total_requests-merge :
    (l r : Dict ModelUsage)
    → total_requests (merge_models l r) ≡ total_requests l + total_requests r
unfolding merge_models
total_requests-merge l [] = unfold total_requests in omega arith
total_requests-merge l (e ∷ r) =
    omega (arith, total_requests-sort (merge_into l (e ∷ r)), total_requests-merge_into l (e ∷ r))

-- The entry of a model after a merge.
abbrev pub combined : Option ModelUsage → Option ModelUsage → Option ModelUsage
combined o none = o
combined o (some u) = some (joined o u)

combined_step :
    (k j : String) (u : ModelUsage) (m r : Dict ModelUsage)
    → lookup j r ≡ none
    → combined (lookup k (insert j (joined (lookup j m) u) m)) (lookup k r)
      ≡ combined (lookup k m) (if str_eq j k then some u else lookup k r)
combined_step k j u m r new = elim (Bool-cases (str_eq j k)) [
  | inl same ↦
      let one : j ≡ k = (eq_iff j k).0 same in
      rw (lookup-insert j k (joined (lookup j m) u) m, same) (rw (← one) (rw new))
  | inr apart ↦ rw (lookup-insert j k (joined (lookup j m) u) m, apart)
]

lookup-merge_into :
    (k : String) (m r : Dict ModelUsage)
    → IsUnique r
    → lookup k (merge_into m r) ≡ combined (lookup k m) (lookup k r)
unfolding merge_into lookup
lookup-merge_into k m [] h = refl
lookup-merge_into k m ((j, u) ∷ r) h =
    lookup-merge_into k (insert j (joined (lookup j m) u) m) r h.1 ∙ combined_step k j u m r h.0

lookup-insert_by_name :
    (k j : String) (u : ModelUsage) (d : Dict ModelUsage)
    → lookup j d ≡ none
    → lookup k (insert_by_name (j, u) d) ≡ (if str_eq j k then some u else lookup k d)
unfolding insert_by_name lookup
lookup-insert_by_name k j u [] h = refl
lookup-insert_by_name k j u ((i, v) ∷ d) h = elim (Bool-cases (name_leb j i)) [
  | inl before ↦ rw before
  | inr after ↦
      rw after
        (ground (arith, lookup-insert_by_name k j u d, eq_iff i j, eq_iff i k, eq_iff j k, h))
]

insert_by_name-IsUnique :
    (j : String) (u : ModelUsage) (d : Dict ModelUsage)
    → lookup j d ≡ none
    → IsUnique d
    → IsUnique (insert_by_name (j, u) d)
unfolding insert_by_name lookup
insert_by_name-IsUnique j u [] h w = (refl, tt)
insert_by_name-IsUnique j u ((i, v) ∷ d) h w = elim (Bool-cases (name_leb j i)) [
  | inl before ↦ rw before (h, w)
  | inr after ↦ rw after (
    ground (arith, lookup-insert_by_name i j u d, eq_iff i j, eq_iff j i, h, w.0),
    insert_by_name-IsUnique j u d (ground (arith, eq_iff i j)) w.1,
  )
]

mutual
  unfolding sort_by_name lookup

  lookup-sort :
      (d : Dict ModelUsage) (k : String) → IsUnique d → lookup k (sort_by_name d) ≡ lookup k d
  lookup-sort [] k w = refl
  lookup-sort ((j, u) ∷ d) k w = rw (
    lookup-insert_by_name k j u (sort_by_name d) (lookup-sort d j w.1 ∙ w.0),
    lookup-sort d k w.1,
  )

pub sort-IsUnique : (d : Dict ModelUsage) → IsUnique d → IsUnique (sort_by_name d)
unfolding sort_by_name lookup
sort-IsUnique [] w = tt
sort-IsUnique ((j, u) ∷ d) w =
    insert_by_name-IsUnique j u (sort_by_name d) (lookup-sort d j w.1 ∙ w.0) (sort-IsUnique d w.1)

pub merge_into-IsUnique : (m r : Dict ModelUsage) → IsUnique m → IsUnique (merge_into m r)
unfolding merge_into
merge_into-IsUnique m [] w = w
merge_into-IsUnique m ((j, u) ∷ r) w =
    merge_into-IsUnique (insert j (joined (lookup j m) u) m) r
      (insert-IsUnique j (joined (lookup j m) u) m w)

pub merge_models-IsUnique : (l r : Dict ModelUsage) → IsUnique l → IsUnique (merge_models l r)
unfolding merge_models
merge_models-IsUnique l [] w = w
merge_models-IsUnique l (e ∷ r) w = sort-IsUnique _ (merge_into-IsUnique l (e ∷ r) w)

-- After a merge, each model has the sum of its two entries, the one entry that it has, or none;
-- the entries name no model twice, and together they count every request of both sides once.
pub merge_models_lem :
    (l r : Dict ModelUsage)
    → IsUnique l
    → IsUnique r
    → ((k : String) → lookup k (merge_models l r) ≡ combined (lookup k l) (lookup k r))
      × IsUnique (merge_models l r)
      × (total_requests (merge_models l r) ≡ total_requests l + total_requests r)
unfolding merge_models lookup
merge_models_lem l [] wl wr = (λ k. refl, wl, total_requests-merge l [])
merge_models_lem l (e ∷ r) wl wr = (
  λ k.
      lookup-sort (merge_into l (e ∷ r)) k (merge_into-IsUnique l (e ∷ r) wl)
      ∙ lookup-merge_into k l (e ∷ r) wr,
  merge_models-IsUnique l (e ∷ r) wl,
  total_requests-merge l (e ∷ r),
)
