-- ===== src/Decisions/Relations/Loop.antt =====
-- What the loop of `validate_request_relations` collects.
use foliqant.Prelude.{Member, ◌≡◌, inl, inr, sym, ap, arith, String, List, [], ◌∷◌, ◌++◌, map}
use mathlib.Core.List.{append-nil, append_assoc}
use foliqant.Decisions.Contracts.{
  RequestRelation, conditional_on, requires, precedes, mutually_exclusive,
}
use foliqant.Decisions.Problems.{split_nil}
use foliqant.Decisions.Relations.{relation_key, Scan, scan_relation, scan_relations}
use foliqant.Decisions.Relations.Meaning.{Refers, order_of, requirements_of}

abbrev pub groups_of : List RequestRelation → List (List String)
groups_of [] = []
groups_of (mutually_exclusive ids ∷ rs) = ids ∷ groups_of rs
groups_of (requires _ _ ∷ rs) = groups_of rs
groups_of (precedes _ _ ∷ rs) = groups_of rs
groups_of (conditional_on _ _ _ ∷ rs) = groups_of rs

ids_of : RequestRelation → List String
ids_of (mutually_exclusive ids) = ids
ids_of _ = []

pub group-Member :
    (ids : List String) (rs : List RequestRelation)
    → Member (mutually_exclusive ids) rs
    → Member ids (groups_of rs)
unfolding ids_of
group-Member ids [] m = absurd m
group-Member ids (mutually_exclusive other ∷ rs) (inl e) = inl (ap ids_of e)
group-Member ids (mutually_exclusive other ∷ rs) (inr m) = inr (group-Member ids rs m)
group-Member ids (conditional_on a b v ∷ rs) (inr m) = group-Member ids rs m
group-Member ids (requires a b ∷ rs) (inr m) = group-Member ids rs m
group-Member ids (precedes a b ∷ rs) (inr m) = group-Member ids rs m
group-Member ids (conditional_on a b v ∷ rs) (inl e) = absurd (cc e)
group-Member ids (requires a b ∷ rs) (inl e) = absurd (cc e)
group-Member ids (precedes a b ∷ rs) (inl e) = absurd (cc e)

module _ (prefix : String) (units predicates : List String) where
  abbrev pub scanned : List RequestRelation → Scan → Scan
  scanned = scan_relations prefix units predicates

  pub scan-directed :
      (rs : List RequestRelation) (s : Scan) → (scanned rs s).directed ≡ s.directed ++ order_of rs
  unfolding scan_relations
  scan-directed [] s = sym (append-nil s.directed)
  scan-directed (mutually_exclusive ids ∷ rs) s = simp (scan-directed rs)
  scan-directed (conditional_on a b v ∷ rs) s = simp (scan-directed rs)
  scan-directed (requires a b ∷ rs) s = simp (scan-directed rs, append_assoc)
  scan-directed (precedes a b ∷ rs) s = simp (scan-directed rs, append_assoc)

  pub scan-requirements :
      (rs : List RequestRelation) (s : Scan)
      → (scanned rs s).requirements ≡ s.requirements ++ requirements_of rs
  unfolding scan_relations
  scan-requirements [] s = sym (append-nil s.requirements)
  scan-requirements (mutually_exclusive ids ∷ rs) s = simp (scan-requirements rs)
  scan-requirements (conditional_on a b v ∷ rs) s = simp (scan-requirements rs)
  scan-requirements (requires a b ∷ rs) s = simp (scan-requirements rs, append_assoc)
  scan-requirements (precedes a b ∷ rs) s = simp (scan-requirements rs)

  pub scan-groups :
      (rs : List RequestRelation) (s : Scan) → (scanned rs s).groups ≡ s.groups ++ groups_of rs
  unfolding scan_relations
  scan-groups [] s = sym (append-nil s.groups)
  scan-groups (mutually_exclusive ids ∷ rs) s = simp (scan-groups rs, append_assoc)
  scan-groups (conditional_on a b v ∷ rs) s = simp (scan-groups rs)
  scan-groups (requires a b ∷ rs) s = simp (scan-groups rs)
  scan-groups (precedes a b ∷ rs) s = simp (scan-groups rs)

  pub scan-keys :
      (rs : List RequestRelation) (s : Scan) → (scanned rs s).keys ≡ s.keys ++ map relation_key rs
  unfolding scan_relations
  scan-keys [] s = sym (append-nil s.keys)
  scan-keys (mutually_exclusive ids ∷ rs) s = simp (scan-keys rs, append_assoc)
  scan-keys (conditional_on a b v ∷ rs) s = simp (scan-keys rs, append_assoc)
  scan-keys (requires a b ∷ rs) s = simp (scan-keys rs, append_assoc)
  scan-keys (precedes a b ∷ rs) s = simp (scan-keys rs, append_assoc)

  scan_relation-Refers :
      (r : RequestRelation) (s : Scan)
      → (scan_relation prefix units predicates r s).problems ≡ []
      → (s.problems ≡ []) × Refers units predicates r
  unfolding scan_relation
  scan_relation-Refers (mutually_exclusive ids) s h =
      let (old, new) = split_nil s.problems _ h in (old, ground arith)
  scan_relation-Refers (conditional_on a b v) s h =
      let (old, new) = split_nil s.problems _ h in (old, ground arith)
  scan_relation-Refers (requires a b) s h =
      let (old, new) = split_nil s.problems _ h in (old, ground arith)
  scan_relation-Refers (precedes a b) s h =
      let (old, new) = split_nil s.problems _ h in (old, ground arith)

  pub scan_relations-Refers :
      (rs : List RequestRelation) (s : Scan)
      → (scanned rs s).problems ≡ []
      → (s.problems ≡ []) × ((r : RequestRelation) → Member r rs → Refers units predicates r)
  unfolding scan_relations
  scan_relations-Refers [] s h = (h, λ r m. absurd m)
  scan_relations-Refers (r ∷ rs) s h =
      let s' = record s { keys = s.keys ++ relation_key r ∷ [] } in
      let (before, later) =
        scan_relations-Refers rs (scan_relation prefix units predicates r s') h in
      let (old, first) = scan_relation-Refers r s' before in
      (old, λ r' m. elim m [ inl e ↦ rw (sym e) first | inr m' ↦ later r' m' ])
