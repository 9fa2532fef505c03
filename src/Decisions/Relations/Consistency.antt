-- ===== src/Decisions/Relations/Consistency.antt =====
-- `validate_request_relations` of decisions/contracts.py against the meaning of relations.
use foliqant.Prelude.{
  Member, any-false, In-Member, ◌≡◌, ◌≢◌, inl, inr, refl, ap, arith, String, Bool, true, false, not,
  ◌&&◌, List, [], ◌∷◌, map, any, eq_refl, text_lt, text_lt-total,
}
use foliqant.Decisions.Graph.{stuck, has_directed_cycle}
use foliqant.Decisions.Graph.Paths.{In, Way, has_path_iff}
use foliqant.Decisions.Graph.Cycles.{has_directed_cycle_iff}
use foliqant.Decisions.Contracts.{RequestRelation, mutually_exclusive}
use foliqant.Decisions.Problems.{no_problem, split_nil}
use foliqant.Decisions.Relations.{
  relation_key, same_texts, mem_key, distinct_keys, Scan, no_scan, scan_relations,
  exclusive_dependency, validate_request_relations,
}
use foliqant.Decisions.Relations.Meaning.{requirements_of, AllApart, IsConsistent}
use foliqant.Decisions.Relations.Loop.{
  group-Member, scan-directed, scan-requirements, scan-groups, scan-keys, scan_relations-Refers,
}
use foliqant.Decisions.Relations.Conditions.{both_wanted, wants-scanned}

same_texts_refl : (xs : List String) → same_texts xs xs ≡ true
same_texts_refl [] = refl
same_texts_refl (x ∷ xs) = rw (eq_refl x) (same_texts_refl xs)

mem_key-false :
    (r other : RequestRelation) (rs : List RequestRelation)
    → mem_key (relation_key r) (map relation_key rs) ≡ false
    → Member other rs
    → relation_key other ≢ relation_key r
mem_key-false r other [] h m e = absurd m
mem_key-false r other (x ∷ rs) h (inl same) e =
    let key_x : relation_key x ≡ relation_key r = cc (ap relation_key same, e) in
    cc (rw (key_x, same_texts_refl (relation_key r)) at h)
mem_key-false r other (x ∷ rs) h (inr m) e = mem_key-false r other rs (ground arith) m e

distinct_keys-AllApart :
    (rs : List RequestRelation) → distinct_keys (map relation_key rs) ≡ true → AllApart rs
unfolding distinct_keys
distinct_keys-AllApart [] h = tt
distinct_keys-AllApart (r ∷ rs) h =
    (λ other m. mem_key-false r other rs (ground arith) m, distinct_keys-AllApart rs (ground arith))

is_true : (b : Bool) → not b ≡ false → b ≡ true
is_true b h = ground arith

module _ (prefix : String) (units predicates : List String) (relations : List RequestRelation) where
  abbrev s : Scan
  s = scan_relations prefix units predicates relations no_scan

  -- the tests after the loop, where none of them finds a problem
  record Passed : Type 0 where
    problems : s.problems ≡ []
    keys : distinct_keys s.keys ≡ true
    cycle : has_directed_cycle s.directed ≡ false
    conditions : any (λ e. e.wants_true && e.wants_false) s.conditions ≡ false
    groups : any (exclusive_dependency s.requirements) s.groups ≡ false

  passed : validate_request_relations prefix units predicates relations ≡ [] → Passed
  unfolding validate_request_relations
  passed h =
      let (problems, h1) = split_nil _ _ h in
      let (keys, h2) = split_nil _ _ h1 in
      let (cycle, h3) = split_nil _ _ h2 in
      let (conditions, groups) = split_nil _ _ h3 in
      record {
        problems = problems;
        keys = is_true _ (no_problem _ _ keys);
        cycle = no_problem _ _ cycle;
        conditions = no_problem _ _ conditions;
        groups = no_problem _ _ groups;
      }

  independent_lem :
      Passed
      → (ids : List String) (a b : String) → Member (mutually_exclusive ids) relations
      → In a ids
      → In b ids
      → text_lt a b ≡ true
      → (Way (requirements_of relations) a b → ⊥) × (Way (requirements_of relations) b a → ⊥)
  unfolding exclusive_dependency
  independent_lem h ids a b m ia ib lt =
      let all_groups = rw (scan-groups prefix units predicates relations no_scan) at h.groups in
      let group =
        any-false (exclusive_dependency s.requirements) _ ids all_groups
          (group-Member ids relations m) in
      let first = any-false _ ids a group (In-Member a ids ia) in
      let both = any-false _ ids b first (In-Member b ids ib) in
      let same = scan-requirements prefix units predicates relations no_scan in
      (
        λ p. cc ((has_path_iff s.requirements a b).1 (rw same p), lt, both),
        λ p. ground (arith, (has_path_iff s.requirements b a).1 (rw same p)),
      )

  Passed-IsConsistent : Passed → IsConsistent units predicates relations
  Passed-IsConsistent h = record {
    known = (scan_relations-Refers prefix units predicates relations no_scan h.problems).1;
    apart =
        distinct_keys-AllApart relations
          (rw (scan-keys prefix units predicates relations no_scan) at h.keys);
    acyclic = λ u w. cc (
      (has_directed_cycle_iff s.directed stuck).0.1
          (u, rw (scan-directed prefix units predicates relations no_scan) w),
      h.cycle,
    );
    compatible = λ r p yes_asked no_asked. cc (
      h.conditions,
      both_wanted r p s.conditions
          (wants-scanned prefix units predicates r p true relations no_scan yes_asked)
          (wants-scanned prefix units predicates r p false relations no_scan no_asked),
    );
    independent = λ ids a b m ia ib apart p. elim (text_lt-total a b apart) [
      | inl lt ↦ (independent_lem h ids a b m ia ib lt).0 p
      | inr gt ↦ (independent_lem h ids b a m ib ia gt).1 p
    ];
  }

-- Relations in which `validate_request_relations` finds no problem name only known requests and
-- predicates, say nothing twice, order the requests without a cycle, ask no predicate to be both
-- true and false for a request, and let no request require, directly or not, one that excludes it.
pub validate_request_relations-IsConsistent :
    (prefix : String) (units predicates : List String) (relations : List RequestRelation)
    → validate_request_relations prefix units predicates relations ≡ []
    → IsConsistent units predicates relations
validate_request_relations-IsConsistent prefix units predicates relations h =
    Passed-IsConsistent prefix units predicates relations
      (passed prefix units predicates relations h)
