-- ===== src/Decisions/Graph/Paths.antt =====
-- `_has_path` of decisions/contracts.py against the walks along edges.
use foliqant.Prelude.{
  ℕ, zero, suc, ◌+◌, ◌<◌, ◌≡◌, refl, ◌↔◌, ◌⊎◌, inl, inr, arith, String, true, false, List, [], ◌∷◌,
  length, mem_str, str_eq, if◌then◌else◌, Bool-cases, eq_iff, eq_refl,
}
use foliqant.Decisions.Graph.{Edges, targets, extend, search_path, has_path}

abbrev pub In : String → List String → Type 0
In k xs = mem_str k xs ≡ true

-- A walk along edges, empty or not.
pub data Way (edges : Edges) : String → String → Type 0 where
  here : {u : String} → Way edges u u
  step : {u v w : String} → In v (targets u edges) → Way edges v w → Way edges u w

pub In-cons : (k j : String) (xs : List String) → In k (j ∷ xs) → (j ≡ k) ⊎ In k xs
In-cons k j xs h = ground (arith, eq_iff j k)

pub In-here : (k : String) (xs : List String) → In k (k ∷ xs)
In-here k xs = rw (eq_refl k) refl

pub In-there : (k j : String) (xs : List String) → In k xs → In k (j ∷ xs)
In-there k j xs h = ground arith

In-extend :
    (k : String) (nodes pending : List String)
    → In k (extend nodes pending)
    → In k nodes ⊎ In k pending
unfolding extend
In-extend k [] pending h = inr h
In-extend k (n ∷ nodes) pending h = ground (arith, In-extend k nodes (n ∷ pending), eq_iff n k)

extend-In :
    (k : String) (nodes pending : List String)
    → In k nodes ⊎ In k pending
    → In k (extend nodes pending)
unfolding extend
extend-In k [] pending (inr h) = h
extend-In k [] pending (inl h) = absurd (cc)
extend-In k (n ∷ nodes) pending h = ground (arith, extend-In k nodes (n ∷ pending), eq_iff n k)

-- the edges whose start is not among the nodes
abbrev pub unvisited : Edges → List String → ℕ
unvisited [] visited = 0
unvisited ((start, end) ∷ es) visited =
    (if mem_str start visited then 0 else 1) + unvisited es visited

pub unvisited-cons :
    (node : String) (visited : List String) (es : Edges)
    → mem_str node visited ≡ false
    → unvisited es (node ∷ visited) + length (targets node es) ≡ unvisited es visited
unfolding targets
unvisited-cons node visited [] h = omega arith
unvisited-cons node visited ((start, end) ∷ es) h =
    ground (arith, unvisited-cons node visited es h, eq_iff start node, eq_iff node start)

length-extend :
    (nodes pending : List String) → length (extend nodes pending) ≡ length nodes + length pending
unfolding extend
length-extend [] pending = omega arith
length-extend (n ∷ nodes) pending = omega (arith, length-extend nodes (n ∷ pending))

pub unvisited-nil : (es : Edges) → unvisited es [] ≡ length es
unvisited-nil [] = refl
unvisited-nil (e ∷ es) = omega (arith, unvisited-nil es)

module _ (edges : Edges) where
  pub snoc : {u v w : String} → Way edges u v → In w (targets v edges) → Way edges u w
  snoc here e = step e here
  snoc (step e p) f = step e (snoc p f)

  -- what is found is reached
  found :
      (start end : String) (rounds : ℕ) (pending visited : List String)
      → ((p : String) → In p pending → Way edges start p)
      → search_path rounds edges end pending visited ≡ true
      → Way edges start end
  unfolding search_path
  found start end zero pending visited reach h = absurd (cc)
  found start end (suc rounds) [] visited reach h = absurd (cc)
  found start end (suc rounds) (node ∷ pending) visited reach h =
      elim (Bool-cases (str_eq node end)) [
        | inl same ↦ rw ((eq_iff node end).0 same) at (reach node (In-here node pending))
        | inr apart ↦ elim (Bool-cases (mem_str node visited)) [
          | inl seen ↦
              found start end rounds pending visited (λ p m. reach p (In-there p node pending m))
                (rw (apart, seen, search_path) at h)
          | inr new ↦
              found start end rounds (extend (targets node edges) pending) (node ∷ visited)
                (λ p m. elim (In-extend p (targets node edges) pending m) [
                  | inl t ↦ snoc (reach node (In-here node pending)) t
                  | inr old ↦ reach p (In-there p node pending old)
                ])
                (rw (apart, new, search_path) at h)
        ]
      ]

  -- what is seen leads only to what is seen or waits, and is not the end
  record IsClosed (end : String) (pending visited : List String) : Type 0 where
    apart : (u : String) → In u visited → str_eq u end ≡ false
    onward : (u w : String) → In u visited → In w (targets u edges) → In w pending ⊎ In w visited

  closed_misses :
      (end : String) (visited : List String)
      → IsClosed end [] visited
      → {u : String} → In u visited
      → Way edges u end
      → ⊥
  closed_misses end visited c {u} m here = cc (c.apart u m, eq_refl u)
  closed_misses end visited c m (step {u} {v} e p) = elim (c.onward u v m e) [
    | inl none ↦ absurd (cc none)
    | inr seen ↦ closed_misses end visited c seen p
  ]

  skip-IsClosed :
      (end node : String) (pending visited : List String)
      → mem_str node visited ≡ true
      → IsClosed end (node ∷ pending) visited
      → IsClosed end pending visited
  skip-IsClosed end node pending visited seen c = record {
    apart = c.apart;
    onward = λ u w m e. ground (arith, c.onward u w m e, eq_iff node w);
  }

  expand-IsClosed :
      (end node : String) (pending visited : List String)
      → str_eq node end ≡ false
      → IsClosed end (node ∷ pending) visited
      → IsClosed end (extend (targets node edges) pending) (node ∷ visited)
  expand-IsClosed end node pending visited apart c = record {
    apart = λ u m. ground (arith, c.apart u, eq_iff node u);
    onward = λ u w m e. ground (
      arith,
      c.onward u w,
      extend-In w (targets node edges) pending,
      eq_iff node w,
      eq_iff node u,
    );
  }

  -- what is not found is not reached, if there are rounds for all that waits or is not seen yet
  missed :
      (end : String) (rounds : ℕ) (pending visited : List String)
      → length pending + unvisited edges visited < rounds
      → IsClosed end pending visited
      → search_path rounds edges end pending visited ≡ false
      → (u : String) → In u pending ⊎ In u visited
      → Way edges u end
      → ⊥
  unfolding search_path
  missed end zero pending visited enough c h u m p = absurd (omega arith)
  missed end (suc rounds) [] visited enough c h u m p = elim m [
    | inl none ↦ absurd (cc none)
    | inr seen ↦ closed_misses end visited c seen p
  ]
  missed end (suc rounds) (node ∷ pending) visited enough c h u m p =
      elim (Bool-cases (str_eq node end)) [
        | inl same ↦ absurd (cc (rw (same, search_path) at h))
        | inr apart ↦ elim (Bool-cases (mem_str node visited)) [
          | inl seen ↦
              missed end rounds pending visited (omega arith)
                (skip-IsClosed end node pending visited seen c) (rw (apart, seen, search_path) at h)
                u (ground (arith, eq_iff node u)) p
          | inr new ↦
              missed end rounds (extend (targets node edges) pending) (node ∷ visited)
                (omega (
                  arith,
                  length-extend (targets node edges) pending,
                  unvisited-cons node visited edges new,
                ))
                (expand-IsClosed end node pending visited apart c)
                (rw (apart, new, search_path) at h) u
                (ground (arith, eq_iff node u, extend-In u (targets node edges) pending)) p
        ]
      ]

-- `_has_path` returns true exactly when a walk along the edges, which may be empty, leads from the
-- start to the end.
pub has_path_iff :
    (edges : Edges) (start end : String) → (has_path edges start end ≡ true) ↔ Way edges start end
unfolding has_path
has_path_iff edges start end = (
  found edges start end (length edges + 2) (start ∷ []) []
      (λ p m. elim (In-cons p start [] m) [ inl e ↦ rw e here | inr none ↦ absurd (cc none) ]),
  λ p. elim (Bool-cases (has_path edges start end)) [
    | inl reached ↦ reached
    | inr no_path ↦ absurd (
        missed edges end (length edges + 2) (start ∷ []) [] (omega (arith, unvisited-nil edges))
          (record { apart = λ u m. cc m; onward = λ u w m e. absurd (cc m) }) no_path start
          (inl (In-here start [])) p)
  ],
)
