-- ===== src/Decisions/Graph.antt =====
-- The graphs of decisions/contracts.py: edges between request ids, `_has_directed_cycle` and
-- `_has_path`.
pub mod Paths
pub mod Walks
pub mod Cycles
use foliqant.Prelude.{
  ℕ, zero, suc, ◌+◌, String, Bool, true, false, ◌&&◌, List, [], ◌∷◌, ◌++◌, length, mem_str, str_eq,
  if◌then◌else◌,
}

abbrev pub Edges : Type 0
Edges = List (String × String)

-- `graph[node]`: the ends of the edges that start at `node`, in their order
unfoldable pub targets : String → Edges → List String
targets node [] = []
targets node ((start, end) ∷ edges) =
    let rest = targets node edges in if str_eq start node then end ∷ rest else rest

-- the keys of `graph`: the starts of edges, each once
unfoldable pub sources : List String → Edges → List String
sources seen [] = []
sources seen ((start, end) ∷ edges) =
    let others = sources seen edges in
    let later = sources (start ∷ seen) edges in if mem_str start seen then others else start ∷ later

-- `pending.extend(nodes)`, with the end of the list, where `pop` takes, first
unfoldable pub extend : List String → List String → List String
extend [] pending = pending
extend (node ∷ nodes) pending = extend nodes (node ∷ pending)

-- the loop of `_has_path`, with the rounds that are left
unfoldable pub search_path : ℕ → Edges → String → List String → List String → Bool
unfolding targets extend
search_path zero edges end pending visited = false
search_path (suc rounds) edges end [] visited = false
search_path (suc rounds) edges end (node ∷ pending) visited =
    let skip = search_path rounds edges end pending visited in
    let expand =
      search_path rounds edges end (extend (targets node edges) pending) (node ∷ visited) in
    if str_eq node end then true else if mem_str node visited then skip else expand

-- `_has_path`
unfoldable pub has_path : Edges → String → String → Bool
unfolding search_path
has_path edges start end = search_path (length edges + 2) edges end (start ∷ []) []

-- the two sets of `_has_directed_cycle`
pub record Marks : Type 0 where
  pub visiting : List String
  pub visited : List String

-- `visiting.remove(node)`
unfoldable pub remove : String → List String → List String
remove node [] = []
remove node (other ∷ nodes) =
    let rest = remove node nodes in if str_eq other node then rest else other ∷ rest

-- `any(visit(node) for node in nodes)`, which stops at the first that is true
unfoldable pub any_visit : (String → Marks → Bool × Marks) → List String → Marks → Bool × Marks
any_visit visit [] marks = (false, marks)
any_visit visit (node ∷ nodes) marks =
    let (found, marks') = visit node marks in
    let rest = any_visit visit nodes marks' in if found then (true, marks') else rest

-- the end of `visit` after its children
unfoldable pub leave : String → Bool × Marks → Bool × Marks
unfolding remove
leave node (true, marks) = (true, marks)
leave node (false, marks) =
    (false, record { visiting = remove node marks.visiting; visited = node ∷ marks.visited })

-- What a call of `visit` answers: whether it found a cycle, with the sets that it leaves.
abbrev pub Visit : Type 0
Visit = String → Marks → Bool × Marks

-- `visit`, with the depth that is left; `beyond` stands for the calls below that depth
unfoldable pub visit : Visit → ℕ → Edges → Visit
unfolding targets any_visit leave
visit beyond zero edges node marks = beyond node marks
visit beyond (suc depth) edges node marks =
    let enter = leave node (
      any_visit (visit beyond depth edges) (targets node edges)
        (record marks { visiting = node ∷ marks.visiting })) in
    if mem_str node marks.visiting
    then (true, marks)
    else if mem_str node marks.visited
    then (false, marks)
    else enter

-- `_has_directed_cycle`, where `visit` is modelled to a depth of one more than the edges
unfoldable pub has_cycle_above : Visit → Edges → Bool
unfolding visit any_visit sources
has_cycle_above beyond edges =
    (any_visit (visit beyond (length edges + 1) edges) (sources [] edges)
      (record { visiting = []; visited = [] })).0

-- a call that would go deeper
abbrev pub stuck : Visit
stuck node marks = (false, marks)

-- `_has_directed_cycle`
unfoldable pub has_directed_cycle : Edges → Bool
unfolding has_cycle_above
has_directed_cycle edges = has_cycle_above stuck edges
