-- ===== src/Graph/Closure.antt =====
-- qraft/graphs.py: `_rerun_closure`, the nodes that a resume runs again.
pub mod Terminates
pub mod Reach
use django_qraft.Prelude.{
  ℕ, zero, suc, ◌+◌, String, Bool, true, false, not, ◌&&◌, Option, none, some, List, [], ◌∷◌, ◌++◌,
  get_elem?, length, count_if, all, any, contains, str_eq, Result, ok, err, if◌then◌else◌,
}
use django_qraft.Graph.Rows.{
  NodeStatus, Node, Graph, GraphError, no_such_node, out_of_fuel, is_pending, is_failed, index_of,
}

-- The entries that one node adds to `dependents[dep]`: its key, for each time it names `dep`.
abbrev pub dependents_in : String → String → List String → List String
dependents_in dep key [] = []
dependents_in dep key (d ∷ after) =
    let rest = dependents_in dep key after in if str_eq d dep then key ∷ rest else rest

-- `dependents.get(dep, ())`
abbrev pub dependents : List Node → String → List String
dependents [] dep = []
dependents (n ∷ ns) dep = dependents_in dep n.key n.after ++ dependents ns dep

-- `stack.extend`, on a stack that is written from its top.
abbrev pub extend : List String → List String → List String
extend stack [] = stack
extend stack (d ∷ ds) = extend (d ∷ stack) ds

-- The loop `while stack`, with fuel for its rounds.
unfoldable pub close : List Node → ℕ → List String → List String → Option (List String)
close nodes fuel [] closure = some closure
close nodes zero (key ∷ stack) closure = none
close nodes (suc fuel) (key ∷ stack) closure =
    let skip = close nodes fuel stack closure in
    let grow = close nodes fuel (extend stack (dependents nodes key)) (key ∷ closure) in
    if contains key closure then skip else grow

-- The dependency entries of the plan, and the rounds that suffice.
abbrev pub edge_count : List Node → ℕ
edge_count [] = 0
edge_count (n ∷ ns) = length n.after + edge_count ns

abbrev pub rounds : List Node → List String → ℕ
rounds nodes named = length named + edge_count nodes

abbrev pub all_keys : List Node → List String
all_keys [] = []
all_keys (n ∷ ns) = n.key ∷ all_keys ns

abbrev pub failed_keys : List Node → List String
failed_keys [] = []
failed_keys (n ∷ ns) =
    let rest = failed_keys ns in if is_failed n.status then n.key ∷ rest else rest

abbrev pub status_is_pending : Option Node → Bool
status_is_pending none = true
status_is_pending (some n) = is_pending n.status

abbrev row : List Node → Option ℕ → Option Node
row nodes none = none
row nodes (some i) = get_elem? nodes i

-- `all_nodes[key].status != PENDING`
unfoldable pub ever_ran : List Node → String → Bool
ever_ran nodes key = not (status_is_pending (row nodes (index_of key nodes)))

abbrev pub select : (String → Bool) → List String → List String
select p [] = []
select p (k ∷ ks) = let rest = select p ks in if p k then k ∷ rest else rest

-- The first named key that the graph does not have.
abbrev pub unknown_key : List String → List String → Option String
unknown_key keys [] = none
unknown_key keys (k ∷ ks) =
    let rest = unknown_key keys ks in if contains k keys then rest else some k

abbrev pub start_keys : List Node → Option (List String) → List String
start_keys nodes none = failed_keys nodes
start_keys nodes (some named) = named

-- `_rerun_closure`. `none` for the argument means the failed nodes.
unfoldable pub rerun_closure : List Node → Option (List String) → Result GraphError (List String)
unfolding close ever_ran
rerun_closure nodes named = elim (unknown_key (all_keys nodes) (start_keys nodes named)) [
  | some key ↦ err (no_such_node key)
  | none ↦ elim (close nodes (rounds nodes (start_keys nodes named)) (start_keys nodes named) []) [
    | none ↦ err out_of_fuel
    | some closure ↦ ok (select (ever_ran nodes) closure)
  ]
]
