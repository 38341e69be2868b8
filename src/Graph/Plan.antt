-- ===== src/Graph/Plan.antt =====
-- qraft/graphs.py: the validation of a plan, and `start` behind it.
pub mod Order
pub mod Fuel
pub mod Checked
pub mod Decides
pub mod Progress
pub mod Live
pub mod Calls
pub mod Gates
pub mod Wedge
use django_qraft.Prelude.{
  ℕ, zero, suc, ◌+◌, String, Bool, true, false, not, ◌&&◌, ◌||◌, Option, none, some, List, [], ◌∷◌,
  map, length, all, contains, str_eq, Result, ok, err, ◌>>=◌, if◌then◌else◌,
}
use django_qraft.Graph.Rows.{Graph}
use django_qraft.Graph.Start.{NodeSpec, spec_keys, distinct_keys, start}

-- `GraphError` of a plan, by its causes.
pub data PlanError : Type 0 where
  no_nodes : PlanError
  keys_not_unique : PlanError
  on_itself : String → PlanError
  unknown_keys : String → PlanError
  has_a_cycle : PlanError
  no_fuel : PlanError

-- `edges.get(key, [])`
abbrev pub after_of : List NodeSpec → String → List String
after_of [] key = []
after_of (s ∷ specs) key = if str_eq s.key key then s.after else after_of specs key

-- The sets of the depth-first search.
pub record Marks : Type 0 where
  pub visiting : List String
  pub visited : List String

-- How a search ends: it met a cycle, or the marks after it.
pub data Search : Type 0 where
  cyclic : Search
  clear : Marks → Search
  out_of_fuel : Search

-- `visiting.remove(key)`
abbrev pub discard : String → List String → List String
discard key [] = []
discard key (k ∷ ks) = if str_eq key k then ks else k ∷ discard key ks

-- A search that goes on where nothing was found.
abbrev pub and_then : Search → (Marks → Search) → Search
and_then cyclic f = cyclic
and_then (clear m) f = f m
and_then out_of_fuel f = out_of_fuel

-- The loop over the keys with one `visit`.
abbrev pub visit_each : (String → Marks → Search) → List String → Marks → Search
visit_each visit [] m = clear m
visit_each visit (k ∷ ks) m = and_then (visit k m) (visit_each visit ks)

abbrev pub leave : String → Marks → Search
leave key m = clear (record { visiting = discard key m.visiting; visited = key ∷ m.visited })

-- `visit`
unfoldable pub visit : List NodeSpec → ℕ → String → Marks → Search
visit specs zero key m = out_of_fuel
visit specs (suc fuel) key m = elim (contains key m.visiting) [
  | true ↦ cyclic
  | false ↦ elim (contains key m.visited) [
    | true ↦ clear m
    | false ↦
        and_then
          (visit_each (visit specs fuel) (after_of specs key)
            (record { visiting = key ∷ m.visiting; visited = m.visited }))
          (leave key)
  ]
]

-- `_has_cycle`, on fuel for the depth of the recursion
unfoldable pub search : List NodeSpec → Search
unfolding visit
search specs =
    visit_each (visit specs (length specs + 1)) (spec_keys specs)
      (record { visiting = []; visited = [] })

-- The loop of `_validate_topology` over the declared nodes.
unfoldable pub check_nodes : List String → List NodeSpec → Result PlanError (Unit {0})
check_nodes keys [] = ok tt
check_nodes keys (s ∷ specs) =
    if contains s.key s.after
    then err (on_itself s.key)
    else if not (all (λ k. contains k keys) s.after)
    then err (unknown_keys s.key)
    else check_nodes keys specs

-- `_validate_topology`
unfoldable pub validate_topology : List NodeSpec → Result PlanError (Unit {0})
unfolding check_nodes search
validate_topology specs = do
  _ ← check_nodes (spec_keys specs) specs
  elim (search specs) [ cyclic ↦ err has_a_cycle | clear m ↦ ok tt | out_of_fuel ↦ err no_fuel ]

abbrev pub is_nonempty : List NodeSpec → Bool
is_nonempty [] = false
is_nonempty (_ ∷ _) = true

abbrev pub require : Bool → PlanError → Result PlanError (Unit {0})
require true e = ok tt
require false e = err e

-- `start` with its validation
unfoldable pub start_plan : ℕ → Option String → ℕ → List NodeSpec → Result PlanError Graph
unfolding validate_topology
start_plan now on_settled next_task specs = do
  _ ← require (is_nonempty specs) no_nodes
  _ ← require (distinct_keys (spec_keys specs)) keys_not_unique
  _ ← validate_topology specs
  ok (start now on_settled next_task specs)
