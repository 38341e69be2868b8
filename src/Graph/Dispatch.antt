-- ===== src/Graph/Dispatch.antt =====
-- qraft/graphs.py: dispatching the frontier and settling on quiescence.
pub mod Sound
pub mod Loop
pub mod Frontier
use django_qraft.Prelude.{
  ℕ, zero, suc, ◌+◌, Bool, true, false, not, ◌&&◌, ◌||◌, Option, none, some, List, [], ◌∷◌,
  get_elem?, set, any, all, is_none, member, if◌then◌else◌,
}
use django_qraft.Hooks.Once.{HookKind, HookKey, dispatch_hook_once, is_configured}
use django_qraft.Graph.Rows.{
  GraphStatus, NodeStatus, Node, Graph, is_pending, is_running, is_failed, is_cancelled, is_waiting,
  is_met, graph_is_running, graph_is_live, ready_nodes, with_nodes,
}

-- The node that `_dispatch_node` writes: bound to its new task.
abbrev pub dispatched : ℕ → ℕ → Node → Node
dispatched now task n = record n {
  task = some task;
  status = NodeStatus.running;
  dispatched_at = some now;
}

-- `_dispatch_node`: the task is created, and the node is updated if it is still pending.
unfoldable pub dispatch_node : ℕ → ℕ → Graph → Graph
dispatch_node now i g = elim (get_elem? g.nodes i) [
  | none ↦ g
  | some n ↦ record g {
    next_task = g.next_task + 1;
    nodes = if is_pending n.status then set g.nodes i (dispatched now g.next_task n) else g.nodes;
  }
]

-- The update that parks a gated node.
unfoldable pub park_node : ℕ → Node → Graph → Graph
park_node i n g =
    if is_pending n.status
    then with_nodes (set g.nodes i (record n { status = NodeStatus.waiting_approval })) g
    else g

-- One round of the loop of `_dispatch_frontier_locked`.
unfoldable pub dispatch_one : ℕ → ℕ → Graph → Graph
unfolding dispatch_node park_node
dispatch_one now i g = elim (get_elem? g.nodes i) [
  | none ↦ g
  | some n ↦ if n.requires_approval then park_node i n g else dispatch_node now i g
]

unfoldable pub dispatch_loop : ℕ → List ℕ → Graph → Graph
dispatch_loop now [] g = g
dispatch_loop now (i ∷ is) g = dispatch_loop now is (dispatch_one now i g)

-- `_dispatch_frontier`: the ready nodes are read once, before the loop.
unfoldable pub dispatch_frontier : ℕ → Graph → Graph
dispatch_frontier now g =
    if graph_is_running g.status then dispatch_loop now (ready_nodes g.nodes) g else g

-- `_record_settlement`
unfoldable pub record_settlement : Graph → Graph
record_settlement g =
    if is_configured g.on_settled && not (member g.generation g.settlements)
    then record g { settlements = g.generation ∷ g.settlements }
    else g

-- `_settle`; the flag tells whether the update matched.
unfoldable pub settle : ℕ → GraphStatus → Graph → Graph × Bool
unfolding record_settlement
settle now status g =
    if is_none g.settled_at && graph_is_live g.status
    then (
      record_settlement (record g {
        status = status;
        settled_at = some now;
        announced = (status, g.generation) ∷ g.announced;
      }),
      true,
    )
    else (g, false)

abbrev pub some_node : (NodeStatus → Bool) → List Node → Bool
some_node p nodes = any (λ n. p n.status) nodes

abbrev pub is_empty : List ℕ → Bool
is_empty [] = true
is_empty (_ ∷ _) = false

-- The first test of `_maybe_settle`: something is running, or can start.
unfoldable pub is_busy : List Node → Bool
is_busy nodes =
    (some_node is_running nodes || some_node is_pending nodes)
    && (some_node is_running nodes || not (is_empty (ready_nodes nodes)))

-- The update that parks a graph whose only open nodes wait at their gates.
abbrev pub parked : Graph → Graph
parked g =
    if graph_is_running g.status then record g { status = GraphStatus.waiting_approval } else g

-- `_maybe_settle`
unfoldable pub maybe_settle : ℕ → Graph → Graph × Bool
unfolding is_busy
maybe_settle now g =
    if is_busy g.nodes
    then (g, false)
    else if some_node is_failed g.nodes
    then settle now GraphStatus.failed g
    else if some_node is_cancelled g.nodes
    then settle now GraphStatus.cancelled g
    else if some_node is_waiting g.nodes
    then (parked g, false)
    else if all (λ n. is_met n.status) g.nodes
    then settle now GraphStatus.succeeded g
    else (g, false)

-- `_dispatch_settled_hook`: after a settlement, the hook of the generation that has a row.
unfoldable pub dispatch_settled_hook : Bool → Graph × Bool → Graph
unfolding dispatch_hook_once
dispatch_settled_hook accepted (g, false) = g
dispatch_settled_hook accepted (g, true) =
    if is_configured g.on_settled && member g.generation g.settlements
    then record g {
      hooks =
          dispatch_hook_once accepted
            (record { kind = HookKind.settled; generation = g.generation }) g.hooks;
    }
    else g
