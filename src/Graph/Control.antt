-- ===== src/Graph/Control.antt =====
-- qraft/graphs.py: what happens to a started graph. Completions of its nodes, and the callers'
-- `skip`, `cancel`, `approve`, `reject` and `resume`.
pub mod History
use django_qraft.Prelude.{
  ℕ, ◌+◌, ◌==◌, String, Bool, true, false, not, ◌&&◌, ◌||◌, Option, none, some, List, [], ◌∷◌, map,
  get_elem?, set, is_none, contains, Result, ok, err, ◌>>=◌, if◌then◌else◌,
}
use django_qraft.Task.{TaskStatus}
use django_qraft.Graph.Rows.{
  GraphStatus, NodeStatus, Node, Graph, GraphError, not_live, already_settled, no_such_node,
  not_pending, not_waiting, still_running, was_cancelled, name_the_nodes, nothing_to_rerun,
  is_pending, is_waiting, graph_is_running, graph_is_waiting, graph_is_live, index_of, with_nodes,
}
use django_qraft.Graph.Dispatch.{
  dispatch_node, dispatch_frontier, record_settlement, settle, maybe_settle, dispatch_settled_hook,
}
use django_qraft.Graph.Closure.{rerun_closure}

-- `_TASK_OUTCOMES`
abbrev pub task_outcome : TaskStatus → Option NodeStatus
task_outcome TaskStatus.succeeded = some NodeStatus.succeeded
task_outcome TaskStatus.failed = some NodeStatus.failed
task_outcome TaskStatus.exhausted = some NodeStatus.failed
task_outcome _ = none

abbrev pub is_bound : ℕ → Node → Bool
is_bound task n = elim (n.task) [ none ↦ false | some t ↦ t == task ]

-- The locked part of `handle_node_completion` up to the recorded outcome; `none` when the
-- completion is of a superseded generation or the node has settled.
unfoldable pub record_outcome : ℕ → ℕ → ℕ → NodeStatus → Graph → Option Graph
record_outcome now i task outcome g = elim (get_elem? g.nodes i) [
  | none ↦ none
  | some n ↦
      if is_bound task n && is_none n.settled_at
      then some
          (with_nodes (set g.nodes i (record n { status = outcome; settled_at = some now })) g)
      else none
]

-- The frontier and the settlement that follow a change of a running graph.
unfoldable pub progress : Bool → ℕ → Graph → Graph
progress accepted now g =
    dispatch_settled_hook accepted (maybe_settle now (dispatch_frontier now g))

-- `handle_node_completion` of the task that was found to run the node at place `i`
unfoldable pub handle_node_completion : Bool → ℕ → ℕ → ℕ → TaskStatus → Graph → Graph
unfolding record_outcome
handle_node_completion accepted now i task status g = elim (task_outcome status) [
  | none ↦ g
  | some outcome ↦ elim (record_outcome now i task outcome g) [
    | none ↦ g
    | some g' ↦ if graph_is_running g'.status then progress accepted now g' else g'
  ]
]

-- `_node`: the node of a key, with its place.
unfoldable pub find_node : String → Graph → Result GraphError (ℕ × Node)
find_node key g = elim (index_of key g.nodes) [
  | none ↦ err (no_such_node key)
  | some i ↦ elim (get_elem? g.nodes i) [ none ↦ err (no_such_node key) | some n ↦ ok (i, n) ]
]

abbrev pub check : Bool → GraphError → Result GraphError (Unit {0})
check true e = ok tt
check false e = err e

-- `skip`
unfoldable pub skip : Bool → ℕ → String → Option String → Graph → Result GraphError Graph
skip accepted now key reason g = do
  _ ← check (graph_is_running g.status) (not_live g.status)
  (i, n) ← find_node key g
  _ ← check (is_pending n.status) (not_pending n.status)
  ok (
      progress accepted now (
        with_nodes
          (set g.nodes i
            (record n { status = NodeStatus.skipped; skip_reason = reason; settled_at = some now }))
          g))

-- `cancel`
unfoldable pub cancel : Bool → ℕ → Graph → Result GraphError Graph
cancel accepted now g =
    let settled = settle now GraphStatus.cancelled g in
    if settled.1
    then ok (dispatch_settled_hook accepted settled)
    else err (already_settled g.status)

abbrev pub unparked : Graph → Graph
unparked g = if graph_is_waiting g.status then record g { status = GraphStatus.running } else g

-- `approve`: the node is pending again and dispatched at once.
unfoldable pub approve : ℕ → String → Graph → Result GraphError Graph
approve now key g = do
  _ ← check (graph_is_live g.status) (not_live g.status)
  (i, n) ← find_node key g
  _ ← check (is_waiting n.status) (not_waiting n.status)
  ok (
      unparked (
        dispatch_node now i
          (with_nodes (set g.nodes i (record n { status = NodeStatus.pending })) g)))

-- `reject`
unfoldable pub reject : Bool → ℕ → String → Option String → Graph → Result GraphError Graph
reject accepted now key reason g = do
  _ ← check (graph_is_live g.status) (not_live g.status)
  (i, n) ← find_node key g
  _ ← check (is_waiting n.status) (not_waiting n.status)
  ok (
      dispatch_settled_hook accepted (
        maybe_settle now (
          unparked (
            with_nodes
              (set g.nodes i (record n {
                status = NodeStatus.cancelled;
                settled_at = some now;
                skip_reason = reason;
              }))
              g))))

-- The update of a node that is run again.
abbrev pub reset : Node → Node
reset n = record n {
  status = NodeStatus.pending;
  task = none;
  settled_at = none;
  dispatched_at = none;
  skip_reason = none;
  receipt = none;
  generation = n.generation + 1;
}

abbrev pub reset_if : List String → Node → Node
reset_if keys n = if contains n.key keys then reset n else n

abbrev pub no_nodes_named : Option (List String) → Bool
no_nodes_named none = true
no_nodes_named (some []) = true
no_nodes_named (some (_ ∷ _)) = false

abbrev pub has_keys : List String → Bool
has_keys [] = false
has_keys (_ ∷ _) = true

abbrev pub is_cancelled_graph : GraphStatus → Bool
is_cancelled_graph GraphStatus.cancelled = true
is_cancelled_graph _ = false

abbrev pub is_succeeded_graph : GraphStatus → Bool
is_succeeded_graph GraphStatus.succeeded = true
is_succeeded_graph _ = false

-- The updates of `resume`: the settlement is recorded, and nodes and graph enter a new generation.
unfoldable pub reopen : ℕ → List String → Graph → Graph
reopen now rerun g =
    let g' = record_settlement g in
    record g' {
      nodes = map (reset_if rerun) g'.nodes;
      status = GraphStatus.running;
      settled_at = none;
      resumed_at = some now;
      generation = g'.generation + 1;
    }

-- `resume`; a settlement that follows at once is recorded, and its hook is left to the replay.
unfoldable pub resume : ℕ → Option (List String) → Graph → Result GraphError Graph
resume now named g = do
  _ ← check (not (graph_is_live g.status)) still_running
  _ ← check (not (is_cancelled_graph g.status)) was_cancelled
  _ ← check (not (is_succeeded_graph g.status && no_nodes_named named)) name_the_nodes
  rerun ← rerun_closure g.nodes named
  _ ← check (has_keys rerun) nothing_to_rerun
  ok (maybe_settle now (dispatch_frontier now (reopen now rerun g))).0
