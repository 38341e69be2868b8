-- ===== src/Graph/Rows.antt =====
-- The rows of a graph, and the queries that its operations make of them.
use django_qraft.Prelude.{
  ℕ, zero, suc, String, Bool, true, false, ◌&&◌, ◌||◌, Option, none, some, List, [], ◌∷◌, all,
  str_eq, if◌then◌else◌,
}
use django_qraft.Hooks.Once.{Outbox}

pub data GraphStatus : Type 0 where
  running succeeded failed cancelled waiting_approval : GraphStatus

pub data NodeStatus : Type 0 where
  pending running succeeded failed cancelled skipped waiting_approval : NodeStatus

-- A row of `QraftGraphNode`; its primary key is its place in the graph's list. `receipt` stands for
-- the published payload.
pub record Node : Type 0 where
  pub key : String
  pub after : List String
  pub requires_approval : Bool
  pub status : NodeStatus
  pub task : Option ℕ
  pub generation : ℕ
  pub receipt : Option ℕ
  pub dispatched_at : Option ℕ
  pub settled_at : Option ℕ
  pub skip_reason : Option String

-- A row of `QraftGraph` with its nodes in the order of depth and position, in which they are read.
-- `next_task` is an id that no task has yet; `announced` holds the outcomes of the `graph_settled`
-- signals with their generations, newest first; `settlements` the generations that have a row in
-- `QraftGraphSettlement`.
pub record Graph : Type 0 where
  pub status : GraphStatus
  pub generation : ℕ
  pub settled_at : Option ℕ
  pub resumed_at : Option ℕ
  pub on_settled : Option String
  pub nodes : List Node
  pub next_task : ℕ
  pub announced : List (GraphStatus × ℕ)
  pub settlements : List ℕ
  pub hooks : Outbox

-- `GraphError`, by its causes.
pub data GraphError : Type 0 where
  not_live : GraphStatus → GraphError
  already_settled : GraphStatus → GraphError
  no_such_node : String → GraphError
  not_pending : NodeStatus → GraphError
  not_waiting : NodeStatus → GraphError
  still_running : GraphError
  was_cancelled : GraphError
  name_the_nodes : GraphError
  nothing_to_rerun : GraphError
  out_of_fuel : GraphError

abbrev pub is_pending : NodeStatus → Bool
is_pending NodeStatus.pending = true
is_pending _ = false

abbrev pub is_running : NodeStatus → Bool
is_running NodeStatus.running = true
is_running _ = false

abbrev pub is_failed : NodeStatus → Bool
is_failed NodeStatus.failed = true
is_failed _ = false

abbrev pub is_cancelled : NodeStatus → Bool
is_cancelled NodeStatus.cancelled = true
is_cancelled _ = false

abbrev pub is_waiting : NodeStatus → Bool
is_waiting NodeStatus.waiting_approval = true
is_waiting _ = false

-- `status in (SUCCEEDED, SKIPPED)`: the statuses that satisfy a dependency.
abbrev pub is_met : NodeStatus → Bool
is_met NodeStatus.succeeded = true
is_met NodeStatus.skipped = true
is_met _ = false

abbrev pub graph_is_running : GraphStatus → Bool
graph_is_running GraphStatus.running = true
graph_is_running _ = false

abbrev pub graph_is_waiting : GraphStatus → Bool
graph_is_waiting GraphStatus.waiting_approval = true
graph_is_waiting _ = false

-- `status in (RUNNING, WAITING_APPROVAL)`
abbrev pub graph_is_live : GraphStatus → Bool
graph_is_live GraphStatus.running = true
graph_is_live GraphStatus.waiting_approval = true
graph_is_live _ = false

-- `settled.get(dep) in (SUCCEEDED, SKIPPED)`
abbrev pub met : List Node → String → Bool
met [] dep = false
met (n ∷ ns) dep = (str_eq n.key dep && is_met n.status) || met ns dep

-- The test of `_ready_nodes` on one node.
unfoldable pub is_ready : List Node → Node → Bool
is_ready nodes n = is_pending n.status && all (met nodes) n.after

-- The places of the nodes in a tail of the graph's list that are ready in the whole list.
unfoldable pub ready_from : List Node → ℕ → List Node → List ℕ
ready_from nodes i [] = []
ready_from nodes i (n ∷ ns) =
    let rest = ready_from nodes (suc i) ns in if is_ready nodes n then i ∷ rest else rest

-- `_ready_nodes`
unfoldable pub ready_nodes : List Node → List ℕ
unfolding ready_from is_ready
ready_nodes nodes = ready_from nodes zero nodes

-- `graph.nodes.filter(key=key).first()`; keys are unique within a graph.
unfoldable pub index_from : String → ℕ → List Node → Option ℕ
index_from key i [] = none
index_from key i (n ∷ ns) =
    let rest = index_from key (suc i) ns in if str_eq n.key key then some i else rest

unfoldable pub index_of : String → List Node → Option ℕ
unfolding index_from
index_of key nodes = index_from key zero nodes

-- `filter(pk=...).update(...)` of one node
abbrev pub with_nodes : List Node → Graph → Graph
with_nodes nodes g = record g { nodes = nodes }
