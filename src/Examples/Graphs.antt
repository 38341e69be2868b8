-- ===== src/Examples/Graphs.antt =====
-- Graphs at concrete plans.
use django_qraft.Prelude.{
  ◌≤◌, String, true, false, none, some, List, [], ◌∷◌, all, contains, ◌≡◌, ◌≢◌, ◌↔◌, refl, ok, err,
}
use django_qraft.Task.{TaskStatus}
use django_qraft.Graph.Rows.{Node, NodeStatus, met, ready_nodes}
use django_qraft.Graph.Dispatch.{
  dispatch_one, dispatch_loop, dispatch_frontier, maybe_settle, dispatch_settled_hook,
}
use django_qraft.Graph.Closure.{close, rounds}
use django_qraft.Graph.Closure.Reach.{Reaches, close-Reaches}
use django_qraft.Graph.Control.{handle_node_completion, progress}
use django_qraft.Graph.Control.History.{resume_graph, Op, complete, replay}
use django_qraft.Graph.Generations.{times_settled, settles_once}
use django_qraft.Graph.Plan.{no_fuel, has_a_cycle, validate_topology}
use django_qraft.Graph.Plan.Checked.{IsAcyclic}
use django_qraft.Graph.Plan.Decides.{validate_topology-decides}
use django_qraft.Graph.Start.{NodeSpec, start, no_early_start}

-- A plan of three: `load` after `fetch`, and `publish`, gated, after `load`.
abbrev plan : List NodeSpec
plan =
    record { key = "fetch"; after = []; requires_approval = false }
    ∷ record { key = "load"; after = "fetch" ∷ []; requires_approval = false }
    ∷ record { key = "publish"; after = "load" ∷ []; requires_approval = true }
    ∷ []

-- Tasks 0 and 1 of the first two nodes succeed.
abbrev two_done : List Op
two_done = complete true 5 0 0 TaskStatus.succeeded ∷ complete true 6 1 1 TaskStatus.succeeded ∷ []

abbrev gated : Node
gated = record {
  key = "publish";
  after = "load" ∷ [];
  requires_approval = true;
  status = NodeStatus.waiting_approval;
  task = none;
  generation = 1;
  receipt = none;
  dispatched_at = none;
  settled_at = none;
  skip_reason = none;
}

no_early_start_example :
    all (met (replay two_done (start 4 none 0 plan)).nodes) ("load" ∷ []) ≡ true
unfolding replay start handle_node_completion maybe_settle dispatch_frontier dispatch_loop
    ready_nodes dispatch_one progress dispatch_settled_hook
no_early_start_example = no_early_start two_done 4 none 0 plan refl 2 gated refl refl

abbrev rows : List Node
rows = gated ∷ []

close-Reaches_example :
    (result : List String) × (close rows (rounds rows ("load" ∷ [])) ("load" ∷ []) [] ≡ some result)
    × ((x : String) → (contains x result ≡ true) ↔ Reaches rows ("load" ∷ []) x)
close-Reaches_example = close-Reaches rows ("load" ∷ [])

-- The failed `fetch` settles the graph, its resume opens generation 2, and the task's late
-- completion is dropped.
abbrev failed_and_resumed : List Op
failed_and_resumed =
    complete true 5 0 0 TaskStatus.failed
    ∷ resume_graph 6 none
    ∷ complete true 7 0 0 TaskStatus.succeeded
    ∷ []

settles_once_example :
    times_settled 1 (replay failed_and_resumed (start 4 none 0 plan)).announced ≤ 1
settles_once_example = settles_once failed_and_resumed 4 none 0 plan 1

validate_topology-decides_example :
    ((validate_topology plan ≡ ok tt) ↔ IsAcyclic plan) × (validate_topology plan ≢ err no_fuel)
validate_topology-decides_example = validate_topology-decides plan refl

-- `load` and `fetch` after each other.
abbrev looped : List NodeSpec
looped =
    record { key = "fetch"; after = "load" ∷ []; requires_approval = false }
    ∷ record { key = "load"; after = "fetch" ∷ []; requires_approval = false }
    ∷ []

looped_refused : validate_topology looped ≡ err has_a_cycle
unfolding validate_topology
looped_refused = refl
