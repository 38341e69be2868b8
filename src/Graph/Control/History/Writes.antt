-- ===== src/Graph/Control/History/Writes.antt =====
-- qraft/graphs.py: completions and calls on a running graph, and the dependencies.
use mathlib.Core.Path.{subst}
use django_qraft.Prelude.{
  ℕ, Bool, true, false, Option, none, some, List, ◌∷◌, get_elem?, set, member, ◌&&◌, is_none, ◌≡◌,
  refl, sym, ap, ◌∙◌, arith, Bool-cases, Option-cases, inl, inr, Result, ok,
}
use django_qraft.Task.{TaskStatus}
use django_qraft.Hooks.Once.{is_configured}
use django_qraft.Graph.Rows.{
  GraphStatus, NodeStatus, Node, Graph, GraphError, graph_is_running, graph_is_live,
}
use django_qraft.Graph.Dispatch.{
  dispatch_frontier, record_settlement, settle, maybe_settle, dispatch_settled_hook,
}
use django_qraft.Graph.Dispatch.Sound.{IsSound, set-IsSound}
use django_qraft.Graph.Dispatch.Loop.{dispatch_frontier-IsSound}
use django_qraft.Graph.Control.{
  task_outcome, is_bound, record_outcome, progress, handle_node_completion, cancel,
}

pub record_settlement-nodes : (g : Graph) → (record_settlement g).nodes ≡ g.nodes
unfolding record_settlement
record_settlement-nodes g = ground arith

settle-nodes : (now : ℕ) (s : GraphStatus) (g : Graph) → (settle now s g).0.nodes ≡ g.nodes
unfolding settle
settle-nodes now s g = elim (Bool-cases (is_none g.settled_at && graph_is_live g.status)) [
  | inl e ↦ rw e (
      record_settlement-nodes (record g {
        status = s;
        settled_at = some now;
        announced = (s, g.generation) ∷ g.announced;
      }))
  | inr e ↦ rw e refl
]

pub maybe_settle-nodes : (now : ℕ) (g : Graph) → (maybe_settle now g).0.nodes ≡ g.nodes
unfolding maybe_settle
maybe_settle-nodes now g = ground (
  arith,
  settle-nodes now GraphStatus.failed g,
  settle-nodes now GraphStatus.cancelled g,
  settle-nodes now GraphStatus.succeeded g,
)

hook-nodes :
    (accepted : Bool) (p : Graph × Bool) → (dispatch_settled_hook accepted p).nodes ≡ p.0.nodes
unfolding dispatch_settled_hook
hook-nodes accepted (g, false) = refl
hook-nodes accepted (g, true) =
    elim (Bool-cases (is_configured g.on_settled && member g.generation g.settlements)) [
      | inl e ↦ rw e refl
      | inr e ↦ rw e refl
    ]

pub settled_hook-nodes :
    (accepted : Bool) (now : ℕ) (g : Graph)
    → (dispatch_settled_hook accepted (maybe_settle now g)).nodes ≡ g.nodes
settled_hook-nodes accepted now g =
    hook-nodes accepted (maybe_settle now g) ∙ maybe_settle-nodes now g

pub progress-IsSound :
    (accepted : Bool) (now : ℕ) (g : Graph)
    → IsSound g.nodes
    → IsSound (progress accepted now g).nodes
unfolding progress
progress-IsSound accepted now g h =
    subst IsSound (sym (settled_hook-nodes accepted now (dispatch_frontier now g)))
      (dispatch_frontier-IsSound now g h)

-- The outcome of a node that its task runs: it has started, and satisfies nothing yet.
outcome-IsSound :
    (now i task : ℕ) (status : TaskStatus) (outcome : NodeStatus) (nodes : List Node) (n : Node)
    → task_outcome status ≡ some outcome
    → get_elem? nodes i ≡ some n
    → is_bound task n ≡ true
    → is_none n.settled_at ≡ true
    → IsSound nodes
    → IsSound (set nodes i (record n { status = outcome; settled_at = some now }))
outcome-IsSound now i task status outcome nodes n o at b un h =
    set-IsSound nodes i n (record n { status = outcome; settled_at = some now }) at
      (ground (arith, h.met_settled i n at))
      (λ s. ground (arith, h.met_settled i n at, h.idle_unbound i n at, h.deps i n at))
      (ground arith) (ground arith) h

same_graph : {g g' : Graph} → some g ≡ some g' → g ≡ g'
same_graph h = cc

no_graph : {g : Graph} → ◌≡◌ {A = Option Graph} none (some g) → ⊥
no_graph h = cc

record_outcome-IsSound :
    (now i task : ℕ) (status : TaskStatus) (outcome : NodeStatus) (g g' : Graph)
    → task_outcome status ≡ some outcome
    → record_outcome now i task outcome g ≡ some g'
    → IsSound g.nodes
    → IsSound g'.nodes
unfolding record_outcome
record_outcome-IsSound now i task status outcome g g' o e h =
    elim (Option-cases (get_elem? g.nodes i)) [
      | inl x ↦ absurd (no_graph (rw (record_outcome, x) at e))
      | inr (n, at) ↦ elim (Bool-cases (is_bound task n && is_none n.settled_at)) [
        | inl b ↦
            subst IsSound
              (ap (λ (k : Graph). k.nodes) (same_graph (rw (record_outcome, at, b) at e)))
              (outcome-IsSound now i task status outcome g.nodes n o at (ground arith)
                (ground arith) h)
        | inr b ↦ absurd (no_graph (rw (record_outcome, at, b) at e))
      ]
    ]

pub handle_node_completion-IsSound :
    (accepted : Bool) (now i task : ℕ) (status : TaskStatus) (g : Graph)
    → IsSound g.nodes
    → IsSound (handle_node_completion accepted now i task status g).nodes
unfolding handle_node_completion
handle_node_completion-IsSound accepted now i task status g h =
    elim (Option-cases (task_outcome status)) [
      | inl e ↦ rw (handle_node_completion, e) h
      | inr (outcome, o) ↦
          rw (handle_node_completion, o)
            (elim (Option-cases (record_outcome now i task outcome g)) [
              | inl e ↦ rw e h
              | inr (g', e) ↦
                  let h' = record_outcome-IsSound now i task status outcome g g' o e h in
                  rw e (elim (Bool-cases (graph_is_running g'.status)) [
                    | inl r ↦ rw r (progress-IsSound accepted now g' h')
                    | inr r ↦ rw r h'
                  ])
            ])
    ]

pub same_of_ok : {g g' : Graph} → ◌≡◌ {A = Result GraphError Graph} (ok g) (ok g') → g ≡ g'
same_of_ok h = cc

pub cancel-IsSound :
    (accepted : Bool) (now : ℕ) (g : Graph)
    → IsSound g.nodes
    → (g' : Graph) → cancel accepted now g ≡ ok g'
    → IsSound g'.nodes
unfolding cancel settle
cancel-IsSound accepted now g h g' e = elim (Bool-cases (settle now GraphStatus.cancelled g).1) [
  | inl m ↦
      subst IsSound
        (sym (
            hook-nodes accepted (settle now GraphStatus.cancelled g)
            ∙ settle-nodes now GraphStatus.cancelled g)
          ∙ ap (λ (k : Graph). k.nodes) (same_of_ok (rw m at e)))
        h
  | inr m ↦ absurd (ground arith)
]
