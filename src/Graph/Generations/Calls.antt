-- ===== src/Graph/Generations/Calls.antt =====
-- qraft/graphs.py: completions and calls, and the settlements of a graph.
use mathlib.Core.Path.{subst}
use django_qraft.Prelude.{
  ℕ, String, Bool, not, ◌&&◌, Option, some, List, ◌≡◌, refl, arith, Bool-cases, Option-cases, inl,
  inr, Result, ok, >>=-ok,
}
use django_qraft.Task.{TaskStatus}
use django_qraft.Graph.Rows.{
  GraphStatus, Graph, GraphError, is_pending, is_waiting, graph_is_running, graph_is_live,
  with_nodes, Node, NodeStatus, not_live, not_pending, not_waiting, still_running, was_cancelled,
  name_the_nodes, nothing_to_rerun,
}
use django_qraft.Graph.Dispatch.{dispatch_node, settle}
use django_qraft.Graph.Closure.{rerun_closure}
use django_qraft.Graph.Control.{
  task_outcome, record_outcome, handle_node_completion, find_node, check, skip, cancel, approve,
  reject, reopen, resume, unparked, is_cancelled_graph, is_succeeded_graph, no_nodes_named,
  has_keys,
}
use django_qraft.Graph.Generations.Settling.{
  SettlesOnce, Same, SettlesOnce-Same, dispatch_frontier-Same, record_settlement-Same, hook-Same,
  settle-SettlesOnce, maybe_settle-SettlesOnce, progress-SettlesOnce,
}

pub same_of_ok : {g g' : Graph} → ◌≡◌ {A = Result GraphError Graph} (ok g) (ok g') → g ≡ g'
same_of_ok h = cc

pub record_outcome-Same :
    (now i task : ℕ) (outcome : NodeStatus) (g g' : Graph)
    → record_outcome now i task outcome g ≡ some g'
    → Same g' g
unfolding record_outcome
record_outcome-Same now i task outcome g g' e = ground arith

pub completion-SettlesOnce :
    (accepted : Bool) (now i task : ℕ) (status : TaskStatus) (g : Graph)
    → SettlesOnce g
    → SettlesOnce (handle_node_completion accepted now i task status g)
unfolding handle_node_completion
completion-SettlesOnce accepted now i task status g h = elim (Option-cases (task_outcome status)) [
  | inl e ↦ rw (handle_node_completion, e) h
  | inr (outcome, o) ↦ elim (Option-cases (record_outcome now i task outcome g)) [
    | inl e ↦ rw (handle_node_completion, o, e) h
    | inr (g', e) ↦
        let h' = SettlesOnce-Same (record_outcome-Same now i task outcome g g' e) h in
        elim (Bool-cases (graph_is_running g'.status)) [
          | inl r ↦ rw (handle_node_completion, o, e, r) (progress-SettlesOnce accepted now g' h')
          | inr r ↦ rw (handle_node_completion, o, e, r) h'
        ]
  ]
]

pub with_nodes-Same : (nodes : List Node) (g : Graph) → Same (with_nodes nodes g) g
with_nodes-Same nodes g = record { generation = refl; settled_at = refl; announced = refl }

pub unparked-Same : (g : Graph) → Same (unparked g) g
unparked-Same g = ground arith

pub dispatch_node-Same : (now i : ℕ) (g : Graph) → Same (dispatch_node now i g) g
unfolding dispatch_node
dispatch_node-Same now i g = ground arith

pub skip-SettlesOnce :
    (accepted : Bool) (now : ℕ) (key : String) (reason : Option String) (g : Graph)
    → SettlesOnce g
    → (g' : Graph) → skip accepted now key reason g ≡ ok g'
    → SettlesOnce g'
unfolding skip
skip-SettlesOnce accepted now key reason g h g' e =
    let (u, live, e1) = >>=-ok (check (graph_is_running g.status) (not_live g.status)) _ e in
    let (p, found, e2) = >>=-ok (find_node key g) _ e1 in
    let (w, pend, e3) = >>=-ok (check (is_pending p.1.status) (not_pending p.1.status)) _ e2 in
    subst SettlesOnce (same_of_ok e3)
      (progress-SettlesOnce accepted now _ (SettlesOnce-Same (with_nodes-Same _ g) h))

pub cancel-SettlesOnce :
    (accepted : Bool) (now : ℕ) (g : Graph)
    → SettlesOnce g
    → (g' : Graph) → cancel accepted now g ≡ ok g'
    → SettlesOnce g'
unfolding cancel settle
cancel-SettlesOnce accepted now g h g' e =
    let settled = settle now GraphStatus.cancelled g in
    elim (Bool-cases settled.1) [
      | inl m ↦ subst SettlesOnce (same_of_ok (rw m at e)) (
          SettlesOnce-Same (hook-Same accepted settled)
            (settle-SettlesOnce now GraphStatus.cancelled g h))
      | inr m ↦ absurd (ground arith)
    ]

pub approve-SettlesOnce :
    (now : ℕ) (key : String) (g : Graph)
    → SettlesOnce g
    → (g' : Graph) → approve now key g ≡ ok g'
    → SettlesOnce g'
unfolding approve
approve-SettlesOnce now key g h g' e =
    let (u, live, e1) = >>=-ok (check (graph_is_live g.status) (not_live g.status)) _ e in
    let (p, found, e2) = >>=-ok (find_node key g) _ e1 in
    let (w, wait, e3) = >>=-ok (check (is_waiting p.1.status) (not_waiting p.1.status)) _ e2 in
    subst SettlesOnce (same_of_ok e3) (
      SettlesOnce-Same (unparked-Same _) (
        SettlesOnce-Same (dispatch_node-Same now p.0 _) (SettlesOnce-Same (with_nodes-Same _ g) h)))

pub reject-SettlesOnce :
    (accepted : Bool) (now : ℕ) (key : String) (reason : Option String) (g : Graph)
    → SettlesOnce g
    → (g' : Graph) → reject accepted now key reason g ≡ ok g'
    → SettlesOnce g'
unfolding reject
reject-SettlesOnce accepted now key reason g h g' e =
    let (u, live, e1) = >>=-ok (check (graph_is_live g.status) (not_live g.status)) _ e in
    let (p, found, e2) = >>=-ok (find_node key g) _ e1 in
    let (w, wait, e3) = >>=-ok (check (is_waiting p.1.status) (not_waiting p.1.status)) _ e2 in
    subst SettlesOnce (same_of_ok e3) (
      SettlesOnce-Same (hook-Same accepted _) (
        maybe_settle-SettlesOnce now _
          (SettlesOnce-Same (unparked-Same _) (SettlesOnce-Same (with_nodes-Same _ g) h))))

pub reopen-SettlesOnce :
    (now : ℕ) (rerun : List String) (g : Graph) → SettlesOnce g → SettlesOnce (reopen now rerun g)
unfolding reopen
reopen-SettlesOnce now rerun g h =
    let k = SettlesOnce-Same (record_settlement-Same g) h in
    record {
      once = k.once;
      later = λ j lt. k.later j (omega arith);
      unsettled = λ e. k.later _ (omega arith);
    }

pub resume-SettlesOnce :
    (now : ℕ) (named : Option (List String)) (g : Graph)
    → SettlesOnce g
    → (g' : Graph) → resume now named g ≡ ok g'
    → SettlesOnce g'
unfolding resume
resume-SettlesOnce now named g h g' e =
    let (u1, c1, e1) = >>=-ok (check (not (graph_is_live g.status)) still_running) _ e in
    let (u2, c2, e2) = >>=-ok (check (not (is_cancelled_graph g.status)) was_cancelled) _ e1 in
    let (u3, c3, e3) =
      >>=-ok (check (not (is_succeeded_graph g.status && no_nodes_named named)) name_the_nodes) _
        e2 in
    let (rerun, found, e4) = >>=-ok (rerun_closure g.nodes named) _ e3 in
    let (u5, c5, e5) = >>=-ok (check (has_keys rerun) nothing_to_rerun) _ e4 in
    subst SettlesOnce (same_of_ok e5) (
      maybe_settle-SettlesOnce now _
        (SettlesOnce-Same (dispatch_frontier-Same now _) (reopen-SettlesOnce now rerun g h)))
