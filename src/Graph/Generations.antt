-- ===== src/Graph/Generations.antt =====
-- qraft/graphs.py: how often a graph settles. A resume opens a new generation, and each generation
-- settles at most once.
mod Settling
mod Calls
use mathlib.Core.Path.{subst}
use django_qraft.Prelude.{
  ℕ, zero, suc, ◌+◌, ◌≤◌, ◌<◌, String, Bool, true, false, not, ◌&&◌, Option, none, some, List, [],
  ◌∷◌, ◌==◌, get_elem?, set, all, is_none, member, count_if, ◌≡◌, refl, sym, ap, ◌∙◌, arith,
  Bool-cases, Option-cases, inl, inr, Result, ok, err, ◌>>=◌, >>=-ok, if◌then◌else◌,
}
use django_qraft.Task.{TaskStatus}
use django_qraft.Hooks.Once.{is_configured}
use django_qraft.Graph.Rows.{
  GraphStatus, Graph, GraphError, is_pending, is_waiting, is_failed, is_cancelled, graph_is_running,
  graph_is_live, ready_nodes, with_nodes, Node, NodeStatus, is_met, not_live, not_pending,
  not_waiting, still_running, was_cancelled, name_the_nodes, nothing_to_rerun,
}
use django_qraft.Graph.Dispatch.{
  dispatch_node, dispatch_one, dispatch_loop, dispatch_frontier, record_settlement, settle,
  maybe_settle, dispatch_settled_hook, some_node, is_busy, parked,
}
use django_qraft.Graph.Closure.{rerun_closure}
use django_qraft.Graph.Control.{
  task_outcome, record_outcome, progress, handle_node_completion, find_node, check, skip, cancel,
  approve, reject, reopen, resume, unparked, is_cancelled_graph, is_succeeded_graph, no_nodes_named,
  has_keys,
}
use django_qraft.Graph.Control.History.{
  Op, complete, skip_node, cancel_graph, approve_node, reject_node, resume_graph, apply, replay,
  after_call,
}
use django_qraft.Graph.Start.{NodeSpec, new_graph, start}
use Settling.{
  SettlesOnce, Same, SettlesOnce-Same, Same-trans, dispatch_one-Same, dispatch_loop-Same,
  dispatch_frontier-Same, record_settlement-Same, hook-Same, announced-SettlesOnce,
  settle-SettlesOnce, branch, parked-Same, maybe_settle-SettlesOnce, progress-SettlesOnce,
}
use Calls.{
  same_of_ok, record_outcome-Same, completion-SettlesOnce, with_nodes-Same, unparked-Same,
  dispatch_node-Same, skip-SettlesOnce, cancel-SettlesOnce, approve-SettlesOnce, reject-SettlesOnce,
  reopen-SettlesOnce, resume-SettlesOnce,
}
pub use Settling.{times_settled}

after_call-SettlesOnce :
    (g : Graph) (r : Result GraphError Graph)
    → SettlesOnce g
    → ((g' : Graph) → r ≡ ok g' → SettlesOnce g')
    → SettlesOnce (after_call g r)
after_call-SettlesOnce g (ok g') h k = k g' refl
after_call-SettlesOnce g (err e) h k = h

apply-SettlesOnce : (op : Op) (g : Graph) → SettlesOnce g → SettlesOnce (apply op g)
unfolding apply
apply-SettlesOnce (complete accepted now i task status) g h =
    completion-SettlesOnce accepted now i task status g h
apply-SettlesOnce (skip_node accepted now key reason) g h =
    after_call-SettlesOnce g _ h (skip-SettlesOnce accepted now key reason g h)
apply-SettlesOnce (cancel_graph accepted now) g h =
    after_call-SettlesOnce g _ h (cancel-SettlesOnce accepted now g h)
apply-SettlesOnce (approve_node now key) g h =
    after_call-SettlesOnce g _ h (approve-SettlesOnce now key g h)
apply-SettlesOnce (reject_node accepted now key reason) g h =
    after_call-SettlesOnce g _ h (reject-SettlesOnce accepted now key reason g h)
apply-SettlesOnce (resume_graph now named) g h =
    after_call-SettlesOnce g _ h (resume-SettlesOnce now named g h)

replay-SettlesOnce : (ops : List Op) (g : Graph) → SettlesOnce g → SettlesOnce (replay ops g)
unfolding replay
replay-SettlesOnce [] g h = h
replay-SettlesOnce (op ∷ ops) g h = replay-SettlesOnce ops (apply op g) (apply-SettlesOnce op g h)

start-SettlesOnce :
    (now : ℕ) (on_settled : Option String) (next_task : ℕ) (specs : List NodeSpec)
    → SettlesOnce (start now on_settled next_task specs)
unfolding start
start-SettlesOnce now on_settled next_task specs = maybe_settle-SettlesOnce now _ (
    SettlesOnce-Same (dispatch_frontier-Same now (new_graph on_settled next_task specs))
      (record { once = λ k. omega arith; later = λ k lt. refl; unsettled = λ e. refl }))

-- A graph settles at most once in each generation: in every history of a started graph, of
-- completions, skips, cancellations, approvals, rejections and resumes, the settlement of a
-- generation is announced at most once.
pub settles_once :
    (ops : List Op) (now : ℕ) (on_settled : Option String) (next_task : ℕ) (specs : List NodeSpec)
    (generation : ℕ)
    → times_settled generation (replay ops (start now on_settled next_task specs)).announced ≤ 1
settles_once ops now on_settled next_task specs = SettlesOnce.once (
    replay-SettlesOnce ops (start now on_settled next_task specs)
      (start-SettlesOnce now on_settled next_task specs))
