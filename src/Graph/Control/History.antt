-- ===== src/Graph/Control/History.antt =====
-- qraft/graphs.py: the calls on a started graph, one after the other.
pub mod Writes
pub mod Calls
mod Rerun
use mathlib.Core.Path.{subst}
use django_qraft.Prelude.{
  ℕ, zero, suc, String, Bool, true, false, Option, none, some, List, [], ◌∷◌, get_elem?, set, ◌≡◌,
  refl, sym, ap, ◌∙◌, arith, Bool-cases, Option-cases, inl, inr, Result, ok, err, >>=-ok,
  if◌then◌else◌,
}
use django_qraft.Task.{TaskStatus}
use django_qraft.Graph.Rows.{Graph, GraphError}
use django_qraft.Graph.Dispatch.Sound.{IsSound}
use django_qraft.Graph.Control.{handle_node_completion, skip, cancel, approve, reject, resume}
use Writes.{handle_node_completion-IsSound, cancel-IsSound}
use Calls.{skip-IsSound, approve-IsSound, reject-IsSound}
use Rerun.{resume-IsSound}
pub use Writes.{maybe_settle-nodes}

-- A completion of the task that was found at a place, or a call of a handle. The flag is the
-- broker's answer where a hook may be queued.
pub data Op : Type 0 where
  complete : Bool → ℕ → ℕ → ℕ → TaskStatus → Op
  skip_node : Bool → ℕ → String → Option String → Op
  cancel_graph : Bool → ℕ → Op
  approve_node : ℕ → String → Op
  reject_node : Bool → ℕ → String → Option String → Op
  resume_graph : ℕ → Option (List String) → Op

-- A call that raises leaves the rows as they were.
abbrev pub after_call : Graph → Result GraphError Graph → Graph
after_call g (ok g') = g'
after_call g (err _) = g

unfoldable pub apply : Op → Graph → Graph
apply (complete accepted now i task status) g = handle_node_completion accepted now i task status g
apply (skip_node accepted now key reason) g = after_call g (skip accepted now key reason g)
apply (cancel_graph accepted now) g = after_call g (cancel accepted now g)
apply (approve_node now key) g = after_call g (approve now key g)
apply (reject_node accepted now key reason) g = after_call g (reject accepted now key reason g)
apply (resume_graph now named) g = after_call g (resume now named g)

unfoldable pub replay : List Op → Graph → Graph
unfolding apply
replay [] g = g
replay (op ∷ ops) g = replay ops (apply op g)

after_call-IsSound :
    (g : Graph) (r : Result GraphError Graph)
    → IsSound g.nodes
    → ((g' : Graph) → r ≡ ok g' → IsSound g'.nodes)
    → IsSound (after_call g r).nodes
after_call-IsSound g (ok g') h k = k g' refl
after_call-IsSound g (err e) h k = h

apply-IsSound : (op : Op) (g : Graph) → IsSound g.nodes → IsSound (apply op g).nodes
unfolding apply
apply-IsSound (complete accepted now i task status) g h =
    handle_node_completion-IsSound accepted now i task status g h
apply-IsSound (skip_node accepted now key reason) g h =
    after_call-IsSound g (skip accepted now key reason g) h
      (skip-IsSound accepted now key reason g h)
apply-IsSound (cancel_graph accepted now) g h =
    after_call-IsSound g (cancel accepted now g) h (cancel-IsSound accepted now g h)
apply-IsSound (approve_node now key) g h =
    after_call-IsSound g (approve now key g) h (approve-IsSound now key g h)
apply-IsSound (reject_node accepted now key reason) g h =
    after_call-IsSound g (reject accepted now key reason g) h
      (reject-IsSound accepted now key reason g h)
apply-IsSound (resume_graph now named) g h =
    after_call-IsSound g (resume now named g) h (resume-IsSound now named g h)

-- No history of completions, skips, cancellations, approvals, rejections and resumes starts a node
-- too early: when the nodes of a graph respect their dependencies, they do after every history.
-- Each node that is running, at its gate or at an end other than a skip then depends on nodes that
-- have succeeded or been skipped only.
pub history-IsSound : (ops : List Op) (g : Graph) → IsSound g.nodes → IsSound (replay ops g).nodes
unfolding replay
history-IsSound [] g h = h
history-IsSound (op ∷ ops) g h = history-IsSound ops (apply op g) (apply-IsSound op g h)
