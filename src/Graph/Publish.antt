-- ===== src/Graph/Publish.antt =====
-- qraft/graphs.py: `publish` and its `Completion`, the boundary at which the writes of a node's
-- function and the node's receipt commit together.
mod Kept
mod Calls
pub mod Authority
use django_qraft.Prelude.{
  ℕ, Bool, true, false, not, Option, none, some, List, [], ◌∷◌, ◌++◌, get_elem?, set, is_none,
  Result, ok, err, ◌>>=◌, if◌then◌else◌,
}
use django_qraft.Graph.Rows.{Node, Graph, with_nodes}
use django_qraft.Graph.Control.{is_bound}

-- What the body of the block does: it writes rows, declares the output, or raises.
pub data Action : Type 0 where
  write_row : ℕ → Action
  succeed : ℕ → Action
  fail : Action

-- `GraphError` of `publish` and `Completion`, and an exception of the body.
pub data PublishError : Type 0 where
  no_node not_bound already_published already_succeeded no_success body_raised : PublishError

-- `Completion`, with the rows that the body has written in the transaction.
pub record Completion : Type 0 where
  pub payload : Option ℕ
  pub writes : List ℕ

abbrev pub act : Action → Completion → Result PublishError Completion
act (write_row r) c = ok (record c { writes = r ∷ c.writes })
act fail c = err body_raised
act (succeed payload) c =
    if is_none c.payload then ok (record c { payload = some payload }) else err already_succeeded

-- The body between the two halves of `publish`.
unfoldable pub run_body : List Action → Completion → Result PublishError Completion
run_body [] c = ok c
run_body (a ∷ as') c = do c' ← act a c; run_body as' c'

-- A graph with the rows that its tasks' functions have written, the attempts whose
-- `output_committed_at` is set, and the places and tasks of the publications that were committed,
-- newest first.
pub record Desk : Type 0 where
  pub graph : Graph
  pub written : List ℕ
  pub committed : List ℕ
  pub published : List (ℕ × ℕ)

abbrev pub with_receipt : ℕ → Node → Node
with_receipt payload n = record n { receipt = some payload }

-- The updates at the end of the block: the receipt and the attempt's stamp.
abbrev pub commit : ℕ → ℕ → ℕ → Node → Completion → Desk → Result PublishError Desk
commit i task attempt n c d = elim (c.payload) [
  | none ↦ err no_success
  | some payload ↦ ok (record {
    graph = with_nodes (set d.graph.nodes i (with_receipt payload n)) d.graph;
    written = c.writes ++ d.written;
    committed = attempt ∷ d.committed;
    published = (i, task) ∷ d.published;
  })
]

abbrev pub new_completion : Completion
new_completion = record { payload = none; writes = [] }

-- `publish` of an attempt of a task whose node was read at place `i`
unfoldable pub publish : ℕ → ℕ → ℕ → List Action → Desk → Result PublishError Desk
unfolding run_body
publish i task attempt body d = elim (get_elem? d.graph.nodes i) [
  | none ↦ err no_node
  | some n ↦
      if not (is_bound task n)
      then err not_bound
      else if not (is_none n.receipt)
      then err already_published
      else (run_body body new_completion >>= λ c. commit i task attempt n c d)
]

-- `publish` outside a graph's node: an ordinary transaction.
unfoldable pub publish_outside : List Action → Desk → Result PublishError Desk
unfolding run_body
publish_outside body d = do
  c ← run_body body new_completion
  ok (record d { written = c.writes ++ d.written })
