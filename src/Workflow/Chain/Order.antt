-- ===== src/Workflow/Chain/Order.antt =====
-- Every history of a chain: callers' operations and completions, in any order.
mod Staircase
mod Place
mod Keeps
use django_qraft.Prelude.{ℕ, List, [], ◌∷◌, Result, ok, err, ◌≡◌, refl}
use django_qraft.Task.{TaskStatus}
use django_qraft.Workflow.Status.{WorkflowStatus}
use django_qraft.Workflow.Settle.{Workflow}
use django_qraft.Workflow.Chain.{Chain, ChainError, Step}
use django_qraft.Workflow.Chain.Control.{committed}
use Keeps.{apply-InOrder}
use Place.{InOrder, new_chain-InOrder}
pub use Keeps.{Op}
pub use Place.{new_chain, queue_chain_step-ok}
unfoldable pub use Place.{queued_step}
unfoldable pub use Keeps.{apply}
pub use Staircase.{Climbs}

-- A history: an operation that raises leaves the rows as they were.
unfoldable pub replay : List Op → Chain → Chain
unfolding apply
replay [] c = c
replay (op ∷ ops) c = replay ops (committed c (apply op c))

committed-InOrder :
    (op : Op) (c : Chain) (r : Result ChainError Chain)
    → ((c' : Chain) → r ≡ ok c' → InOrder c')
    → InOrder c
    → InOrder (committed c r)
committed-InOrder op c (ok c') k h = k c' refl
committed-InOrder op c (err e) k h = h

replay-InOrder : (ops : List Op) (c : Chain) → InOrder c → InOrder (replay ops c)
unfolding replay
replay-InOrder [] c h = h
replay-InOrder (op ∷ ops) c h =
    replay-InOrder ops (committed c (apply op c))
      (committed-InOrder op c (apply op c) (λ c' e. apply-InOrder op c c' h e) h)

-- In every history of a new chain the queued steps climb: the first is step 0, each later one is
-- its predecessor again or the next step, and the current step is the last one queued or the next.
pub chain_order :
    (ops : List Op) (w : Workflow) (next_task : ℕ)
    → let c = replay ops (new_chain w next_task) in Climbs c.current_step_index c.queued
chain_order ops w next_task =
    InOrder.climbs (replay-InOrder ops (new_chain w next_task) (new_chain-InOrder w next_task))
