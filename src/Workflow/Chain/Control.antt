-- ===== src/Workflow/Chain/Control.antt =====
-- qraft/chain.py: the operations a caller has on a chain, `run`, `resume`, `approve` and `reject`.
use django_qraft.Prelude.{
  ℕ, zero, Bool, true, false, none, some, List, [], ◌∷◌, map, Result, ok, err, ◌>>=◌, if◌then◌else◌,
}
use django_qraft.Workflow.Status.{
  WorkflowStatus, pending, running, waiting_approval, failed, cancelled, same_status,
}
use django_qraft.Workflow.Settle.{Workflow, announce_cancelled}
use django_qraft.Workflow.Settle
use django_qraft.Workflow.Chain.{
  Step, Chain, ChainError, empty_chain, already_run, not_failed, refused, duplicate_step, move_to,
  queue_chain_step,
}

-- A `QraftChain` object: the steps appended so far, each with its gate, and the status that its
-- model instance holds in memory. `chain` is the row in the database.
pub record Handle : Type 0 where
  pub appended : List Bool
  pub status : WorkflowStatus
  pub chain : Chain

abbrev pub new_step : Bool → Step
new_step requires_approval = record { requires_approval = requires_approval; qraft_task = none }

-- Step 0, by its gate: the chain parks before it, or it is queued.
unfoldable pub start_first : Bool → Bool → Chain → Result ChainError Chain
unfolding move_to queue_chain_step
start_first accepted gated c = do
  c' ← move_to running c
  if gated then move_to waiting_approval c' else queue_chain_step accepted zero c'

-- The transaction of `run`: the steps are created (a step index that exists already violates the
-- unique constraint), the instance's status is moved and saved over the row's, and step 0 is parked
-- or queued.
unfoldable pub start_chain :
    Bool → List Bool → WorkflowStatus → List Step → Chain → Result ChainError Chain
unfolding start_first
start_chain accepted [] status existing c = err empty_chain
start_chain accepted (gated ∷ rest) status (_ ∷ _) c = err duplicate_step
start_chain accepted (gated ∷ rest) status [] c = start_first accepted gated (record c {
  steps = map new_step (gated ∷ rest);
  workflow = record (c.workflow) { status = status };
})

-- The status that the instance holds after `start_chain`: the rows are rolled back on an error, the
-- instance is not. The steps are created before the instance's status moves.
abbrev instance_status : WorkflowStatus → Result ChainError Chain → WorkflowStatus
instance_status old (ok c) = c.workflow.status
instance_status old (err duplicate_step) = old
instance_status old (err _) = running

abbrev is_empty : List Bool → Bool
is_empty [] = true
is_empty (_ ∷ _) = false

abbrev pub committed : Chain → Result ChainError Chain → Chain
committed c (ok c') = c'
committed c (err _) = c

-- `run`: the outcome, and the object and the rows afterwards.
unfoldable pub run : Bool → Handle → Result ChainError Chain × Handle
unfolding start_chain
run accepted h =
    if is_empty h.appended
    then (err empty_chain, h)
    else if same_status h.status pending
    then (let r = start_chain accepted h.appended h.status h.chain.steps h.chain in
        (r, record h { status = instance_status h.status r; chain = committed h.chain r }))
    else (err (already_run h.status), h)

-- The settlement and the dispatch rows are cleared with the transition of `resume`.
abbrev pub reopened : Chain → Chain
reopened c = record c {
  workflow = record (c.workflow) {
    settled_at = none;
    hooks = record (c.workflow.hooks) { rows = [] };
  };
}

-- `resume`: a check of the status that the object holds, then under the lock the validated
-- transition of the row, the clearing, and the current step queued anew.
unfoldable pub resume : Bool → WorkflowStatus → Chain → Result ChainError Chain
unfolding move_to queue_chain_step
resume accepted status c =
    if same_status status failed
    then (do c' ← move_to running c; queue_chain_step accepted c'.current_step_index (reopened c'))
    else err not_failed

-- `approve`
unfoldable pub approve : Bool → Chain → Result ChainError Chain
unfolding move_to queue_chain_step
approve accepted c = do c' ← move_to running c; queue_chain_step accepted c'.current_step_index c'

-- `reject`
unfoldable pub reject : Bool → ℕ → Chain → Result ChainError Chain
unfolding move_to announce_cancelled
reject accepted now c = do
  c' ← move_to cancelled c
  ok (record c' {
    workflow = announce_cancelled accepted (record (c'.workflow) { settled_at = some now });
  })

-- `cancel` of `BaseWorkflow`, on a chain
unfoldable pub cancel : Bool → ℕ → Chain → Result ChainError Chain
unfolding Settle.cancel
cancel accepted now c = elim (Settle.cancel accepted now c.workflow) [
  | ok w ↦ ok (record c { workflow = w })
  | err e ↦ err (refused e)
]
