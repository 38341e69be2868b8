-- ===== src/Workflow/Chain.antt =====
-- `ChainDispatcher`, `_queue_chain_step` and the chain's part of `route_workflow_completion`, of
-- qraft/dispatchers.py: how the completions of its steps drive a chain.
pub mod Control
pub mod Success
pub mod Order
pub mod Anomalies
use django_qraft.Prelude.{
  ℕ, ◌+◌, Bool, true, false, not, Option, none, some, List, ◌∷◌, get_elem?, set, ◌==◌, Result, ok,
  err, ◌>>=◌, if◌then◌else◌,
}
use django_qraft.Task.{TaskStatus, is_terminal_failure}
use django_qraft.Hooks.Once.{HookKind}
use django_qraft.Workflow.Status.{
  WorkflowStatus, waiting_approval, succeeded, failed, cancelled, same_status,
  InvalidStatusTransition, transition_to,
}
use django_qraft.Workflow.Settle.{Workflow, settle_workflow, dispatch_workflow_hook}

-- A row of `QraftChainStep`; its index is its place in the list.
pub record Step : Type 0 where
  pub requires_approval : Bool
  pub qraft_task : Option ℕ

-- A row of `QraftChainModel` with its steps. `next_task` is an id that no task has yet, and
-- `queued` the indices of the steps for which a task was created and queued, newest first.
pub record Chain : Type 0 where
  pub workflow : Workflow
  pub current_step_index : ℕ
  pub steps : List Step
  pub next_task : ℕ
  pub queued : List ℕ

-- What the operations raise. Each runs in a transaction, which the exception rolls back.
pub data ChainError : Type 0 where
  empty_chain : ChainError
  already_run : WorkflowStatus → ChainError
  not_failed : ChainError
  refused : InvalidStatusTransition → ChainError
  no_such_step : ChainError
  duplicate_step : ChainError
  enqueue_failed : ChainError

abbrev pub with_status : WorkflowStatus → Chain → Chain
with_status s c = record c { workflow = record (c.workflow) { status = s } }

-- `chain.transition_to(new_status)` and the save of the status
unfoldable pub move_to : WorkflowStatus → Chain → Result ChainError Chain
unfolding transition_to
move_to new_status c = elim (transition_to c.workflow.status new_status) [
  | ok s ↦ ok (with_status s c)
  | err e ↦ err (refused e)
]

-- `_queue_chain_step`, of a step that is given by its index
unfoldable pub queue_chain_step : Bool → ℕ → Chain → Result ChainError Chain
queue_chain_step accepted i c = elim (get_elem? c.steps i) [
  | none ↦ err no_such_step
  | some step ↦
      if accepted
      then ok (record c {
        steps = set c.steps i (record step { qraft_task = some c.next_task });
        next_task = c.next_task + 1;
        queued = i ∷ c.queued;
      })
      else err enqueue_failed
]

-- `_dispatch_chain_hook`
unfoldable pub dispatch_chain_hook : Bool → Bool → Chain → Chain
unfolding dispatch_workflow_hook
dispatch_chain_hook accepted success c = record c {
  workflow =
      if success
      then dispatch_workflow_hook accepted HookKind.success c.workflow.success_hook c.workflow
      else dispatch_workflow_hook accepted HookKind.failure c.workflow.failure_hook c.workflow;
}

-- Settlement and, when this call settled the chain, its hook.
unfoldable pub settle_chain : Bool → ℕ → Bool → Chain → Chain
unfolding settle_workflow dispatch_chain_hook
settle_chain accepted now success c =
    elim (settle_workflow now (if success then succeeded else failed) c.workflow) [
      | none ↦ c
      | some settled ↦ dispatch_chain_hook accepted success (record c { workflow = settled })
    ]

-- `_handle_step_success` behind its guards: the last step, a gated next step, a plain next step.
unfoldable pub advance : Bool → ℕ → ℕ → Option Step → Chain → Result ChainError Chain
unfolding settle_chain move_to queue_chain_step
advance accepted now i none c = ok (settle_chain accepted now true c)
advance accepted now i (some next_step) c =
    if next_step.requires_approval
    then move_to waiting_approval (record c { current_step_index = i + 1 })
    else queue_chain_step accepted (i + 1) (record c { current_step_index = i + 1 })

-- `_handle_step_success`
unfoldable pub handle_step_success : Bool → ℕ → ℕ → Chain → Result ChainError Chain
unfolding advance
handle_step_success accepted now i c =
    if same_status c.workflow.status cancelled
    then ok c
    else if not (c.current_step_index == i)
    then ok c
    else advance accepted now i (get_elem? c.steps (i + 1)) c

-- `_complete_chain`
unfoldable pub complete_chain : Bool → ℕ → Bool → Chain → Chain
unfolding settle_chain
complete_chain accepted now success c =
    if same_status c.workflow.status cancelled then c else settle_chain accepted now success c

-- `handle`
unfoldable pub handle : Bool → ℕ → ℕ → Bool → TaskStatus → Chain → Result ChainError Chain
handle accepted now i success task_status c =
    if same_status c.workflow.status cancelled
    then ok c
    else if success
    then handle_step_success accepted now i c
    else if is_terminal_failure task_status
    then ok (complete_chain accepted now false c)
    else ok c

abbrev pub bound_to : ℕ → Option Step → Bool
bound_to task none = false
bound_to task (some step) = elim (step.qraft_task) [ none ↦ false | some t ↦ t == task ]

-- `route_workflow_completion` for a task that was found to be linked to step `i`: the binding is
-- read again, and a task that the step is no longer bound to is dropped.
unfoldable pub route : Bool → ℕ → ℕ → ℕ → Bool → TaskStatus → Chain → Result ChainError Chain
route accepted now task i success task_status c =
    if bound_to task (get_elem? c.steps i)
    then handle accepted now i success task_status c
    else ok c
