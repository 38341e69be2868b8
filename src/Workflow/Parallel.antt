-- ===== src/Workflow/Parallel.antt =====
-- `ParallelDispatcher` of qraft/dispatchers.py: the completions of an iter's or a batch's members.
pub mod Counts
pub mod FanIn
pub mod Start
use django_qraft.Prelude.{
  ℕ, ◌+◌, Bool, true, false, Option, none, some, List, ◌∷◌, leb, ◌==◌, member, if◌then◌else◌,
}
use django_qraft.Task.{TaskStatus, is_terminal_failure}
use django_qraft.Hooks.Once.{HookKind, is_configured}
use django_qraft.Workflow.Status.{
  WorkflowStatus, pending, running, waiting_approval, succeeded, failed, cancelled, same_status,
}
use django_qraft.Workflow.Settle.{Workflow, settle_workflow, dispatch_workflow_hook}

-- A row of `QraftIterModel` or `QraftBatchModel` with its counters. `counted` holds the ids of the
-- attempts whose `counted` flag is set; `progress` the values of `completed_count` with which the
-- progress hook was queued, newest first.
pub record Parallel : Type 0 where
  pub workflow : Workflow
  pub total_count : ℕ
  pub completed_count : ℕ
  pub success_count : ℕ
  pub failure_count : ℕ
  pub counted : List ℕ
  pub progress : List ℕ

-- A completion handed to the dispatcher: the attempt, its `success` column, and the status that
-- its task is found to have.
pub record Completion : Type 0 where
  pub attempt : ℕ
  pub success : Option Bool
  pub task_status : TaskStatus

pub data Increment : Type 0 where
  noop partial complete : Increment

-- Python's truth value of a nullable Boolean column.
abbrev pub truthy : Option Bool → Bool
truthy (some true) = true
truthy _ = false

-- `_is_task_terminal`
unfoldable pub is_task_terminal : Completion → Bool
is_task_terminal c = if truthy c.success then true else is_terminal_failure c.task_status

-- The part of `_atomic_increment` that counts the attempt.
unfoldable pub count_completion : Completion → Parallel → Parallel
count_completion c p = record p {
  completed_count = p.completed_count + 1;
  success_count = if truthy c.success then p.success_count + 1 else p.success_count;
  failure_count = if truthy c.success then p.failure_count else p.failure_count + 1;
  counted = c.attempt ∷ p.counted;
}

abbrev pub verdict : ℕ → WorkflowStatus
verdict failure_count = if failure_count == 0 then succeeded else failed

-- The part of `_atomic_increment` behind `if is_complete`; a settlement that matches no row keeps
-- the counters, which the transaction commits.
unfoldable pub finish : ℕ → Parallel → Increment × Parallel
unfolding settle_workflow
finish now p = elim (settle_workflow now (verdict p.failure_count) p.workflow) [
  | none ↦ (noop, p)
  | some settled ↦ (complete, record p { workflow = settled })
]

-- `_atomic_increment`
unfoldable pub atomic_increment : ℕ → Completion → Parallel → Increment × Parallel
unfolding count_completion finish
atomic_increment now c p =
    if same_status p.workflow.status cancelled
    then (noop, p)
    else if member c.attempt p.counted
    then (noop, p)
    else let p' = count_completion c p in
      if leb p'.total_count p'.completed_count then finish now p' else (partial, p')

-- `_dispatch_workflow_hook`
unfoldable pub dispatch_completion_hook : Bool → Parallel → Parallel
unfolding dispatch_workflow_hook
dispatch_completion_hook accepted p = record p {
  workflow =
      if p.failure_count == 0
      then dispatch_workflow_hook accepted HookKind.success p.workflow.success_hook p.workflow
      else dispatch_workflow_hook accepted HookKind.failure p.workflow.failure_hook p.workflow;
}

-- `_dispatch_progress_hook`; a broker that refuses is logged and otherwise ignored.
unfoldable pub dispatch_progress_hook : Bool → Parallel → Parallel
dispatch_progress_hook accepted p =
    if accepted then record p { progress = p.completed_count ∷ p.progress } else p

-- The hook that follows the counting, by its result.
unfoldable pub after_increment : Bool → Increment × Parallel → Parallel
unfolding dispatch_completion_hook dispatch_progress_hook
after_increment accepted (complete, p) = dispatch_completion_hook accepted p
after_increment accepted (partial, p) =
    if is_configured p.workflow.progress_hook then dispatch_progress_hook accepted p else p
after_increment accepted (noop, p) = p

-- `handle`
unfoldable pub handle : Bool → ℕ → Completion → Parallel → Parallel
unfolding is_task_terminal atomic_increment after_increment
handle accepted now c p =
    if is_task_terminal c then after_increment accepted (atomic_increment now c p) else p
