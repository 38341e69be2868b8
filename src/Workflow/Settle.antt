-- ===== src/Workflow/Settle.antt =====
-- The row that chains, iters and batches share, and the two ways to settle it: `settle_workflow`
-- of qraft/dispatchers.py and `cancel` of qraft/base.py.
pub mod Race
pub mod Facts
use django_qraft.Prelude.{
  ℕ, String, Bool, true, false, not, ◌&&◌, Option, none, some, List, [], ◌∷◌, any, is_none, Result,
  ok, err, if◌then◌else◌,
}
use django_qraft.Hooks.Once.{HookKind, HookKey, Outbox, dispatch_hook_once, is_configured, no_hooks}
use django_qraft.Workflow.Status.{
  WorkflowStatus, pending, running, waiting_approval, succeeded, failed, cancelled, same_status,
  InvalidStatusTransition, invalid_transition,
}

-- The columns of `WorkflowStatusMixin` and the hook paths of `WorkflowHookMixin`. `announced`
-- collects the outcomes of the `workflow_settled` signals sent, newest first; `hooks` is the
-- workflow's part of the table `WorkflowHookDispatch` with the hook tasks queued.
pub record Workflow : Type 0 where
  pub status : WorkflowStatus
  pub settled_at : Option ℕ
  pub success_hook : Option String
  pub failure_hook : Option String
  pub on_cancelled : Option String
  pub progress_hook : Option String
  pub announced : List WorkflowStatus
  pub hooks : Outbox

-- `TERMINAL_WORKFLOW_STATUSES`
abbrev pub terminal_workflow_statuses : List WorkflowStatus
terminal_workflow_statuses = succeeded ∷ failed ∷ cancelled ∷ []

-- `_CANCELLABLE_STATUSES`
abbrev pub cancellable_statuses : List WorkflowStatus
cancellable_statuses = pending ∷ running ∷ waiting_approval ∷ []

-- `settle_workflow`: the conditional update, and the signal when it matched. `none` means that no
-- row matched.
unfoldable pub settle_workflow : ℕ → WorkflowStatus → Workflow → Option Workflow
settle_workflow now status w =
    if is_none w.settled_at && not (any (same_status w.status) terminal_workflow_statuses)
    then some
        (record w { status = status; settled_at = some now; announced = status ∷ w.announced })
    else none

-- Workflow hooks of chains, iters and batches are of generation 0.
abbrev pub hook_key : HookKind → HookKey
hook_key kind = record { kind = kind; generation = 0 }

-- `_dispatch_workflow_hook` under the test that a hook path is configured.
unfoldable pub dispatch_workflow_hook : Bool → HookKind → Option String → Workflow → Workflow
unfolding dispatch_hook_once
dispatch_workflow_hook accepted kind path w =
    if is_configured path
    then record w { hooks = dispatch_hook_once accepted (hook_key kind) w.hooks }
    else w

-- `_announce_cancelled`: the signal, then the hook.
unfoldable pub announce_cancelled : Bool → Workflow → Workflow
unfolding dispatch_workflow_hook
announce_cancelled accepted w =
    dispatch_workflow_hook accepted HookKind.cancelled w.on_cancelled
      (record w { announced = cancelled ∷ w.announced })

-- `BaseWorkflow.cancel`
unfoldable pub cancel : Bool → ℕ → Workflow → Result InvalidStatusTransition Workflow
unfolding announce_cancelled
cancel accepted now w =
    if any (same_status w.status) cancellable_statuses && is_none w.settled_at
    then ok (announce_cancelled accepted (record w { status = cancelled; settled_at = some now }))
    else err (invalid_transition w.status cancelled)
