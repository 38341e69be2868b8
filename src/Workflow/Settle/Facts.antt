-- ===== src/Workflow/Settle/Facts.antt =====
-- What settling a workflow and dispatching its hook change, for proofs in which both stay shut.
use django_qraft.Prelude.{ℕ, Bool, Option, none, some, String, ◌∷◌, ◌≡◌, ◌≢◌, arith}
use django_qraft.Hooks.Once.{HookKind}
use django_qraft.Workflow.Status.{WorkflowStatus}
use django_qraft.Workflow.Settle.{Workflow, settle_workflow, dispatch_workflow_hook}
use django_qraft.Workflow.Settle.Race.{IsLive}

pub settle_live :
    (now : ℕ) (s : WorkflowStatus) (w : Workflow)
    → IsLive w.status
    → w.settled_at ≡ none
    → settle_workflow now s w
      ≡ some (record w { status = s; settled_at = some now; announced = s ∷ w.announced })
unfolding settle_workflow
settle_live now s w l h = ground arith

pub settle_settled :
    (now : ℕ) (s : WorkflowStatus) (w : Workflow)
    → w.settled_at ≢ none
    → settle_workflow now s w ≡ none
unfolding settle_workflow
settle_settled now s w h = ground arith

-- The hook's dispatch changes neither the status, the settlement nor the signals.
pub record SameRow (v w : Workflow) : Type 0 where
  pub status : v.status ≡ w.status
  pub settled_at : v.settled_at ≡ w.settled_at
  pub announced : v.announced ≡ w.announced

pub dispatch_workflow_hook-SameRow :
    (accepted : Bool) (kind : HookKind) (path : Option String) (w : Workflow)
    → SameRow (dispatch_workflow_hook accepted kind path w) w
unfolding dispatch_workflow_hook
dispatch_workflow_hook-SameRow accepted kind path w = ground arith
