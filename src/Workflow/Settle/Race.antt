-- ===== src/Workflow/Settle/Race.antt =====
-- Completions and cancels of one workflow in any order: who settles it, and how often.
use django_qraft.Prelude.{
  ℕ, Bool, Option, none, some, List, [], ◌∷◌, ◌≡◌, ◌≢◌, ◌⊎◌, refl, arith, Result, ok, err,
  if◌then◌else◌,
}
use django_qraft.Workflow.Status.{
  WorkflowStatus, pending, running, waiting_approval, succeeded, failed, cancelled,
  InvalidStatusTransition,
}
use django_qraft.Workflow.Settle.{Workflow, settle_workflow, cancel}

-- One attempt to settle: a dispatcher's completion at a time with its outcome, or a cancel with
-- the broker's answer for its hook.
pub data Attempt : Type 0 where
  complete : ℕ → Bool → Attempt
  withdraw : ℕ → Bool → Attempt

abbrev pub outcome : Attempt → WorkflowStatus
outcome (complete _ success) = if success then succeeded else failed
outcome (withdraw _ _) = cancelled

abbrev or_keep : Workflow → Option Workflow → Workflow
or_keep w none = w
or_keep w (some w') = w'

abbrev or_keep_on_error : Workflow → Result InvalidStatusTransition Workflow → Workflow
or_keep_on_error w (ok w') = w'
or_keep_on_error w (err _) = w

-- An attempt that matches no row, or raises, leaves the row.
unfoldable pub attempt : Attempt → Workflow → Workflow
unfolding settle_workflow cancel
attempt (complete now success) w =
    or_keep w (settle_workflow now (outcome (complete now success)) w)
attempt (withdraw now accepted) w = or_keep_on_error w (cancel accepted now w)

unfoldable pub race : List Attempt → Workflow → Workflow
unfolding attempt
race [] w = w
race (a ∷ as') w = race as' (attempt a w)

abbrev pub IsLive : WorkflowStatus → Type 0
IsLive s = (s ≡ pending) ⊎ (s ≡ running) ⊎ (s ≡ waiting_approval)

attempt_settled : (a : Attempt) (w : Workflow) → w.settled_at ≢ none → attempt a w ≡ w
unfolding attempt
attempt_settled (complete now success) w h = ground arith
attempt_settled (withdraw now accepted) w h = ground arith

race_settled : (as' : List Attempt) (w : Workflow) → w.settled_at ≢ none → race as' w ≡ w
unfolding race
race_settled [] w h = refl
race_settled (a ∷ as') w h = rw (attempt_settled a w h) (race_settled as' w h)

attempt_live :
    (a : Attempt) (w : Workflow)
    → IsLive w.status
    → w.settled_at ≡ none
    → ((attempt a w).status ≡ outcome a)
      × ((attempt a w).announced ≡ outcome a ∷ w.announced)
      × ((attempt a w).settled_at ≢ none)
unfolding attempt
attempt_live (complete now success) w l h = ground arith
attempt_live (withdraw now accepted) w l h = ground arith

-- Of any number of completions and cancels of a live, unsettled workflow the first decides: the
-- row ends with its outcome, and that outcome is the one signal sent, whatever follows.
pub race-first :
    (a : Attempt) (as' : List Attempt) (w : Workflow)
    → IsLive w.status
    → w.settled_at ≡ none
    → ((race (a ∷ as') w).status ≡ outcome a)
      × ((race (a ∷ as') w).announced ≡ outcome a ∷ w.announced)
unfolding race
race-first a as' w l h =
    let (status, announced, settled) = attempt_live a w l h in
    rw (race_settled as' (attempt a w) settled) (status, announced)
