-- ===== src/Workflow/Status.antt =====
-- qraft/models/mixins.py: `WorkflowStatus`, `VALID_TRANSITIONS` and `transition_to`.
use django_qraft.Prelude.{Bool, true, false, List, [], ◌∷◌, any, Result, ok, err, if◌then◌else◌}

pub data WorkflowStatus : Type 0 where
  pending running waiting_approval succeeded failed cancelled : WorkflowStatus

-- The equality of the text values that the enumeration stores.
abbrev pub same_status : WorkflowStatus → WorkflowStatus → Bool
same_status pending pending = true
same_status running running = true
same_status waiting_approval waiting_approval = true
same_status succeeded succeeded = true
same_status failed failed = true
same_status cancelled cancelled = true
same_status _ _ = false

-- `VALID_TRANSITIONS`, a dictionary of sets.
unfoldable pub valid_transitions : WorkflowStatus → List WorkflowStatus
valid_transitions pending = running ∷ cancelled ∷ []
valid_transitions running = waiting_approval ∷ succeeded ∷ failed ∷ cancelled ∷ []
valid_transitions waiting_approval = running ∷ cancelled ∷ []
valid_transitions failed = running ∷ []
valid_transitions succeeded = []
valid_transitions cancelled = []

-- `InvalidStatusTransition`, with the two statuses that its message names.
pub data InvalidStatusTransition : Type 0 where
  invalid_transition : WorkflowStatus → WorkflowStatus → InvalidStatusTransition

-- `transition_to`: the status that the row has afterwards, or the exception.
unfoldable pub transition_to :
    WorkflowStatus → WorkflowStatus → Result InvalidStatusTransition WorkflowStatus
unfolding valid_transitions
transition_to status new_status =
    if any (same_status new_status) (valid_transitions status)
    then ok new_status
    else err (invalid_transition status new_status)
