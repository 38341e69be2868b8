-- ===== src/Job/History.antt =====
-- Histories of a task: the operations of workers, dispatchers, reaper, monitor and operators on its
-- rows, in any order.
use django_qraft.Prelude.{
  ℕ, Bool, true, false, Option, none, some, List, [], ◌∷◌, Result, ok, err, ◌≡◌,
}
use django_qraft.Task.{TaskStatus, is_terminal_failure}
use django_qraft.Retry.{Arithmetic, Failure}
use django_qraft.Job.{
  Attempt, Job, JobError, is_open, find, has_number, requeue, claim_and_enqueue, deliver, touch,
  stamp_returned, stamp_committed, save_result,
}
use django_qraft.Job.Completion.{replay_unrouted, qraft_hook_handler}
use django_qraft.Job.Reaper.{rearm, reap_one}

-- One call, with what it reads from outside: a requeue the status that its object holds, the reaper
-- the copy of the attempt that it read before it took the lock.
pub data Op (F : Type 0) : Type 0 where
  dispatch : (accepted : Bool) → (now claimed_at k : ℕ) → Op F
  delivery : (limit now worker q2 : ℕ) → Op F
  heartbeat : (now q2 : ℕ) → Op F
  return_stamp : (now q2 : ℕ) → Op F
  receipt : (now k : ℕ) → Op F
  saved_result : (q2 : ℕ) → Op F
  completion : (survives cancelled success : Bool) → (stopped : ℕ) → Failure F → (q2 : ℕ) → Op F
  stuck_claim : (cutoff k : ℕ) → Op F
  orphan : (survives cancelled : Bool) → (cutoff : ℕ) → Failure F → (seen : Option Attempt) → Op F
  unrouted : (cutoff k : ℕ) → Op F
  by_hand : (seen : TaskStatus) → (now : ℕ) → Op F

module _ {F : Type 0} where
  abbrev pub is_by_hand : Op F → Bool
  is_by_hand (by_hand seen now) = true
  is_by_hand _ = false

  -- The reaper's copy without an outcome is of an attempt that still has none.
  abbrev pub IsCurrent : Option Attempt → Job F → Type 0
  IsCurrent none j = Unit
  IsCurrent (some seen) j =
      is_open seen ≡ true
      → (a : Attempt) × (find (has_number seen.attempt_number) j.attempts ≡ some a)
        × (is_open a ≡ true)

  -- A call that acts on what it reads finds the rows so: a requeue through an object with a dead
  -- status finds the task dead, and the reaper's copy is current.
  abbrev pub IsTimely : Op F → Job F → Type 0
  IsTimely (by_hand seen now) j =
      is_terminal_failure seen ≡ true → is_terminal_failure j.status ≡ true
  IsTimely (orphan survives cancelled cutoff f seen) j = IsCurrent seen j
  IsTimely _ j = Unit

  -- The rows that a result leaves: an exception rolls its transaction back.
  abbrev pub committed : {B : Type 0} → Job F → (B → Job F) → Result JobError B → Job F
  committed j rows (ok b) = rows b
  committed j rows (err e) = j

  module _ (A : Arithmetic F) where
    -- A call on the rows.
    unfoldable pub apply : Op F → Job F → Job F
    unfolding claim_and_enqueue deliver touch stamp_returned stamp_committed save_result
        qraft_hook_handler rearm reap_one replay_unrouted requeue
    apply (dispatch accepted now claimed_at k) j =
        committed j (λ r. r.1) (claim_and_enqueue accepted now claimed_at k j)
    apply (delivery limit now worker q2) j = (deliver limit now worker q2 j).1
    apply (heartbeat now q2) j = touch now q2 j
    apply (return_stamp now q2) j = stamp_returned now q2 j
    apply (receipt now k) j = stamp_committed now k j
    apply (saved_result q2) j = save_result q2 j
    apply (completion survives cancelled success stopped f q2) j =
        committed j (λ j'. j') (qraft_hook_handler A survives cancelled success stopped f q2 j)
    apply (stuck_claim cutoff k) j = rearm cutoff k j
    apply (orphan survives cancelled cutoff f seen) j =
        committed j (λ j'. j') (reap_one A survives cancelled cutoff f seen j)
    apply (unrouted cutoff k) j = replay_unrouted cutoff k j
    apply (by_hand seen now) j = committed j (λ j'. j') (requeue seen now j)

    -- The rows after a history.
    unfoldable pub replay : List (Op F) → Job F → Job F
    unfolding apply
    replay [] j = j
    replay (op ∷ ops) j = replay ops (apply op j)

    -- Each call of a history is timely.
    unfoldable pub IsTimelyAll : List (Op F) → Job F → Type 0
    unfolding apply
    IsTimelyAll [] j = Unit
    IsTimelyAll (op ∷ ops) j = IsTimely op j × IsTimelyAll ops (apply op j)
