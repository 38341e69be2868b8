-- ===== src/Job/Reaper.antt =====
-- qraft/reaper.py: what the sweeps do to one attempt that they selected.
use django_qraft.Prelude.{
  ℕ, Bool, true, false, not, ◌&&◌, Option, none, some, ◌∷◌, ltb, leb, member, String, is_none,
  Result, ok, ◌>>=◌, if◌then◌else◌,
}
use django_qraft.Task.{TaskStatus}
use django_qraft.Retry.{Arithmetic, Failure}
use django_qraft.Job.{
  Attempt, Job, JobError, scheduled, is_queued, is_running, is_open, find, update, has_number,
  with_attempts,
}
use django_qraft.Job.Completion.{resolve_attempt, mark_routed, after_failure, route}

-- The heartbeat is as recent as the cutoff.
abbrev pub is_alive : ℕ → Attempt → Bool
is_alive cutoff a = elim (a.execution.heartbeat_at) [ none ↦ false | some t ↦ leb cutoff t ]

abbrev pub claimed_before : ℕ → Attempt → Bool
claimed_before cutoff a = elim (a.claimed_at) [ none ↦ false | some t ↦ ltb t cutoff ]

abbrev pub loss : Attempt → String
loss a = if is_none a.returned_at then "OrphanedTask" else "ResultLost"

abbrev pub rearmed : Attempt → Attempt
rearmed a = record a { state = scheduled; claimed_at = none }

abbrev pub failed_if_running : TaskStatus → TaskStatus
failed_if_running TaskStatus.running = TaskStatus.failed
failed_if_running s = s

module _ {F : Type 0} where
  abbrev pub is_saved : Attempt → Job F → Bool
  is_saved a j = elim (a.q2_task_id) [ none ↦ false | some q2 ↦ member q2 j.saved ]

  -- The conditions of `_reap_one`, of its copy of the attempt and the locked task.
  unfoldable pub is_reapable : ℕ → Attempt → Job F → Bool
  is_reapable cutoff a j =
      is_open a && is_running j.status && not (is_alive cutoff a) && not (is_saved a j)

  -- `rearm_stuck_claims`, of one attempt
  unfoldable pub rearm : ℕ → ℕ → Job F → Job F
  rearm cutoff k j = elim (find (has_number k) j.attempts) [
    | none ↦ j
    | some a ↦
        if is_queued a.state && is_none a.q2_task_id && is_open a && claimed_before cutoff a
        then with_attempts (update k rearmed j.attempts) j
        else j
  ]

  -- `_resolve_committed`: the receipt makes the attempt a success. The flag commits with it, and the
  -- routing follows the commit, unless the process dies in between.
  unfoldable pub resolve_committed : Bool → ℕ → ℕ → Job F → Job F
  resolve_committed survives now k j =
      let j' = mark_routed k (resolve_attempt true now none TaskStatus.succeeded k j) in
      if survives then record j' { routings = k ∷ j'.routings } else j'

  module _ (A : Arithmetic F) where
    -- The failure branch of `_reap_one`, in its transaction.
    unfoldable pub reap_failed : Bool → Failure F → Attempt → Job F → Result JobError (Bool × Job F)
    reap_failed cancelled f a j = do
      (retried, j') ←
          after_failure A cancelled a.attempt_number
            (record f { exception_class = some (loss a); hint = none })
            (resolve_attempt false f.now (some (loss a)) j.status a.attempt_number j)
      ok (
        not retried,
        if retried
            then mark_routed a.attempt_number j'
            else record j' { status = failed_if_running j'.status },
      )

    -- `_reap_one`, at the failure's time, with the copy of the attempt that it read before it took
    -- the lock, if there was one. As in the handler the process may die before the routing.
    unfoldable pub reap_one :
        Bool → Bool → ℕ → Failure F → Option Attempt → Job F → Result JobError (Job F)
    unfolding is_reapable reap_failed resolve_committed
    reap_one survives cancelled cutoff f seen j = elim seen [
      | none ↦ ok j
      | some a ↦
          if not (is_reapable cutoff a j)
          then ok j
          else if not (is_none a.output_committed_at)
          then ok (resolve_committed survives f.now a.attempt_number j)
          else do
            (due, j') ← reap_failed cancelled f a j
            ok (if due && survives then route a.attempt_number j' else j')
    ]
