-- ===== src/Examples/Tasks.antt =====
-- Histories of the rows of concrete tasks.
use django_qraft.Prelude.{
  ℕ, ◌+◌, ◌≤◌, max, true, false, Option, some, List, [], ◌∷◌, ◌++◌, length, count_if, if◌then◌else◌,
  ◌≡◌, refl, ok,
}
use django_qraft.Task.{TaskStatus}
use django_qraft.Retry.{handle_task_retry}
use django_qraft.Lease.{claim}
use django_qraft.Examples.Jobs.{
  seconds, thrice, timed_out, whole, defaults, five_times, five_policy, five_made,
}
use django_qraft.Job.{Attempt, Job, find, has_number, is_open, new_job, requeue}
use django_qraft.Job.Completion.{
  is_unrouted, unrouted_numbers, replay_all, qraft_hook_handler, after_failure, resolve_attempt,
  add_attempts,
}
use django_qraft.Job.Reaper.{reap_one}
use django_qraft.Job.Tracked.{is_live}
use django_qraft.Job.Machine.{phase, IsTracked}
use django_qraft.Job.Routing.{handed, replay_all-routes}
use django_qraft.Job.History.{
  IsCurrent, IsTimelyAll, Op, dispatch, delivery, heartbeat, completion, orphan, by_hand,
  is_by_hand, apply, replay,
}
use django_qraft.Job.Counted.{Life, settled_numbers}
use django_qraft.Job.Life.{
  apply-refines, one_open, resolved_once, outcomes_return, stale_requeue, attempts_bounded,
  made_policy_bounded,
}

abbrev fails : ℕ → Op ℕ
fails q2 = completion true false false 120 timed_out q2

-- Three failed attempts, a requeue, and an attempt that the reaper finds lost.
abbrev morning : List (Op ℕ)
morning =
    delivery 3 10 1 0
    ∷ heartbeat 20 0
    ∷ fails 0
    ∷ dispatch true 500 500 2
    ∷ delivery 3 510 1 1
    ∷ fails 1
    ∷ fails 1
    ∷ dispatch true 900 900 3
    ∷ fails 2
    ∷ by_hand TaskStatus.exhausted 1000
    ∷ dispatch true 1000 1000 4
    ∷ delivery 3 1010 2 3
    ∷ []

-- What the reaper reads before it takes the lock.
abbrev copy : Option Attempt
copy = find (has_number 4) ((replay seconds morning (new_job (some thrice))).attempts)

abbrev hard_day : List (Op ℕ)
hard_day = morning ++ (orphan true false 1500 timed_out copy ∷ [])

hard_day-IsTimelyAll : IsTimelyAll seconds hard_day (new_job (some thrice))
unfolding IsTimelyAll replay claim after_failure handle_task_retry resolve_attempt add_attempts
hard_day-IsTimelyAll = (
  tt,
  (
    tt,
    (tt, (tt, (tt, (tt, (tt, (tt, (tt, (λ e. refl, (tt, (tt, (λ e. (_, refl, refl), tt))))))))))),
  ),
)

-- The tasks that the history leaves, with its attempts.
hard_day_attempts :
    let j = replay seconds hard_day (new_job (some thrice)) in
    (j.status ≡ TaskStatus.exhausted)
    × (j.finished ≡ 4 ∷ 3 ∷ 2 ∷ 1 ∷ [])
    × (length j.attempts ≡ 4)
    × (j.routings ≡ 4 ∷ 3 ∷ [])
unfolding replay claim after_failure handle_task_retry resolve_attempt add_attempts
hard_day_attempts = (refl, refl, refl, refl)

apply-refines_example :
    let j = new_job (some thrice) in
    IsTracked (apply seconds (fails 0) j)
    × Life false 3
        (phase j.status)
        1
        (phase ((apply seconds (fails 0) j).status))
        (length ((apply seconds (fails 0) j).attempts))
apply-refines_example =
    apply-refines seconds (fails 0) (new_job (some thrice)) (refl, refl, refl, tt) tt

one_open_example :
    let j = replay seconds hard_day (new_job (some thrice)) in
    count_if is_open j.attempts ≡ (if is_live j.status then 1 else 0)
one_open_example = one_open seconds (some thrice) hard_day hard_day-IsTimelyAll

resolved_once_example :
    let j = replay seconds hard_day (new_job (some thrice)) in
    j.finished ≡ settled_numbers j.attempts
resolved_once_example = resolved_once seconds (some thrice) hard_day hard_day-IsTimelyAll

copy-IsCurrent : IsCurrent copy (replay seconds morning (new_job (some thrice)))
unfolding replay claim after_failure handle_task_retry resolve_attempt add_attempts
copy-IsCurrent = λ e. (_, refl, refl)

morning-IsTimelyAll : IsTimelyAll seconds morning (new_job (some thrice))
unfolding IsTimelyAll replay claim after_failure handle_task_retry resolve_attempt add_attempts
morning-IsTimelyAll =
    (tt, (tt, (tt, (tt, (tt, (tt, (tt, (tt, (tt, (λ e. refl, (tt, (tt, tt))))))))))))

outcomes_return_example :
    let j = replay seconds morning (new_job (some thrice)) in
    ((j' : Job ℕ) × (qraft_hook_handler seconds true false false 120 timed_out 3 j ≡ ok j'))
    × ((j' : Job ℕ) × (reap_one seconds true false 1500 timed_out copy j ≡ ok j'))
outcomes_return_example =
    outcomes_return seconds (some thrice) morning true false false 120 1500 timed_out 3 copy
      morning-IsTimelyAll copy-IsCurrent

attempts_bounded_example :
    length ((replay seconds hard_day (new_job (some thrice))).attempts)
    ≤ max 1 3 + count_if is_by_hand hard_day
attempts_bounded_example = attempts_bounded seconds (some thrice) hard_day hard_day-IsTimelyAll

-- The process died between the commit of the success and its routing.
abbrev cut_short : Job ℕ
cut_short =
    replay seconds (completion false false true 120 timed_out 0 ∷ []) (new_job (some thrice))

replay_all-routes_example :
    (unrouted_numbers 200 ((replay_all 200 cut_short).attempts) ≡ [])
    × ((replay_all 200 cut_short).routings
        ≡ handed (unrouted_numbers 200 cut_short.attempts) cut_short.routings)
    × (length (unrouted_numbers 200 cut_short.attempts)
        ≡ count_if (is_unrouted 200) cut_short.attempts)
    × (replay_all 200 (replay_all 200 cut_short) ≡ replay_all 200 cut_short)
replay_all-routes_example = replay_all-routes 200 cut_short

cut_short_unrouted : unrouted_numbers 200 cut_short.attempts ≡ 1 ∷ []
unfolding replay resolve_attempt
cut_short_unrouted = refl

stale_requeue_example :
    let j = new_job (some thrice) in
    (j' : Job ℕ) × (requeue TaskStatus.failed 700 j ≡ ok j')
    × (count_if is_open j'.attempts ≡ 2)
    × (j'.status ≡ TaskStatus.pending)
stale_requeue_example =
    stale_requeue TaskStatus.failed 700 (new_job (some thrice)) (refl, refl, refl, tt) refl refl

fails-IsTimelyAll : IsTimelyAll seconds (fails 0 ∷ []) (new_job (some five_policy))
unfolding IsTimelyAll
fails-IsTimelyAll = (tt, tt)

made_policy_bounded_example :
    length ((replay seconds (fails 0 ∷ []) (new_job (some five_policy))).attempts)
    ≤ 10 + count_if is_by_hand (fails 0 ∷ [])
made_policy_bounded_example =
    made_policy_bounded seconds whole (defaults 30) five_times five_policy (fails 0 ∷ []) five_made
      fails-IsTimelyAll
