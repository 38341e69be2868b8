-- ===== src/Job/Completion.antt =====
-- qraft/hooks.py: `qraft_hook_handler`, from the resolution of the attempt to its routing.
use django_qraft.Prelude.{
  ℕ, Bool, true, false, not, ◌&&◌, Option, none, some, List, [], ◌∷◌, ltb, String, Result, ok,
  ◌>>=◌, if◌then◌else◌,
}
use django_qraft.Task.{TaskStatus}
use django_qraft.Retry.{Arithmetic, Failure, Scheduled, handle_task_retry}
use django_qraft.Job.{
  Attempt, Job, JobError, is_open, find, update, has_q2, has_number, with_attempts,
  schedule_attempt,
}

-- The update that resolves an attempt.
abbrev pub resolved : Bool → ℕ → Option String → Attempt → Attempt
resolved success stopped exception_class a = record a {
  execution = record (a.execution) { success = some success };
  exception_class = exception_class;
  date_completed = some stopped;
}

-- The selection of `replay_unrouted`: an outcome before the cutoff that was not routed.
abbrev pub is_unrouted : ℕ → Attempt → Bool
is_unrouted cutoff a =
    not (is_open a)
    && not a.routed
    && elim (a.date_completed) [ none ↦ false | some t ↦ ltb t cutoff ]

abbrev pub unrouted_numbers : ℕ → List Attempt → List ℕ
unrouted_numbers cutoff [] = []
unrouted_numbers cutoff (a ∷ as') =
    if is_unrouted cutoff a
    then a.attempt_number ∷ unrouted_numbers cutoff as'
    else unrouted_numbers cutoff as'

abbrev pub set_routed : Attempt → Attempt
set_routed a = record a { routed = true }

module _ {F : Type 0} where
  abbrev pub mark_routed : ℕ → Job F → Job F
  mark_routed k j = with_attempts (update k set_routed j.attempts) j

  -- The resolution's updates of the attempt and the task.
  unfoldable pub resolve_attempt : Bool → ℕ → Option String → TaskStatus → ℕ → Job F → Job F
  resolve_attempt success stopped exception_class status k j = record j {
    status = status;
    attempts = update k (resolved success stopped exception_class) j.attempts;
    finished = k ∷ j.finished;
  }

  -- The attempts that a retry policy schedules, as rows.
  unfoldable pub add_attempts : List Scheduled → Job F → Result JobError (Job F)
  unfolding schedule_attempt
  add_attempts [] j = ok j
  add_attempts (s ∷ ss) j = do
    j' ← add_attempts ss j
    schedule_attempt s.attempt_number s.not_before j'

  -- Workflow routing and hooks of an attempt, and the flag that is set after them.
  unfoldable pub route : ℕ → Job F → Job F
  route k j = mark_routed k (record j { routings = k ∷ j.routings })

  -- `replay_unrouted` of qraft/reaper.py, of one attempt.
  unfoldable pub replay_unrouted : ℕ → ℕ → Job F → Job F
  unfolding route
  replay_unrouted cutoff k j = elim (find (has_number k) j.attempts) [
    | none ↦ j
    | some a ↦ if is_unrouted cutoff a then route k j else j
  ]

  -- The loop of `replay_unrouted`, over the attempts that it selected.
  unfoldable pub replay_each : List ℕ → Job F → Job F
  unfolding route
  replay_each [] j = j
  replay_each (k ∷ ks) j = replay_each ks (route k j)

  -- `replay_unrouted`, of the task's attempts
  unfoldable pub replay_all : ℕ → Job F → Job F
  unfolding replay_each
  replay_all cutoff j = replay_each (unrouted_numbers cutoff j.attempts) j

  module _ (A : Arithmetic F) where
    -- `handle_task_retry` on the job's rows: whether a retry was scheduled.
    unfoldable pub retry : ℕ → Failure F → Job F → Result JobError (Bool × Job F)
    retry k f j =
        let r =
          handle_task_retry A k f
            (record { status = j.status; retry_policy = j.retry_policy; scheduled = [] }) in
        if r.0
        then (do j' ← add_attempts r.1.scheduled j; ok (true, j'))
        else ok (false, record j { status = r.1.status })

    -- What follows a failed attempt: a retry, unless the owning workflow is cancelled.
    unfoldable pub after_failure : Bool → ℕ → Failure F → Job F → Result JobError (Bool × Job F)
    unfolding retry
    after_failure cancelled k f j = if cancelled then ok (false, j) else retry k f j

    -- The transaction of the handler, of the open attempt `k`: the job, and whether routing is due.
    unfoldable pub resolve_completion :
        Bool → Bool → ℕ → Failure F → ℕ → Job F → Result JobError (Bool × Job F)
    resolve_completion cancelled success stopped f k j =
        if success
        then ok (true, resolve_attempt true stopped none TaskStatus.succeeded k j)
        else do
          (retried, j') ←
              after_failure cancelled k f
                (resolve_attempt false stopped f.exception_class TaskStatus.failed k j)
          ok (not retried, if retried then mark_routed k j' else j')

    -- `qraft_hook_handler` of a result for a Django-Q2 task. The process may die between the
    -- commit and the routing: then `survives` is false.
    unfoldable pub qraft_hook_handler :
        Bool → Bool → Bool → ℕ → Failure F → ℕ → Job F → Result JobError (Job F)
    unfolding resolve_completion route
    qraft_hook_handler survives cancelled success stopped f q2 j =
        elim (find (has_q2 q2) j.attempts) [
          | none ↦ ok j
          | some a ↦
              if is_open a
              then (do
                (due, j') ← resolve_completion cancelled success stopped f a.attempt_number j
                ok (if due && survives then route a.attempt_number j' else j'))
              else ok j
        ]
