-- ===== src/Job/Outcomes.antt =====
-- The outcome of an attempt, by the hook or by the reaper, is one step of the task's life.
use mathlib.Core.Path.{subst}
use django_qraft.Prelude.{
  ℕ, Bool, true, false, not, ◌&&◌, Option, none, some, length, ◌≡◌, refl, arith, Bool-cases,
  Option-cases, inl, inr, is_none, String, ok, if◌then◌else◌,
}
use django_qraft.Task.{TaskStatus}
use django_qraft.Retry.{Arithmetic, Failure}
use django_qraft.Job.{Attempt, Job, is_open, is_running, find, has_q2, has_number}
use django_qraft.Job.Completion.{
  resolved, resolve_attempt, mark_routed, route, after_failure, resolve_completion,
  qraft_hook_handler,
}
use django_qraft.Job.Reaper.{
  is_reapable, failed_if_running, loss, resolve_committed, reap_failed, reap_one,
}
use django_qraft.Job.Tracked.{length-update, open-live, find-has_number}
use django_qraft.Job.Machine.{
  dead, phase, succeed, IsTracked, Good, Good-same, mark_routed-Good, route-Good,
  resolve_attempt-IsSettled, IsSettled-ends, after_failure-Returns,
}
use django_qraft.Job.Rows.{phase-live}
use django_qraft.Job.Operations.{Makes, made, Retried-Good}
use django_qraft.Job.History.{IsCurrent}

-- `_reap_one` fails a task that the sweep finds running.
reaped-dead : (s : TaskStatus) → is_running s ≡ true → phase (failed_if_running s) ≡ dead
reaped-dead TaskStatus.pending e = cc
reaped-dead TaskStatus.running e = refl
reaped-dead TaskStatus.succeeded e = cc
reaped-dead TaskStatus.failed e = cc
reaped-dead TaskStatus.exhausted e = cc

module _ {F : Type 0} where
  resolve_attempt-length :
      (success : Bool) (stopped : ℕ) (exception_class : Option String) (status : TaskStatus) (k : ℕ)
      (j : Job F)
      → length ((resolve_attempt success stopped exception_class status k j).attempts)
        ≡ length j.attempts
  unfolding resolve_attempt
  resolve_attempt-length success stopped exception_class status k j =
      length-update k (resolved success stopped exception_class) j.attempts

  -- An open attempt that succeeds ends its task.
  resolve_attempt-success :
      (stopped : ℕ) (p : Attempt → Bool) (a : Attempt) (j : Job F)
      → IsTracked j
      → find p j.attempts ≡ some a
      → is_open a ≡ true
      → Good j (resolve_attempt true stopped none TaskStatus.succeeded a.attempt_number j)
  unfolding resolve_attempt
  resolve_attempt-success stopped p a j h e o =
      let settled = resolve_attempt-IsSettled true stopped none TaskStatus.succeeded p a j h e o in
      record {
        tracked =
            IsSettled-ends a.attempt_number TaskStatus.succeeded
              (resolve_attempt true stopped none TaskStatus.succeeded a.attempt_number j) refl
              settled;
        step =
            succeed (phase-live j.status (open-live p j.status j.finished j.attempts a h e o)) refl
              (resolve_attempt-length true stopped none TaskStatus.succeeded a.attempt_number j);
        policy = refl;
      }

  route-if : (b : Bool) (k : ℕ) (j j' : Job F) → Good j j' → Good j (if b then route k j' else j')
  route-if true k j j' g = route-Good k j j' g
  route-if false k j j' g = g

  resolve_committed-Good :
      (survives : Bool) (now k : ℕ) (j : Job F)
      → Good j (resolve_attempt true now none TaskStatus.succeeded k j)
      → Good j (resolve_committed survives now k j)
  unfolding resolve_committed
  resolve_committed-Good true now k j g =
      let h = mark_routed-Good k j (resolve_attempt true now none TaskStatus.succeeded k j) g in
      record { tracked = h.tracked; step = h.step; policy = h.policy }
  resolve_committed-Good false now k j g =
      mark_routed-Good k j (resolve_attempt true now none TaskStatus.succeeded k j) g

  module _ (A : Arithmetic F) where
    -- The failure of an open attempt: the next attempt, or the task's end.
    failed-Good :
        (cancelled : Bool) (stopped : ℕ) (exception_class : Option String) (status : TaskStatus)
        (ending : TaskStatus → TaskStatus) (f : Failure F) (p : Attempt → Bool) (a : Attempt)
        (j : Job F)
        → IsTracked j
        → find p j.attempts ≡ some a
        → is_open a ≡ true
        → phase (ending status) ≡ dead
        → phase (ending TaskStatus.exhausted) ≡ dead
        → (b : Bool) × (j' : Job F) × (after_failure A cancelled a.attempt_number f
              (resolve_attempt false stopped exception_class status a.attempt_number j)
            ≡ ok (b, j'))
          × Good j (
              if b
              then mark_routed a.attempt_number j'
              else record j' { status = ending j'.status })
    unfolding resolve_attempt
    failed-Good cancelled stopped exception_class status ending f p a j h e o d x =
        let i = resolve_attempt false stopped exception_class status a.attempt_number j in
        let settled = resolve_attempt-IsSettled false stopped exception_class status p a j h e o in
        let (b, j', q, r) = after_failure-Returns A cancelled a.attempt_number f i settled in
        (
          b,
          j',
          q,
          Retried-Good ending a.attempt_number b j i j'
              (phase-live j.status (open-live p j.status j.finished j.attempts a h e o))
              (resolve_attempt-length false stopped exception_class status a.attempt_number j) refl
              settled d x r,
        )

    resolve_completion-Good :
        (cancelled success : Bool) (stopped : ℕ) (f : Failure F) (p : Attempt → Bool) (a : Attempt)
        (j : Job F)
        → IsTracked j
        → find p j.attempts ≡ some a
        → is_open a ≡ true
        → (b : Bool) × (j' : Job F) × (resolve_completion A cancelled success stopped f
              a.attempt_number j
            ≡ ok (b, j'))
          × Good j j'
    unfolding resolve_completion
    resolve_completion-Good cancelled true stopped f p a j h e o =
        (true, _, refl, resolve_attempt-success stopped p a j h e o)
    resolve_completion-Good cancelled false stopped f p a j h e o =
        let (b, j', q, g) =
          failed-Good cancelled stopped f.exception_class TaskStatus.failed (λ s. s) f p a j h e o
            refl refl in
        (not b, (if b then mark_routed a.attempt_number j' else j'), rw q refl, g)

    -- The hook returns, and makes one step, from a task in order.
    pub qraft_hook_handler-Good :
        (survives cancelled success : Bool) (stopped : ℕ) (f : Failure F) (q2 : ℕ) (j : Job F)
        → IsTracked j
        → Makes j (qraft_hook_handler A survives cancelled success stopped f q2 j)
    unfolding qraft_hook_handler
    qraft_hook_handler-Good survives cancelled success stopped f q2 j h =
        elim (Option-cases (find (has_q2 q2) j.attempts)) [
          | inl e ↦ made j (rw (qraft_hook_handler, e) refl) (Good-same j h)
          | inr (a, e) ↦ elim (Bool-cases (is_open a)) [
            | inr o ↦ made j (rw (qraft_hook_handler, e, o) refl) (Good-same j h)
            | inl o ↦
                let (b, j', q, g) =
                  resolve_completion-Good cancelled success stopped f (has_q2 q2) a j h e o in
                made (if b && survives then route a.attempt_number j' else j')
                  (rw (qraft_hook_handler, e, o, q) refl)
                  (route-if (b && survives) a.attempt_number j j' g)
          ]
        ]

    reap_failed-Good :
        (cancelled : Bool) (f : Failure F) (seen a : Attempt) (j : Job F)
        → IsTracked j
        → find (has_number seen.attempt_number) j.attempts ≡ some a
        → is_open a ≡ true
        → is_running j.status ≡ true
        → (b : Bool) × (j' : Job F) × (reap_failed A cancelled f seen j ≡ ok (b, j')) × Good j j'
    unfolding reap_failed
    reap_failed-Good cancelled f seen a j h e o r =
        let lost = record f { exception_class = some (loss seen); hint = none } in
        let (b, j', q, g) =
          failed-Good cancelled f.now (some (loss seen)) j.status failed_if_running lost
            (has_number seen.attempt_number) a j h e o (reaped-dead j.status r) refl in
        let same = find-has_number seen.attempt_number j.attempts a e in
        (
          not b,
          (if b
              then mark_routed seen.attempt_number j'
              else record j' { status = failed_if_running j'.status }),
          rw
              (
                reap_failed,
                subst
                    (λ (n : ℕ).
                      after_failure A cancelled n lost
                        (resolve_attempt false f.now (some (loss seen)) j.status n j)
                      ≡ ok (b, j'))
                    same q,
              )
              refl,
          subst
              (λ (n : ℕ). Good j (
                if b then mark_routed n j' else record j' { status = failed_if_running j'.status }))
              same g,
        )

    -- The reaper too.
    pub reap_one-Good :
        (survives cancelled : Bool) (cutoff : ℕ) (f : Failure F) (seen : Option Attempt) (j : Job F)
        → IsTracked j
        → IsCurrent seen j
        → Makes j (reap_one A survives cancelled cutoff f seen j)
    unfolding reap_one is_reapable resolve_committed
    reap_one-Good survives cancelled cutoff f none j h c = made j refl (Good-same j h)
    reap_one-Good survives cancelled cutoff f (some seen) j h c =
        elim (Bool-cases (is_reapable cutoff seen j)) [
          | inr o ↦ made j (rw (reap_one, o) refl) (Good-same j h)
          | inl o ↦
              let (a, e, opened) = c (ground arith) in
              let k = seen.attempt_number in
              let running : is_running j.status ≡ true = ground arith in
              let same = find-has_number k j.attempts a e in
              elim (Bool-cases (is_none seen.output_committed_at)) [
                | inr d ↦ made (resolve_committed survives f.now k j) (rw (reap_one, o, d) refl) (
                    resolve_committed-Good survives f.now k j (
                      subst
                        (λ (n : ℕ).
                          Good j (resolve_attempt true f.now none TaskStatus.succeeded n j))
                        same (resolve_attempt-success f.now (has_number k) a j h e opened)))
                | inl d ↦
                    let (b, j', q, g) = reap_failed-Good cancelled f seen a j h e opened running in
                    made (if b && survives then route k j' else j') (rw (reap_one, o, d, q) refl)
                      (route-if (b && survives) k j j' g)
              ]
        ]
