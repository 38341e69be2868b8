-- ===== src/Job/Machine.antt =====
-- A task from outside: live, succeeded or dead, after so many attempts. What one operation on the
-- rows may do to it.
use mathlib.Core.Path.{subst}
use django_qraft.Prelude.{
  ℕ, ◌+◌, ◌<◌, Bool, true, false, Option, none, some, ◌∷◌, length, leb, ◌≡◌, ◌⊎◌, refl, sym, ◌∙◌,
  arith, Bool-cases, Option-cases, inl, inr, String, Result, ok, ◌>>=◌, if◌then◌else◌,
}
use django_qraft.Task.{TaskStatus}
use django_qraft.Retry.{
  Arithmetic, RetryPolicy, Failure, should_retry, is_rate_limit, calculate_delay, schedule_retry,
  handle_task_retry,
}
use django_qraft.Job.{
  Attempt, Job, JobError, is_open, update, find, with_attempts, schedule_attempt, scheduled_row,
}
use django_qraft.Job.Completion.{
  add_attempts, retry, after_failure, resolve_attempt, mark_routed, route, set_routed, resolved,
}
use django_qraft.Job.Tracked.{
  is_live, Past, numbers, Latest, Keeps, length-update, update-Latest, Past-fresh, resolve_newest,
  scheduled-Latest, settled-Latest,
}

pub data Phase : Type 0 where
  live succeeded dead : Phase

abbrev pub phase : TaskStatus → Phase
phase TaskStatus.pending = live
phase TaskStatus.running = live
phase TaskStatus.succeeded = succeeded
phase TaskStatus.failed = dead
phase TaskStatus.exhausted = dead

-- The life of a task that may make so many attempts: it succeeds, makes a further attempt while its
-- allowance lasts, or dies.
pub data Step (allowance : ℕ) (p : Phase) (n : ℕ) (p' : Phase) (n' : ℕ) : Type 0 where
  stay : p' ≡ p → n' ≡ n → Step allowance p n p' n'
  succeed : p ≡ live → p' ≡ succeeded → n' ≡ n → Step allowance p n p' n'
  again : p ≡ live → p' ≡ live → n' ≡ n + 1 → n < allowance → Step allowance p n p' n'
  give_up : p ≡ live → p' ≡ dead → n' ≡ n → Step allowance p n p' n'

abbrev pub allowance : {F : Type 0} → Option (RetryPolicy F) → ℕ
allowance none = 0
allowance (some p) = p.max_attempts

Keeps-set_routed : Keeps set_routed
Keeps-set_routed = record { number = λ a. refl; closed = λ a h. h }

module _ {F : Type 0} where
  abbrev pub IsTracked : Job F → Type 0
  IsTracked j = Latest j.status j.finished j.attempts

  -- An operation keeps the rows in order, and makes one step.
  pub record Good (j j' : Job F) : Type 0 where
    pub tracked : IsTracked j'
    pub step :
        Step
          (allowance j.retry_policy)
          (phase j.status)
          (length j.attempts)
          (phase j'.status)
          (length j'.attempts)
    pub policy : j'.retry_policy ≡ j.retry_policy

  pub Good-same : (j : Job F) → IsTracked j → Good j j
  Good-same j h = record { tracked = h; step = stay refl refl; policy = refl }

  -- An update that keeps numbers and outcomes, after an operation.
  pub Good-update :
      (k : ℕ) (f : Attempt → Attempt) (j j' : Job F)
      → Keeps f
      → ((a : Attempt) → is_open (f a) ≡ is_open a)
      → Good j j'
      → Good j (with_attempts (update k f j'.attempts) j')
  Good-update k f j j' h same g = record {
    tracked = update-Latest k f j'.status j'.finished j'.attempts h same g.tracked;
    step =
        subst
          (Step (allowance j.retry_policy) (phase j.status) (length j.attempts) (phase j'.status))
          (sym (length-update k f j'.attempts)) g.step;
    policy = g.policy;
  }

  pub mark_routed-Good : (k : ℕ) (j j' : Job F) → Good j j' → Good j (mark_routed k j')
  mark_routed-Good k j j' g = Good-update k set_routed j j' Keeps-set_routed (λ a. refl) g

  pub route-Good : (k : ℕ) (j j' : Job F) → Good j j' → Good j (route k j')
  unfolding route
  route-Good k j j' g =
      mark_routed-Good k j (record j' { routings = k ∷ j'.routings })
        (record { tracked = g.tracked; step = g.step; policy = g.policy })

  -- All attempts have their outcomes, the newest is `k`, and each outcome was written once.
  pub record IsSettled (k : ℕ) (j : Job F) : Type 0 where
    pub past : Past j.attempts
    pub written : j.finished ≡ numbers j.attempts
    pub newest : k ≡ length j.attempts
    pub some_attempt : 0 < k

  pub resolve_attempt-IsSettled :
      (success : Bool) (stopped : ℕ) (exception_class : Option String) (status : TaskStatus)
      (p : Attempt → Bool) (a : Attempt) (j : Job F)
      → IsTracked j
      → find p j.attempts ≡ some a
      → is_open a ≡ true
      → IsSettled a.attempt_number
          (resolve_attempt success stopped exception_class status a.attempt_number j)
  unfolding resolve_attempt
  resolve_attempt-IsSettled success stopped exception_class status p a j h e o =
      let (past, written, newest, pos) =
        resolve_newest (resolved success stopped exception_class) p j.status j.finished j.attempts a
          (record { number = λ b. refl; closed = λ b c. refl }) (λ b. refl) h e o in
      record { past = past; written = written; newest = newest; some_attempt = pos }

  pub IsSettled-ends :
      (k : ℕ) (s : TaskStatus) (j : Job F)
      → is_live s ≡ false
      → IsSettled k j
      → IsTracked (record j { status = s })
  IsSettled-ends k s j e h =
      settled-Latest s j.finished j.attempts e (omega (arith, h.newest, h.some_attempt)) h.written
        h.past

  -- A retry takes the next attempt within the allowance, or leaves the rows and, where there is a
  -- policy, the task exhausted.
  pub data Retried (k : ℕ) (j : Job F) (b : Bool) (j' : Job F) : Type 0 where
    more :
        b ≡ true
        → IsTracked j'
        → phase j'.status ≡ live
        → length j'.attempts ≡ length j.attempts + 1
        → k < allowance j.retry_policy
        → j'.retry_policy ≡ j.retry_policy
        → Retried k j b j'
    over :
        (s : TaskStatus)
        → b ≡ false
        → (s ≡ j.status) ⊎ (s ≡ TaskStatus.exhausted)
        → j' ≡ record j { status = s }
        → Retried k j b j'

  -- The number after the last is free, so that the next attempt can be made.
  pub schedule_attempt-next :
      (n now : ℕ) (j : Job F)
      → n ≡ length j.attempts + 1
      → j.finished ≡ numbers j.attempts
      → Past j.attempts
      → (j' : Job F) × (schedule_attempt n now j ≡ ok j')
        × IsTracked j'
        × (phase j'.status ≡ live)
        × (length j'.attempts ≡ length j.attempts + 1)
        × (j'.retry_policy ≡ j.retry_policy)
  unfolding schedule_attempt
  schedule_attempt-next n now j next q p = (
    record j { status = TaskStatus.pending; attempts = scheduled_row n now ∷ j.attempts },
    rw (schedule_attempt, Past-fresh n j.attempts p (omega (arith, next))) refl,
    scheduled-Latest n now j.finished j.attempts next q p,
    refl,
    omega arith,
    refl,
  )

  -- A retry that the policy grants is within the allowance.
  allowance_grant :
      (p : RetryPolicy F) (k : ℕ) (f : Failure F) (j : Job F)
      → j.retry_policy ≡ some p
      → should_retry p k f.exception_class ≡ true
      → k < allowance j.retry_policy
  unfolding should_retry
  allowance_grant p k f j given go = elim (Bool-cases (leb p.max_attempts k)) [
    | inl t ↦ absurd (ground arith)
    | inr t ↦ rw given (ground arith)
  ]

  -- What a computation with rows returned, and the rows after it.
  abbrev pub Returns : (k : ℕ) (j : Job F) → Result JobError (Bool × Job F) → Type 0
  Returns k j r = (b : Bool) × (j' : Job F) × (r ≡ ok (b, j')) × Retried k j b j'

  module _ (A : Arithmetic F) where
    -- The retry that the policy grants is the next attempt.
    retry-go :
        (k : ℕ) (f : Failure F) (p : RetryPolicy F) (j : Job F)
        → j.retry_policy ≡ some p
        → should_retry p k f.exception_class ≡ true
        → (now : ℕ) × (retry A k f j ≡ (schedule_attempt (k + 1) now j >>= λ j'. ok (true, j')))
    unfolding retry handle_task_retry add_attempts schedule_retry
    retry-go k f p j given go =
        let limited = is_rate_limit p f.exception_class in
        (
          f.now + calculate_delay A f.draw p k (if limited then f.hint else none) limited,
          rw (retry, handle_task_retry, given, go) refl,
        )

    retry-Returns :
        (k : ℕ) (f : Failure F) (j : Job F) → IsSettled k j → Returns k j (retry A k f j)
    unfolding retry handle_task_retry should_retry
    retry-Returns k f j h = elim (Option-cases j.retry_policy) [
      | inl none_given ↦ (
        false,
        record j { status = j.status },
        rw (retry, handle_task_retry, none_given) refl,
        over j.status refl (inl refl) refl,
      )
      | inr (p, given) ↦ elim (Bool-cases (should_retry p k f.exception_class)) [
        | inl go ↦
            let (now, q) = retry-go k f p j given go in
            let (i, made, tracked, alive, grown, kept) =
              schedule_attempt-next (k + 1) now j (omega (arith, h.newest)) h.written h.past in
            (
              true,
              i,
              q ∙ rw made refl,
              more refl tracked alive grown (allowance_grant p k f j given go) kept,
            )
        | inr stop ↦ (
          false,
          record j { status = TaskStatus.exhausted },
          rw (retry, handle_task_retry, given, stop) refl,
          over TaskStatus.exhausted refl (inr refl) refl,
        )
      ]
    ]

    -- After a failure too the task makes its next attempt or is at its end.
    pub after_failure-Returns :
        (cancelled : Bool) (k : ℕ) (f : Failure F) (j : Job F)
        → IsSettled k j
        → Returns k j (after_failure A cancelled k f j)
    unfolding after_failure
    after_failure-Returns true k f j h = (false, j, refl, over j.status refl (inl refl) refl)
    after_failure-Returns false k f j h = retry-Returns k f j h
