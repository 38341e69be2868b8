-- ===== src/Retry/Failures.antt =====
-- qraft/retry.py: a task whose attempts fail one after the other.
use mathlib.Core.Path.{subst}
use django_qraft.Prelude.{
  ℕ, ◌+◌, ◌≤◌, ◌<◌, Bool, true, false, some, List, [], ◌∷◌, length, all, All, ◌≡◌, refl, sym, arith,
  Bool-cases, inl, inr, if◌then◌else◌,
}
use django_qraft.Task.{TaskStatus}
use django_qraft.Retry.{
  Arithmetic, RetryPolicy, RetryTask, Failure, retries, should_retry, is_rate_limit, schedule_retry,
  handle_task_retry,
}

module _ {F : Type 0} (A : Arithmetic F) where
  -- The attempts from a number on fail in the given ways, each once it was scheduled.
  unfoldable pub fail_each : List (Failure F) → ℕ → RetryTask F → RetryTask F
  unfolding handle_task_retry
  fail_each [] n t = t
  fail_each (f ∷ fs) n t =
      let r = handle_task_retry A n f t in
      let rest = fail_each fs (n + 1) r.1 in if r.0 then rest else r.1

  handle-stop :
      (n : ℕ) (f : Failure F) (p : RetryPolicy F) (t : RetryTask F)
      → t.retry_policy ≡ some p
      → should_retry p n f.exception_class ≡ false
      → handle_task_retry A n f t ≡ (false, record t { status = TaskStatus.exhausted })
  unfolding handle_task_retry
  handle-stop n f p t has stop = ground arith

  handle-go :
      (n : ℕ) (f : Failure F) (p : RetryPolicy F) (t : RetryTask F)
      → t.retry_policy ≡ some p
      → should_retry p n f.exception_class ≡ true
      → handle_task_retry A n f t
        ≡ (true, schedule_retry A p n f (is_rate_limit p f.exception_class) t)
  unfolding handle_task_retry
  handle-go n f p t has go = ground arith

  fail_each-stop :
      (f : Failure F) (fs : List (Failure F)) (n : ℕ) (p : RetryPolicy F) (t : RetryTask F)
      → t.retry_policy ≡ some p
      → should_retry p n f.exception_class ≡ false
      → fail_each (f ∷ fs) n t ≡ record t { status = TaskStatus.exhausted }
  unfolding fail_each
  fail_each-stop f fs n p t has stop = rw (handle-stop n f p t has stop) refl

  fail_each-go :
      (f : Failure F) (fs : List (Failure F)) (n : ℕ) (p : RetryPolicy F) (t : RetryTask F)
      → t.retry_policy ≡ some p
      → should_retry p n f.exception_class ≡ true
      → fail_each (f ∷ fs) n t
        ≡ fail_each fs (n + 1) (schedule_retry A p n f (is_rate_limit p f.exception_class) t)
  unfolding fail_each
  fail_each-go f fs n p t has go = rw (handle-go n f p t has go) refl

  schedule-policy :
      (n : ℕ) (f : Failure F) (p : RetryPolicy F) (r : Bool) (t : RetryTask F)
      → (schedule_retry A p n f r t).retry_policy ≡ t.retry_policy
  unfolding schedule_retry
  schedule-policy n f p r t = refl

  -- No attempt is scheduled beyond the allowance, however many attempts fail and in whatever way:
  -- where the scheduled attempts of a task have numbers up to `max_attempts`, so have all that its
  -- failures add.
  pub fail_each-bounded :
      (fs : List (Failure F)) (n : ℕ) (p : RetryPolicy F) (t : RetryTask F)
      → t.retry_policy ≡ some p
      → All (λ s. s.attempt_number ≤ p.max_attempts) t.scheduled
      → All (λ s. s.attempt_number ≤ p.max_attempts) (fail_each fs n t).scheduled
  unfolding fail_each should_retry schedule_retry
  fail_each-bounded [] n p t has h = h
  fail_each-bounded (f ∷ fs) n p t has h = elim (Bool-cases (should_retry p n f.exception_class)) [
    | inl go ↦
        subst (λ (u : RetryTask F). All (λ s. s.attempt_number ≤ p.max_attempts) u.scheduled)
          (sym (fail_each-go f fs n p t has go))
          (fail_each-bounded fs (n + 1) p
            (schedule_retry A p n f (is_rate_limit p f.exception_class) t) has (ground arith, h))
    | inr stop ↦
        subst (λ (u : RetryTask F). All (λ s. s.attempt_number ≤ p.max_attempts) u.scheduled)
          (sym (fail_each-stop f fs n p t has stop)) h
  ]

  -- Failures that the policy retries use up the allowance exactly: when attempt `n` and those after
  -- it fail, and there are enough failures, the task ends exhausted, and as many attempts were
  -- scheduled as `max_attempts` leaves after attempt `n`.
  pub fail_each-exhausts :
      (fs : List (Failure F)) (n : ℕ) (p : RetryPolicy F) (t : RetryTask F)
      → t.retry_policy ≡ some p
      → all (λ f. retries p f.exception_class) fs ≡ true
      → n ≤ p.max_attempts
      → p.max_attempts < n + length fs
      → ((fail_each fs n t).status ≡ TaskStatus.exhausted)
        × (length (fail_each fs n t).scheduled + n ≡ length t.scheduled + p.max_attempts)
  unfolding should_retry schedule_retry
  fail_each-exhausts [] n p t has h le lt = absurd (omega arith)
  fail_each-exhausts (f ∷ fs) n p t has h le lt =
      elim (Bool-cases (should_retry p n f.exception_class)) [
        | inl go ↦
            let u = schedule_retry A p n f (is_rate_limit p f.exception_class) t in
            let (ends, count) =
              fail_each-exhausts fs (n + 1) p u has (ground arith) (ground arith) (omega arith) in
            rw (fail_each-go f fs n p t has go) (ends, omega (arith, count))
        | inr stop ↦ rw (fail_each-stop f fs n p t has stop) (refl, ground arith)
      ]
