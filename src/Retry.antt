-- ===== src/Retry.antt =====
-- qraft/retry.py: the retry policy, and what a failed attempt's task does under it.
pub mod Settings
pub mod RoundTrip
pub mod Delay
pub mod Failures
use django_qraft.Prelude.{
  ℕ, ◌+◌, ◌-◌, ◌^◌, ◌≤◌, String, Bool, true, false, not, ◌&&◌, ◌||◌, Option, none, some, List, [],
  ◌∷◌, leb, contains, ◌≡◌, if◌then◌else◌,
}
use django_qraft.Task.{TaskStatus}

-- Python's floating-point numbers, with what the delays need of them: `min` and `max`, sums that
-- do not fall below a term when the other is not negative, and a rounding `truncate`, the `int()` of
-- a number that is not negative, that keeps the order.
pub record Arithmetic (F : Type 0) : Type 1 where
  pub from_int : ℕ → F
  pub plus : F → F → F
  pub times : F → F → F
  pub negate : F → F
  pub smaller : F → F → F
  pub larger : F → F → F
  pub is_positive : F → Bool
  pub tenth : F
  pub min_jitter_delay : F
  pub truncate : F → ℕ
  pub AtMost : F → F → Type 0
  pub smaller-right : (a b : F) → AtMost (smaller a b) b
  pub smaller-mono : (a b c : F) → AtMost a b → AtMost (smaller a c) (smaller b c)
  pub plus-grows : (a d : F) → AtMost (from_int 0) d → AtMost a (plus a d)
  pub truncate-mono : (a b : F) → AtMost a b → truncate a ≤ truncate b

-- `RetryBackoff`
pub data RetryBackoff : Type 0 where
  fixed linear exponential : RetryBackoff

-- `RetryPolicy`, with its exception names as lists.
pub record RetryPolicy (F : Type 0) : Type 0 where
  pub max_attempts : ℕ
  pub base_delay : F
  pub backoff_strategy : RetryBackoff
  pub jitter : Bool
  pub jitter_max : F
  pub retry_exceptions : List String
  pub skip_exceptions : List String
  pub rate_limit_exceptions : List String
  pub rate_limit_max_delay : F

abbrev pub no_names : List String → Bool
no_names [] = true
no_names (_ ∷ _) = false

-- A `SCHEDULED` attempt row.
pub record Scheduled : Type 0 where
  pub attempt_number : ℕ
  pub not_before : ℕ

-- A `QraftTask` with its retry policy and its scheduled attempts, newest first.
pub record RetryTask (F : Type 0) : Type 0 where
  pub status : TaskStatus
  pub retry_policy : Option (RetryPolicy F)
  pub scheduled : List Scheduled

-- A failed attempt: its exception class, the hint that its result text carries, the time, and the
-- draw of `random.uniform`.
pub record Failure (F : Type 0) : Type 0 where
  pub exception_class : Option String
  pub hint : Option F
  pub now : ℕ
  pub draw : F → F → F

module _ {F : Type 0} where
  -- The tests of `should_retry` on the exception's name.
  unfoldable pub retries : RetryPolicy F → Option String → Bool
  retries p none = true
  retries p (some name) =
      if contains name p.skip_exceptions
      then false
      else if contains name p.rate_limit_exceptions
      then true
      else if no_names p.retry_exceptions
      then true
      else contains name p.retry_exceptions

  -- `should_retry`
  unfoldable pub should_retry : RetryPolicy F → ℕ → Option String → Bool
  unfolding retries
  should_retry p current_attempt exception_class =
      if leb p.max_attempts current_attempt then false else retries p exception_class

  -- `is_rate_limit`
  unfoldable pub is_rate_limit : RetryPolicy F → Option String → Bool
  is_rate_limit p none = false
  is_rate_limit p (some name) = contains name p.rate_limit_exceptions

  module _ (A : Arithmetic F) where
    -- The delay by the configured strategy.
    abbrev pub by_strategy : RetryPolicy F → ℕ → F
    by_strategy p attempt_number = elim (p.backoff_strategy) [
      | fixed ↦ p.base_delay
      | linear ↦ A.times p.base_delay (A.from_int attempt_number)
      | exponential ↦ A.times p.base_delay (A.from_int (2 ^ (attempt_number - 1)))
    ]

    abbrev pub with_jitter : (F → F → F) → RetryPolicy F → F → F
    with_jitter draw p delay =
        let amount = A.times delay p.jitter_max in
        if p.jitter && A.is_positive delay
        then A.larger A.min_jitter_delay (A.plus delay (draw (A.negate amount) amount))
        else delay

    -- `calculate_delay`, in whole seconds
    unfoldable pub calculate_delay : (F → F → F) → RetryPolicy F → ℕ → Option F → Bool → ℕ
    calculate_delay draw p attempt_number (some hint) rate_limited = A.truncate (
        A.smaller (A.plus hint (draw (A.from_int 0) (A.times hint A.tenth))) p.rate_limit_max_delay)
    calculate_delay draw p attempt_number none rate_limited =
        if rate_limited
        then (let delay =
              A.smaller (A.times p.base_delay (A.from_int (2 ^ (attempt_number - 1))))
                p.rate_limit_max_delay in
            A.truncate (A.smaller (with_jitter draw p delay) p.rate_limit_max_delay))
        else A.truncate (with_jitter draw p (by_strategy p attempt_number))

    -- `schedule_retry` with `schedule_attempt`: the next attempt, and the task pending again.
    unfoldable pub schedule_retry : RetryPolicy F → ℕ → Failure F → Bool → RetryTask F → RetryTask F
    unfolding calculate_delay
    schedule_retry p current_attempt f rate_limited t =
        let retry_after = if rate_limited then f.hint else none in
        record t {
          status = TaskStatus.pending;
          scheduled =
              (record {
                attempt_number = current_attempt + 1;
                not_before =
                    f.now + calculate_delay f.draw p current_attempt retry_after rate_limited;
              })
              ∷ t.scheduled;
        }

    -- `handle_task_retry`, of an attempt by its number
    unfoldable pub handle_task_retry : ℕ → Failure F → RetryTask F → Bool × RetryTask F
    unfolding should_retry is_rate_limit schedule_retry
    handle_task_retry current_attempt f t = elim (t.retry_policy) [
      | none ↦ (false, t)
      | some p ↦
          if should_retry p current_attempt f.exception_class
          then (true, schedule_retry p current_attempt f (is_rate_limit p f.exception_class) t)
          else (false, record t { status = TaskStatus.exhausted })
    ]
