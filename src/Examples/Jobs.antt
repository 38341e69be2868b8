-- ===== src/Examples/Jobs.antt =====
-- Retries and deliveries at concrete tasks and attempts.
use django_qraft.Prelude.{
  ℕ, ◌+◌, ◌*◌, ◌≤◌, min, max, true, false, none, some, List, [], ◌∷◌, length, count_if, ltb, leb,
  ok, ◌≡◌, refl, arith,
}
use django_qraft.Task.{TaskStatus}
use django_qraft.Retry.{
  Arithmetic, RetryBackoff, RetryPolicy, retries, RetryTask, Failure, calculate_delay,
}
use django_qraft.Retry.Delay.{calculate_delay-hint}
use django_qraft.Retry.Failures.{fail_each, fail_each-exhausts}
use django_qraft.Retry.Settings.{Checks, Defaults, Arguments, to_dict, from_dict}
use django_qraft.Retry.RoundTrip.{from_dict-to_dict}
use django_qraft.Lease.{Execution, is_admitted}
use django_qraft.Lease.Budget.{Event, deliver, settle, verdicts, admitted-bounded}

-- Whole seconds in place of floating-point numbers.
abbrev pub seconds : Arithmetic ℕ
seconds = record {
  from_int = λ n. n;
  plus = λ a b. a + b;
  times = λ a b. a * b;
  negate = λ a. 0;
  smaller = λ a b. min a b;
  larger = λ a b. max a b;
  is_positive = λ a. ltb 0 a;
  tenth = 0;
  min_jitter_delay = 0;
  truncate = λ a. a;
  AtMost = λ a b. a ≤ b;
  smaller-right = λ a b. omega arith;
  smaller-mono = λ a b c h. omega arith;
  plus-grows = λ a d h. omega arith;
  truncate-mono = λ a b h. h;
}

abbrev pub upper : ℕ → ℕ → ℕ
upper lo hi = hi

abbrev pub thrice : RetryPolicy ℕ
thrice = record {
  max_attempts = 3;
  base_delay = 10;
  backoff_strategy = RetryBackoff.exponential;
  jitter = false;
  jitter_max = 0;
  retry_exceptions = [];
  skip_exceptions = "ValueError" ∷ [];
  rate_limit_exceptions = "RateLimitError" ∷ [];
  rate_limit_max_delay = 300;
}

abbrev fresh : RetryTask ℕ
fresh = record { status = TaskStatus.running; retry_policy = some thrice; scheduled = [] }

abbrev pub timed_out : Failure ℕ
timed_out = record { exception_class = some "TimeoutError"; hint = none; now = 100; draw = upper }

abbrev limited : Failure ℕ
limited = record {
  exception_class = some "RateLimitError";
  hint = some 40;
  now = 200;
  draw = upper;
}

fail_each-exhausts_example :
    let t = fail_each seconds (timed_out ∷ limited ∷ timed_out ∷ []) 1 fresh in
    (t.status ≡ TaskStatus.exhausted) × (length t.scheduled + 1 ≡ 3)
unfolding retries
fail_each-exhausts_example =
    fail_each-exhausts seconds (timed_out ∷ limited ∷ timed_out ∷ []) 1 thrice fresh refl refl
      (omega arith) (omega arith)

calculate_delay-hint_example :
    (40 ≤ calculate_delay seconds upper thrice 2 (some 40) true)
    × (calculate_delay seconds upper thrice 2 (some 40) true ≤ 300)
calculate_delay-hint_example = calculate_delay-hint seconds upper thrice 2 40 true (omega arith)

abbrev queued : Execution
queued = record {
  date_started = none;
  heartbeat_at = none;
  worker = none;
  success = none;
  execution_count = 0;
}

abbrev orphaned : Execution
orphaned = record {
  date_started = some 5;
  heartbeat_at = some 6;
  worker = some 70;
  success = some false;
  execution_count = 1;
}

abbrev deliveries : List Event
deliveries = deliver 5 70 ∷ deliver 6 71 ∷ settle true ∷ deliver 8 72 ∷ []

admitted-bounded_example : 0 + count_if is_admitted (verdicts 2 deliveries (some queued)) ≤ 2
admitted-bounded_example = admitted-bounded 2 deliveries queued (omega arith)

abbrev pub whole : Checks ℕ
whole = record {
  is_negative = λ a. false;
  is_fraction = λ a. leb a 1;
  is_positive = λ a. ltb 0 a;
  default_cap = 300;
}

abbrev pub defaults : ℕ → Defaults ℕ
defaults delay = record {
  max_attempts = 3;
  delay = delay;
  backoff = RetryBackoff.exponential;
  jitter = false;
  jitter_max = 0;
}

-- Only some of the options are given.
abbrev pub five_times : Arguments ℕ
five_times = record {
  max_attempts = some 5;
  base_delay = none;
  backoff_strategy = some "linear";
  jitter = none;
  jitter_max = none;
  retry_exceptions = none;
  skip_exceptions = some ("ValueError" ∷ []);
  rate_limit_exceptions = some [];
  rate_limit_max_delay = none;
}

abbrev pub five_policy : RetryPolicy ℕ
five_policy = record {
  max_attempts = 5;
  base_delay = 30;
  backoff_strategy = RetryBackoff.linear;
  jitter = false;
  jitter_max = 0;
  retry_exceptions = [];
  skip_exceptions = "ValueError" ∷ [];
  rate_limit_exceptions = [];
  rate_limit_max_delay = 300;
}

pub five_made : from_dict whole (defaults 30) five_times ≡ ok five_policy
unfolding from_dict
five_made = refl

from_dict-to_dict_example : from_dict whole (defaults 60) (to_dict five_policy) ≡ ok five_policy
from_dict-to_dict_example =
    from_dict-to_dict whole (defaults 30) (defaults 60) five_times five_policy five_made
