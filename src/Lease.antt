-- ===== src/Lease.antt =====
-- qraft/lease.py: `_claim`, the two conditional updates that admit a delivery of an attempt.
pub mod Budget
pub mod Delivery
use django_qraft.Prelude.{
  ℕ, ◌+◌, ◌<◌, Bool, true, false, ◌&&◌, Option, none, some, ltb, is_none, if◌then◌else◌,
}

-- The columns of `QraftTaskAttempt` that a delivery reads and writes; `worker` stands for the
-- process id and the thread name.
pub record Execution : Type 0 where
  pub date_started : Option ℕ
  pub heartbeat_at : Option ℕ
  pub worker : Option ℕ
  pub success : Option Bool
  pub execution_count : ℕ

pub data Verdict : Type 0 where
  first_delivery repeat_delivery refused_delivery no_attempt : Verdict

-- `_claim`, by the row that the Django-Q2 task id finds, if any
unfoldable pub claim : ℕ → ℕ → ℕ → Option Execution → Verdict × Option Execution
claim limit now worker none = (no_attempt, none)
claim limit now worker (some e) =
    if is_none e.date_started && is_none e.success && ltb e.execution_count limit
    then (
      first_delivery,
      some (record e {
        date_started = some now;
        heartbeat_at = some now;
        worker = some worker;
        execution_count = e.execution_count + 1;
      }),
    )
    else if is_none e.success && ltb e.execution_count limit
    then (
      repeat_delivery,
      some (record e {
        heartbeat_at = some now;
        worker = some worker;
        execution_count = e.execution_count + 1;
      }),
    )
    else (refused_delivery, some e)

-- `stamp_start`: whether the delivery opens a lease.
abbrev pub is_admitted : Verdict → Bool
is_admitted first_delivery = true
is_admitted repeat_delivery = true
is_admitted _ = false

abbrev pub is_first : Verdict → Bool
is_first first_delivery = true
is_first _ = false

-- The conditional update of qraft/hooks.py that resolves an attempt once.
unfoldable pub resolve : Bool → Option Execution → Option Execution
resolve outcome none = none
resolve outcome (some e) =
    some (if is_none e.success then record e { success = some outcome } else e)
