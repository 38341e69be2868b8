-- ===== src/Job.antt =====
-- A task with its attempts, as the database has them: the rows, and the operations that only add or
-- look up attempts (qraft/tasks.py, qraft/scheduler.py, qraft/dlq.py).
pub mod Completion
pub mod Reaper
pub mod Tracked
pub mod Machine
pub mod Rows
pub mod Operations
pub mod Outcomes
pub mod Routing
pub mod History
pub mod Counted
pub mod Life
use django_qraft.Prelude.{
  ℕ, suc, ◌+◌, Bool, true, false, not, ◌&&◌, ◌||◌, Option, none, some, List, [], ◌∷◌, map, any,
  ◌==◌, ltb, leb, max, String, is_none, Result, ok, err, ◌>>=◌, if◌then◌else◌,
}
use django_qraft.Task.{TaskStatus, is_terminal_failure}
use django_qraft.Retry.{RetryPolicy}
use django_qraft.Lease.{Execution, Verdict, no_attempt, claim}

pub data AttemptState : Type 0 where
  scheduled queued : AttemptState

-- A row of `QraftTaskAttempt`; the number names the row, by the unique constraint.
pub record Attempt : Type 0 where
  pub attempt_number : ℕ
  pub state : AttemptState
  pub not_before : Option ℕ
  pub claimed_at : Option ℕ
  pub q2_task_id : Option ℕ
  pub execution : Execution
  pub exception_class : Option String
  pub date_completed : Option ℕ
  pub routed : Bool
  pub returned_at : Option ℕ
  pub output_committed_at : Option ℕ

-- A `QraftTask` with its attempts, newest first. `next_q2` is a Django-Q2 id that nothing has yet,
-- `saved` the ids that have a saved result row, `finished` the numbers of the attempts whose outcome
-- was written, one entry for each write, and `routings` the numbers handed to workflow routing and
-- hooks.
pub record Job (F : Type 0) : Type 0 where
  pub status : TaskStatus
  pub retry_policy : Option (RetryPolicy F)
  pub attempts : List Attempt
  pub next_q2 : ℕ
  pub saved : List ℕ
  pub finished : List ℕ
  pub routings : List ℕ

-- What the operations raise; the transaction is rolled back.
pub data JobError : Type 0 where
  duplicate_attempt : JobError
  not_dead : TaskStatus → JobError
  enqueue_failed : JobError

abbrev pub is_queued : AttemptState → Bool
is_queued queued = true
is_queued scheduled = false

-- `success__isnull`: the attempt has no outcome.
abbrev pub is_open : Attempt → Bool
is_open a = is_none a.execution.success

abbrev pub is_running : TaskStatus → Bool
is_running TaskStatus.running = true
is_running _ = false

abbrev pub is_pending : TaskStatus → Bool
is_pending TaskStatus.pending = true
is_pending _ = false

abbrev pub no_execution : Execution
no_execution = record {
  date_started = none;
  heartbeat_at = none;
  worker = none;
  success = none;
  execution_count = 0;
}

-- `attempts.filter(pk=...).update(...)`
abbrev pub update : ℕ → (Attempt → Attempt) → List Attempt → List Attempt
update k f [] = []
update k f (a ∷ as') = (if a.attempt_number == k then f a else a) ∷ update k f as'

abbrev pub find : (Attempt → Bool) → List Attempt → Option Attempt
find p [] = none
find p (a ∷ as') = if p a then some a else find p as'

abbrev pub has_q2 : ℕ → Attempt → Bool
has_q2 q2 a = elim (a.q2_task_id) [ none ↦ false | some id ↦ id == q2 ]

abbrev pub has_number : ℕ → Attempt → Bool
has_number k a = a.attempt_number == k

-- `latest_attempt`, the number of it, or 0
abbrev pub latest_number : List Attempt → ℕ
latest_number [] = 0
latest_number (a ∷ as') = max a.attempt_number (latest_number as')

-- The row that `schedule_attempt` creates.
abbrev pub scheduled_row : ℕ → ℕ → Attempt
scheduled_row attempt_number not_before = record {
  attempt_number = attempt_number;
  state = scheduled;
  not_before = some not_before;
  claimed_at = none;
  q2_task_id = none;
  execution = no_execution;
  exception_class = none;
  date_completed = none;
  routed = false;
  returned_at = none;
  output_committed_at = none;
}

abbrev pub is_due : ℕ → Attempt → Bool
is_due now a = elim (a.not_before) [ none ↦ false | some t ↦ leb t now ]

-- The claim's update of the attempt and the enqueue's, of one transaction.
abbrev pub enqueued : ℕ → ℕ → Attempt → Attempt
enqueued claimed_at q2 a = record a {
  state = queued;
  claimed_at = some claimed_at;
  q2_task_id = some q2;
}

-- The execution of an attempt as a claim leaves it.
abbrev pub claimed_execution : ℕ → ℕ → ℕ → Execution → Execution
claimed_execution limit now worker e = elim ((claim limit now worker (some e)).1) [
  | none ↦ e
  | some e' ↦ e'
]

abbrev pub touched : ℕ → Attempt → Attempt
touched now a =
    if is_open a
    then record a { execution = record (a.execution) { heartbeat_at = some now } }
    else a

abbrev pub returned : ℕ → Attempt → Attempt
returned now a = if is_open a then record a { returned_at = some now } else a

module _ {F : Type 0} where
  -- The rows that `_create_and_enqueue` makes: attempt 1 is in the broker's queue.
  abbrev pub new_job : Option (RetryPolicy F) → Job F
  new_job policy = record {
    status = TaskStatus.running;
    retry_policy = policy;
    attempts =
        record {
          attempt_number = 1;
          state = queued;
          not_before = none;
          claimed_at = none;
          q2_task_id = some 0;
          execution = no_execution;
          exception_class = none;
          date_completed = none;
          routed = false;
          returned_at = none;
          output_committed_at = none;
        }
        ∷ [];
    next_q2 = 1;
    saved = [];
    finished = [];
    routings = [];
  }

  abbrev pub with_attempts : List Attempt → Job F → Job F
  with_attempts as' j = record j { attempts = as' }

  -- `schedule_attempt`: the row, unless its number exists, and the task pending again.
  unfoldable pub schedule_attempt : ℕ → ℕ → Job F → Result JobError (Job F)
  schedule_attempt attempt_number not_before j =
      if any (has_number attempt_number) j.attempts
      then err duplicate_attempt
      else ok (record j {
        status = TaskStatus.pending;
        attempts = scheduled_row attempt_number not_before ∷ j.attempts;
      })

  -- `requeue` of qraft/dlq.py, through an object that holds the given status.
  unfoldable pub requeue : TaskStatus → ℕ → Job F → Result JobError (Job F)
  unfolding schedule_attempt
  requeue seen now j =
      if is_terminal_failure seen
      then schedule_attempt (latest_number j.attempts + 1) now j
      else err (not_dead seen)

  -- `_claim_and_enqueue`, of the attempt that was read as due. `none`: nothing is due; `false`:
  -- another dispatcher won; an enqueue that the broker refuses raises.
  unfoldable pub claim_and_enqueue :
      Bool → ℕ → ℕ → ℕ → Job F → Result JobError (Option Bool × Job F)
  claim_and_enqueue accepted now claimed_at k j = elim (find (has_number k) j.attempts) [
    | none ↦ ok (none, j)
    | some a ↦
        if not (is_due now a)
        then ok (none, j)
        else if is_queued a.state
        then ok (some false, j)
        else if accepted
        then ok (
          some true,
          record j {
            status = if is_pending j.status then TaskStatus.running else j.status;
            attempts = update k (enqueued claimed_at j.next_q2) j.attempts;
            next_q2 = j.next_q2 + 1;
          },
        )
        else err enqueue_failed
  ]

  -- A delivery of a Django-Q2 task: the verdict, and the row that the claim updates.
  unfoldable pub deliver : ℕ → ℕ → ℕ → ℕ → Job F → Verdict × Job F
  deliver limit now worker q2 j = elim (find (has_q2 q2) j.attempts) [
    | none ↦ (no_attempt, j)
    | some a ↦ (
      (claim limit now worker (some a.execution)).0,
      with_attempts
          (update a.attempt_number
            (λ b. record b { execution = claimed_execution limit now worker b.execution })
            j.attempts)
          j,
    )
  ]

  -- `touch`: the heartbeat of an attempt that is open.
  unfoldable pub touch : ℕ → ℕ → Job F → Job F
  touch now q2 j = elim (find (has_q2 q2) j.attempts) [
    | none ↦ j
    | some a ↦ with_attempts (update a.attempt_number (touched now) j.attempts) j
  ]

  -- The stamp that the runner leaves when the function has returned.
  unfoldable pub stamp_returned : ℕ → ℕ → Job F → Job F
  stamp_returned now q2 j = elim (find (has_q2 q2) j.attempts) [
    | none ↦ j
    | some a ↦ with_attempts (update a.attempt_number (returned now) j.attempts) j
  ]

  -- The receipt that `publish` of qraft/graphs.py commits with the function's own writes.
  unfoldable pub stamp_committed : ℕ → ℕ → Job F → Job F
  stamp_committed now k j =
      with_attempts (update k (λ a. record a { output_committed_at = some now }) j.attempts) j

  -- The monitor saves a result row.
  unfoldable pub save_result : ℕ → Job F → Job F
  save_result q2 j = record j { saved = q2 ∷ j.saved }
