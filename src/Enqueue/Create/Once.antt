-- ===== src/Enqueue/Create/Once.antt =====
-- Calls of `async_task` in any interleaving: how many messages one idempotency key gives.
use django_qraft.Prelude.{
  ℕ, suc, zero, ◌+◌, ◌≤◌, String, Bool, false, Option, none, some, List, [], ◌∷◌, get_elem?,
  count_if, if◌then◌else◌, ◌≡◌, refl, arith,
}
use django_qraft.Task.{TaskStatus}
use django_qraft.Retry.Settings.{Checks, Defaults}
use django_qraft.Enqueue.{Call, GraphLabels, check_arguments}
use django_qraft.Enqueue.Create.{Metadata, TaskRow, Tables, holds, Begun, creating, begin, complete}
use django_qraft.Enqueue.Create.Keys.{
  holders, messages_under, may_reclaim, Bounded, more-Bounded, complete-Bounded, checked-Bounded,
}

-- Steps of the calls in any processes, and what else writes the rows: a call comes to its
-- transaction, the transaction of a pending call runs in a process of a cluster with the graphs and what the
-- broker answers, a task's status changes, and a task gets a further attempt.
pub data Event (F : Type 0) : Type 0 where
  call : Call F → Event F
  commit : ℕ → String → (ℕ → Option GraphLabels) → Option ℕ → Event F
  change : ℕ → TaskStatus → Event F
  attempt : ℕ → Option ℕ → Event F

pub record World (F : Type 0) : Type 0 where
  pub tables : Tables F
  pub pending : List (Metadata F)

module _ {F : Type 0} where
  abbrev pub modify : ℕ → (TaskRow F → TaskRow F) → List (TaskRow F) → List (TaskRow F)
  modify i f [] = []
  modify zero f (r ∷ rs) = f r ∷ rs
  modify (suc i) f (r ∷ rs) = r ∷ modify i f rs

  abbrev pub drop_at : ℕ → List (Metadata F) → List (Metadata F)
  drop_at i [] = []
  drop_at zero (m ∷ ms) = ms
  drop_at (suc i) (m ∷ ms) = m ∷ drop_at i ms

  abbrev pub add_pending : Begun F → List (Metadata F) → List (Metadata F)
  add_pending (creating m) ms = m ∷ ms
  add_pending _ ms = ms

  abbrev pub with_status : TaskStatus → TaskRow F → TaskRow F
  with_status s r = record r { status = s }

  abbrev pub with_attempt : Option ℕ → TaskRow F → TaskRow F
  with_attempt q2 r = record r { q2_task_ids = q2 ∷ r.q2_task_ids }

  abbrev pub with_rows : List (TaskRow F) → World F → World F
  with_rows rows w = record w { tables = record (w.tables) { rows = rows } }

  abbrev pub commit_pending :
      ℕ → String → (ℕ → Option GraphLabels) → Option ℕ → Option (Metadata F) → World F → World F
  commit_pending i own locked answer none w = w
  commit_pending i own locked answer (some m) w = record {
    tables = (complete own locked answer m w.tables).1;
    pending = drop_at i w.pending;
  }

  module _ (checks : Checks F) (defaults : Defaults F) (graphs : ℕ → Option GraphLabels) where
    unfoldable pub step : Event F → World F → World F
    unfolding begin complete
    step (call c) w =
        let (b, tables') = begin checks defaults graphs c w.tables in
        record { tables = tables'; pending = add_pending b w.pending }
    step (commit i own locked answer) w =
        commit_pending i own locked answer (get_elem? w.pending i) w
    step (change i s) w = with_rows (modify i (with_status s) w.tables.rows) w
    step (attempt i q2) w = with_rows (modify i (with_attempt q2) w.tables.rows) w

    unfoldable pub at_end : List (Event F) → World F → World F
    unfolding step
    at_end [] w = w
    at_end (e ∷ events) w = at_end events (step e w)

  -- Whether the event is a call that may take the key from a dead task.
  abbrev pub is_reclaim : String → Event F → Bool
  is_reclaim key (call c) = may_reclaim key c
  is_reclaim key _ = false

  holders-modify :
      (k : String) (i : ℕ) (f : TaskRow F → TaskRow F) (rows : List (TaskRow F))
      → ((r : TaskRow F) → holds k (f r) ≡ holds k r)
      → holders k (modify i f rows) ≡ holders k rows
  holders-modify k i f [] h = refl
  holders-modify k zero f (r ∷ rs) h = ground (arith, h r)
  holders-modify k (suc i) f (r ∷ rs) h = ground (arith, holders-modify k i f rs h)

  commit-Bounded :
      (k own : String) (n i : ℕ) (locked : ℕ → Option GraphLabels) (answer : Option ℕ)
      (o : Option (Metadata F)) (w : World F)
      → Bounded k n w.tables
      → Bounded k n (commit_pending i own locked answer o w).tables
  commit-Bounded k own n i locked answer none w h = h
  commit-Bounded k own n i locked answer (some m) w h =
      complete-Bounded k own n locked answer m w.tables h

  count-cons :
      (p : Event F → Bool) (e : Event F) (events : List (Event F))
      → count_if p (e ∷ events) ≡ (if p e then 1 else 0) + count_if p events
  count-cons p e events = ground arith

  module _ (checks : Checks F) (defaults : Defaults F) (graphs : ℕ → Option GraphLabels) where
    step-Bounded :
        (k : String) (n : ℕ) (e : Event F) (w : World F)
        → Bounded k n w.tables
        → Bounded k ((if is_reclaim k e then 1 else 0) + n) (step checks defaults graphs e w).tables
    unfolding step
    step-Bounded k n (call c) w h =
        checked-Bounded checks defaults graphs k n (check_arguments c) c w.tables h
    step-Bounded k n (commit i own locked answer) w h =
        more-Bounded {F = F} k false n
          (commit_pending i own locked answer (get_elem? w.pending i) w).tables
          (commit-Bounded k own n i locked answer (get_elem? w.pending i) w h)
    step-Bounded k n (change i s) w h =
        omega (arith, holders-modify k i (with_status s) w.tables.rows (λ r. refl))
    step-Bounded k n (attempt i q2) w h =
        omega (arith, holders-modify k i (with_attempt q2) w.tables.rows (λ r. refl))

    at_end-Bounded :
        (k : String) (n : ℕ) (events : List (Event F)) (w : World F)
        → Bounded k n w.tables
        → Bounded k
            (count_if (is_reclaim k) events + n)
            (at_end checks defaults graphs events w).tables
    unfolding at_end
    at_end-Bounded k n [] w h = more-Bounded k false n w.tables h
    at_end-Bounded k n (e ∷ events) w h =
        let w' : World F = step checks defaults graphs e w in
        let b : ℕ = if is_reclaim k e then 1 else 0 in
        let (one, all_of) = at_end-Bounded k (b + n) events w' (step-Bounded k n e w h) in
        (one, omega (arith, all_of, count-cons (is_reclaim k) e events))

  abbrev pub no_tasks : World F
  no_tasks = record { tables = record { rows = []; messages = [] }; pending = [] }

-- Of all calls of `async_task` with one idempotency key, at most one is enqueued, and one more for each
-- of them that may take the key from a dead task, whatever the interleaving of the calls with one
-- another and with the tasks' changes, and whatever the broker answers; at most one task holds the
-- key. The tables are empty at the start, and tasks are not deleted.
pub once_per_key :
    {F : Type 0} (checks : Checks F) (defaults : Defaults F) (graphs : ℕ → Option GraphLabels)
    (key : String) (events : List (Event F))
    → (messages_under key (at_end checks defaults graphs events no_tasks).tables.messages
        ≤ 1 + count_if (is_reclaim key) events)
      × (holders key (at_end checks defaults graphs events no_tasks).tables.rows ≤ 1)
once_per_key checks defaults graphs key events =
    let (a, b) = at_end-Bounded checks defaults graphs key 0 events no_tasks (omega arith) in
    (omega arith, a)
