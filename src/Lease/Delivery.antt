-- ===== src/Lease/Delivery.antt =====
-- qraft/lease.py, qraft/context.py and qraft/runner.py: a delivery from the message to the call of
-- the task function, with the memo of the verdict that the executing thread keeps.
mod Calls
pub mod Bounded
pub mod Memo
use django_qraft.Prelude.{
  ℕ, ◌+◌, Bool, true, false, Option, none, some, List, [], ◌∷◌, get_elem?, set, ◌==◌, is_none,
  if◌then◌else◌,
}
use django_qraft.Lease.{
  Execution, Verdict, first_delivery, repeat_delivery, refused_delivery, no_attempt, claim, resolve,
}

-- Where the worker's loop stands with the message in hand.
pub data Phase : Type 0 where
  idle received ran : Phase

-- The context variables of an executing thread, or of a worker process's main thread.
pub record Context : Type 0 where
  pub phase : Phase
  pub current_q2_task_id : Option ℕ
  pub delivery_claim : Option (ℕ × Verdict)

-- The attempt rows by their Django-Q2 id.
abbrev pub Rows : Type 0
Rows = ℕ → Option Execution

abbrev pub write : Rows → ℕ → Option Execution → Rows
write rows q2 row id = if id == q2 then row else rows id

-- The verdict that the context remembers for this message.
abbrev pub remembered : ℕ → Option (ℕ × Verdict) → Option Verdict
remembered q2 none = none
remembered q2 (some (id, verdict)) = if id == q2 then some verdict else none

-- `set_delivery_claim`, which a message without an attempt does not reach.
abbrev pub remember : ℕ → Verdict → Context → Context
remember q2 no_attempt c = c
remember q2 verdict c = record c { delivery_claim = some (q2, verdict) }

-- `claim_delivery`: the verdict, the context and the rows after it.
unfoldable pub claim_delivery : ℕ → ℕ → ℕ → ℕ → Context → Rows → Verdict × Context × Rows
unfolding claim
claim_delivery limit now worker q2 c rows = elim (remembered q2 c.delivery_claim) [
  | some verdict ↦ (verdict, c, rows)
  | none ↦
      let (verdict, row) = claim limit now worker (rows q2) in
      (verdict, remember q2 verdict c, write rows q2 row)
]

-- What the name of a message says of its attempt: nothing, that it has no row or one that no message
-- holds yet, or that its row is held by a message.
pub data Marker : Type 0 where
  unmarked of_new : Marker
  held_by : ℕ → Marker

abbrev pub is_marked : Marker → Bool
is_marked unmarked = false
is_marked _ = true

abbrev pub new_execution : Execution
new_execution = record {
  date_started = none;
  heartbeat_at = none;
  worker = none;
  success = none;
  execution_count = 0;
}

-- `attempt_from_marker`: the attempt's row is created, or adopted from the message that held it.
abbrev pub adopted : Marker → ℕ → Rows → Rows
adopted unmarked q2 rows = rows
adopted of_new q2 rows = write rows q2 (some new_execution)
adopted (held_by old) q2 rows = write (write rows old none) q2 (rows old)

-- `open_marker_lease`, which is only reached by a message without a row.
unfoldable pub open_marker_lease : Marker → ℕ → Rows → Rows
open_marker_lease marker q2 rows = elim (rows q2) [ some e ↦ rows | none ↦ adopted marker q2 rows ]

-- A message that finds no row and carries a marker is claimed again behind the marker's row.
unfoldable pub claim_marked : Marker → ℕ → ℕ → ℕ → ℕ → Verdict → Context → Rows → Context × Rows
unfolding claim_delivery open_marker_lease
claim_marked marker limit now worker q2 no_attempt c rows =
    let again = claim_delivery limit now worker q2 c (open_marker_lease marker q2 rows) in
    if is_marked marker then (again.1, again.2) else (c, rows)
claim_marked marker limit now worker q2 verdict c rows = (c, rows)

-- The two `pre_execute` receivers: the current message, then the lease.
unfoldable pub on_pre_execute : Marker → ℕ → ℕ → ℕ → ℕ → Context → Rows → Context × Rows
unfolding claim_marked
on_pre_execute marker limit now worker q2 c rows =
    let (verdict, c1, rows1) =
      claim_delivery limit now worker q2
        (record c { phase = received; current_q2_task_id = some q2 }) rows in
    claim_marked marker limit now worker q2 verdict c1 rows1

-- `guard_delivery` raises on a refused verdict.
abbrev pub call_unless_refused : ℕ → Verdict → Option ℕ
call_unless_refused q2 refused_delivery = none
call_unless_refused q2 _ = some q2

-- `run_task`: the message whose function was called, if any.
unfoldable pub run_task : ℕ → ℕ → ℕ → Context → Rows → Option ℕ × Context × Rows
unfolding claim_delivery
run_task limit now worker c rows = elim (c.current_q2_task_id) [
  | none ↦ (none, record c { phase = ran }, rows)
  | some q2 ↦
      let (verdict, c1, rows1) = claim_delivery limit now worker q2 c rows in
      (call_unless_refused q2 verdict, record c1 { phase = ran }, rows1)
]

-- The end of a message: the threaded worker calls `clear_context`, the process worker of Django-Q2
-- does not know it.
unfoldable pub finish : Bool → Context → Context
finish threaded c =
    if threaded
    then record { phase = idle; current_q2_task_id = none; delivery_claim = none }
    else record c { phase = idle }

-- A thread takes a message, comes to the task function, or is done with the message; or another
-- process resolves an attempt.
pub data Event : Type 0 where
  receive : Marker → ℕ → ℕ → ℕ → Event
  execute : ℕ → ℕ → Event
  leave : ℕ → Event
  settle : ℕ → Bool → Event

-- The threads of the workers, the rows, and the messages whose function was called, newest first.
pub record World : Type 0 where
  pub contexts : List Context
  pub rows : Rows
  pub calls : List ℕ

abbrev pub add_call : Option ℕ → List ℕ → List ℕ
add_call none calls = calls
add_call (some q2) calls = q2 ∷ calls

-- A thread goes through its phases in order; any other event is not one of its loop.
abbrev pub receive_in : Marker → ℕ → ℕ → ℕ → ℕ → Phase → Context → World → World
receive_in marker limit now thread q2 idle c w =
    let (c', rows') = on_pre_execute marker limit now thread q2 c w.rows in
    record w { contexts = set w.contexts thread c'; rows = rows' }
receive_in marker limit now thread q2 _ c w = w

abbrev pub execute_in : ℕ → ℕ → ℕ → Phase → Context → World → World
execute_in limit now thread received c w =
    let (called, c', rows') = run_task limit now thread c w.rows in
    record { contexts = set w.contexts thread c'; rows = rows'; calls = add_call called w.calls }
execute_in limit now thread _ c w = w

abbrev pub leave_in : Bool → ℕ → Phase → Context → World → World
leave_in threaded thread ran c w = record w { contexts = set w.contexts thread (finish threaded c) }
leave_in threaded thread _ c w = w

unfoldable pub step : Bool → ℕ → Event → World → World
unfolding on_pre_execute run_task finish resolve
step threaded limit (receive marker now thread q2) w = elim (get_elem? w.contexts thread) [
  | none ↦ w
  | some c ↦ receive_in marker limit now thread q2 c.phase c w
]
step threaded limit (execute now thread) w = elim (get_elem? w.contexts thread) [
  | none ↦ w
  | some c ↦ execute_in limit now thread c.phase c w
]
step threaded limit (leave thread) w = elim (get_elem? w.contexts thread) [
  | none ↦ w
  | some c ↦ leave_in threaded thread c.phase c w
]
step threaded limit (settle q2 outcome) w = record w {
  rows = write w.rows q2 (resolve outcome (w.rows q2));
}

unfoldable pub at_end : Bool → ℕ → List Event → World → World
unfolding step
at_end threaded limit [] w = w
at_end threaded limit (event ∷ events) w =
    at_end threaded limit events (step threaded limit event w)
