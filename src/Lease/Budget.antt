-- ===== src/Lease/Budget.antt =====
-- Deliveries and resolutions of one attempt in any order: how many are admitted.
use django_qraft.Prelude.{
  ℕ, ◌+◌, ◌≤◌, Bool, false, Option, none, some, List, [], ◌∷◌, count_if, is_none, ◌≡◌, refl, arith,
  if◌then◌else◌,
}
use django_qraft.Lease.{Execution, Verdict, claim, is_admitted, is_first, resolve}

-- A delivery to a worker at a time, or a resolution: a result, or the reaper's.
pub data Event : Type 0 where
  deliver : ℕ → ℕ → Event
  settle : Bool → Event

-- The verdicts of the deliveries, in order.
unfoldable pub verdicts : ℕ → List Event → Option Execution → List Verdict
unfolding claim resolve
verdicts limit [] row = []
verdicts limit (deliver now worker ∷ events) row =
    let (verdict, row') = claim limit now worker row in verdict ∷ verdicts limit events row'
verdicts limit (settle outcome ∷ events) row = verdicts limit events (resolve outcome row)

-- What is left of the one first delivery.
abbrev starts_left : Option Execution → ℕ
starts_left none = 0
starts_left (some e) = if is_none e.date_started then 1 else 0

-- Of the deliveries of an attempt the claim admits at most as many as its budget allows, whatever is
-- delivered and whenever it is resolved: with `execution_count` within the limit at the start, that count and the
-- admitted deliveries are within it.
pub admitted-bounded :
    (limit : ℕ) (events : List Event) (e : Execution)
    → e.execution_count ≤ limit
    → e.execution_count + count_if is_admitted (verdicts limit events (some e)) ≤ limit
unfolding verdicts
admitted-bounded limit [] e h = omega arith
admitted-bounded limit (deliver now worker ∷ events) e h = ground (
  arith,
  admitted-bounded limit events (record e {
    date_started = some now;
    heartbeat_at = some now;
    worker = some worker;
    execution_count = e.execution_count + 1;
  }),
  admitted-bounded limit events (record e {
    heartbeat_at = some now;
    worker = some worker;
    execution_count = e.execution_count + 1;
  }),
  admitted-bounded limit events e,
)
admitted-bounded limit (settle outcome ∷ events) e h = ground (
  arith,
  admitted-bounded limit events (record e { success = some outcome }),
  admitted-bounded limit events e,
)

-- A resolved attempt is executed no more: every delivery of it is refused.
pub resolved-refused :
    (limit : ℕ) (events : List Event) (e : Execution)
    → is_none e.success ≡ false
    → count_if is_admitted (verdicts limit events (some e)) ≡ 0
unfolding verdicts
resolved-refused limit [] e h = refl
resolved-refused limit (deliver now worker ∷ events) e h =
    ground (arith, resolved-refused limit events e h)
resolved-refused limit (settle outcome ∷ events) e h =
    ground (arith, resolved-refused limit events e h)

first_bounded :
    (limit : ℕ) (events : List Event) (row : Option Execution)
    → count_if is_first (verdicts limit events row) ≤ starts_left row
unfolding verdicts
first_bounded limit [] row = omega arith
first_bounded limit (deliver now worker ∷ events) none =
    ground (arith, first_bounded limit events none)
first_bounded limit (deliver now worker ∷ events) (some e) = ground (
  arith,
  first_bounded limit events (
      some (record e {
        date_started = some now;
        heartbeat_at = some now;
        worker = some worker;
        execution_count = e.execution_count + 1;
      })),
  first_bounded limit events (
      some (record e {
        heartbeat_at = some now;
        worker = some worker;
        execution_count = e.execution_count + 1;
      })),
  first_bounded limit events (some e),
)
first_bounded limit (settle outcome ∷ events) none = ground (arith, first_bounded limit events none)
first_bounded limit (settle outcome ∷ events) (some e) = ground (
  arith,
  first_bounded limit events (some (record e { success = some outcome })),
  first_bounded limit events (some e),
)

starts_left-bounded : (row : Option Execution) → starts_left row ≤ 1
starts_left-bounded none = omega arith
starts_left-bounded (some e) = ground arith

-- An attempt is started at most once: of all deliveries of one row, at most one is the first.
pub first-once :
    (limit : ℕ) (events : List Event) (row : Option Execution)
    → count_if is_first (verdicts limit events row) ≤ 1
first-once limit events row = omega (arith, first_bounded limit events row, starts_left-bounded row)
