-- ===== src/Job/Life.antt =====
-- What holds of a task in every history of calls on its rows.
use django_qraft.Prelude.{
  some, ℕ, suc, ◌+◌, ◌≤◌, max, Bool, true, false, Option, List, [], ◌∷◌, length, count_if, ◌≡◌,
  refl, ap, arith, Bool-cases, inl, inr, Result, ok, if◌then◌else◌,
}
use django_qraft.Task.{TaskStatus, is_terminal_failure}
use django_qraft.Retry.{Arithmetic, RetryPolicy, Failure}
use django_qraft.Retry.Settings.{Checks, Defaults, Arguments, from_dict}
use django_qraft.Retry.RoundTrip.{from_dict-IsValid}
use django_qraft.Job.{
  Attempt, Job, JobError, is_open, new_job, latest_number, scheduled_row, schedule_attempt, requeue,
  claim_and_enqueue,
}
use django_qraft.Job.Completion.{qraft_hook_handler}
use django_qraft.Job.Reaper.{reap_one}
use django_qraft.Job.Tracked.{is_live, Latest-next}
use django_qraft.Job.Machine.{phase, allowance, IsTracked, Good, Good-same}
use django_qraft.Job.Rows.{terminal-dead}
use django_qraft.Job.Operations.{
  Makes, made, claim_and_enqueue-Good, deliver-Good, touch-Good, stamp_returned-Good,
  stamp_committed-Good, save_result-Good, rearm-Good, replay_unrouted-Good, requeue-Revived,
  requeue-refused,
}
use django_qraft.Job.Outcomes.{qraft_hook_handler-Good, reap_one-Good}
use django_qraft.Job.History.{
  IsCurrent, IsTimely, IsTimelyAll, Op, dispatch, delivery, heartbeat, return_stamp, receipt,
  saved_result, completion, stuck_claim, orphan, unrouted, by_hand, is_by_hand, committed, apply,
  replay,
}
use django_qraft.Job.Counted.{
  Life, settled_numbers, Latest-one_open, Latest-written, Result-cases, Life-bounded, step, revive,
}

module _ {F : Type 0} where
  -- The rows after a call, from those before it.
  pub record Advance (revives : Bool) (j j' : Job F) : Type 0 where
    pub tracked : IsTracked j'
    pub life :
        Life revives
          (allowance j.retry_policy)
          (phase j.status)
          (length j.attempts)
          (phase j'.status)
          (length j'.attempts)
    pub policy : j'.retry_policy ≡ j.retry_policy

  Good-Advance : (b : Bool) (j j' : Job F) → Good j j' → Advance b j j'
  Good-Advance b j j' g = record { tracked = g.tracked; life = step g.step; policy = g.policy }

  Makes-Advance :
      (b : Bool) (j : Job F) (r : Result JobError (Job F))
      → Makes j r
      → Advance b j (committed j (λ j'. j') r)
  Makes-Advance b j r (made j' e g) = rw e (Good-Advance b j j' g)

  Makes-ok : (j : Job F) (r : Result JobError (Job F)) → Makes j r → (j' : Job F) × (r ≡ ok j')
  Makes-ok j r (made j' e g) = (j', e)

  dispatch-Advance :
      (accepted : Bool) (now claimed_at k : ℕ) (j : Job F)
      → IsTracked j
      → Advance false j (committed j (λ r. r.1) (claim_and_enqueue accepted now claimed_at k j))
  dispatch-Advance accepted now claimed_at k j h =
      elim (Result-cases (claim_and_enqueue accepted now claimed_at k j)) [
        | inl ((b, j'), e) ↦
            rw e (
              Good-Advance false j j' (claim_and_enqueue-Good accepted now claimed_at k b j j' h e))
        | inr (x, e) ↦ rw e (Good-Advance false j j (Good-same j h))
      ]

  by_hand-Advance :
      (seen : TaskStatus) (now : ℕ) (j : Job F)
      → IsTracked j
      → IsTimely (by_hand seen now) j
      → Advance true j (committed j (λ j'. j') (requeue seen now j))
  by_hand-Advance seen now j h t = elim (Bool-cases (is_terminal_failure seen)) [
    | inr e ↦ rw (requeue-refused seen now j e) (Good-Advance true j j (Good-same j h))
    | inl e ↦
        let (j', q, r) = requeue-Revived seen now j h e (terminal-dead j.status (t e)) in
        rw q (record {
          tracked = r.tracked;
          life = revive refl r.was_dead r.alive r.grown;
          policy = r.policy;
        })
  ]

  -- A requeue through an object that still holds a dead status, of a task that is live again, is not
  -- refused: it leaves two attempts without an outcome, and the task pending.
  pub stale_requeue :
      (seen : TaskStatus) (now : ℕ) (j : Job F)
      → IsTracked j
      → is_live j.status ≡ true
      → is_terminal_failure seen ≡ true
      → (j' : Job F) × (requeue seen now j ≡ ok j')
        × (count_if is_open j'.attempts ≡ 2)
        × (j'.status ≡ TaskStatus.pending)
  unfolding requeue schedule_attempt
  stale_requeue seen now j h alive dead_seen =
      let (latest, free) = Latest-next j.status j.finished j.attempts h in
      let one = Latest-one_open j.status j.finished j.attempts h in
      (
        record j {
          status = TaskStatus.pending;
          attempts = scheduled_row (latest_number j.attempts + 1) now ∷ j.attempts;
        },
        rw (requeue, schedule_attempt, dead_seen, free) refl,
        ap suc (rw alive at one),
        refl,
      )

  module _ (A : Arithmetic F) where
    apply-Advance :
        (op : Op F) (j : Job F)
        → IsTracked j
        → IsTimely op j
        → Advance (is_by_hand op) j (apply A op j)
    unfolding apply
    apply-Advance (dispatch accepted now claimed_at k) j h t =
        dispatch-Advance accepted now claimed_at k j h
    apply-Advance (delivery limit now worker q2) j h t =
        Good-Advance false j _ (deliver-Good limit now worker q2 j h)
    apply-Advance (heartbeat now q2) j h t = Good-Advance false j _ (touch-Good now q2 j h)
    apply-Advance (return_stamp now q2) j h t =
        Good-Advance false j _ (stamp_returned-Good now q2 j h)
    apply-Advance (receipt now k) j h t = Good-Advance false j _ (stamp_committed-Good now k j h)
    apply-Advance (saved_result q2) j h t = Good-Advance false j _ (save_result-Good q2 j h)
    apply-Advance (completion survives cancelled success stopped f q2) j h t =
        Makes-Advance false j (qraft_hook_handler A survives cancelled success stopped f q2 j)
          (qraft_hook_handler-Good A survives cancelled success stopped f q2 j h)
    apply-Advance (stuck_claim cutoff k) j h t = Good-Advance false j _ (rearm-Good cutoff k j h)
    apply-Advance (orphan survives cancelled cutoff f seen) j h t =
        Makes-Advance false j (reap_one A survives cancelled cutoff f seen j)
          (reap_one-Good A survives cancelled cutoff f seen j h t)
    apply-Advance (unrouted cutoff k) j h t =
        Good-Advance false j _ (replay_unrouted-Good cutoff k j h)
    apply-Advance (by_hand seen now) j h t = by_hand-Advance seen now j h t

    -- From rows in order, each call on a task (a dispatch, a delivery, a heartbeat, a stamp, a
    -- completion, a sweep of the reaper or a requeue) leaves rows in order and makes one step of the
    -- task's life: it leaves phase and attempts, ends the task in success or death, adds an attempt
    -- to a live task whose attempts are below the policy's limit, or, if it is a requeue, revives a
    -- dead task with one attempt more. Of a requeue whose object has a dead status it is assumed that
    -- the task is dead, and of a sweep whose copy of the attempt, read before the lock, has no
    -- outcome, that the attempt still has none.
    pub apply-refines :
        (op : Op F) (j : Job F)
        → IsTracked j
        → IsTimely op j
        → IsTracked (apply A op j)
          × Life
              (is_by_hand op)
              (allowance j.retry_policy)
              (phase j.status)
              (length j.attempts)
              (phase ((apply A op j).status))
              (length ((apply A op j).attempts))
    apply-refines op j h t = let g = apply-Advance op j h t in (g.tracked, g.life)

    replay-IsTracked :
        (ops : List (Op F)) (j : Job F)
        → IsTracked j
        → IsTimelyAll A ops j
        → IsTracked (replay A ops j)
    unfolding replay IsTimelyAll
    replay-IsTracked [] j h t = h
    replay-IsTracked (op ∷ ops) j h t =
        replay-IsTracked ops (apply A op j) ((apply-Advance op j h t.0).tracked) t.1

    new_job-IsTracked : (policy : Option (RetryPolicy F)) → IsTracked (new_job policy)
    new_job-IsTracked policy = (refl, refl, refl, tt)

    -- In every history of a new task, a pending or running task has exactly one attempt without an
    -- outcome, and a task at its end has none: if each requeue whose object has a dead status finds
    -- the task dead, and each copy without an outcome that the reaper read before the lock is of an
    -- attempt that still has none.
    pub one_open :
        (policy : Option (RetryPolicy F)) (ops : List (Op F))
        → IsTimelyAll A ops (new_job policy)
        → let j = replay A ops (new_job policy) in
          count_if is_open j.attempts ≡ (if is_live j.status then 1 else 0)
    one_open policy ops t =
        let j = replay A ops (new_job policy) in
        Latest-one_open j.status j.finished j.attempts
          (replay-IsTracked ops (new_job policy) (new_job-IsTracked policy) t)

    -- In every history of a new task, the outcomes written are those of the attempts that have one,
    -- each written once, in the order of the attempts' numbers: if each requeue whose object has a
    -- dead status finds the task dead, and each copy without an outcome that the reaper read before
    -- the lock is of an attempt that still has none.
    pub resolved_once :
        (policy : Option (RetryPolicy F)) (ops : List (Op F))
        → IsTimelyAll A ops (new_job policy)
        → let j = replay A ops (new_job policy) in j.finished ≡ settled_numbers j.attempts
    resolved_once policy ops t =
        let j = replay A ops (new_job policy) in
        Latest-written j.status j.finished j.attempts
          (replay-IsTracked ops (new_job policy) (new_job-IsTracked policy) t)

    -- The hook of a result and the reaper's sweep return after every history of a new task: they never
    -- find the number of the attempt they schedule taken, if, in the history and in that sweep, each
    -- requeue whose object has a dead status finds the task dead, and each copy without an outcome
    -- that the reaper read before the lock is of an attempt that still has none.
    pub outcomes_return :
        (policy : Option (RetryPolicy F)) (ops : List (Op F)) (survives cancelled success : Bool)
        (stopped cutoff : ℕ) (f : Failure F) (q2 : ℕ) (seen : Option Attempt)
        → IsTimelyAll A ops (new_job policy)
        → IsCurrent seen (replay A ops (new_job policy))
        → let j = replay A ops (new_job policy) in
          ((j' : Job F) × (qraft_hook_handler A survives cancelled success stopped f q2 j ≡ ok j'))
          × ((j' : Job F) × (reap_one A survives cancelled cutoff f seen j ≡ ok j'))
    outcomes_return policy ops survives cancelled success stopped cutoff f q2 seen t c =
        let j = replay A ops (new_job policy) in
        let h = replay-IsTracked ops (new_job policy) (new_job-IsTracked policy) t in
        (
          Makes-ok j _ (qraft_hook_handler-Good A survives cancelled success stopped f q2 j h),
          Makes-ok j _ (reap_one-Good A survives cancelled cutoff f seen j h c),
        )

    replay-bounded :
        (ops : List (Op F)) (j : Job F) (m : ℕ)
        → IsTracked j
        → IsTimelyAll A ops j
        → length j.attempts ≤ m
        → allowance j.retry_policy ≤ m
        → length ((replay A ops j).attempts) ≤ m + count_if is_by_hand ops
    unfolding replay IsTimelyAll
    replay-bounded [] j m h t le a = ground arith
    replay-bounded (op ∷ ops) j m h t le a =
        let g = apply-Advance op j h t.0 in
        let n = if is_by_hand op then 1 else 0 in
        let grown =
          Life-bounded (is_by_hand op) (allowance j.retry_policy) (length j.attempts)
            (length ((apply A op j).attempts)) m (phase j.status) (phase ((apply A op j).status))
            g.life le a in
        let below : allowance ((apply A op j).retry_policy) ≤ m + n =
          rw (g.policy) (omega (arith, a)) in
        let rest = replay-bounded ops (apply A op j) (m + n) g.tracked t.1 grown below in
        elim (Bool-cases (is_by_hand op)) [
          | inl y ↦ rw (count_if, y) (omega (arith, rw y at rest))
          | inr y ↦ rw (count_if, y) (omega (arith, rw y at rest))
        ]

    -- In every history of a new task there are at most as many attempts as its policy allows, and at
    -- least one is allowed, and one more for each requeue by an operator: if each requeue whose object
    -- has a dead status finds the task dead, and each copy without an outcome that the reaper read
    -- before the lock is of an attempt that still has none.
    pub attempts_bounded :
        (policy : Option (RetryPolicy F)) (ops : List (Op F))
        → IsTimelyAll A ops (new_job policy)
        → length ((replay A ops (new_job policy)).attempts)
          ≤ max 1 (allowance policy) + count_if is_by_hand ops
    attempts_bounded policy ops t =
        replay-bounded ops (new_job policy) (max 1 (allowance policy)) (new_job-IsTracked policy) t
          (omega arith) (omega arith)

    -- In every history of a new task whose policy the constructor made there are at most ten attempts,
    -- and one more for each requeue by an operator: if each requeue whose object has a dead status
    -- finds the task dead, and each copy without an outcome that the reaper read before the lock is of
    -- an attempt that still has none.
    pub made_policy_bounded :
        (C : Checks F) (d : Defaults F) (a : Arguments F) (p : RetryPolicy F) (ops : List (Op F))
        → from_dict C d a ≡ ok p
        → IsTimelyAll A ops (new_job (some p))
        → length ((replay A ops (new_job (some p))).attempts) ≤ 10 + count_if is_by_hand ops
    made_policy_bounded C d a p ops e t =
        let valid = from_dict-IsValid C d a p e in
        omega (arith, attempts_bounded (some p) ops t, valid.at_most_ten)
