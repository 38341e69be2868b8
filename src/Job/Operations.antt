-- ===== src/Job/Operations.antt =====
-- Each operation on the rows of a task that is in order makes one step of the task's life.
use mathlib.Core.Path.{subst}
use django_qraft.Prelude.{
  ℕ, ◌+◌, ◌<◌, Bool, true, false, ◌&&◌, Option, none, some, length, ◌≡◌, refl, sym, ap, ◌∙◌, arith,
  Bool-cases, Option-cases, inl, inr, is_none, Result, ok, err, if◌then◌else◌,
}
use django_qraft.Task.{TaskStatus, is_terminal_failure}
use django_qraft.Retry.{RetryPolicy}
use django_qraft.Job.{
  Job, JobError, is_open, is_due, is_queued, is_pending, update, find, has_q2, has_number,
  latest_number, not_dead, with_attempts, requeue, claim_and_enqueue, deliver, touch,
  stamp_returned, stamp_committed, save_result, enqueued, touched, returned, claimed_execution,
}
use django_qraft.Job.Completion.{mark_routed, is_unrouted, replay_unrouted}
use django_qraft.Job.Reaper.{claimed_before, rearm, rearmed}
use django_qraft.Job.Tracked.{length-update, Latest-status, Latest-settled}
use django_qraft.Job.Machine.{
  live, dead, phase, stay, again, give_up, allowance, IsTracked, Good, Good-same, Good-update,
  mark_routed-Good, route-Good, IsSettled, IsSettled-ends, Retried, more, over,
  schedule_attempt-next,
}
use django_qraft.Job.Rows.{
  phase-dead, claimed-live, claimed-phase, claim-open, Keeps-claimed, touched-open, returned-open,
  Keeps-touched, Keeps-returned,
}

module _ {F : Type 0} where
  -- The computation returns rows, one step further.
  pub data Makes (j : Job F) (r : Result JobError (Job F)) : Type 0 where
    made : (j' : Job F) → r ≡ ok j' → Good j j' → Makes j r

  pub deliver-Good :
      (limit now worker q2 : ℕ) (j : Job F) → IsTracked j → Good j (deliver limit now worker q2 j).1
  unfolding deliver
  deliver-Good limit now worker q2 j h = elim (Option-cases (find (has_q2 q2) j.attempts)) [
    | inl e ↦ rw (deliver, e) (Good-same j h)
    | inr (a, e) ↦
        rw (deliver, e)
          (Good-update a.attempt_number
            (λ b. record b { execution = claimed_execution limit now worker b.execution }) j j
            (Keeps-claimed limit now worker)
            (λ b. ap is_none (claim-open limit now worker b.execution)) (Good-same j h))
  ]

  pub touch-Good : (now q2 : ℕ) (j : Job F) → IsTracked j → Good j (touch now q2 j)
  unfolding touch
  touch-Good now q2 j h = elim (Option-cases (find (has_q2 q2) j.attempts)) [
    | inl e ↦ rw (touch, e) (Good-same j h)
    | inr (a, e) ↦
        rw (touch, e)
          (Good-update a.attempt_number (touched now) j j (Keeps-touched now) (touched-open now)
            (Good-same j h))
  ]

  pub stamp_returned-Good :
      (now q2 : ℕ) (j : Job F) → IsTracked j → Good j (stamp_returned now q2 j)
  unfolding stamp_returned
  stamp_returned-Good now q2 j h = elim (Option-cases (find (has_q2 q2) j.attempts)) [
    | inl e ↦ rw (stamp_returned, e) (Good-same j h)
    | inr (a, e) ↦
        rw (stamp_returned, e)
          (Good-update a.attempt_number (returned now) j j (Keeps-returned now) (returned-open now)
            (Good-same j h))
  ]

  pub stamp_committed-Good :
      (now k : ℕ) (j : Job F) → IsTracked j → Good j (stamp_committed now k j)
  unfolding stamp_committed
  stamp_committed-Good now k j h =
      Good-update k (λ a. record a { output_committed_at = some now }) j j
        (record { number = λ a. refl; closed = λ a o. o }) (λ a. refl) (Good-same j h)

  pub save_result-Good : (q2 : ℕ) (j : Job F) → IsTracked j → Good j (save_result q2 j)
  unfolding save_result
  save_result-Good q2 j h = record { tracked = h; step = stay refl refl; policy = refl }

  pub rearm-Good : (cutoff k : ℕ) (j : Job F) → IsTracked j → Good j (rearm cutoff k j)
  unfolding rearm
  rearm-Good cutoff k j h = elim (Option-cases (find (has_number k) j.attempts)) [
    | inl e ↦ rw (rearm, e) (Good-same j h)
    | inr (a, e) ↦
        elim (Bool-cases
          (is_queued a.state && is_none a.q2_task_id && is_open a && claimed_before cutoff a)) [
            | inl t ↦
                rw (rearm, e, t)
                  (Good-update k rearmed j j (record { number = λ b. refl; closed = λ b o. o })
                    (λ b. refl) (Good-same j h))
            | inr t ↦ rw (rearm, e, t) (Good-same j h)
          ]
  ]

  pub replay_unrouted-Good :
      (cutoff k : ℕ) (j : Job F) → IsTracked j → Good j (replay_unrouted cutoff k j)
  unfolding replay_unrouted
  replay_unrouted-Good cutoff k j h = elim (Option-cases (find (has_number k) j.attempts)) [
    | inl e ↦ rw (replay_unrouted, e) (Good-same j h)
    | inr (a, e) ↦ elim (Bool-cases (is_unrouted cutoff a)) [
      | inl t ↦ rw (replay_unrouted, e, t) (route-Good k j j (Good-same j h))
      | inr t ↦ rw (replay_unrouted, e, t) (Good-same j h)
    ]
  ]

  -- A dead task is live again, with one attempt more.
  pub record Revived (j j' : Job F) : Type 0 where
    pub tracked : IsTracked j'
    pub was_dead : phase j.status ≡ dead
    pub alive : phase j'.status ≡ live
    pub grown : length j'.attempts ≡ length j.attempts + 1
    pub policy : j'.retry_policy ≡ j.retry_policy

  pub requeue-Revived :
      (seen : TaskStatus) (now : ℕ) (j : Job F)
      → IsTracked j
      → is_terminal_failure seen ≡ true
      → phase j.status ≡ dead
      → (j' : Job F) × (requeue seen now j ≡ ok j') × Revived j j'
  unfolding requeue
  requeue-Revived seen now j h t d =
      let (past, written, latest) =
        Latest-settled j.status j.finished j.attempts (phase-dead j.status d) h in
      let (j', e, tracked, alive, grown, kept) =
        schedule_attempt-next (latest_number j.attempts + 1) now j (omega (arith, latest)) written
          past in
      (
        j',
        rw (requeue, t) e,
        record { tracked = tracked; was_dead = d; alive = alive; grown = grown; policy = kept },
      )

  pub requeue-refused :
      (seen : TaskStatus) (now : ℕ) (j : Job F)
      → is_terminal_failure seen ≡ false
      → requeue seen now j ≡ err (not_dead seen)
  unfolding requeue
  requeue-refused seen now j e = rw (requeue, e) refl

  Good-returned :
      (x b : Option Bool) (j i j' : Job F)
      → ◌≡◌ {A = Result JobError (Option Bool × Job F)} (ok (x, i)) (ok (b, j'))
      → Good j i
      → Good j j'
  Good-returned x b j i j' e g = let q : i ≡ j' = cc in subst (λ (u : Job F). Good j u) q g

  abbrev claimed_rows : ℕ → ℕ → Job F → Job F
  claimed_rows claimed_at k j = record j {
    status = if is_pending j.status then TaskStatus.running else j.status;
    attempts = update k (enqueued claimed_at j.next_q2) j.attempts;
    next_q2 = j.next_q2 + 1;
  }

  Good-claimed : (claimed_at k : ℕ) (j : Job F) → IsTracked j → Good j (claimed_rows claimed_at k j)
  Good-claimed claimed_at k j h =
      let kept : Good j (with_attempts (update k (enqueued claimed_at j.next_q2) j.attempts) j) =
        Good-update k (enqueued claimed_at j.next_q2) j j
          (record { number = λ a. refl; closed = λ a o. o }) (λ a. refl) (Good-same j h) in
      record {
        tracked =
            Latest-status j.status (if is_pending j.status then TaskStatus.running else j.status)
              j.finished (update k (enqueued claimed_at j.next_q2) j.attempts)
              (claimed-live j.status) kept.tracked;
        step =
            stay (claimed-phase j.status)
              (length-update k (enqueued claimed_at j.next_q2) j.attempts);
        policy = refl;
      }

  -- A claim by a dispatcher, whatever it returns.
  pub claim_and_enqueue-Good :
      (accepted : Bool) (now claimed_at k : ℕ) (b : Option Bool) (j j' : Job F)
      → IsTracked j
      → claim_and_enqueue accepted now claimed_at k j ≡ ok (b, j')
      → Good j j'
  unfolding claim_and_enqueue
  claim_and_enqueue-Good accepted now claimed_at k b j j' h e =
      elim (Option-cases (find (has_number k) j.attempts)) [
        | inl f ↦ Good-returned none b j j j' (rw (claim_and_enqueue, f) at e) (Good-same j h)
        | inr (a, f) ↦ elim (Bool-cases (is_due now a)) [
          | inr r ↦ Good-returned none b j j j' (rw (claim_and_enqueue, f, r) at e) (Good-same j h)
          | inl t ↦ elim (Bool-cases (is_queued a.state)) [
            | inl q ↦
                Good-returned (some false) b j j j' (rw (claim_and_enqueue, f, t, q) at e)
                  (Good-same j h)
            | inr q ↦ elim (Bool-cases accepted) [
              | inr r ↦ absurd (ground (arith, rw (claim_and_enqueue, f, t, q, r) at e))
              | inl y ↦
                  Good-returned (some true) b j (claimed_rows claimed_at k j) j'
                    (rw (claim_and_enqueue, f, t, q, y) at e) (Good-claimed claimed_at k j h)
            ]
          ]
        ]
      ]

  -- A task at an end after the last attempt's failure, or with the next attempt made.
  pub Retried-Good :
      (ending : TaskStatus → TaskStatus) (k : ℕ) (b : Bool) (j i j' : Job F)
      → phase j.status ≡ live
      → length i.attempts ≡ length j.attempts
      → i.retry_policy ≡ j.retry_policy
      → IsSettled k i
      → phase (ending i.status) ≡ dead
      → phase (ending TaskStatus.exhausted) ≡ dead
      → Retried k i b j'
      → Good j (if b then mark_routed k j' else record j' { status = ending j'.status })
  Retried-Good ending k b j i j' alive len policy h d x (more e tracked next grown lt kept) = rw e (
      mark_routed-Good k j j' (record {
        tracked = tracked;
        step = again alive next (omega (arith, len, grown)) (
            subst (λ (n : ℕ). n < allowance j.retry_policy) (h.newest ∙ len)
              (subst (λ (o : Option (RetryPolicy F)). k < allowance o) policy lt));
        policy = kept ∙ policy;
      }))
  Retried-Good ending k b j i j' alive len policy h d x (over s e which q) =
      let ended : phase (ending s) ≡ dead = elim which [
        | inl w ↦ ap (λ (u : TaskStatus). phase (ending u)) w ∙ d
        | inr w ↦ ap (λ (u : TaskStatus). phase (ending u)) w ∙ x
      ] in
      subst
        (λ (u : Job F).
          Good j (if b then mark_routed k u else record u { status = ending u.status }))
        (sym q)
        (rw e (record {
          tracked = IsSettled-ends k (ending s) i (phase-dead (ending s) ended) h;
          step = give_up alive ended len;
          policy = policy;
        }))
