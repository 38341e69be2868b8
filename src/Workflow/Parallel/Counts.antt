-- ===== src/Workflow/Parallel/Counts.antt =====
-- The counters of a fan-out agree with the attempts that were counted.
use django_qraft.Prelude.{
  ℕ, ◌+◌, Bool, true, false, inl, inr, length, ◌≡◌, arith, leb, Bool-cases, member, distinct,
}
use django_qraft.Workflow.Status.{cancelled, same_status}
use django_qraft.Workflow.Settle.Facts.{SameRow}
use django_qraft.Workflow.Parallel.{
  Parallel, Completion, Increment, noop, partial, complete, handle, atomic_increment,
  count_completion, finish, after_increment, is_task_terminal,
}

pub record IsCounted (p : Parallel) : Type 0 where
  pub by_outcome : p.completed_count ≡ p.success_count + p.failure_count
  pub by_attempt : p.completed_count ≡ length p.counted
  pub each_once : distinct p.counted ≡ true

-- Two states with the same counters.
pub record SameTally (p q : Parallel) : Type 0 where
  pub total_count : p.total_count ≡ q.total_count
  pub completed_count : p.completed_count ≡ q.completed_count
  pub success_count : p.success_count ≡ q.success_count
  pub failure_count : p.failure_count ≡ q.failure_count
  pub counted : p.counted ≡ q.counted

IsCounted-SameTally : {p q : Parallel} → SameTally p q → IsCounted q → IsCounted p
IsCounted-SameTally s h = record {
  by_outcome = cc (s.completed_count, s.success_count, s.failure_count, h.by_outcome);
  by_attempt = cc (s.completed_count, s.counted, h.by_attempt);
  each_once = cc (s.counted, h.each_once);
}

pub after_increment-SameTally :
    (accepted : Bool) (i : Increment) (p : Parallel) → SameTally (after_increment accepted (i, p)) p
unfolding after_increment
after_increment-SameTally accepted noop p = ground arith
after_increment-SameTally accepted partial p = ground arith
after_increment-SameTally accepted complete p = ground arith

pub after_increment-SameRow :
    (accepted : Bool) (i : Increment) (p : Parallel)
    → SameRow (after_increment accepted (i, p)).workflow p.workflow
unfolding after_increment
after_increment-SameRow accepted noop p = ground arith
after_increment-SameRow accepted partial p = ground arith
after_increment-SameRow accepted complete p = ground arith

finish-SameTally : (now : ℕ) (p : Parallel) → SameTally (finish now p).1 p
unfolding finish
finish-SameTally now p = ground arith

count_completion-IsCounted :
    (c : Completion) (p : Parallel)
    → member c.attempt p.counted ≡ false
    → IsCounted p
    → IsCounted (count_completion c p)
unfolding count_completion
count_completion-IsCounted c p new h = ground arith

atomic_increment-IsCounted :
    (now : ℕ) (c : Completion) (p : Parallel) → IsCounted p → IsCounted (atomic_increment now c p).1
unfolding atomic_increment
atomic_increment-IsCounted now c p h = elim (Bool-cases (same_status p.workflow.status cancelled)) [
  | inl e ↦ rw e h
  | inr e ↦ rw e (elim (Bool-cases (member c.attempt p.counted)) [
    | inl old ↦ rw old h
    | inr new ↦
        rw new
          (elim (Bool-cases
            (leb (count_completion c p).total_count (count_completion c p).completed_count)) [
              | inl full ↦ rw full (
                  IsCounted-SameTally (finish-SameTally now (count_completion c p))
                    (count_completion-IsCounted c p new h))
              | inr more ↦ rw more (count_completion-IsCounted c p new h)
            ])
  ])
]

-- Whatever is delivered, how often, and whether the workflow is cancelled: the completed count is
-- the sum of successes and failures, and the number of the distinct attempts counted so far.
pub handle-IsCounted :
    (accepted : Bool) (now : ℕ) (c : Completion) (p : Parallel)
    → IsCounted p
    → IsCounted (handle accepted now c p)
unfolding handle
handle-IsCounted accepted now c p h = elim (Bool-cases (is_task_terminal c)) [
  | inl e ↦
      let (i, p') = atomic_increment now c p in
      rw e (
        IsCounted-SameTally (after_increment-SameTally accepted i p')
          (atomic_increment-IsCounted now c p h))
  | inr e ↦ rw e h
]
