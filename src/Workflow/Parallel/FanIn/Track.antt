-- ===== src/Workflow/Parallel/FanIn/Track.antt =====
-- Deliveries to a fan-out, and what holds of its row between two of them.
use mathlib.Core.Bool.{false≢true}
use django_qraft.Prelude.{
  ℕ, ◌<◌, ◌≤◌, Bool, true, false, not, ◌||◌, none, some, inl, inr, List, [], ◌∷◌, length, count_if,
  ◌≡◌, ◌⊎◌, refl, sym, ◌∙◌, arith, leb, Bool-cases, member, distinct, subset, member_of_full, ◌==◌,
  if◌then◌else◌,
}
use django_qraft.Task.{exhausted, succeeded as task_succeeded}
use django_qraft.Workflow.Status.{running, cancelled, same_status}
use django_qraft.Workflow.Settle.Facts.{SameRow}
use django_qraft.Workflow.Parallel.{
  Parallel, Completion, partial, complete, verdict, handle, atomic_increment, count_completion,
  finish, is_task_terminal,
}
use django_qraft.Workflow.Parallel.Counts.{
  SameTally, after_increment-SameTally, after_increment-SameRow,
}

-- What the final attempt of each member brought: true for a success, false for a task whose
-- retries are exhausted.
abbrev pub completion : (ℕ → Bool) → ℕ → Completion
completion result id = record {
  attempt = id;
  success = some (result id);
  task_status = if result id then task_succeeded else exhausted;
}

-- Deliveries with the broker's answer and the time of each.
unfoldable pub deliver : (ℕ → Bool) → List (ℕ × Bool × ℕ) → Parallel → Parallel
unfolding handle
deliver result [] p = p
deliver result ((id, accepted, now) ∷ rest) p =
    deliver result rest (handle accepted now (completion result id) p)

abbrev pub failures : (ℕ → Bool) → List ℕ → ℕ
failures result = count_if (λ id. not (result id))

terminal : (result : ℕ → Bool) (id : ℕ) → is_task_terminal (completion result id) ≡ true
unfolding is_task_terminal
terminal result id = ground arith

finish_live :
    (now : ℕ) (q : Parallel)
    → q.workflow.status ≡ running
    → q.workflow.settled_at ≡ none
    → finish now q ≡ (
      complete,
      record q {
        workflow = record (q.workflow) {
          status = verdict q.failure_count;
          settled_at = some now;
          announced = verdict q.failure_count ∷ q.workflow.announced;
        };
      },
    )
unfolding finish
finish_live now q r s = ground arith

module _ (result : ℕ → Bool) (members : List ℕ) where
  -- Between two deliveries members are missing and the row is open, or all are counted and the
  -- row carries the verdict.
  pub record IsOnTrack (p : Parallel) : Type 0 where
    pub total : p.total_count ≡ length members
    pub by_attempt : p.completed_count ≡ length p.counted
    pub by_failure : p.failure_count ≡ failures result p.counted
    pub each_once : distinct p.counted ≡ true
    pub only_members : subset p.counted members ≡ true
    pub phase :
        ((p.completed_count < p.total_count)
          × (p.workflow.status ≡ running)
          × (p.workflow.settled_at ≡ none)
          × (p.workflow.announced ≡ []))
        ⊎ ((p.total_count ≤ p.completed_count)
            × (p.workflow.status ≡ verdict p.failure_count)
            × (p.workflow.announced ≡ verdict p.failure_count ∷ []))

  IsOnTrack-SameTally :
      {p q : Parallel} → SameTally p q → SameRow p.workflow q.workflow → IsOnTrack q → IsOnTrack p
  IsOnTrack-SameTally s r h = record {
    total = cc (s.total_count, h.total);
    by_attempt = cc (s.completed_count, s.counted, h.by_attempt);
    by_failure = cc (s.failure_count, s.counted, h.by_failure);
    each_once = cc (s.counted, h.each_once);
    only_members = cc (s.counted, h.only_members);
    phase =
        rw (s.completed_count, s.total_count, r.status, r.settled_at, r.announced, s.failure_count)
          h.phase;
  }

  -- With the count full, every member is counted.
  counted_when_full :
      (p : Parallel)
      → IsOnTrack p
      → p.total_count ≤ p.completed_count
      → (id : ℕ) → member id members ≡ true
      → member id p.counted ≡ true
  counted_when_full p h full id m =
      member_of_full p.counted members id h.each_once h.only_members
        (omega (arith, h.total, h.by_attempt)) m

  -- The counters of one more member, whatever the row becomes.
  counted_tally :
      (id : ℕ) (p : Parallel)
      → IsOnTrack p
      → member id members ≡ true
      → member id p.counted ≡ false
      → let q = count_completion (completion result id) p in
        (q.total_count ≡ length members)
        × (q.completed_count ≡ length q.counted)
        × (q.failure_count ≡ failures result q.counted)
        × (distinct q.counted ≡ true)
        × (subset q.counted members ≡ true)
  unfolding count_completion
  counted_tally id p h m new =
      (h.total, ground arith, ground (arith, h.by_failure), ground arith, ground arith)

  finish-IsOnTrack :
      (now : ℕ) (q : Parallel)
      → q.total_count ≡ length members
      → q.completed_count ≡ length q.counted
      → q.failure_count ≡ failures result q.counted
      → distinct q.counted ≡ true
      → subset q.counted members ≡ true
      → q.workflow.status ≡ running
      → q.workflow.settled_at ≡ none
      → q.workflow.announced ≡ []
      → IsOnTrack (if leb q.total_count q.completed_count then finish now q else (partial, q)).1
  finish-IsOnTrack now q t c f d sub r s a =
      elim (Bool-cases (leb q.total_count q.completed_count)) [
        | inl full ↦
            rw (full, finish_live now q r s)
              (record {
                total = t;
                by_attempt = c;
                by_failure = f;
                each_once = d;
                only_members = sub;
                phase = inr (ground arith, refl, ground arith);
              })
        | inr more ↦ rw more (record {
          total = t;
          by_attempt = c;
          by_failure = f;
          each_once = d;
          only_members = sub;
          phase = inl (ground arith, r, s, a);
        })
      ]

  increment-IsOnTrack :
      (now id : ℕ) (p : Parallel)
      → member id members ≡ true
      → IsOnTrack p
      → IsOnTrack (atomic_increment now (completion result id) p).1
  unfolding atomic_increment
  increment-IsOnTrack now id p m h = elim (Bool-cases (same_status p.workflow.status cancelled)) [
    | inl stopped ↦ rw stopped h
    | inr e ↦ rw e (elim (Bool-cases (member id p.counted)) [
      | inl old ↦ rw old h
      | inr new ↦ rw new (elim h.phase [
        | inl (_, r, s, a) ↦
            let (t, c, f, d, sub) = counted_tally id p h m new in
            finish-IsOnTrack now (count_completion (completion result id) p) t c f d sub r s a
        | inr (full, _, _) ↦ absurd (false≢true (sym new ∙ counted_when_full p h full id m))
      ])
    ])
  ]

  pub handle-IsOnTrack :
      (accepted : Bool) (now id : ℕ) (p : Parallel)
      → member id members ≡ true
      → IsOnTrack p
      → IsOnTrack (handle accepted now (completion result id) p)
  unfolding handle
  handle-IsOnTrack accepted now id p m h =
      let (i, p') = atomic_increment now (completion result id) p in
      rw (terminal result id) (
        IsOnTrack-SameTally (after_increment-SameTally accepted i p')
          (after_increment-SameRow accepted i p') (increment-IsOnTrack now id p m h))

  pub increment_counts :
      (now id j : ℕ) (p : Parallel)
      → IsOnTrack p
      → (member j p.counted || (j == id)) ≡ true
      → member j (atomic_increment now (completion result id) p).1.counted ≡ true
  unfolding atomic_increment count_completion finish
  increment_counts now id j p h m = ground arith

  pub handle_counts :
      (accepted : Bool) (now id j : ℕ) (p : Parallel)
      → IsOnTrack p
      → (member j p.counted || (j == id)) ≡ true
      → member j (handle accepted now (completion result id) p).counted ≡ true
  unfolding handle
  handle_counts accepted now id j p h m =
      let (i, p') = atomic_increment now (completion result id) p in
      rw (terminal result id, SameTally.counted (after_increment-SameTally accepted i p'))
        (increment_counts now id j p h m)
