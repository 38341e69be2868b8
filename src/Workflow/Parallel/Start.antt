-- ===== src/Workflow/Parallel/Start.antt =====
-- qraft/batch.py and qraft/iter.py: the objects of a fan-out and their `run`.
use django_qraft.Prelude.{
  ℕ, zero, suc, ◌+◌, ◌<◌, String, Bool, true, false, not, Option, none, some, List, [], ◌∷◌, length,
  all, ◌≡◌, refl, sym, ap, ◌∙◌, arith, ◌==◌, Bool-cases, Option-cases, inl, inr, member, distinct,
  subset, Result, ok, err, if◌then◌else◌,
}
use django_qraft.Hooks.Once.{no_hooks}
use django_qraft.Workflow.Status.{WorkflowStatus, pending, running, succeeded, failed, same_status}
use django_qraft.Workflow.Parallel.{Parallel}
use django_qraft.Workflow.Parallel.FanIn.{ids, deliver, fan_in}

pub data ParallelError : Type 0 where
  empty : ParallelError
  already_run : WorkflowStatus → ParallelError
  member_failed : ParallelError

-- A `QraftBatch` or `QraftIter` object: how many members were appended, the status that its model
-- instance holds in memory, its row, and an id that no attempt has yet.
pub record Handle : Type 0 where
  pub items : ℕ
  pub status : WorkflowStatus
  pub row : Parallel
  pub next_attempt : ℕ

-- The members' attempts, one `_create_workflow_task` each; `creates` tells which of them the
-- broker accepts.
unfoldable pub create_members : (ℕ → Bool) → ℕ → ℕ → Option (List ℕ)
create_members creates zero id = some []
create_members creates (suc items) id =
    let rest = create_members creates items (id + 1) in
    if creates id then elim rest [ none ↦ none | some ms ↦ some (id ∷ ms) ] else none

-- The row that is saved before the members are created.
abbrev pub published : ℕ → Parallel → Parallel
published items p = record p {
  total_count = items;
  workflow = record (p.workflow) { status = running };
}

-- `run`. When a member fails, the transaction is rolled back and the instance reads its row again.
unfoldable pub run : (ℕ → Bool) → Handle → Result ParallelError (List ℕ) × Handle
unfolding create_members
run creates h =
    if h.items == 0
    then (err empty, h)
    else if not (same_status h.status pending)
    then (err (already_run h.status), h)
    else elim (create_members creates h.items h.next_attempt) [
      | none ↦ (err member_failed, record h { status = h.row.workflow.status })
      | some members ↦ (
        ok members,
        record h {
          status = running;
          row = published h.items h.row;
          next_attempt = h.next_attempt + h.items;
        },
      )
    ]

-- The row that `objects.create` makes, and an object around it to which members were appended.
abbrev pub new_row : Option String → Option String → Option String → Option String → Parallel
new_row success_hook failure_hook on_cancelled progress_hook = record {
  workflow = record {
    status = pending;
    settled_at = none;
    success_hook = success_hook;
    failure_hook = failure_hook;
    on_cancelled = on_cancelled;
    progress_hook = progress_hook;
    announced = [];
    hooks = no_hooks;
  };
  total_count = 0;
  completed_count = 0;
  success_count = 0;
  failure_count = 0;
  counted = [];
  progress = [];
}

same_members : {xs ys : List ℕ} → some xs ≡ some ys → ys ≡ xs
same_members h = cc

created_more :
    (creates : ℕ → Bool) (items id : ℕ) (members : List ℕ)
    → create_members creates (suc items) id ≡ some members
    → (ms : List ℕ) × (create_members creates items (id + 1) ≡ some ms) × (members ≡ id ∷ ms)
unfolding create_members
created_more creates items id members h = elim (Bool-cases (creates id)) [
  | inr e ↦ absurd (ground arith)
  | inl e ↦ elim (Option-cases (create_members creates items (id + 1))) [
    | inl n ↦ absurd (ground arith)
    | inr (ms, m) ↦ (ms, m, ground arith)
  ]
]

length-create_members :
    (creates : ℕ → Bool) (items id : ℕ) (members : List ℕ)
    → create_members creates items id ≡ some members
    → length members ≡ items
unfolding create_members
length-create_members creates zero id members h = ap length (same_members h)
length-create_members creates (suc items) id members h =
    let (ms, m, e) = created_more creates items id members h in
    ap length e ∙ ap suc (length-create_members creates items (id + 1) ms m)

-- The ids go up, so no member has an id below the first.
none_below :
    (creates : ℕ → Bool) (items id k : ℕ) (members : List ℕ)
    → create_members creates items id ≡ some members
    → k < id
    → member k members ≡ false
unfolding create_members
none_below creates zero id k members h lt = ap (member k) (same_members h)
none_below creates (suc items) id k members h lt =
    let (ms, m, e) = created_more creates items id members h in
    ap (member k) e ∙ ground (arith, none_below creates items (id + 1) k ms m (omega arith))

distinct-create_members :
    (creates : ℕ → Bool) (items id : ℕ) (members : List ℕ)
    → create_members creates items id ≡ some members
    → distinct members ≡ true
unfolding create_members
distinct-create_members creates zero id members h = ap distinct (same_members h)
distinct-create_members creates (suc items) id members h =
    let (ms, m, e) = created_more creates items id members h in
    ap distinct e
    ∙ ground (
      arith,
      none_below creates items (id + 1) id ms m (omega arith),
      distinct-create_members creates items (id + 1) ms m,
    )

-- A new object with members.
abbrev pub new_handle : ℕ → Parallel → ℕ → Handle
new_handle items row next_attempt = record {
  items = items;
  status = pending;
  row = row;
  next_attempt = next_attempt;
}

run-made :
    (creates : ℕ → Bool) (h : Handle) (members : List ℕ)
    → (run creates h).0 ≡ ok members
    → (create_members creates h.items h.next_attempt ≡ some members)
      × ((run creates h).1.row ≡ published h.items h.row)
      × (0 < h.items)
unfolding run
run-made creates h members e = elim (Bool-cases (h.items == 0)) [
  | inl z ↦ absurd (ground arith)
  | inr z ↦ elim (Bool-cases (same_status h.status pending)) [
    | inr p ↦ absurd (ground arith)
    | inl p ↦ elim (Option-cases (create_members creates h.items h.next_attempt)) [
      | inl n ↦ absurd (ground arith)
      | inr (ms, m) ↦ (ground arith, ground arith, ground arith)
    ]
  ]
]

-- A batch or an iter that was created and run: once the final result of each member that `run`
-- returned was delivered, in any order and any number of times, the workflow has succeeded if all
-- members did and failed otherwise, exactly one signal said so, and the completed count is the
-- number of the appended members.
pub run-fan_in :
    (creates : ℕ → Bool) (items next_attempt : ℕ)
    (success_hook failure_hook on_cancelled progress_hook : Option String) (members : List ℕ)
    (result : ℕ → Bool) (ds : List (ℕ × Bool × ℕ))
    → let h =
        new_handle items
          (new_row success_hook failure_hook on_cancelled progress_hook)
          next_attempt in
      (run creates h).0 ≡ ok members
      → subset (ids ds) members ≡ true
      → subset members (ids ds) ≡ true
      → let h =
          new_handle items
            (new_row success_hook failure_hook on_cancelled progress_hook)
            next_attempt in
        let q = deliver result ds (run creates h).1.row in
        let s = if all result members then succeeded else failed in
        (q.workflow.status ≡ s) × (q.workflow.announced ≡ s ∷ []) × (q.completed_count ≡ items)
run-fan_in creates items next_attempt success_hook failure_hook on_cancelled progress_hook members
      result ds e only each =
    let row = new_row success_hook failure_hook on_cancelled progress_hook in
    let h = new_handle items row next_attempt in
    let (m, p, pos) = run-made creates h members e in
    let n = length-create_members creates items next_attempt members m in
    let (status, announced, count) =
      fan_in result members ds (published items row)
        (distinct-create_members creates items next_attempt members m) (omega (arith, n, pos)) only
        each
        (record {
          total = sym n;
          completed = refl;
          failures = refl;
          counted = refl;
          status = refl;
          settled_at = refl;
          announced = refl;
        }) in
    rw p (status, announced, count ∙ n)

-- A refused `run` costs nothing: when the broker refuses a member, the row and the object, which
-- held the row's status, are as before.
pub run-refused :
    (creates : ℕ → Bool) (h : Handle)
    → h.status ≡ h.row.workflow.status
    → (run creates h).0 ≡ err member_failed
    → (run creates h).1 ≡ h
unfolding run
run-refused creates h same e = elim (Bool-cases (h.items == 0)) [
  | inl z ↦ absurd (ground arith)
  | inr z ↦ elim (Bool-cases (same_status h.status pending)) [
    | inr p ↦ absurd (ground arith)
    | inl p ↦ elim (Option-cases (create_members creates h.items h.next_attempt)) [
      | inl n ↦ ground arith
      | inr (ms, m) ↦ absurd (ground arith)
    ]
  ]
]
