-- ===== src/Workflow/Parallel/FanIn.antt =====
-- The end of a fan-out: each member is delivered, in any order and any number of times.
mod Track
use django_qraft.Prelude.{
  ℕ, ◌<◌, Bool, true, false, not, ◌||◌, ◌&&◌, none, inl, inr, List, [], ◌∷◌, length, all, map,
  count_if, ◌≡◌, refl, arith, Bool-cases, member, distinct, subset, length-subset, member-subset,
  subset_of_members, if◌then◌else◌,
}
use django_qraft.Workflow.Status.{running, succeeded, failed}
use django_qraft.Workflow.Parallel.{Parallel, verdict, handle}
use Track.{IsOnTrack, handle-IsOnTrack, handle_counts, failures}
pub use Track.{completion}
unfoldable pub use Track.{deliver}

no_failures :
    (result : ℕ → Bool) (xs : List ℕ) (y : ℕ)
    → failures result xs ≡ 0
    → member y xs ≡ true
    → result y ≡ true
no_failures result [] y z m = ground arith
no_failures result (x ∷ xs) y z m = ground (arith, no_failures result xs y)

all_of_no_failures :
    (result : ℕ → Bool) (xs ys : List ℕ)
    → failures result xs ≡ 0
    → subset ys xs ≡ true
    → all result ys ≡ true
all_of_no_failures result xs [] z h = refl
all_of_no_failures result xs (y ∷ ys) z h =
    ground (arith, no_failures result xs y, all_of_no_failures result xs ys)

all-member :
    (result : ℕ → Bool) (ys : List ℕ) (x : ℕ)
    → all result ys ≡ true
    → member x ys ≡ true
    → result x ≡ true
all-member result [] x h m = ground arith
all-member result (y ∷ ys) x h m = ground (arith, all-member result ys x)

no_failures_of_all :
    (result : ℕ → Bool) (xs ys : List ℕ)
    → all result ys ≡ true
    → subset xs ys ≡ true
    → failures result xs ≡ 0
no_failures_of_all result [] ys h s = refl
no_failures_of_all result (x ∷ xs) ys h s =
    ground (arith, all-member result ys x, no_failures_of_all result xs ys)

-- Counting over the same set of ids, the verdict on the failures is whether all succeeded.
verdict-failures :
    (result : ℕ → Bool) (xs ys : List ℕ)
    → subset xs ys ≡ true
    → subset ys xs ≡ true
    → verdict (failures result xs) ≡ (if all result ys then succeeded else failed)
verdict-failures result xs ys s t =
    ground (arith, all_of_no_failures result xs ys, no_failures_of_all result xs ys)

abbrev pub ids : List (ℕ × Bool × ℕ) → List ℕ
ids = map (λ d. d.0)

module _ (result : ℕ → Bool) (members : List ℕ) where
  deliver-IsOnTrack :
      (ds : List (ℕ × Bool × ℕ)) (p : Parallel)
      → subset (ids ds) members ≡ true
      → IsOnTrack result members p
      → IsOnTrack result members (deliver result ds p)
  unfolding deliver
  deliver-IsOnTrack [] p s h = h
  deliver-IsOnTrack ((id, accepted, now) ∷ ds) p s h =
      deliver-IsOnTrack ds (handle accepted now (completion result id) p) (ground arith)
        (handle-IsOnTrack result members accepted now id p (ground arith) h)

  deliver_counts :
      (ds : List (ℕ × Bool × ℕ)) (p : Parallel) (j : ℕ)
      → subset (ids ds) members ≡ true
      → IsOnTrack result members p
      → (member j p.counted || member j (ids ds)) ≡ true
      → member j (deliver result ds p).counted ≡ true
  unfolding deliver
  deliver_counts [] p j s h m = ground arith
  deliver_counts ((id, accepted, now) ∷ ds) p j s h m =
      deliver_counts ds (handle accepted now (completion result id) p) j (ground arith)
        (handle-IsOnTrack result members accepted now id p (ground arith) h)
        (ground (arith, handle_counts result members accepted now id j p h))

-- The row that `run` leaves behind: the total published, nothing counted, running.
pub record IsStarted (members : List ℕ) (p : Parallel) : Type 0 where
  pub total : p.total_count ≡ length members
  pub completed : p.completed_count ≡ 0
  pub failures : p.failure_count ≡ 0
  pub counted : p.counted ≡ []
  pub status : p.workflow.status ≡ running
  pub settled_at : p.workflow.settled_at ≡ none
  pub announced : p.workflow.announced ≡ []

abbrev Settles : (ℕ → Bool) → List ℕ → Parallel → Type 0
Settles result members q =
    let s = if all result members then succeeded else failed in
    (q.workflow.status ≡ s) × (q.workflow.announced ≡ s ∷ []) × (q.completed_count ≡ length members)

IsStarted-IsOnTrack :
    (result : ℕ → Bool) (members : List ℕ) (p : Parallel)
    → 0 < length members
    → IsStarted members p
    → IsOnTrack result members p
IsStarted-IsOnTrack result members p pos h = record {
  total = h.total;
  by_attempt = rw (h.completed, h.counted);
  by_failure = rw (h.failures, h.counted);
  each_once = rw h.counted;
  only_members = rw h.counted;
  phase = inl (omega (arith, h.total, h.completed), h.status, h.settled_at, h.announced);
}

Settles-of_full :
    (result : ℕ → Bool) (members : List ℕ) (q : Parallel)
    → distinct members ≡ true
    → IsOnTrack result members q
    → subset members q.counted ≡ true
    → Settles result members q
Settles-of_full result members q d h all_in = ground (
  arith,
  length-subset members q.counted,
  length-subset q.counted members,
  verdict-failures result q.counted members,
  h.phase,
)

-- From a started fan-out whose members are distinct and at least one: once each member's final
-- result was delivered, in any order and any number of times, the workflow has succeeded if all
-- members did and failed otherwise, exactly one signal said so, and the completed count is the
-- number of members.
pub fan_in :
    (result : ℕ → Bool) (members : List ℕ) (ds : List (ℕ × Bool × ℕ)) (p : Parallel)
    → distinct members ≡ true
    → 0 < length members
    → subset (ids ds) members ≡ true
    → subset members (ids ds) ≡ true
    → IsStarted members p
    → let q = deliver result ds p in
      let s = if all result members then succeeded else failed in
      (q.workflow.status ≡ s)
      × (q.workflow.announced ≡ s ∷ [])
      × (q.completed_count ≡ length members)
fan_in result members ds p d pos only each h =
    let start = IsStarted-IsOnTrack result members p pos h in
    Settles-of_full result members (deliver result ds p) d
      (deliver-IsOnTrack result members ds p only start)
      (subset_of_members members (deliver result ds p).counted (λ y m.
        deliver_counts result members ds p y only start
          (ground (arith, member-subset members (ids ds) y each m))))
