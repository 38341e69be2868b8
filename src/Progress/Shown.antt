-- ===== src/Progress/Shown.antt =====
-- Reports of any attempts in any order, with retries between them: what a task shows.
use django_qraft.Prelude.{
  ℕ, suc, ◌≤◌, ◌<◌, max, true, false, Option, none, some, List, [], ◌∷◌, any, All, ltb, ◌==◌,
  is_none, Bool-cases, Option-cases, inl, inr, ◌≡◌, refl, arith,
}
use django_qraft.Progress.{
  Report, Attempt, Snapshot, Task, stored_object, is_coalesced, written, locked_progress_update,
  find, save, snapshot_progress, report_by, cutoff_of, report_progress, latest_number, add_attempt,
}

-- An attempt with the number reports, or the task is retried.
pub data Event : Type 0 where
  report : ℕ → Report → Event
  retry : Event

unfoldable pub step : Option ℕ → Event → Task → Task
unfolding report_progress
step interval (report k r) t = (report_progress interval k r t).1
step interval retry t = add_attempt t

unfoldable pub at_end : Option ℕ → List Event → Task → Task
unfolding step
at_end interval [] t = t
at_end interval (e ∷ events) t = at_end interval events (step interval e t)

-- The rows of a task whose latest attempt comes first.
abbrev IsNewest : List Attempt → Type 0
IsNewest [] = Unit
IsNewest (a ∷ as') = All (λ b. b.attempt_number < a.attempt_number) as'

abbrev pub shown_of : Attempt → Option Snapshot
shown_of a = some (record { object = stored_object a.progress; attempt_id = a.attempt_number })

-- If the latest attempt has reported, the task shows its progress.
abbrev Shows : List Attempt → Option Snapshot → Type 0
Shows [] s = Unit
Shows (a ∷ as') s = is_none a.progress_reported_at ≡ false → s ≡ shown_of a

pub record IsShown (t : Task) : Type 0 where
  pub newest : IsNewest t.attempts
  pub shows : Shows t.attempts t.progress

save-below :
    (n : ℕ) (row : Attempt) (as' : List Attempt)
    → row.attempt_number < n
    → All (λ b. b.attempt_number < n) as'
    → All (λ b. b.attempt_number < n) (save row as')
save-below n row [] lt h = tt
save-below n row (a ∷ as') lt h = elim (Bool-cases (a.attempt_number == row.attempt_number)) [
  | inl e ↦ rw e (lt, h.1)
  | inr e ↦ rw e (h.0, save-below n row as' lt h.1)
]

none-newer :
    (n : ℕ) (as' : List Attempt)
    → All (λ b. b.attempt_number < n) as'
    → any (λ b. ltb n b.attempt_number) as' ≡ false
none-newer n [] h = refl
none-newer n (a ∷ as') h = ground (arith, none-newer n as')

latest-below :
    (n : ℕ) (as' : List Attempt) → All (λ b. b.attempt_number < n) as' → latest_number as' ≤ n
latest-below n [] h = omega arith
latest-below n (a ∷ as') h = ground (arith, latest-below n as')

below-latest : (as' : List Attempt) → All (λ b. b.attempt_number < suc (latest_number as')) as'
below-latest as' = below (latest_number as') as' (omega arith)
  where
    below :
        (n : ℕ) (bs : List Attempt) → latest_number bs ≤ n → All (λ b. b.attempt_number < suc n) bs
    below n [] h = tt
    below n (b ∷ bs) h = (ground arith, below n bs (ground arith))

-- The row of the latest attempt is written.
head-IsShown :
    (row a : Attempt) (as' : List Attempt) (s : Option Snapshot)
    → (a.attempt_number == row.attempt_number) ≡ true
    → IsShown (record { attempts = a ∷ as'; progress = s })
    → IsShown (snapshot_progress row (record { attempts = save row (a ∷ as'); progress = s }))
unfolding snapshot_progress
head-IsShown row a as' s e v =
    let same : a.attempt_number ≡ row.attempt_number = ground arith in
    let below : All (λ b. b.attempt_number < row.attempt_number) as' = rw same at v.newest in
    let self : ltb row.attempt_number row.attempt_number ≡ false = ground arith in
    let fresh : any (λ b. ltb row.attempt_number b.attempt_number) (row ∷ as') ≡ false =
      rw self (none-newer row.attempt_number as' below) in
    rw e (rw (snapshot_progress, fresh) (record { newest = below; shows = λ h. refl }))

-- The row of a superseded attempt is written.
tail-IsShown :
    (row a : Attempt) (as' : List Attempt) (s : Option Snapshot)
    → (a.attempt_number == row.attempt_number) ≡ false
    → row.attempt_number < a.attempt_number
    → IsShown (record { attempts = a ∷ as'; progress = s })
    → IsShown (snapshot_progress row (record { attempts = save row (a ∷ as'); progress = s }))
unfolding snapshot_progress
tail-IsShown row a as' s e lt v =
    let newer : ltb row.attempt_number a.attempt_number ≡ true = ground arith in
    rw e (
      rw (snapshot_progress, newer)
        (record { newest = save-below a.attempt_number row as' lt v.newest; shows = v.shows }))

find-below :
    (n k : ℕ) (as' : List Attempt) (b : Attempt)
    → All (λ b. b.attempt_number < n) as'
    → find k as' ≡ some b
    → b.attempt_number < n
find-below n k [] b h e = cc
find-below n k (a ∷ as') b h e = elim (Bool-cases (a.attempt_number == k)) [
  | inl x ↦ let same : a ≡ b = ground arith in rw (← same) h.0
  | inr x ↦ find-below n k as' b h.1 (rw x at e)
]

report-IsShown :
    (cutoff : Option ℕ) (r : Report) (k : ℕ) (as' : List Attempt) (s : Option Snapshot)
    → IsShown (record { attempts = as'; progress = s })
    → IsShown (report_by cutoff r (find k as') (record { attempts = as'; progress = s })).1
unfolding locked_progress_update
report-IsShown cutoff r k [] s v = v
report-IsShown cutoff r k (a ∷ as') s v = elim (Bool-cases (a.attempt_number == k)) [
  | inl x ↦ elim (Bool-cases (is_coalesced cutoff r a)) [
    | inl c ↦ rw x (rw (locked_progress_update, c) v)
    | inr c ↦
        let same : (a.attempt_number == a.attempt_number) ≡ true = ground arith in
        rw x (rw (locked_progress_update, c) (head-IsShown (written r a) a as' s same v))
  ]
  | inr x ↦ elim (Option-cases (find k as')) [
    | inl f ↦ rw x (rw f v)
    | inr (b, f) ↦ elim (Bool-cases (is_coalesced cutoff r b)) [
      | inl c ↦ rw x (rw f (rw (locked_progress_update, c) v))
      | inr c ↦
          let lt : b.attempt_number < a.attempt_number =
            find-below a.attempt_number k as' b v.newest f in
          let other : (a.attempt_number == b.attempt_number) ≡ false = ground arith in
          rw x
            (rw f (rw (locked_progress_update, c) (tail-IsShown (written r b) a as' s other lt v)))
    ]
  ]
]

step-IsShown :
    (interval : Option ℕ) (e : Event) (t : Task) → IsShown t → IsShown (step interval e t)
unfolding step
step-IsShown interval (report k r) t v =
    report-IsShown (cutoff_of interval r.now) r k t.attempts t.progress v
step-IsShown interval retry t v = record {
  newest = below-latest t.attempts;
  shows = λ h. absurd (cc);
}

at_end-IsShown :
    (interval : Option ℕ) (events : List Event) (t : Task)
    → IsShown t
    → IsShown (at_end interval events t)
unfolding at_end
at_end-IsShown interval [] t v = v
at_end-IsShown interval (e ∷ events) t v =
    at_end-IsShown interval events (step interval e t) (step-IsShown interval e t v)

abbrev pub new_task : Task
new_task = add_attempt (record { attempts = []; progress = none })

Shows-latest :
    (as' : List Attempt) (s : Option Snapshot) (a : Attempt)
    → IsNewest as'
    → Shows as' s
    → find (latest_number as') as' ≡ some a
    → is_none a.progress_reported_at ≡ false
    → s ≡ shown_of a
Shows-latest [] s a n h f r = cc
Shows-latest (b ∷ as') s a n h f r =
    let le = latest-below b.attempt_number as' n in
    let first : (b.attempt_number == max b.attempt_number (latest_number as')) ≡ true =
      ground arith in
    let same : b ≡ a = ground arith in rw (← same) (h (rw same r))

-- In every history of a new task, in which its attempts report progress in any order, superseded
-- attempts too, with any arguments and times, and retries come in between: once the latest attempt has
-- reported, the task shows exactly the progress of that attempt under its id, whatever the superseded
-- attempts report and whatever is coalesced.
pub progress_shown :
    (interval : Option ℕ) (events : List Event) (a : Attempt)
    → find
        (latest_number (at_end interval events new_task).attempts)
        (at_end interval events new_task).attempts
      ≡ some a
    → is_none a.progress_reported_at ≡ false
    → (at_end interval events new_task).progress ≡ shown_of a
progress_shown interval events a f r =
    let t = at_end interval events new_task in
    let v =
      at_end-IsShown interval events new_task (record { newest = tt; shows = λ h. absurd (cc) }) in
    Shows-latest t.attempts t.progress a v.newest v.shows f r
