-- ===== src/Job/Counted.antt =====
-- A task that is in order, counted: its open attempts, its outcomes, and the steps of its life.
use django_qraft.Prelude.{
  ℕ, ◌+◌, ◌≤◌, Bool, true, List, [], ◌∷◌, count_if, ◌≡◌, ◌⊎◌, refl, ◌∙◌, arith, Bool-cases, inl,
  inr, Result, ok, err, if◌then◌else◌,
}
use django_qraft.Task.{TaskStatus}
use django_qraft.Job.{Attempt, is_open}
use django_qraft.Job.Tracked.{is_live, Past, Latest, numbers}
use django_qraft.Job.Machine.{Phase, live, dead, Step, stay, succeed, again, give_up}

-- The life of a task with revivals by an operator.
pub data Life (revives : Bool) (allowance : ℕ) (p : Phase) (n : ℕ) (p' : Phase) (n' : ℕ)
    : Type 0 where
  step : Step allowance p n p' n' → Life revives allowance p n p' n'
  revive : revives ≡ true → p ≡ dead → p' ≡ live → n' ≡ n + 1 → Life revives allowance p n p' n'

-- The numbers of the attempts that have an outcome, newest first.
abbrev pub settled_numbers : List Attempt → List ℕ
settled_numbers [] = []
settled_numbers (a ∷ as') =
    if is_open a then settled_numbers as' else a.attempt_number ∷ settled_numbers as'

pub Past-settled : (as' : List Attempt) → Past as' → settled_numbers as' ≡ numbers as'
Past-settled [] p = refl
Past-settled (a ∷ as') p = rw (p.1, Past-settled as' p.2) refl

pub Past-none_open : (as' : List Attempt) → Past as' → count_if is_open as' ≡ 0
Past-none_open [] p = refl
Past-none_open (a ∷ as') p = rw (count_if, p.1) (Past-none_open as' p.2)

pub Latest-one_open :
    (s : TaskStatus) (finished : List ℕ) (as' : List Attempt)
    → Latest s finished as'
    → count_if is_open as' ≡ (if is_live s then 1 else 0)
Latest-one_open s finished [] l = elim l [ ]
Latest-one_open s finished (a ∷ as') l = elim (Bool-cases (is_live s)) [
  | inl t ↦ rw (count_if, l.1 ∙ t, t, Past-none_open as' l.3) refl
  | inr t ↦ rw (count_if, l.1 ∙ t, t, Past-none_open as' l.3) refl
]

pub Latest-written :
    (s : TaskStatus) (finished : List ℕ) (as' : List Attempt)
    → Latest s finished as'
    → finished ≡ settled_numbers as'
Latest-written s finished [] l = elim l [ ]
Latest-written s finished (a ∷ as') l = elim (Bool-cases (is_live s)) [
  | inl t ↦ rw (l.1 ∙ t, Past-settled as' l.3) (rw t at l.2)
  | inr t ↦ rw (l.1 ∙ t, Past-settled as' l.3) (rw t at l.2)
]

pub Result-cases :
    {B E : Type 0} (r : Result E B) → ((b : B) × (r ≡ ok b)) ⊎ ((x : E) × (r ≡ err x))
Result-cases (ok b) = inl (b, refl)
Result-cases (err x) = inr (x, refl)

pub Life-bounded :
    (b : Bool) (a n n' m : ℕ) (p p' : Phase)
    → Life b a p n p' n'
    → n ≤ m
    → a ≤ m
    → n' ≤ m + (if b then 1 else 0)
Life-bounded b a n n' m p p' (step (stay e q)) le l = ground arith
Life-bounded b a n n' m p p' (step (succeed e e' q)) le l = ground arith
Life-bounded b a n n' m p p' (step (again e e' q lt)) le l = ground arith
Life-bounded b a n n' m p p' (step (give_up e e' q)) le l = ground arith
Life-bounded b a n n' m p p' (revive y e e' q) le l = rw y (omega arith)
