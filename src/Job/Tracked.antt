-- ===== src/Job/Tracked.antt =====
-- The rows of a task in order: which attempt is open, and what was written.
use mathlib.Core.Path.{subst}
use django_qraft.Prelude.{
  ℕ, suc, ◌+◌, ◌<◌, Bool, true, false, Option, some, List, [], ◌∷◌, length, any, ◌==◌, ◌≡◌, refl,
  sym, ap, ◌∙◌, arith, Bool-cases, inl, inr, String, if◌then◌else◌,
}
use django_qraft.Task.{TaskStatus}
use django_qraft.Job.{Attempt, is_open, update, find, has_number, latest_number, scheduled_row}
use django_qraft.Job.Completion.{resolved}

-- The statuses of a task that is not at an end.
abbrev pub is_live : TaskStatus → Bool
is_live TaskStatus.pending = true
is_live TaskStatus.running = true
is_live _ = false

abbrev pub numbers : List Attempt → List ℕ
numbers [] = []
numbers (a ∷ as') = a.attempt_number ∷ numbers as'

-- Attempts that have their outcomes, numbered from 1.
abbrev pub Past : List Attempt → Type 0
Past [] = Unit
Past (a ∷ as') = (a.attempt_number ≡ suc (length as')) × (is_open a ≡ false) × Past as'

-- The newest attempt is open exactly if the task is live, and the outcomes written are those of the
-- attempts that have one.
abbrev pub Latest : TaskStatus → List ℕ → List Attempt → Type 0
Latest status finished [] = ⊥
Latest status finished (a ∷ as') =
    (a.attempt_number ≡ suc (length as'))
    × (is_open a ≡ is_live status)
    × (finished ≡ (if is_live status then numbers as' else a.attempt_number ∷ numbers as'))
    × Past as'

-- An update of a row that keeps its number, and opens it not again.
pub record Keeps (f : Attempt → Attempt) : Type 0 where
  pub number : (a : Attempt) → (f a).attempt_number ≡ a.attempt_number
  pub closed : (a : Attempt) → is_open a ≡ false → is_open (f a) ≡ false

pub length-update :
    (k : ℕ) (f : Attempt → Attempt) (as' : List Attempt) → length (update k f as') ≡ length as'
length-update k f [] = refl
length-update k f (a ∷ as') = ap suc (length-update k f as')

head_number :
    (k : ℕ) (f : Attempt → Attempt) (a : Attempt)
    → Keeps f
    → (if a.attempt_number == k then f a else a).attempt_number ≡ a.attempt_number
head_number k f a h = elim (Bool-cases (a.attempt_number == k)) [
  | inl e ↦ rw e (h.number a)
  | inr e ↦ rw e refl
]

numbers-update :
    (k : ℕ) (f : Attempt → Attempt) (as' : List Attempt)
    → Keeps f
    → numbers (update k f as') ≡ numbers as'
numbers-update k f [] h = refl
numbers-update k f (a ∷ as') h = cc (head_number k f a h, numbers-update k f as' h)

update-Past :
    (k : ℕ) (f : Attempt → Attempt) (as' : List Attempt)
    → Keeps f
    → Past as'
    → Past (update k f as')
update-Past k f [] h p = tt
update-Past k f (a ∷ as') h p = (
  head_number k f a h ∙ p.0 ∙ ap suc (sym (length-update k f as')),
  elim (Bool-cases (a.attempt_number == k)) [ inl e ↦ rw e (h.closed a p.1) | inr e ↦ rw e p.1 ],
  update-Past k f as' h p.2,
)

-- An update that keeps numbers and outcomes keeps the order.
pub update-Latest :
    (k : ℕ) (f : Attempt → Attempt) (status : TaskStatus) (finished : List ℕ) (as' : List Attempt)
    → Keeps f
    → ((a : Attempt) → is_open (f a) ≡ is_open a)
    → Latest status finished as'
    → Latest status finished (update k f as')
update-Latest k f status finished [] h same l = l
update-Latest k f status finished (a ∷ as') h same l = (
  head_number k f a h ∙ l.0 ∙ ap suc (sym (length-update k f as')),
  elim (Bool-cases (a.attempt_number == k)) [ inl e ↦ rw e (same a ∙ l.1) | inr e ↦ rw e l.1 ],
  rw (numbers-update k f as' h, head_number k f a h) l.2,
  update-Past k f as' h l.3,
)

pub Latest-status :
    (s s' : TaskStatus) (finished : List ℕ) (as' : List Attempt)
    → is_live s' ≡ is_live s
    → Latest s finished as'
    → Latest s' finished as'
Latest-status s s' finished [] e l = l
Latest-status s s' finished (a ∷ as') e l = (l.0, l.1 ∙ sym e, rw e l.2, l.3)

same_of_some : {b c : Attempt} → some b ≡ some c → b ≡ c
same_of_some q = cc

find-Past :
    (p : Attempt → Bool) (as' : List Attempt) (a : Attempt)
    → Past as'
    → find p as' ≡ some a
    → is_open a ≡ false
find-Past p [] a h e = cc
find-Past p (b ∷ as') a h e = elim (Bool-cases (p b)) [
  | inl t ↦ subst (λ (c : Attempt). is_open c ≡ false) (same_of_some (rw t at e)) h.1
  | inr t ↦ find-Past p as' a h.2 (rw t at e)
]

-- The open attempt that a query finds is the newest.
find-newest :
    (p : Attempt → Bool) (b : Attempt) (as' : List Attempt) (a : Attempt)
    → Past as'
    → find p (b ∷ as') ≡ some a
    → is_open a ≡ true
    → b ≡ a
find-newest p b as' a h e o = elim (Bool-cases (p b)) [
  | inl t ↦ same_of_some (rw t at e)
  | inr t ↦ absurd (ground (arith, find-Past p as' a h (rw t at e)))
]

pub find-has_number :
    (k : ℕ) (as' : List Attempt) (a : Attempt)
    → find (has_number k) as' ≡ some a
    → a.attempt_number ≡ k
find-has_number k [] a e = cc
find-has_number k (b ∷ as') a e = elim (Bool-cases (has_number k b)) [
  | inl t ↦ subst (λ (c : Attempt). c.attempt_number ≡ k) (same_of_some (rw t at e)) (ground arith)
  | inr t ↦ find-has_number k as' a (rw t at e)
]

pub Keeps-resolved :
    (success : Bool) (now : ℕ) (exception_class : Option String)
    → Keeps (resolved success now exception_class)
Keeps-resolved success now exception_class = record { number = λ a. refl; closed = λ a h. refl }

resolve_head :
    (f : Attempt → Attempt) (s : TaskStatus) (finished : List ℕ) (b : Attempt) (as' : List Attempt)
    → Keeps f
    → ((c : Attempt) → is_open (f c) ≡ false)
    → Latest s finished (b ∷ as')
    → is_open b ≡ true
    → Past (update b.attempt_number f (b ∷ as'))
      × (b.attempt_number ∷ finished ≡ numbers (update b.attempt_number f (b ∷ as')))
      × (b.attempt_number ≡ length (update b.attempt_number f (b ∷ as')))
      × (0 < b.attempt_number)
resolve_head f s finished b as' h shut l o =
    let k = b.attempt_number in
    let live : is_live s ≡ true = sym l.1 ∙ o in
    (
      (
        head_number k f b h ∙ l.0 ∙ ap suc (sym (length-update k f as')),
        elim (Bool-cases (b.attempt_number == k)) [
          | inl e ↦ rw e (shut b)
          | inr e ↦ absurd (ground arith)
        ],
        update-Past k f as' h l.3,
      ),
      cc (numbers-update k f (b ∷ as') h, rw live at l.2),
      l.0 ∙ ap suc (sym (length-update k f as')),
      omega (arith, l.0),
    )

-- The outcome of the open attempt settles all: it is the newest, and its outcome the last that was
-- missing.
pub resolve_newest :
    (f : Attempt → Attempt) (p : Attempt → Bool) (s : TaskStatus) (finished : List ℕ)
    (as' : List Attempt) (a : Attempt)
    → Keeps f
    → ((b : Attempt) → is_open (f b) ≡ false)
    → Latest s finished as'
    → find p as' ≡ some a
    → is_open a ≡ true
    → Past (update a.attempt_number f as')
      × (a.attempt_number ∷ finished ≡ numbers (update a.attempt_number f as'))
      × (a.attempt_number ≡ length (update a.attempt_number f as'))
      × (0 < a.attempt_number)
resolve_newest f p s finished [] a h shut l e o = elim l [ ]
resolve_newest f p s finished (b ∷ as') a h shut l e o =
    let q = find-newest p b as' a l.3 e o in
    subst
      (λ (c : Attempt).
        Past (update c.attempt_number f (b ∷ as'))
        × (c.attempt_number ∷ finished ≡ numbers (update c.attempt_number f (b ∷ as')))
        × (c.attempt_number ≡ length (update c.attempt_number f (b ∷ as')))
        × (0 < c.attempt_number))
      q
      (resolve_head f s finished b as' h shut l
        (subst (λ (c : Attempt). is_open c ≡ true) (sym q) o))

-- A number beyond the attempts is free.
pub Past-fresh :
    (n : ℕ) (as' : List Attempt) → Past as' → length as' < n → any (has_number n) as' ≡ false
Past-fresh n [] p lt = refl
Past-fresh n (a ∷ as') p lt =
    let rest = Past-fresh n as' p.2 (omega arith) in
    let differs : has_number n a ≡ false = ground (arith, p.0) in rw (differs, rest) refl

-- An attempt that a query finds open is the task's newest, and the task is live.
pub open-live :
    (p : Attempt → Bool) (s : TaskStatus) (finished : List ℕ) (as' : List Attempt) (a : Attempt)
    → Latest s finished as'
    → find p as' ≡ some a
    → is_open a ≡ true
    → is_live s ≡ true
open-live p s finished [] a l e o = elim l [ ]
open-live p s finished (b ∷ as') a l e o = cc (l.1, o, find-newest p b as' a l.3 e o)

latest-Past : (as' : List Attempt) → Past as' → latest_number as' ≡ length as'
latest-Past [] p = refl
latest-Past (a ∷ as') p = omega (arith, p.0, latest-Past as' p.2)

-- A settled task takes its next attempt.
pub scheduled-Latest :
    (n now : ℕ) (finished : List ℕ) (as' : List Attempt)
    → n ≡ length as' + 1
    → finished ≡ numbers as'
    → Past as'
    → Latest TaskStatus.pending finished (scheduled_row n now ∷ as')
scheduled-Latest n now finished as' e q p = (omega (arith, e), refl, q, p)

-- A settled task at an end is in order.
pub settled-Latest :
    (s : TaskStatus) (finished : List ℕ) (as' : List Attempt)
    → is_live s ≡ false
    → 0 < length as'
    → finished ≡ numbers as'
    → Past as'
    → Latest s finished as'
settled-Latest s finished [] e pos q p = absurd (omega arith)
settled-Latest s finished (a ∷ as') e pos q p = (p.0, p.1 ∙ sym e, rw e q, p.2)

pub Latest-settled :
    (s : TaskStatus) (finished : List ℕ) (as' : List Attempt)
    → is_live s ≡ false
    → Latest s finished as'
    → Past as' × (finished ≡ numbers as') × (latest_number as' ≡ length as')
Latest-settled s finished [] e l = elim l [ ]
Latest-settled s finished (a ∷ as') e l =
    let past : Past (a ∷ as') = (l.0, l.1 ∙ e, l.3) in
    (past, rw e at l.2, latest-Past (a ∷ as') past)

-- The next number is free while an attempt is open, too.
pub Latest-next :
    (s : TaskStatus) (finished : List ℕ) (as' : List Attempt)
    → Latest s finished as'
    → (latest_number as' ≡ length as') × (any (has_number (latest_number as' + 1)) as' ≡ false)
Latest-next s finished [] l = elim l [ ]
Latest-next s finished (a ∷ as') l =
    let latest : latest_number (a ∷ as') ≡ suc (length as') =
      omega (arith, l.0, latest-Past as' l.3) in
    let rest = Past-fresh (latest_number (a ∷ as') + 1) as' l.3 (omega (arith, latest)) in
    let differs : has_number (latest_number (a ∷ as') + 1) a ≡ false =
      ground (arith, l.0, latest) in
    (latest, rw (differs, rest) refl)
