-- ===== src/Budget/Spending.antt =====
-- What the calls of all tasks of a graph spend together.
use django_qraft.Prelude.{
  ℕ, ◌+◌, ◌-◌, String, true, false, Option, none, some, List, [], ◌∷◌, leb, ◌==◌, str_eq, eq_iff,
  Result, ok, err, Bool-cases, Option-cases, inl, inr, if◌then◌else◌, ◌≡◌, refl, sym, ap, ◌∙◌,
  arith,
}
use django_qraft.Budget.{
  Budgets, BudgetError, exhausted, remaining_budget, write, locked_consume, consume_budget,
}

remaining-write :
    (key : String) (left v : ℕ) (bs : Budgets)
    → remaining_budget key bs ≡ some v
    → remaining_budget key (write key left bs) ≡ some left
unfolding remaining_budget write
remaining-write key left v [] h = cc
remaining-write key left v (b ∷ bs) h = elim (Bool-cases (str_eq b.0 key)) [
  | inl e ↦ rw (write, e) (rw (remaining_budget, e) refl)
  | inr e ↦
      rw (write, e)
        (rw (remaining_budget, e) (remaining-write key left v bs (rw (remaining_budget, e) at h)))
]

remaining-write_other :
    (key other : String) (left : ℕ) (bs : Budgets)
    → str_eq other key ≡ false
    → remaining_budget key (write other left bs) ≡ remaining_budget key bs
unfolding remaining_budget write
remaining-write_other key other left [] h = rw (write, remaining_budget, h) refl
remaining-write_other key other left (b ∷ bs) h = elim (Bool-cases (str_eq b.0 other)) [
  | inl e ↦
      let q : str_eq b.0 key ≡ false =
        ap (λ (k : String). str_eq k key) ((eq_iff b.0 other).0 e) ∙ h in
      rw (write, remaining_budget, e, q) refl
  | inr e ↦ elim (Bool-cases (str_eq b.0 key)) [
    | inl k ↦ rw (write, remaining_budget, e, k) refl
    | inr k ↦ rw (write, remaining_budget, e, k) (remaining-write_other key other left bs h)
  ]
]

-- What a call spent, and the budgets after it; an exception changes nothing.
abbrev pub charged : ℕ → Result BudgetError (Option ℕ × Budgets) → ℕ
charged n (ok (none, bs)) = 0
charged n (ok (some left, bs)) = n
charged n (err x) = 0

abbrev pub budgets_after : Budgets → Result BudgetError (Option ℕ × Budgets) → Budgets
budgets_after bs (ok (left, bs')) = bs'
budgets_after bs (err x) = bs

abbrev pub charged_to : String → String → ℕ → ℕ
charged_to key called n = if str_eq called key then n else 0

uncharged : (key called : String) (v : ℕ) → charged_to key called 0 + v ≡ v
uncharged key called v = elim (Bool-cases (str_eq called key)) [
  | inl e ↦ rw e (omega arith)
  | inr e ↦ rw e (omega arith)
]

consume-refused :
    (called : String) (n left : ℕ) (bs : Budgets)
    → (n == 0) ≡ false
    → remaining_budget called bs ≡ some left
    → leb n left ≡ false
    → consume_budget called n bs ≡ err (exhausted called)
unfolding consume_budget locked_consume
consume-refused called n left bs z m l =
    let none_left : locked_consume called n bs ≡ none = rw (locked_consume, m, l) refl in
    rw (consume_budget, z, m, none_left) refl

consume-spends :
    (called : String) (n left : ℕ) (bs : Budgets)
    → (n == 0) ≡ false
    → remaining_budget called bs ≡ some left
    → leb n left ≡ true
    → consume_budget called n bs ≡ ok (some (left - n), write called (left - n) bs)
unfolding consume_budget locked_consume
consume-spends called n left bs z m l =
    let spent_now : locked_consume called n bs ≡ some (left - n, write called (left - n) bs) =
      rw (locked_consume, m, l) refl in
    rw (consume_budget, z, m, spent_now) refl

-- What a key had is what it was charged and what it has.
abbrev pub Conserves :
    String → String → ℕ → ℕ → Budgets → Result BudgetError (Option ℕ × Budgets) → Type 0
Conserves key called n v bs r =
    (w : ℕ) × (remaining_budget key (budgets_after bs r) ≡ some w)
    × (charged_to key called (charged n r) + w ≡ v)

same_number : {a b : ℕ} → some a ≡ some b → a ≡ b
same_number h = cc

spent-Conserves :
    (key called : String) (n v left : ℕ) (bs : Budgets)
    → remaining_budget key bs ≡ some v
    → remaining_budget called bs ≡ some left
    → leb n left ≡ true
    → Conserves key called n v bs (ok (some (left - n), write called (left - n) bs))
spent-Conserves key called n v left bs h m l = elim (Bool-cases (str_eq called key)) [
  | inr e ↦ (v, remaining-write_other key called (left - n) bs e ∙ h, rw e (omega arith))
  | inl e ↦
      let q : called ≡ key = (eq_iff called key).0 e in
      let same : left ≡ v =
        same_number (sym m ∙ ap (λ (k : String). remaining_budget k bs) q ∙ h) in
      (
        left - n,
        ap (λ (k : String). remaining_budget k (write called (left - n) bs)) (sym q)
            ∙ remaining-write called (left - n) left bs m,
        rw e (ground (arith, same)),
      )
]

consume-Conserves :
    (key called : String) (n v : ℕ) (bs : Budgets)
    → remaining_budget key bs ≡ some v
    → Conserves key called n v bs (consume_budget called n bs)
unfolding consume_budget
consume-Conserves key called n v bs h = elim (Bool-cases (n == 0)) [
  | inl z ↦ rw (consume_budget, z) (v, h, uncharged key called v)
  | inr z ↦ elim (Option-cases (remaining_budget called bs)) [
    | inl u ↦ rw (consume_budget, z, u) (v, h, uncharged key called v)
    | inr (left, m) ↦ elim (Bool-cases (leb n left)) [
      | inr l ↦ rw (consume-refused called n left bs z m l) (v, h, uncharged key called v)
      | inl l ↦
          rw (consume-spends called n left bs z m l) (spent-Conserves key called n v left bs h m l)
    ]
  ]
]

-- The budgets after calls by any tasks, and what a key was charged by them.
unfoldable pub budgets_at_end : List (String × ℕ) → Budgets → Budgets
unfolding consume_budget
budgets_at_end [] bs = bs
budgets_at_end (c ∷ calls) bs = budgets_at_end calls (budgets_after bs (consume_budget c.0 c.1 bs))

unfoldable pub charges : String → List (String × ℕ) → Budgets → ℕ
unfolding consume_budget
charges key [] bs = 0
charges key (c ∷ calls) bs =
    let r = consume_budget c.0 c.1 bs in
    charged_to key c.0 (charged c.1 r) + charges key calls (budgets_after bs r)

-- Whatever the tasks of a graph spend on any keys, in any order: what a declared key was charged and
-- what it has left are together what was declared, so that it is never overspent and a refused call
-- costs nothing.
pub budget_conserved :
    (key : String) (calls : List (String × ℕ)) (bs : Budgets) (v : ℕ)
    → remaining_budget key bs ≡ some v
    → (w : ℕ) × (remaining_budget key (budgets_at_end calls bs) ≡ some w)
      × (charges key calls bs + w ≡ v)
unfolding budgets_at_end charges
budget_conserved key [] bs v h = (v, h, omega arith)
budget_conserved key (c ∷ calls) bs v h =
    let (w, e, q) = consume-Conserves key c.0 c.1 v bs h in
    let (w', e', q') =
      budget_conserved key calls (budgets_after bs (consume_budget c.0 c.1 bs)) w e in
    (w', e', omega (arith, q, q'))
