-- ===== src/Budget.antt =====
-- qraft/context.py: the budgets of a graph, and what its tasks spend.
pub mod Spending
use django_qraft.Prelude.{
  ℕ, ◌+◌, ◌-◌, String, Bool, true, false, not, ◌&&◌, Option, none, some, List, [], ◌∷◌, leb, ◌==◌,
  str_eq, Result, ok, err, ◌>>=◌, if◌then◌else◌,
}

-- `QraftGraph.budgets`, the object of a JSON column: what is left for each declared key.
abbrev pub Budgets : Type 0
Budgets = List (String × ℕ)

-- The exceptions: a number that is not positive, and an allowance that is spent.
pub data BudgetError : Type 0 where
  not_positive : BudgetError
  exhausted : String → BudgetError

-- `remaining_budget` of a graph
unfoldable pub remaining_budget : String → Budgets → Option ℕ
remaining_budget key [] = none
remaining_budget key (b ∷ bs) =
    let rest = remaining_budget key bs in if str_eq b.0 key then some b.1 else rest

-- `budgets[key] = left`
unfoldable pub write : String → ℕ → Budgets → Budgets
write key left [] = (key, left) ∷ []
write key left (b ∷ bs) =
    let rest = write key left bs in if str_eq b.0 key then (b.0, left) ∷ bs else b ∷ rest

-- `_locked_consume_budget`, and the guarded statement that stands for it on PostgreSQL: `none` when
-- less is left.
unfoldable pub locked_consume : String → ℕ → Budgets → Option (ℕ × Budgets)
unfolding remaining_budget write
locked_consume key n bs = elim (remaining_budget key bs) [
  | none ↦ none
  | some left ↦ if leb n left then some (left - n, write key (left - n) bs) else none
]

-- `consume_budget` in a graph with these budgets: what is left, if the key is metered.
unfoldable pub consume_budget : String → ℕ → Budgets → Result BudgetError (Option ℕ × Budgets)
unfolding locked_consume
consume_budget key n bs = if n == 0 then err not_positive else elim (remaining_budget key bs) [
  | none ↦ ok (none, bs)
  | some _ ↦ elim (locked_consume key n bs) [
    | none ↦ err (exhausted key)
    | some (left, bs') ↦ ok (some left, bs')
  ]
]
