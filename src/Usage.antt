-- ===== src/Usage.antt =====
-- qraft/context.py: usage that tasks record on their attempts, and what is summed from it.
pub mod Values
pub mod Recorded
pub mod Attempts
use django_qraft.Prelude.{
  ℕ, zero, suc, ◌+◌, String, Bool, true, false, ◌||◌, Option, none, some, List, [], ◌∷◌, ◌++◌,
  str_eq, Object, get, put, ◌≡◌, if◌then◌else◌,
}

-- A usage value: a whole amount, a flag, or a text, such as a model's name or a decimal; a `Decimal`
-- is a text once it is stored.
pub data Value : Type 0 where
  amount : ℕ → Value
  flag : Bool → Value
  text : String → Value

-- Decimals as texts, in whole units: `Decimal(s)` and `str(d)`.
pub record Decimals : Type 0 where
  pub read : String → Option ℕ
  pub print : ℕ → String
  pub read-print : (n : ℕ) → read (print n) ≡ some n

-- `key in MONEY_KEYS`
abbrev pub is_money : String → Bool
is_money key = str_eq key "cost" || str_eq key "estimated_cost"

abbrev pub or_zero : Option ℕ → ℕ
or_zero none = 0
or_zero (some n) = n

-- `_is_numeric` of a value that is there
abbrev pub is_amount : Value → Bool
is_amount (amount n) = true
is_amount _ = false

-- The usage of an attempt, with its priced entries apart: no caller's own field is called `entries`.
pub record Usage (E : Type 0) : Type 0 where
  pub fields : Object Value
  pub entries : List E

abbrev pub entry_list : {E : Type 0} → Option E → List E
entry_list none = []
entry_list (some e) = e ∷ []

abbrev pub no_usage : {E : Type 0} → Usage E
no_usage = record { fields = []; entries = [] }

module _ (D : Decimals) where
  -- `_money`
  abbrev pub money : Value → Option ℕ
  money (amount n) = some n
  money (flag b) = none
  money (text s) = D.read s

  abbrev pub money_of : Option Value → ℕ
  money_of none = 0
  money_of (some v) = or_zero (money v)

  -- Numbers add up, and anything else takes the latest value.
  abbrev pub add_numbers : Option Value → Value → Value
  add_numbers (some (amount a)) (amount b) = amount (a + b)
  add_numbers current v = v

  abbrev pub priced : Option ℕ → Option Value → Value → Value
  priced none current v = add_numbers current v
  priced (some increment) current v = text (D.print (money_of current + increment))

  -- The value of a key after a recorded one, by whether the key holds money.
  abbrev pub recorded_value : Bool → Option Value → Value → Value
  recorded_value true current v = priced (money v) current v
  recorded_value false current v = add_numbers current v

  -- The loop of `_merge_usage`
  unfoldable pub merge_fields : Object Value → Object Value → Object Value
  merge_fields usage [] = usage
  merge_fields usage (f ∷ fs) =
      merge_fields (put f.0 (recorded_value (is_money f.0) (get f.0 usage) f.1) usage) fs

  -- What a number adds to a sum; `none` stands for the `TypeError` of a text.
  abbrev pub add_to : Option Value → ℕ → Option Value
  add_to none b = some (amount b)
  add_to (some (amount a)) b = some (amount (a + b))
  add_to (some (flag f)) b = some (amount ((if f then 1 else 0) + b))
  add_to (some (text s)) b = none

  abbrev pub sum_number : Option Value → Value → Option Value
  sum_number current (amount b) = add_to current b
  sum_number current v = some v

  abbrev pub sum_priced : Option ℕ → Option Value → Value → Option Value
  sum_priced none current v = sum_number current v
  sum_priced (some increment) current v = some (text (D.print (money_of current + increment)))

  abbrev pub sum_value : Bool → Option Value → Value → Option Value
  sum_value true current v = sum_priced (money v) current v
  sum_value false current v = sum_number current v

  -- The inner loop of `_sum_usage`
  unfoldable pub sum_fields : Object Value → Object Value → Option (Object Value)
  sum_fields sum [] = some sum
  sum_fields sum (f ∷ fs) = elim (sum_value (is_money f.0) (get f.0 sum) f.1) [
    | none ↦ none
    | some v ↦ sum_fields (put f.0 v sum) fs
  ]

  module _ {E : Type 0} where
    -- `_merge_usage`
    unfoldable pub merge_usage : Usage E → Object Value → Option E → Usage E
    unfolding merge_fields
    merge_usage usage fields entry = record {
      fields = merge_fields usage.fields fields;
      entries = usage.entries ++ entry_list entry;
    }

    -- `_sum_usage` before the cost summary, from a sum on.
    unfoldable pub sum_usages : Usage E → List (Usage E) → Option (Usage E)
    unfolding sum_fields
    sum_usages sum [] = some sum
    sum_usages sum (u ∷ us) = elim (sum_fields sum.fields u.fields) [
      | none ↦ none
      | some fields ↦ sum_usages (record { fields = fields; entries = sum.entries ++ u.entries }) us
    ]

    -- `aggregate_usage` of a task's attempts
    unfoldable pub aggregate_usage : List (Usage E) → Option (Usage E)
    unfolding sum_usages
    aggregate_usage attempts = sum_usages no_usage attempts

    -- `record_usage` by the attempt at a place, under the row lock
    unfoldable pub record_usage : ℕ → Object Value → Option E → List (Usage E) → List (Usage E)
    unfolding merge_usage
    record_usage i fields entry [] = []
    record_usage zero fields entry (u ∷ us) = merge_usage u fields entry ∷ us
    record_usage (suc i) fields entry (u ∷ us) = u ∷ record_usage i fields entry us
