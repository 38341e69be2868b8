-- ===== src/Usage/Attempts.antt =====
-- Calls of `record_usage` by the attempts of a task, in any order, and their aggregate.
use django_qraft.Prelude.{
  ℕ, zero, suc, ◌+◌, String, Bool, Option, none, some, List, [], ◌∷◌, All, ltb, Object,
  if◌then◌else◌, ◌≡◌,
}
use django_qraft.Usage.{Value, Decimals, Usage, no_usage, record_usage}
use django_qraft.Usage.Recorded.{Fine, total, worth_at}

-- A call by the attempt at a place, with the entry that was priced for it, if any.
pub record UsageCall (E : Type 0) : Type 0 where
  pub attempt : ℕ
  pub fields : Object Value
  pub entry : Option E

module _ {E : Type 0} where
  abbrev pub attempts : ℕ → List (Usage E)
  attempts zero = []
  attempts (suc n) = no_usage ∷ attempts n

  unfoldable pub after_calls : Decimals → List (UsageCall E) → List (Usage E) → List (Usage E)
  unfolding record_usage
  after_calls D [] us = us
  after_calls D (c ∷ calls) us = after_calls D calls (record_usage D c.attempt c.fields c.entry us)

  module _ (D : Decimals) (numeric : String → Bool) (k : String) where
    -- What the calls of attempts that exist recorded under the key.
    abbrev pub recorded : ℕ → List (UsageCall E) → ℕ
    recorded n [] = 0
    recorded n (c ∷ calls) =
        (if ltb c.attempt n then total D numeric k c.fields else 0) + recorded n calls

    abbrev total_all : List (Usage E) → ℕ
    total_all [] = 0
    total_all (u ∷ us) = total D numeric k u.fields + total_all us

    abbrev FineAll : List (Usage E) → Type 0
    FineAll us = All (λ u. Fine D numeric k u.fields) us

    abbrev AggregatesTo : ℕ → Option (Usage E) → Type 0
    AggregatesTo n none = ⊥
    AggregatesTo n (some u) = worth_at D numeric k u.fields ≡ n
