-- ===== src/Examples/Limits.antt =====
-- Shared rates and prices at concrete calls and entries.
use django_qraft.Budget.{Budgets, remaining_budget}
use django_qraft.Budget.Spending.{budgets_at_end, charges, budget_conserved}
use django_qraft.Prelude.{
  ℕ, str_eq, if◌then◌else◌, ◌-◌, ◌/◌, max, any, true, false, Option, none, some, String, ◌↔◌, ◌+◌,
  ◌*◌, ◌≤◌, List, [], ◌∷◌, ◌≡◌, refl,
}
use django_qraft.Pricing.{
  Decimals, Price, from_resolver, Entry, UsageFields, Usage, complete, usage_entry, cost, entry_of,
  amount,
}
use django_qraft.Pricing.Recorded.{is_costed, is_lacking, recorded_cost_stands, complete_iff}
use django_qraft.Throttle.Window.{Call, spent, duration, spent-bounded}

-- Two tokens a second, and at most five at once; the third call comes too soon.
abbrev burst : List Call
burst =
    record { key = "openai"; cost = 3; delay = 0 }
    ∷ record { key = "mail"; cost = 5; delay = 0 }
    ∷ record { key = "openai"; cost = 4; delay = 0 }
    ∷ record { key = "openai"; cost = 4; delay = 1 }
    ∷ []

abbrev rates : String → ℕ
rates key = if str_eq key "openai" then 2 else 10

abbrev capacities : String → ℕ
capacities key = if str_eq key "openai" then 5 else 100

spent_of_burst : spent rates capacities "openai" burst 100 [] ≡ 7
unfolding spent
spent_of_burst = refl

spent-bounded_example : spent rates capacities "openai" burst 100 [] ≤ 5 + duration burst * 2
spent-bounded_example = spent-bounded rates capacities "openai" burst 100

-- Micro-units in place of decimals.
abbrev micros : Decimals ℕ
micros = record {
  from_int = λ n. n;
  plus = λ a b. a + b;
  minus = λ a b. a - b;
  times = λ a b. a * b;
  larger = λ a b. max a b;
  millionth = λ a. a / 1000000;
}

abbrev table : ℕ → String → Option String → Option (Price ℕ)
table rate model provider = some (record {
  input = rate;
  output = 2 * rate;
  cached_input = some 0;
  currency = "USD";
  revision = none;
  cached_is_subset = true;
})

abbrev no_table : String → Option String → Option (Price ℕ)
no_table model provider = none

abbrev half_cached : UsageFields ℕ
half_cached = record {
  model = some "small";
  provider = none;
  input_tokens = some 1000;
  output_tokens = some 500;
  cached_input_tokens = some 400;
  cost = none;
  currency = none;
}

-- The entry of 600 plain input and 500 output tokens.
abbrev priced_entry : Entry ℕ
priced_entry = record {
  model = "small";
  provider = none;
  input_tokens = some 1000;
  output_tokens = some 500;
  cached_input_tokens = some 400;
  estimated_cost = some 16000;
  currency = some "USD";
  pricing_revision = none;
  cost_source = from_resolver;
}

half_cached_priced : usage_entry micros (table 10000000) half_cached ≡ some priced_entry
unfolding usage_entry entry_of amount
half_cached_priced = refl

abbrev one_call : Usage ℕ
one_call = record { entries = priced_entry ∷ []; cost = none; currency = none }

recorded_cost_stands_example : cost micros (table 10000000) one_call ≡ cost micros no_table one_call
recorded_cost_stands_example = recorded_cost_stands micros (table 10000000) no_table one_call refl

complete_iff_example : ((cost micros no_table one_call).coverage ≡ complete) ↔ (
    (any (is_costed micros no_table) one_call.entries ≡ true)
    × (any (is_lacking micros no_table) one_call.entries ≡ false))
complete_iff_example = complete_iff micros no_table one_call refl

abbrev declared : Budgets
declared = ("openai", 5) ∷ ("mail", 1) ∷ []

-- The second call of three is refused, and the last has no budget.
abbrev spending : List (String × ℕ)
spending = ("openai", 3) ∷ ("openai", 3) ∷ ("mail", 1) ∷ ("openai", 2) ∷ ("disk", 9) ∷ []

charges_of_spending : charges "openai" spending declared ≡ 5
unfolding charges
charges_of_spending = refl

declared_openai : remaining_budget "openai" declared ≡ some 5
unfolding remaining_budget
declared_openai = refl

budget_conserved_example :
    (w : ℕ) × (remaining_budget "openai" (budgets_at_end spending declared) ≡ some w)
    × (charges "openai" spending declared + w ≡ 5)
budget_conserved_example = budget_conserved "openai" spending declared 5 declared_openai
