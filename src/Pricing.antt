-- ===== src/Pricing.antt =====
-- qraft/pricing.py: prices, the entries of recorded usage, and their cost.
pub mod Recorded
use django_qraft.Prelude.{
  ℕ, zero, suc, ◌+◌, String, Bool, true, false, not, ◌&&◌, ◌||◌, Option, none, some, List, [], ◌∷◌,
  ltb, str_eq, is_none, if◌then◌else◌,
}

-- `Decimal`, as far as prices use it; a stored cost, its text, stands for the number.
pub record Decimals (D : Type 0) : Type 0 where
  pub from_int : ℕ → D
  pub plus : D → D → D
  pub minus : D → D → D
  pub times : D → D → D
  pub larger : D → D → D
  pub millionth : D → D

-- `Price`
pub record Price (D : Type 0) : Type 0 where
  pub input : D
  pub output : D
  pub cached_input : Option D
  pub currency : String
  pub revision : Option String
  pub cached_is_subset : Bool

-- The values of `cost_source`.
pub data CostSource : Type 0 where
  from_caller from_resolver unpriced : CostSource

-- An entry of recorded usage.
pub record Entry (D : Type 0) : Type 0 where
  pub model : String
  pub provider : Option String
  pub input_tokens : Option ℕ
  pub output_tokens : Option ℕ
  pub cached_input_tokens : Option ℕ
  pub estimated_cost : Option D
  pub currency : Option String
  pub pricing_revision : Option String
  pub cost_source : CostSource

-- The fields of a `record_usage()` call that a price depends on.
pub record UsageFields (D : Type 0) : Type 0 where
  pub model : Option String
  pub provider : Option String
  pub input_tokens : Option ℕ
  pub output_tokens : Option ℕ
  pub cached_input_tokens : Option ℕ
  pub cost : Option D
  pub currency : Option String

pub record Usage (D : Type 0) : Type 0 where
  pub entries : List (Entry D)
  pub cost : Option D
  pub currency : Option String

pub data Coverage : Type 0 where
  complete partial nothing : Coverage

pub record CostSummary (D : Type 0) : Type 0 where
  pub amount : D
  pub currency : Option String
  pub coverage : Coverage
  pub estimated : Bool

-- The counts of the loop of `cost`.
pub record Tally (D : Type 0) : Type 0 where
  pub amount : D
  pub currency : Option String
  pub priced : ℕ
  pub unpriced : ℕ
  pub estimated : Bool

abbrev pub or_zero : Option ℕ → ℕ
or_zero none = 0
or_zero (some n) = n

abbrev pub or_currency : Option String → Option String → Option String
or_currency none c = c
or_currency (some c) _ = some c

abbrev pub is_caller : CostSource → Bool
is_caller from_caller = true
is_caller _ = false

abbrev pub counted : Option ℕ → Bool
counted o = ltb 0 (or_zero o)

module _ {D : Type 0} where
  -- `any(entry.get(name) for name in TOKEN_FIELDS)`
  abbrev pub has_tokens : Entry D → Bool
  has_tokens e = counted e.input_tokens || counted e.output_tokens || counted e.cached_input_tokens

  abbrev pub plain_entry : String → UsageFields D → Entry D
  plain_entry model f = record {
    model = model;
    provider = f.provider;
    input_tokens = f.input_tokens;
    output_tokens = f.output_tokens;
    cached_input_tokens = f.cached_input_tokens;
    estimated_cost = none;
    currency = none;
    pricing_revision = none;
    cost_source = unpriced;
  }

  abbrev pub coverage_of : Tally D → Coverage
  coverage_of t =
      if ltb 0 t.priced && not (ltb 0 t.unpriced)
      then complete
      else if ltb 0 t.priced
      then partial
      else nothing

  abbrev pub summary_of : Tally D → CostSummary D
  summary_of t = record {
    amount = t.amount;
    currency = t.currency;
    coverage = coverage_of t;
    estimated = t.estimated || not (ltb 0 t.priced);
  }

  abbrev pub no_entries : List (Entry D) → Bool
  no_entries [] = true
  no_entries (_ ∷ _) = false

  module _ (M : Decimals D) where
    -- `Price.amount`
    unfoldable pub amount : Price D → Option ℕ → Option ℕ → Option ℕ → D
    amount p input_tokens output_tokens cached_input_tokens =
        let cached = M.from_int (or_zero cached_input_tokens) in
        let rate : D = elim (p.cached_input) [ none ↦ p.input | some r ↦ r ] in
        let all_input = M.from_int (or_zero input_tokens) in
        let uncached = if p.cached_is_subset then M.minus all_input cached else all_input in
        M.millionth (
          M.plus (M.plus (M.times (M.larger uncached (M.from_int 0)) p.input) (M.times cached rate))
            (M.times (M.from_int (or_zero output_tokens)) p.output))

    abbrev pub no_tally : Tally D
    no_tally = record {
      amount = M.from_int 0;
      currency = none;
      priced = 0;
      unpriced = 0;
      estimated = false;
    }

    abbrev pub legacy : Usage D → CostSummary D
    legacy u = elim (u.cost) [
      | none ↦ record {
        amount = M.from_int 0;
        currency = none;
        coverage = nothing;
        estimated = true;
      }
      | some c ↦ record {
        amount = c;
        currency = u.currency;
        coverage = complete;
        estimated = false;
      }
    ]

    module _ (lookup : String → Option String → Option (Price D)) where
      -- `usage_entry` of a call that names a model
      unfoldable pub entry_of : String → UsageFields D → Entry D
      unfolding amount
      entry_of model f = elim (f.cost) [
        | some c ↦ record (plain_entry model f) {
          estimated_cost = some c;
          currency = f.currency;
          cost_source = from_caller;
        }
        | none ↦ elim (lookup model f.provider) [
          | none ↦ plain_entry model f
          | some p ↦ record (plain_entry model f) {
            estimated_cost = some (amount p f.input_tokens f.output_tokens f.cached_input_tokens);
            currency = some p.currency;
            pricing_revision = p.revision;
            cost_source = from_resolver;
          }
        ]
      ]

      -- `usage_entry`
      unfoldable pub usage_entry : UsageFields D → Option (Entry D)
      unfolding entry_of
      usage_entry f = elim (f.model) [
        | none ↦ none
        | some model ↦ if str_eq model "" then none else some (entry_of model f)
      ]

      -- The cost of an entry and where it comes from: as recorded, or by the table of now.
      unfoldable pub price_now : Entry D → Option (D × CostSource × Option String)
      unfolding amount
      price_now e = elim (e.estimated_cost) [
        | some c ↦ some (c, e.cost_source, none)
        | none ↦ elim (lookup e.model e.provider) [
          | none ↦ none
          | some p ↦ some (
            amount p e.input_tokens e.output_tokens e.cached_input_tokens,
            from_resolver,
            some p.currency,
          )
        ]
      ]

      -- One round of the loop of `cost`.
      unfoldable pub add_entry : Tally D → Entry D → Tally D
      unfolding price_now
      add_entry t e = elim (price_now e) [
        | none ↦ if has_tokens e then record t { unpriced = t.unpriced + 1 } else t
        | some (c, source, currency) ↦ record {
          amount = M.plus t.amount c;
          currency = or_currency (or_currency t.currency currency) e.currency;
          priced = t.priced + 1;
          unpriced = t.unpriced;
          estimated = t.estimated || not (is_caller source);
        }
      ]

      unfoldable pub add_entries : Tally D → List (Entry D) → Tally D
      unfolding add_entry
      add_entries t [] = t
      add_entries t (e ∷ es) = add_entries (add_entry t e) es

      -- `cost`
      unfoldable pub cost : Usage D → CostSummary D
      unfolding add_entries
      cost u =
          if no_entries u.entries then legacy u else summary_of (add_entries no_tally u.entries)
