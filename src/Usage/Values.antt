-- ===== src/Usage/Values.antt =====
-- The worth of usage values under one key: what recording and summing do to it.
use django_qraft.Prelude.{
  ℕ, ◌+◌, String, Bool, true, false, ◌||◌, Option, none, some, Option-cases, inl, inr, ◌≡◌, refl,
  sym, ◌∙◌, arith,
}
use django_qraft.Usage.{
  Value, amount, flag, text, Decimals, is_money, or_zero, is_amount, money, money_of, add_numbers,
  recorded_value, sum_number, sum_value,
}

abbrev pub same_bool : Bool → Bool → Bool
same_bool true b = b
same_bool false true = false
same_bool false false = true

-- The value is a number exactly if the key is one of numbers; a key of money takes any value.
abbrev pub fits : (String → Bool) → String → Value → Bool
fits numeric key v = is_money key || same_bool (numeric key) (is_amount v)

abbrev pub number : Value → Option ℕ
number (amount n) = some n
number _ = none

module _ (D : Decimals) where
  abbrev pub worth_in : Bool → Value → Option ℕ
  worth_in true v = money D v
  worth_in false v = number v

  -- What a value under the key counts for.
  abbrev pub worth : String → Value → Option ℕ
  worth k v = worth_in (is_money k) v

  abbrev pub worth_of : Bool → Option Value → ℕ
  worth_of m none = 0
  worth_of m (some v) = or_zero (worth_in m v)

  recorded-plain :
      (current : Option Value) (v : Value) (w : ℕ)
      → number v ≡ some w
      → number (add_numbers D current v) ≡ some (worth_of false current + w)
  recorded-plain none (amount b) w h = ground arith
  recorded-plain (some (amount a)) (amount b) w h = ground arith
  recorded-plain (some (flag f)) (amount b) w h = ground arith
  recorded-plain (some (text s)) (amount b) w h = ground arith
  recorded-plain current (flag f) w h = cc
  recorded-plain current (text s) w h = cc

  money_of-worth : (current : Option Value) → money_of D current ≡ worth_of true current
  money_of-worth none = refl
  money_of-worth (some v) = refl

  -- A recorded value adds its worth.
  pub recorded-worth :
      (m : Bool) (current : Option Value) (v : Value) (w : ℕ)
      → worth_in m v ≡ some w
      → worth_in m (recorded_value D m current v) ≡ some (worth_of m current + w)
  recorded-worth false current v w h = recorded-plain current v w h
  recorded-worth true current v w h =
      rw h (D.read-print (money_of D current + w) ∙ rw (money_of-worth current) refl)

  recorded-fits_plain :
      (n : Bool) (current : Option Value) (v : Value)
      → same_bool n (is_amount v) ≡ true
      → same_bool n (is_amount (add_numbers D current v)) ≡ true
  recorded-fits_plain n none v h = h
  recorded-fits_plain n (some (amount a)) (amount b) h = h
  recorded-fits_plain n (some (amount a)) (flag f) h = h
  recorded-fits_plain n (some (amount a)) (text s) h = h
  recorded-fits_plain n (some (flag f)) v h = h
  recorded-fits_plain n (some (text s)) v h = h

  pub recorded-fits :
      (m n : Bool) (current : Option Value) (v : Value)
      → (m || same_bool n (is_amount v)) ≡ true
      → (m || same_bool n (is_amount (recorded_value D m current v))) ≡ true
  recorded-fits true n current v h = refl
  recorded-fits false n current v h = recorded-fits_plain n current v h

  -- A value that fits can be added to a sum that fits: there is no error, and the sum fits.
  abbrev pub Sums : Bool → Bool → Option Value → Value → Type 0
  Sums m n current v =
      (v' : Value) × (sum_value D m current v ≡ some v')
      × ((m || same_bool n (is_amount v')) ≡ true)
      × ((w : ℕ) → worth_in m v ≡ some w → worth_in m v' ≡ some (worth_of m current + w))

  abbrev pub fits_in : Bool → Bool → Option Value → Bool
  fits_in m n none = true
  fits_in m n (some v) = m || same_bool n (is_amount v)

  sum-plain :
      (n : Bool) (current : Option Value) (v : Value)
      → fits_in false n current ≡ true
      → same_bool n (is_amount v) ≡ true
      → Sums false n current v
  sum-plain n current (flag f) c h = (flag f, refl, h, λ w e. absurd (cc))
  sum-plain n current (text s) c h = (text s, refl, h, λ w e. absurd (cc))
  sum-plain n none (amount b) c h = (amount b, refl, h, λ w e. ground arith)
  sum-plain n (some (amount a)) (amount b) c h = (amount (a + b), refl, h, λ w e. ground arith)
  sum-plain true (some (flag f)) (amount b) c h = absurd (cc)
  sum-plain false (some (flag f)) (amount b) c h = absurd (cc)
  sum-plain true (some (text s)) (amount b) c h = absurd (cc)
  sum-plain false (some (text s)) (amount b) c h = absurd (cc)

  sum-unpriced :
      (n : Bool) (current : Option Value) (v : Value)
      → money D v ≡ none
      → (v' : Value) × (sum_number D current v ≡ some v')
  sum-unpriced n current (amount b) h = absurd (cc)
  sum-unpriced n current (flag f) h = (flag f, refl)
  sum-unpriced n current (text s) h = (text s, refl)

  pub sum_value-Sums :
      (m n : Bool) (current : Option Value) (v : Value)
      → fits_in m n current ≡ true
      → (m || same_bool n (is_amount v)) ≡ true
      → Sums m n current v
  sum_value-Sums false n current v c h = sum-plain n current v c h
  sum_value-Sums true n current v c h = elim (Option-cases (money D v)) [
    | inl e ↦
        let (v', s) = sum-unpriced n current v e in
        (v', rw e s, refl, λ w x. absurd (none_worth w (sym e ∙ x)))
    | inr (u, e) ↦ (
      text (D.print (money_of D current + u)),
      rw e refl,
      refl,
      λ w x.
          let same : u ≡ w = same_worth u w (sym e ∙ x) in
          D.read-print (money_of D current + u) ∙ rw (money_of-worth current) (rw same refl),
    )
  ]
    where
      none_worth : (w : ℕ) → ◌≡◌ {A = Option ℕ} none (some w) → ⊥
      none_worth w x = cc

      same_worth : (u w : ℕ) → ◌≡◌ {A = Option ℕ} (some u) (some w) → u ≡ w
      same_worth u w x = cc
