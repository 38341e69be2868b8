-- ===== src/Throttle.antt =====
-- qraft/throttle.py: the token bucket that tasks share.
pub mod Window
use django_qraft.Prelude.{
  ℕ, ◌+◌, ◌-◌, ◌*◌, min, String, Bool, true, false, Option, none, some, List, [], ◌∷◌, leb, str_eq,
  if◌then◌else◌,
}

-- Python's floating-point numbers, as far as a bucket uses them; `seconds` are those between two
-- times, and 0 where the clock went back.
pub record Amounts (F : Type 0) : Type 0 where
  pub plus : F → F → F
  pub minus : F → F → F
  pub times : F → F → F
  pub smaller : F → F → F
  pub at_least : F → F → Bool
  pub seconds : ℕ → ℕ → F

-- A row of `RateBucket`
pub record Bucket (F : Type 0) : Type 0 where
  pub key : String
  pub tokens : F
  pub updated_at : ℕ

-- Numbers that are whole, with which the floating-point operations are exact.
abbrev pub whole_amounts : Amounts ℕ
whole_amounts = record {
  plus = λ a b. a + b;
  minus = λ a b. a - b;
  times = λ a b. a * b;
  smaller = λ a b. min a b;
  at_least = λ a b. leb b a;
  seconds = λ now t. now - t;
}

module _ {F : Type 0} where
  -- `get_or_create`: a new bucket is full.
  unfoldable pub get_or_create : String → F → ℕ → List (Bucket F) → List (Bucket F)
  get_or_create key capacity now [] = record { key = key; tokens = capacity; updated_at = now } ∷ []
  get_or_create key capacity now (b ∷ bs) =
      let rest = get_or_create key capacity now bs in if str_eq b.key key then b ∷ bs else b ∷ rest

  -- The update of the bucket with the key.
  unfoldable pub at_key :
      String → (Bucket F → Bool × Bucket F) → List (Bucket F) → Bool × List (Bucket F)
  at_key key f [] = (false, [])
  at_key key f (b ∷ bs) =
      let rest = at_key key f bs in
      if str_eq b.key key then ((f b).0, (f b).1 ∷ bs) else (rest.0, b ∷ rest.1)

  module _ (A : Amounts F) where
    -- The refill by the elapsed time.
    abbrev pub refilled : F → F → ℕ → Bucket F → F
    refilled rate capacity now b =
        A.smaller capacity (A.plus b.tokens (A.times (A.seconds now b.updated_at) rate))

    -- The locked part of `acquire`, on its bucket.
    unfoldable pub withdraw : F → F → F → ℕ → Bucket F → Bool × Bucket F
    withdraw rate capacity cost now b =
        let tokens = refilled rate capacity now b in
        if A.at_least tokens cost
        then (true, record b { tokens = A.minus tokens cost; updated_at = now })
        else (false, record b { tokens = tokens; updated_at = now })

    -- `acquire`
    unfoldable pub acquire : String → F → F → F → ℕ → List (Bucket F) → Bool × List (Bucket F)
    unfolding get_or_create withdraw at_key
    acquire key rate capacity cost now bs =
        at_key key (withdraw rate capacity cost now) (get_or_create key capacity now bs)
