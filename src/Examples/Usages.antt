-- ===== src/Examples/Usages.antt =====
-- Usage that two attempts record.
use Prim.Native.String.{String}
use django_qraft.Prelude.{
  ℕ, zero, suc, Bool, not, none, some, List, [], ◌∷◌, str_eq, ◌≡◌, refl, ap, arith,
}
use django_qraft.Usage.{amount, text, Decimals, Usage}
use django_qraft.Usage.Attempts.{UsageCall, recorded}

-- Decimals in unary notation.
abbrev strokes : ℕ → String
strokes zero = String.[]
strokes (suc n) = String.◌∷◌ "I" (strokes n)

abbrev count_strokes : String → ℕ
count_strokes String.[] = 0
count_strokes (String.◌∷◌ c s) = suc (count_strokes s)

count-strokes : (n : ℕ) → count_strokes (strokes n) ≡ n
count-strokes zero = refl
count-strokes (suc n) = omega (arith, count-strokes n)

abbrev unary : Decimals
unary = record {
  read = λ s. some (count_strokes s);
  print = strokes;
  read-print = λ n. ap some (count-strokes n);
}

abbrev is_number_key : String → Bool
is_number_key key = not (str_eq key "model")

-- Two calls of the first attempt, and one of its retry.
abbrev calls : List (UsageCall ℕ)
calls =
    record {
      attempt = 0;
      fields = ("model", text "small") ∷ ("tokens", amount 40) ∷ ("cost", text "III") ∷ [];
      entry = some 1;
    }
    ∷ record { attempt = 0; fields = ("tokens", amount 2) ∷ ("cost", amount 2) ∷ []; entry = none }
    ∷ record {
      attempt = 1;
      fields = ("cost", text "I") ∷ ("model", text "large") ∷ [];
      entry = some 2;
    }
    ∷ []

recorded_cost : recorded unary is_number_key "cost" 2 calls ≡ 6
recorded_cost = refl
