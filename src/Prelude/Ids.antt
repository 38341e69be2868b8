-- ===== src/Prelude/Ids.antt =====
-- Sets of row ids as lists: membership, distinctness and the pigeonhole principle.
use Prim.Native.Nat.{ℕ, suc, ◌≤◌}
use mathlib.Core.Path.{◌≡◌, refl}
use mathlib.Core.Logic.{inl, inr}
use mathlib.Core.Bool.{Bool, true, false, not, ◌&&◌}
use mathlib.Core.List.{List, [], ◌∷◌}
use native.Mathlib.Omega.{arith}
use django_qraft.Prelude.Tests.{◌==◌, if◌then◌else◌, Bool-cases}
use django_qraft.Prelude.Lists.{length, any, all}

abbrev pub member : ℕ → List ℕ → Bool
member a = any (λ id. a == id)

abbrev pub distinct : List ℕ → Bool
distinct [] = true
distinct (x ∷ xs) = not (member x xs) && distinct xs

abbrev pub subset : List ℕ → List ℕ → Bool
subset xs ys = all (λ x. member x ys) xs

remove : ℕ → List ℕ → List ℕ
remove a [] = []
remove a (x ∷ xs) = if a == x then xs else x ∷ remove a xs

length-remove : (a : ℕ) (xs : List ℕ) → member a xs ≡ true → suc (length (remove a xs)) ≡ length xs
unfolding remove
length-remove a [] h = ground arith
length-remove a (x ∷ xs) h = ground (arith, length-remove a xs)

member-remove :
    (a b : ℕ) (xs : List ℕ) → (a == b) ≡ false → member b xs ≡ true → member b (remove a xs) ≡ true
unfolding remove
member-remove a b [] n h = h
member-remove a b (x ∷ xs) n h = ground (arith, member-remove a b xs n)

subset-remove :
    (a : ℕ) (xs ys : List ℕ)
    → member a xs ≡ false
    → subset xs ys ≡ true
    → subset xs (remove a ys) ≡ true
subset-remove a [] ys n h = refl
subset-remove a (x ∷ xs) ys n h = ground (arith, member-remove a x ys, subset-remove a xs ys)

-- Distinct ids of a set are at most as many as the set has.
pub length-subset :
    (xs ys : List ℕ) → distinct xs ≡ true → subset xs ys ≡ true → length xs ≤ length ys
length-subset [] ys d h = omega arith
length-subset (x ∷ xs) ys d h =
    ground (arith, length-remove x ys, subset-remove x xs ys, length-subset xs (remove x ys))

-- Where they are as many, they are all.
pub member_of_full :
    (xs ys : List ℕ) (y : ℕ)
    → distinct xs ≡ true
    → subset xs ys ≡ true
    → length ys ≤ length xs
    → member y ys ≡ true
    → member y xs ≡ true
member_of_full xs ys y d h le m = elim (Bool-cases (member y xs)) [
  | inl e ↦ e
  | inr e ↦ ground (arith, length-subset (y ∷ xs) ys)
]

pub member-subset :
    (xs ys : List ℕ) (y : ℕ) → subset xs ys ≡ true → member y xs ≡ true → member y ys ≡ true
member-subset [] ys y h m = ground arith
member-subset (x ∷ xs) ys y h m = ground (arith, member-subset xs ys y)

pub subset_of_members :
    (xs ys : List ℕ) → ((y : ℕ) → member y xs ≡ true → member y ys ≡ true) → subset xs ys ≡ true
subset_of_members [] ys h = refl
subset_of_members (x ∷ xs) ys h =
    ground (arith, h x, subset_of_members xs ys (λ y m. h y (ground arith)))
