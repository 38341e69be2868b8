-- ===== src/Workflow/Chain/Order/Staircase.antt =====
-- Step indices that start at 0 and go up by at most one at a time, newest first.
use django_qraft.Prelude.{
  ℕ, zero, suc, ◌+◌, ◌≤◌, true, ◌||◌, List, [], ◌∷◌, get_elem?, set, member, ◌==◌, ◌≡◌, ◌⊎◌, refl,
  arith,
}
use django_qraft.Workflow.Chain.{Step, bound_to}

abbrev pub Climbs : ℕ → List ℕ → Type 0
Climbs top [] = top ≡ 0
Climbs top (i ∷ older) = ((top ≡ i) ⊎ (top ≡ i + 1)) × Climbs i older

pub member-Climbs : (top j : ℕ) (q : List ℕ) → Climbs top q → member j q ≡ true → j ≤ top
member-Climbs top j [] c m = ground arith
member-Climbs top j (i ∷ older) c m = ground (arith, member-Climbs i j older c.1)

-- From a step that was queued the index may go on to the next.
pub Climbs-next : (top : ℕ) (q : List ℕ) → Climbs top q → member top q ≡ true → Climbs (top + 1) q
Climbs-next top [] c m = ground arith
Climbs-next top (i ∷ older) c m = (ground (arith, member-Climbs i top older c.1), c.1)

-- A write to one step binds no other.
pub bound_to-set :
    (task i j : ℕ) (steps : List Step) (v : Step)
    → bound_to task (get_elem? (set steps i v) j) ≡ true
    → ((j == i) || bound_to task (get_elem? steps j)) ≡ true
bound_to-set task i j [] v h = ground arith
bound_to-set task zero zero (s ∷ steps) v h = refl
bound_to-set task zero (suc j) (s ∷ steps) v h = ground arith
bound_to-set task (suc i) zero (s ∷ steps) v h = ground arith
bound_to-set task (suc i) (suc j) (s ∷ steps) v h = ground (arith, bound_to-set task i j steps v h)
