-- ===== src/Graph/Closure/Terminates.antt =====
-- The closure loop ends: each dependency entry is pushed at most once.
use django_qraft.Prelude.{
  ℕ, zero, suc, ◌+◌, ◌≤◌, String, false, not, some, List, [], ◌∷◌, length, count_if, contains,
  str_eq, eq_iff, ◌≡◌, refl, ap, ◌∙◌, arith, Bool-cases, inl, inr, length-append,
}
use django_qraft.Graph.Rows.{Node}
use django_qraft.Graph.Closure.{dependents_in, dependents, extend, close, edge_count, rounds}

-- The dependency entries that still may push.
abbrev open_edges : List String → List Node → ℕ
open_edges closure [] = 0
open_edges closure (n ∷ ns) =
    count_if (λ d. not (contains d closure)) n.after + open_edges closure ns

length-extend : (stack ds : List String) → length (extend stack ds) ≡ length stack + length ds
length-extend stack [] = omega arith
length-extend stack (d ∷ ds) = omega (arith, length-extend (d ∷ stack) ds)

count-grow :
    (key k : String) (closure after : List String)
    → contains key closure ≡ false
    → count_if (λ d. not (contains d closure)) after
      ≡ count_if (λ d. not (contains d (key ∷ closure))) after + length (dependents_in key k after)
count-grow key k closure [] new = omega arith
count-grow key k closure (d ∷ after) new = elim (Bool-cases (str_eq d key)) [
  | inl e ↦ ground (
    arith,
    ap (λ (x : String). contains x closure) ((eq_iff d key).0 e) ∙ new,
    count-grow key k closure after new,
  )
  | inr e ↦ ground (arith, count-grow key k closure after new)
]

open_edges-grow :
    (key : String) (closure : List String) (nodes : List Node)
    → contains key closure ≡ false
    → open_edges closure nodes ≡ open_edges (key ∷ closure) nodes + length (dependents nodes key)
open_edges-grow key closure [] new = omega arith
open_edges-grow key closure (n ∷ ns) new = omega (
  arith,
  count-grow key n.key closure n.after new,
  open_edges-grow key closure ns new,
  length-append (dependents_in key n.key n.after) (dependents ns key),
)

count_all : (after : List String) → count_if (λ d. not (contains d [])) after ≡ length after
count_all [] = refl
count_all (d ∷ after) = ap suc (count_all after)

open_edges-nil : (nodes : List Node) → open_edges [] nodes ≡ edge_count nodes
open_edges-nil [] = refl
open_edges-nil (n ∷ ns) = omega (arith, open_edges-nil ns, count_all n.after)

-- Each round pops one entry, and each dependency entry is pushed at most once.
close_total :
    (nodes : List Node) (fuel : ℕ) (stack closure : List String)
    → length stack + open_edges closure nodes ≤ fuel
    → (result : List String) × (close nodes fuel stack closure ≡ some result)
unfolding close
close_total nodes fuel [] closure h = (closure, refl)
close_total nodes zero (key ∷ stack) closure h = absurd (omega arith)
close_total nodes (suc fuel) (key ∷ stack) closure h = elim (Bool-cases (contains key closure)) [
  | inl e ↦ rw e (close_total nodes fuel stack closure (omega arith))
  | inr e ↦ rw e (
      close_total nodes fuel (extend stack (dependents nodes key)) (key ∷ closure) (
        omega
          (arith, length-extend stack (dependents nodes key), open_edges-grow key closure nodes e)))
]

-- The rounds that `rerun_closure` allows are enough for every plan and every start.
pub close-terminates :
    (nodes : List Node) (named : List String)
    → (result : List String) × (close nodes (rounds nodes named) named [] ≡ some result)
close-terminates nodes named =
    close_total nodes (rounds nodes named) named [] (omega (arith, open_edges-nil nodes))
