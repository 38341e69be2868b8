-- ===== src/Graph/Plan/Order.antt =====
-- What the depth-first search of a plan finds: an order in which each node comes after all that it
-- depends on.
use mathlib.Core.Path.{subst}
use text.Mathlib.TextPositions.{eq_refl}
use django_qraft.Prelude.{
  ℕ, zero, suc, ◌+◌, String, true, List, [], ◌∷◌, length, all, contains, ◌≡◌, refl, arith,
  Bool-cases, inl, inr,
}
use django_qraft.Graph.Start.{NodeSpec, spec_keys}
use django_qraft.Graph.Plan.{
  after_of, Marks, Search, clear, cyclic, out_of_fuel, and_then, visit_each, leave, visit, search,
}

-- Each key of the list comes after all that it depends on, the latest first.
abbrev pub Ordered : List NodeSpec → List String → Type 0
Ordered specs [] = Unit
Ordered specs (k ∷ ks) = (all (λ d. contains d ks) (after_of specs k) ≡ true) × Ordered specs ks

-- From marks in order to marks in order, that have all the keys too.
record Grows (specs : List NodeSpec) (keys : List String) (m m' : Marks) : Type 0 where
  pub ordered : Ordered specs m'.visited
  pub keeps : (x : String) → contains x m.visited ≡ true → contains x m'.visited ≡ true
  pub has : all (λ d. contains d m'.visited) keys ≡ true

and_then-clear :
    (s : Search) (f : Marks → Search) (m' : Marks)
    → and_then s f ≡ clear m'
    → (m : Marks) × (s ≡ clear m) × (f m ≡ clear m')
and_then-clear cyclic f m' h = cc
and_then-clear (clear m) f m' h = (m, refl, h)
and_then-clear out_of_fuel f m' h = cc

same_marks : {m m' : Marks} → clear m ≡ clear m' → m ≡ m'
same_marks h = cc

all-keeps :
    (xs ys ks : List String)
    → ((x : String) → contains x xs ≡ true → contains x ys ≡ true)
    → all (λ d. contains d xs) ks ≡ true
    → all (λ d. contains d ys) ks ≡ true
all-keeps xs ys [] keep h = refl
all-keeps xs ys (k ∷ ks) keep h = ground (arith, keep k, all-keeps xs ys ks keep)

visit_each-Grows :
    (specs : List NodeSpec) (v : String → Marks → Search) (ks : List String) (m m' : Marks)
    → ((k : String) (m1 m2 : Marks)
        → v k m1 ≡ clear m2
        → Ordered specs m1.visited
        → Grows specs (k ∷ []) m1 m2)
    → visit_each v ks m ≡ clear m'
    → Ordered specs m.visited
    → Grows specs ks m m'
visit_each-Grows specs v [] m m' each h o =
    subst (λ (n : Marks). Grows specs [] m n) (same_marks h)
      (record { ordered = o; keeps = λ x c. c; has = refl })
visit_each-Grows specs v (k ∷ ks) m m' each h o =
    let (m1, first, e) = and_then-clear (v k m) (visit_each v ks) m' h in
    let g = each k m m1 first o in
    let r = visit_each-Grows specs v ks m1 m' each e g.ordered in
    record {
      ordered = r.ordered;
      keeps = λ x c. r.keeps x (g.keeps x c);
      has = ground (arith, all-keeps m1.visited m'.visited (k ∷ []) r.keeps g.has, r.has);
    }

visit-Grows :
    (specs : List NodeSpec) (fuel : ℕ) (k : String) (m m' : Marks)
    → visit specs fuel k m ≡ clear m'
    → Ordered specs m.visited
    → Grows specs (k ∷ []) m m'
unfolding visit
visit-Grows specs zero k m m' h o = cc
visit-Grows specs (suc fuel) k m m' h o = elim (Bool-cases (contains k m.visiting)) [
  | inl e ↦ absurd (no_marks (rw (visit, e) at h))
  | inr e ↦ elim (Bool-cases (contains k m.visited)) [
    | inl v ↦
        subst (λ (n : Marks). Grows specs (k ∷ []) m n) (same_marks (rw (visit, e, v) at h))
          (record { ordered = o; keeps = λ x c. c; has = rw v refl })
    | inr v ↦
        let inside : Marks = record { visiting = k ∷ m.visiting; visited = m.visited } in
        let (m1, deps, left) =
          and_then-clear (visit_each (visit specs fuel) (after_of specs k) inside) (leave k) m'
            (rw (visit, e, v) at h) in
        let g =
          visit_each-Grows specs (visit specs fuel) (after_of specs k) inside m1
            (visit-Grows specs fuel) deps o in
        subst (λ (n : Marks). Grows specs (k ∷ []) m n) (same_marks left)
          (record {
            ordered = (g.has, g.ordered);
            keeps = λ x c. ground (arith, g.keeps x c);
            has = rw (eq_refl k) refl;
          })
  ]
]
  where
    no_marks : {n : Marks} → cyclic ≡ clear n → ⊥
    no_marks h = cc

-- A plan with an order has its keys in it.
pub record IsOrdered (specs : List NodeSpec) : Type 0 where
  pub order : List String
  pub ordered : Ordered specs order
  pub has : all (λ k. contains k order) (spec_keys specs) ≡ true

pub search-IsOrdered :
    (specs : List NodeSpec) (m : Marks) → search specs ≡ clear m → IsOrdered specs
unfolding search
search-IsOrdered specs m h =
    let g =
      visit_each-Grows specs (visit specs (length specs + 1)) (spec_keys specs)
        (record { visiting = []; visited = [] }) m (visit-Grows specs (length specs + 1)) h tt in
    record { order = m.visited; ordered = g.ordered; has = g.has }
