-- ===== src/Graph/Plan/Fuel.antt =====
-- The search of a plan ends within its fuel, and meets no cycle where there is none.
use mathlib.Core.Path.{subst}
use text.Mathlib.TextPositions.{eq_refl}
use django_qraft.Prelude.{
  ℕ, zero, suc, ◌+◌, ◌≤◌, ◌<◌, String, true, false, not, List, [], ◌∷◌, count_if, all, contains,
  str_eq, eq_iff, ◌≡◌, refl, sym, ◌∙◌, arith, Bool-cases, inl, inr, if◌then◌else◌,
}
use django_qraft.Graph.Start.{NodeSpec}
use django_qraft.Graph.Plan.{
  after_of, Marks, Search, clear, cyclic, out_of_fuel, and_then, visit_each, leave, visit,
}

-- How many of the keys are not visited at the moment.
abbrev pub free : List String → List String → ℕ
free keys visiting = count_if (λ k. not (contains k visiting)) keys

free-cons :
    (k x : String) (keys vs : List String)
    → free (x ∷ keys) vs ≡ (if contains x vs then 0 else 1) + free keys vs
free-cons k x keys vs = elim (Bool-cases (contains x vs)) [
  | inl e ↦ rw (count_if, e) (omega arith)
  | inr e ↦ rw (count_if, e) (omega arith)
]

free-le : (k : String) (keys vs : List String) → free keys (k ∷ vs) ≤ free keys vs
free-le k [] vs = omega arith
free-le k (x ∷ keys) vs =
    ground (arith, free-cons k x keys vs, free-cons k x keys (k ∷ vs), free-le k keys vs)

free-less :
    (k : String) (keys vs : List String)
    → contains k keys ≡ true
    → contains k vs ≡ false
    → free keys (k ∷ vs) < free keys vs
free-less k [] vs c n = cc
free-less k (x ∷ keys) vs c n = elim (Bool-cases (str_eq k x)) [
  | inl e ↦
      subst (λ (y : String). free (y ∷ keys) (k ∷ vs) < free (y ∷ keys) vs) ((eq_iff k x).0 e)
        (omega (arith, free-here, free-le k keys vs))
  | inr e ↦
      ground (
        arith,
        free-cons k x keys vs,
        free-cons k x keys (k ∷ vs),
        free-less k keys vs (rw e at c) n,
      )
]
  where
    free-here :
        (free (k ∷ keys) vs ≡ 1 + free keys vs) × (free (k ∷ keys) (k ∷ vs) ≡ free keys (k ∷ vs))
    free-here = (rw (count_if, n) (omega arith), rw (count_if, eq_refl k) refl)

-- A search that ended with the keys visited at the moment as before, or with the given claim at a
-- cycle.
abbrev pub Fine : Type 0 → Marks → Search → Type 0
Fine C m cyclic = C
Fine C m (clear m') = m'.visiting ≡ m.visiting
Fine C m out_of_fuel = ⊥

and_then-Fine :
    (C : Type 0) (m n : Marks) (s : Search) (f : Marks → Search)
    → Fine C n s
    → ((m1 : Marks) → m1.visiting ≡ n.visiting → Fine C m (f m1))
    → Fine C m (and_then s f)
and_then-Fine C m n cyclic f h k = h
and_then-Fine C m n (clear m1) f h k = k m1 h
and_then-Fine C m n out_of_fuel f h k = elim h [ ]

module _ (C : Type 0) (P : String → List String → Type 0) where
  pub visit_each-Fine :
      (v : String → Marks → Search) (keys vs ks : List String) (m : Marks)
      → ((k : String) (n : Marks)
          → contains k keys ≡ true
          → P k vs
          → n.visiting ≡ vs
          → Fine C n (v k n))
      → all (λ k. contains k keys) ks ≡ true
      → ((k : String) → contains k ks ≡ true → P k vs)
      → m.visiting ≡ vs
      → Fine C m (visit_each v ks m)
  visit_each-Fine v keys vs [] m each known p e = refl
  visit_each-Fine v keys vs (k ∷ ks) m each known p e =
      and_then-Fine C m m (v k m) (visit_each v ks)
        (each k m (ground arith) (p k (rw (eq_refl k) refl)) e)
        (λ m1 q.
          subst (λ (us : List String). rest_Fine us m1) q
            (visit_each-Fine v keys vs ks m1 each (ground arith) (λ x c. p x (ground arith))
              (q ∙ e)))
    where
      rest_Fine : List String → Marks → Type 0
      rest_Fine us m1 = Fine C (record { visiting = us; visited = [] }) (visit_each v ks m1)

  pub visit-Fine :
      (specs : List NodeSpec) (keys : List String)
      → ((k : String) → all (λ d. contains d keys) (after_of specs k) ≡ true)
      → ((k : String) (vs : List String) → P k vs → contains k vs ≡ true → C)
      → ((k d : String) (vs : List String)
          → P k vs
          → contains d (after_of specs k) ≡ true
          → P d (k ∷ vs))
      → (fuel : ℕ) (k : String) (m : Marks) → contains k keys ≡ true
      → P k m.visiting
      → free keys m.visiting < fuel
      → Fine C m (visit specs fuel k m)
  unfolding visit
  visit-Fine specs keys known meets deeper zero k m c p lt = absurd (omega (arith, lt))
  visit-Fine specs keys known meets deeper (suc fuel) k m c p lt =
      elim (Bool-cases (contains k m.visiting)) [
        | inl e ↦ rw (visit, e) (meets k m.visiting p e)
        | inr e ↦ elim (Bool-cases (contains k m.visited)) [
          | inl v ↦ rw (visit, e, v) refl
          | inr v ↦
              let inside : Marks = record { visiting = k ∷ m.visiting; visited = m.visited } in
              rw (visit, e, v)
                (and_then-Fine C m inside (visit_each (visit specs fuel) (after_of specs k) inside)
                  (leave k)
                  (visit_each-Fine (visit specs fuel) keys (k ∷ m.visiting) (after_of specs k)
                    inside
                    (λ d n cd pd q.
                      visit-Fine specs keys known meets deeper fuel d n cd (subst (P d) (sym q) pd)
                        (rw q (omega (arith, lt, free-less k keys m.visiting c e))))
                    (known k) (λ d cd. deeper k d m.visiting p cd) refl)
                  (λ m1 q. rw (q, eq_refl k) refl))
        ]
      ]
