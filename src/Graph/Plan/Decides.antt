-- ===== src/Graph/Plan/Decides.antt =====
-- The validation of a plan accepts exactly the plans whose dependencies are known and have no cycle.
use mathlib.Core.Path.{subst}
use django_qraft.Prelude.{
  ℕ, suc, ◌+◌, ◌≤◌, ◌<◌, ltb, String, Bool, true, List, [], ◌∷◌, length, all, contains, str_eq,
  eq_iff, ◌≡◌, ◌≢◌, ◌⊎◌, ◌↔◌, refl, sym, ap, arith, Bool-cases, inl, inr, Result, ok, err, >>=-ok,
}
use django_qraft.Graph.Start.{NodeSpec, spec_keys, distinct_keys, contains_key}
use django_qraft.Graph.Plan.{
  PlanError, no_fuel, on_itself, unknown_keys, after_of, Marks, Search, clear, cyclic, out_of_fuel,
  visit, search, check_nodes, validate_topology,
}
use django_qraft.Graph.Plan.Order.{IsOrdered, search-IsOrdered}
use django_qraft.Graph.Plan.Fuel.{Fine, visit_each-Fine, visit-Fine, free}
use django_qraft.Graph.Plan.Checked.{
  IsAcyclic, place, all-contains, Ordered-place, after_of-own, after_of-declared,
  check_nodes-accepts, check_nodes-known, all_of_members, after_of-known,
}

free-bounded : (keys : List String) → free keys [] ≤ length keys
free-bounded [] = omega arith
free-bounded (k ∷ keys) = omega (arith, free-bounded keys)

length-keys : (specs : List NodeSpec) → length (spec_keys specs) ≡ length specs
length-keys [] = refl
length-keys (s ∷ specs) = ap suc (length-keys specs)

-- How the search of a plan with known dependencies ends.
search-Fine :
    (C : Type 0) (P : String → List String → Type 0) (specs : List NodeSpec)
    → ((k : String) → all (λ d. contains d (spec_keys specs)) (after_of specs k) ≡ true)
    → ((k : String) → P k [])
    → ((k : String) (vs : List String) → P k vs → contains k vs ≡ true → C)
    → ((k d : String) (vs : List String)
        → P k vs
        → contains d (after_of specs k) ≡ true
        → P d (k ∷ vs))
    → Fine C (record { visiting = []; visited = [] }) (search specs)
unfolding search
search-Fine C P specs known start meets deeper =
    let keys = spec_keys specs in
    visit_each-Fine C P (visit specs (length specs + 1)) keys [] keys
      (record { visiting = []; visited = [] })
      (λ k n c p e.
        visit-Fine C P specs keys known meets deeper (length specs + 1) k n c
          (subst (P k) (sym e) p) (rw e (omega (arith, free-bounded keys, length-keys specs))))
      (all_of_members (λ k. contains k keys) keys (λ d c. c)) (λ k c. start k) refl

-- Within its fuel the search of such a plan decides.
search-decides :
    (specs : List NodeSpec)
    → ((k : String) → all (λ d. contains d (spec_keys specs)) (after_of specs k) ≡ true)
    → search specs ≡ out_of_fuel
    → ⊥
search-decides specs known e = subst (Fine (Unit {0}) (record { visiting = []; visited = [] })) e (
    search-Fine (Unit {0}) (λ k vs. Unit {0}) specs known (λ k. tt) (λ k vs p c. tt)
      (λ k d vs p c. tt))

-- The keys visited at the moment rank above the one that is visited.
abbrev above : (String → ℕ) → String → List String → Bool
above rank k vs = all (λ v. ltb (rank k) (rank v)) vs

above_self :
    (rank : String → ℕ) (k : String) (vs : List String)
    → above rank k vs ≡ true
    → contains k vs ≡ true
    → ⊥
above_self rank k [] h c = cc
above_self rank k (v ∷ vs) h c = elim (Bool-cases (str_eq k v)) [
  | inl e ↦ ground (arith, ap rank ((eq_iff k v).0 e))
  | inr e ↦ above_self rank k vs (ground arith) (rw e at c)
]

above_lower :
    (rank : String → ℕ) (k d : String) (vs : List String)
    → rank d < rank k
    → above rank k vs ≡ true
    → above rank d vs ≡ true
above_lower rank k d [] lt h = refl
above_lower rank k d (v ∷ vs) lt h = ground (arith, above_lower rank k d vs)

search-acyclic : (specs : List NodeSpec) → IsAcyclic specs → (m : Marks) × (search specs ≡ clear m)
search-acyclic specs h = clear_of (search specs) (
    search-Fine ⊥ (λ k vs. above h.rank k vs ≡ true) specs (after_of-known specs h.known)
      (λ k. refl) (above_self h.rank)
      (λ k d vs p c.
        let (i, s, at, q, a) = after_of-declared specs k d c in
        let lt : h.rank d < h.rank k =
          subst (λ (y : String). h.rank d < h.rank y) q (h.lower i s d at (rw a c)) in
        ground (arith, above_lower h.rank k d vs lt p)))
  where
    clear_of :
        (r : Search)
        → Fine ⊥ (record { visiting = []; visited = [] }) r
        → (m : Marks) × (r ≡ clear m)
    clear_of cyclic f = elim f [ ]
    clear_of (clear m) f = (m, refl)
    clear_of out_of_fuel f = elim f [ ]

IsOrdered-IsAcyclic :
    (specs : List NodeSpec)
    → distinct_keys (spec_keys specs) ≡ true
    → check_nodes (spec_keys specs) specs ≡ ok tt
    → IsOrdered specs
    → IsAcyclic specs
IsOrdered-IsAcyclic specs distinct checked h = record {
  rank = place h.order;
  known = check_nodes-known (spec_keys specs) specs checked;
  lower = λ i s d at c.
      (Ordered-place specs h.order s.key d h.ordered
        (all-contains h.order (spec_keys specs) s.key h.has (contains_key specs i s at))
        (rw (after_of-own specs i s distinct at) c)).1;
}

Search-cases : (r : Search) → (r ≡ cyclic) ⊎ (((m : Marks) × (r ≡ clear m)) ⊎ (r ≡ out_of_fuel))
Search-cases cyclic = inl refl
Search-cases (clear m) = inr (inl (m, refl))
Search-cases out_of_fuel = inr (inr refl)

-- The check of the nodes has its own causes of an error.
check_nodes-cases :
    (keys : List String) (specs : List NodeSpec)
    → (check_nodes keys specs ≡ ok tt)
      ⊎ ((x : PlanError) × (check_nodes keys specs ≡ err x) × (x ≢ no_fuel))
unfolding check_nodes
check_nodes-cases keys [] = inl refl
check_nodes-cases keys (s ∷ specs) = elim (Bool-cases (contains s.key s.after)) [
  | inl own ↦ inr (on_itself s.key, rw (check_nodes, own) refl, λ e. cc)
  | inr own ↦ elim (Bool-cases (all (λ d. contains d keys) s.after)) [
    | inr k ↦ inr (unknown_keys s.key, rw (check_nodes, own, k) refl, λ e. cc)
    | inl k ↦ rw (check_nodes, own, k) (check_nodes-cases keys specs)
  ]
]

pub validated-IsAcyclic :
    (specs : List NodeSpec)
    → distinct_keys (spec_keys specs) ≡ true
    → validate_topology specs ≡ ok tt
    → IsAcyclic specs
unfolding validate_topology
validated-IsAcyclic specs distinct e =
    let (u, checked, q) = >>=-ok (check_nodes (spec_keys specs) specs) _ e in
    elim (Search-cases (search specs)) [
      | inl c ↦ absurd (ground (arith, rw (validate_topology, checked, c) at e))
      | inr (inl (m, c)) ↦ IsOrdered-IsAcyclic specs distinct checked (search-IsOrdered specs m c)
      | inr (inr c) ↦ absurd (ground (arith, rw (validate_topology, checked, c) at e))
    ]

acyclic-validated : (specs : List NodeSpec) → IsAcyclic specs → validate_topology specs ≡ ok tt
unfolding validate_topology
acyclic-validated specs h =
    let checked = check_nodes-accepts (spec_keys specs) specs (λ i s at. (
      elim (Bool-cases (contains s.key s.after)) [
        | inl own ↦ absurd (omega (arith, h.lower i s s.key at own))
        | inr own ↦ own
      ],
      h.known i s at,
    )) in
    let (m, q) = search-acyclic specs h in rw (validate_topology, checked, q) refl

validate_topology-fuel : (specs : List NodeSpec) → validate_topology specs ≢ err no_fuel
unfolding validate_topology
validate_topology-fuel specs e = elim (check_nodes-cases (spec_keys specs) specs) [
  | inr (x, c, n) ↦ n (same_error (rw (validate_topology, c) at e))
  | inl c ↦ elim (Search-cases (search specs)) [
    | inl q ↦ absurd (ground (arith, rw (validate_topology, c, q) at e))
    | inr (inl (m, q)) ↦ absurd (ground (arith, rw (validate_topology, c, q) at e))
    | inr (inr q) ↦
        search-decides specs (after_of-known specs (check_nodes-known (spec_keys specs) specs c)) q
  ]
]
  where
    same_error : {x y : PlanError} → ◌≡◌ {A = Result PlanError (Unit {0})} (err x) (err y) → x ≡ y
    same_error h = cc

-- The validation of a plan with distinct keys accepts it exactly if each dependency is declared and
-- the nodes can be ranked with each dependency below the node that has it. It never runs out of
-- fuel.
pub validate_topology-decides :
    (specs : List NodeSpec)
    → distinct_keys (spec_keys specs) ≡ true
    → ((validate_topology specs ≡ ok tt) ↔ IsAcyclic specs)
      × (validate_topology specs ≢ err no_fuel)
validate_topology-decides specs distinct =
    ((validated-IsAcyclic specs distinct, acyclic-validated specs), validate_topology-fuel specs)
