-- ===== src/Graph/Plan/Checked.antt =====
-- The check of the declared nodes, and an independent view of a plan without a cycle.
use mathlib.Core.Path.{subst}
use text.Mathlib.TextPositions.{eq_refl}
use django_qraft.Prelude.{
  ℕ, zero, suc, ◌≤◌, ◌<◌, String, Bool, true, false, some, List, [], ◌∷◌, get_elem?, length, all,
  contains, str_eq, eq_iff, ◌≡◌, refl, sym, ap, arith, Bool-cases, inl, inr, ok, if◌then◌else◌,
}
use django_qraft.Graph.Start.{NodeSpec, spec_keys, distinct_keys, contains_key}
use django_qraft.Graph.Plan.{after_of, check_nodes}
use django_qraft.Graph.Plan.Order.{Ordered}

-- Every dependency is declared, and ranks below the node that has it.
pub record IsAcyclic (specs : List NodeSpec) : Type 0 where
  pub rank : String → ℕ
  pub known :
      (i : ℕ) (s : NodeSpec)
      → get_elem? specs i ≡ some s
      → all (λ d. contains d (spec_keys specs)) s.after ≡ true
  pub lower :
      (i : ℕ) (s : NodeSpec) (d : String)
      → get_elem? specs i ≡ some s
      → contains d s.after ≡ true
      → rank d < rank s.key

-- The place of a key in an order, counted from its oldest entry.
abbrev pub place : List String → String → ℕ
place [] k = 0
place (x ∷ xs) k = if contains k xs then place xs k else suc (length xs)

pub place-le : (xs : List String) (k : String) → place xs k ≤ length xs
place-le [] k = omega arith
place-le (x ∷ xs) k = ground (arith, place-le xs k)

pub all-contains :
    (xs ks : List String) (d : String)
    → all (λ k. contains k xs) ks ≡ true
    → contains d ks ≡ true
    → contains d xs ≡ true
all-contains xs [] d h c = cc
all-contains xs (k ∷ ks) d h c = elim (Bool-cases (str_eq d k)) [
  | inl e ↦ subst (λ (y : String). contains y xs ≡ true) (sym ((eq_iff d k).0 e)) (ground arith)
  | inr e ↦ all-contains xs ks d (ground arith) (rw e at c)
]

pub Ordered-place :
    (specs : List NodeSpec) (xs : List String) (k d : String)
    → Ordered specs xs
    → contains k xs ≡ true
    → contains d (after_of specs k) ≡ true
    → (contains d xs ≡ true) × (place xs d < place xs k)
Ordered-place specs [] k d o c cd = cc
Ordered-place specs (x ∷ xs) k d o c cd = elim (Bool-cases (contains k xs)) [
  | inl e ↦ let (here, lt) = Ordered-place specs xs k d o.1 e cd in (ground arith, rw (e, here) lt)
  | inr e ↦
      let same : k ≡ x = (eq_iff k x).0 (ground arith) in
      let here =
        all-contains xs (after_of specs k) d
          (subst (λ (y : String). all (λ z. contains z xs) (after_of specs y) ≡ true) (sym same)
            o.0)
          cd in
      (ground arith, rw (e, here) (omega (arith, place-le xs d)))
]

pub same_of_some : {s t : NodeSpec} → some s ≡ some t → s ≡ t
same_of_some h = cc

-- The entry of `edges` is the node's own.
pub after_of-own :
    (specs : List NodeSpec) (i : ℕ) (s : NodeSpec)
    → distinct_keys (spec_keys specs) ≡ true
    → get_elem? specs i ≡ some s
    → after_of specs s.key ≡ s.after
after_of-own [] i s d h = cc
after_of-own (x ∷ specs) zero s d h =
    subst (λ (q : NodeSpec). after_of (x ∷ specs) q.key ≡ q.after) (same_of_some h)
      (rw (eq_refl x.key) refl)
after_of-own (x ∷ specs) (suc i) s d h = elim (Bool-cases (str_eq x.key s.key)) [
  | inl e ↦ absurd (
      ground (
        arith,
        contains_key specs i s h,
        ap (λ (q : String). contains q (spec_keys specs)) ((eq_iff x.key s.key).0 e),
      ))
  | inr e ↦ rw e (after_of-own specs i s (ground arith) h)
]

-- A dependency by `edges` is one of a declared node.
pub after_of-declared :
    (specs : List NodeSpec) (k d : String)
    → contains d (after_of specs k) ≡ true
    → (i : ℕ) × (s : NodeSpec) × (get_elem? specs i ≡ some s)
      × (s.key ≡ k)
      × (s.after ≡ after_of specs k)
after_of-declared [] k d c = cc
after_of-declared (x ∷ specs) k d c = elim (Bool-cases (str_eq x.key k)) [
  | inl e ↦ (zero, x, refl, (eq_iff x.key k).0 e, rw e refl)
  | inr e ↦
      let (i, s, at, q, a) = after_of-declared specs k d (rw e at c) in (suc i, s, at, q, rw e a)
]

pub check_nodes-accepts :
    (keys : List String) (specs : List NodeSpec)
    → ((i : ℕ) (s : NodeSpec)
        → get_elem? specs i ≡ some s
        → (contains s.key s.after ≡ false) × (all (λ d. contains d keys) s.after ≡ true))
    → check_nodes keys specs ≡ ok tt
unfolding check_nodes
check_nodes-accepts keys [] h = refl
check_nodes-accepts keys (s ∷ specs) h =
    let (own, known) = h zero s refl in
    rw (check_nodes, own, known) (check_nodes-accepts keys specs (λ i s at. h (suc i) s at))

pub check_nodes-known :
    (keys : List String) (specs : List NodeSpec)
    → check_nodes keys specs ≡ ok tt
    → (i : ℕ) (s : NodeSpec) → get_elem? specs i ≡ some s
    → all (λ d. contains d keys) s.after ≡ true
unfolding check_nodes
check_nodes-known keys [] h i s at = cc
check_nodes-known keys (x ∷ specs) h i s at = elim (Bool-cases (contains x.key x.after)) [
  | inl own ↦ absurd (ground arith)
  | inr own ↦ elim (Bool-cases (all (λ d. contains d keys) x.after)) [
    | inr k ↦ absurd (ground arith)
    | inl k ↦
        known_at keys x specs i s k (check_nodes-known keys specs (rw (check_nodes, own, k) at h))
          at
  ]
]
  where
    known_at :
        (keys : List String) (x : NodeSpec) (specs : List NodeSpec) (i : ℕ) (s : NodeSpec)
        → all (λ d. contains d keys) x.after ≡ true
        → ((i : ℕ) (s : NodeSpec)
            → get_elem? specs i ≡ some s
            → all (λ d. contains d keys) s.after ≡ true)
        → get_elem? (x ∷ specs) i ≡ some s
        → all (λ d. contains d keys) s.after ≡ true
    known_at keys x specs zero s k rest at =
        subst (λ (q : NodeSpec). all (λ d. contains d keys) q.after ≡ true) (same_of_some at) k
    known_at keys x specs (suc i) s k rest at = rest i s at

pub all_of_members :
    (p : String → Bool) (ks : List String)
    → ((d : String) → contains d ks ≡ true → p d ≡ true)
    → all p ks ≡ true
all_of_members p [] h = refl
all_of_members p (k ∷ ks) h =
    rw (h k (rw (eq_refl k) refl)) (all_of_members p ks (λ d c. h d (ground arith)))

pub after_of-known :
    (specs : List NodeSpec)
    → ((i : ℕ) (s : NodeSpec)
        → get_elem? specs i ≡ some s
        → all (λ d. contains d (spec_keys specs)) s.after ≡ true)
    → (k : String) → all (λ d. contains d (spec_keys specs)) (after_of specs k) ≡ true
after_of-known specs known k =
    all_of_members (λ d. contains d (spec_keys specs)) (after_of specs k)
      (λ d c.
        let (i, s, at, q, a) = after_of-declared specs k d c in
        all-contains (spec_keys specs) s.after d (known i s at) (rw a c))
