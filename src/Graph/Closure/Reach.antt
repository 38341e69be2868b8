-- ===== src/Graph/Closure/Reach.antt =====
-- The closure loop returns the nodes named and all that depend on them.
use mathlib.Core.Path.{subst}
use text.Mathlib.TextPositions.{eq_refl}
use django_qraft.Prelude.{
  ◌↔◌, ℕ, zero, suc, String, Bool, true, ◌||◌, some, List, [], ◌∷◌, contains, str_eq, eq_iff, ◌≡◌,
  refl, sym, ap, arith, Bool-cases, inl, inr,
}
use django_qraft.Graph.Rows.{Node}
use django_qraft.Graph.Closure.{dependents, extend, close, rounds}
use django_qraft.Graph.Closure.Terminates.{close-terminates}

contains-extend :
    (x : String) (stack ds : List String)
    → contains x (extend stack ds) ≡ (contains x ds || contains x stack)
contains-extend x stack [] = refl
contains-extend x stack (d ∷ ds) = ground (arith, contains-extend x (d ∷ stack) ds)

-- Closed under dependents, up to what the stack still holds.
abbrev pub ClosedUpTo : List Node → List String → List String → Type 0
ClosedUpTo nodes stack closure =
    (k d : String)
    → contains k closure ≡ true
    → contains d (dependents nodes k) ≡ true
    → (contains d closure || contains d stack) ≡ true

closed_skip :
    (nodes : List Node) (key : String) (stack closure : List String)
    → contains key closure ≡ true
    → ClosedUpTo nodes (key ∷ stack) closure
    → ClosedUpTo nodes stack closure
closed_skip nodes key stack closure old h k d m dep = elim (Bool-cases (str_eq d key)) [
  | inl e ↦ ground (arith, ap (λ (x : String). contains x closure) ((eq_iff d key).0 e))
  | inr e ↦ ground (arith, h k d m dep)
]

closed_grow :
    (nodes : List Node) (key : String) (stack closure : List String)
    → ClosedUpTo nodes (key ∷ stack) closure
    → ClosedUpTo nodes (extend stack (dependents nodes key)) (key ∷ closure)
closed_grow nodes key stack closure h k d m dep =
    rw (contains-extend d stack (dependents nodes key)) (elim (Bool-cases (str_eq k key)) [
      | inl e ↦
          ground (arith, ap (λ (x : String). contains d (dependents nodes x)) ((eq_iff k key).0 e))
      | inr e ↦ ground (arith, h k d (ground arith) dep)
    ])

kept :
    (x key : String) (closure stack : List String)
    → contains key closure ≡ true
    → (contains x closure || contains x (key ∷ stack)) ≡ true
    → (contains x closure || contains x stack) ≡ true
kept x key closure stack old m = elim (Bool-cases (str_eq x key)) [
  | inl e ↦ ground (arith, ap (λ (y : String). contains y closure) ((eq_iff x key).0 e))
  | inr e ↦ ground arith
]

same_of_some : {xs ys : List String} → some xs ≡ some ys → xs ≡ ys
same_of_some h = cc

close-closed :
    (nodes : List Node) (fuel : ℕ) (stack closure result : List String)
    → ClosedUpTo nodes stack closure
    → close nodes fuel stack closure ≡ some result
    → ClosedUpTo nodes [] result
      × ((x : String) → (contains x closure || contains x stack) ≡ true → contains x result ≡ true)
unfolding close
close-closed nodes fuel [] closure result h e =
    subst
      (λ (r : List String).
        ClosedUpTo nodes [] r
        × ((x : String) → (contains x closure || contains x []) ≡ true → contains x r ≡ true))
      (same_of_some e) (h, λ x m. ground arith)
close-closed nodes zero (key ∷ stack) closure result h e = absurd (cc)
close-closed nodes (suc fuel) (key ∷ stack) closure result h e =
    elim (Bool-cases (contains key closure)) [
      | inl old ↦
          let (closed, more) =
            close-closed nodes fuel stack closure result (closed_skip nodes key stack closure old h)
              (rw old at e) in
          (closed, λ x m. more x (kept x key closure stack old m))
      | inr new ↦
          let (closed, more) =
            close-closed nodes fuel (extend stack (dependents nodes key)) (key ∷ closure) result
              (closed_grow nodes key stack closure h) (rw new at e) in
          (
            closed,
            λ x m. more x (rw (contains-extend x stack (dependents nodes key)) (ground arith)),
          )
    ]

key_on_top : (key : String) (stack : List String) → contains key (key ∷ stack) ≡ true
key_on_top key stack = rw (eq_refl key)

-- A set of keys that is closed under dependents, as a test.
abbrev pub IsClosed : List Node → (String → Bool) → Type 0
IsClosed nodes p = (k d : String) → p k ≡ true → contains d (dependents nodes k) ≡ true → p d ≡ true

-- What a resume of the named nodes has to run again: those nodes, and what depends on it.
pub data Reaches (nodes : List Node) (named : List String) : String → Type 0 where
  start : (k : String) → contains k named ≡ true → Reaches nodes named k
  step :
      (k d : String)
      → Reaches nodes named k
      → contains d (dependents nodes k) ≡ true
      → Reaches nodes named d

module _ (nodes : List Node) (named : List String) where
  pushed :
      (key y : String) (closure : List String)
      → ((x : String) → contains x closure ≡ true → Reaches nodes named x)
      → Reaches nodes named key
      → contains y (key ∷ closure) ≡ true
      → Reaches nodes named y
  pushed key y closure hc r n = elim (Bool-cases (str_eq y key)) [
    | inl e ↦ subst (Reaches nodes named) (sym ((eq_iff y key).0 e)) r
    | inr e ↦ hc y (ground arith)
  ]

  close-within :
      (fuel : ℕ) (stack closure result : List String)
      → ((x : String) → contains x closure ≡ true → Reaches nodes named x)
      → ((x : String) → contains x stack ≡ true → Reaches nodes named x)
      → close nodes fuel stack closure ≡ some result
      → (x : String) → contains x result ≡ true
      → Reaches nodes named x
  unfolding close
  close-within fuel [] closure result hc hs e x m =
      hc x (subst (λ (r : List String). contains x r ≡ true) (sym (same_of_some e)) m)
  close-within zero (key ∷ stack) closure result hc hs e x m = absurd (cc)
  close-within (suc fuel) (key ∷ stack) closure result hc hs e x m =
      elim (Bool-cases (contains key closure)) [
        | inl old ↦
            close-within fuel stack closure result hc (λ y n. hs y (ground arith)) (rw old at e) x m
        | inr new ↦
            close-within fuel (extend stack (dependents nodes key)) (key ∷ closure) result
              (λ y n. pushed key y closure hc (hs key (key_on_top key stack)) n)
              (λ y n. elim (Bool-cases (contains y (dependents nodes key))) [
                | inl dep ↦ step key y (hs key (key_on_top key stack)) dep
                | inr other ↦ hs y (ground (arith, contains-extend y stack (dependents nodes key)))
              ])
              (rw new at e) x m
      ]

  reaches_closed :
      (result : List String)
      → ((x : String) → contains x named ≡ true → contains x result ≡ true)
      → IsClosed nodes (λ x. contains x result)
      → (x : String) → Reaches nodes named x
      → contains x result ≡ true
  reaches_closed result has closed x (start k m) = has k m
  reaches_closed result has closed x (step k d r dep) =
      closed k d (reaches_closed result has closed k r) dep

  -- What the loop returns has the named keys, and is closed under dependents.
  pub close-closes :
      (result : List String) × (close nodes (rounds nodes named) named [] ≡ some result)
      × ((x : String) → contains x named ≡ true → contains x result ≡ true)
      × IsClosed nodes (λ x. contains x result)
  close-closes =
      let (result, e) = close-terminates nodes named in
      let (closed, has) =
        close-closed nodes (rounds nodes named) named [] result (λ k d m dep. ground arith) e in
      (result, e, λ x m. has x (ground arith), λ k d m dep. ground (arith, closed k d m dep))

-- The closure loop ends within the rounds allowed to it, and returns exactly the keys that are
-- named or depend, through any number of nodes, on a named one.
pub close-Reaches :
    (nodes : List Node) (named : List String)
    → (result : List String) × (close nodes (rounds nodes named) named [] ≡ some result)
      × ((x : String) → (contains x result ≡ true) ↔ Reaches nodes named x)
close-Reaches nodes named =
    let (result, e, has, closed) = close-closes nodes named in
    (
      result,
      e,
      λ x. (
        close-within nodes named (rounds nodes named) named [] result (λ y n. ground arith)
            (λ y n. start y n) e x,
        reaches_closed nodes named result has closed x,
      ),
    )
