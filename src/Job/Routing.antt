-- ===== src/Job/Routing.antt =====
-- The replay of routings that a crash between commit and routing lost.
use mathlib.Core.Path.{subst}
use django_qraft.Prelude.{
  ℕ, Bool, true, false, List, [], ◌∷◌, ◌==◌, member, subset, subset_of_members, suc, length,
  count_if, ◌≡◌, refl, ap, ◌∙◌, arith, Bool-cases, inl, inr, if◌then◌else◌,
}
use django_qraft.Job.{Attempt, Job, update}
use django_qraft.Job.Completion.{
  set_routed, is_unrouted, unrouted_numbers, route, replay_each, replay_all,
}

-- The rows after the updates of the loop.
abbrev mark_each : List ℕ → List Attempt → List Attempt
mark_each [] as' = as'
mark_each (k ∷ ks) as' = mark_each ks (update k set_routed as')

abbrev mark_one : List ℕ → Attempt → Attempt
mark_one [] a = a
mark_one (k ∷ ks) a = mark_one ks (if a.attempt_number == k then set_routed a else a)

mark_each-nil : (ks : List ℕ) → mark_each ks [] ≡ []
mark_each-nil [] = refl
mark_each-nil (k ∷ ks) = mark_each-nil ks

mark_each-cons :
    (ks : List ℕ) (a : Attempt) (as' : List Attempt)
    → mark_each ks (a ∷ as') ≡ mark_one ks a ∷ mark_each ks as'
mark_each-cons [] a as' = refl
mark_each-cons (k ∷ ks) a as' =
    mark_each-cons ks (if a.attempt_number == k then set_routed a else a) (update k set_routed as')

abbrev mark_if : Bool → Attempt → Attempt
mark_if b a = if b then set_routed a else a

-- A row that is routed or needs no routing stays so.
mark_if-stays :
    (cutoff : ℕ) (b : Bool) (a : Attempt)
    → is_unrouted cutoff a ≡ false
    → is_unrouted cutoff (mark_if b a) ≡ false
mark_if-stays cutoff true a h = ground arith
mark_if-stays cutoff false a h = h

mark_one-stays :
    (cutoff : ℕ) (ks : List ℕ) (a : Attempt)
    → is_unrouted cutoff a ≡ false
    → is_unrouted cutoff (mark_one ks a) ≡ false
mark_one-stays cutoff [] a h = h
mark_one-stays cutoff (k ∷ ks) a h =
    mark_one-stays cutoff ks (mark_if (a.attempt_number == k) a)
      (mark_if-stays cutoff (a.attempt_number == k) a h)

mark_if-routed :
    (cutoff : ℕ) (b : Bool) (a : Attempt) → b ≡ true → is_unrouted cutoff (mark_if b a) ≡ false
mark_if-routed cutoff true a h = ground arith
mark_if-routed cutoff false a h = cc

mark_if-number : (b : Bool) (a : Attempt) → (mark_if b a).attempt_number ≡ a.attempt_number
mark_if-number true a = refl
mark_if-number false a = refl

mark_one-member :
    (cutoff : ℕ) (ks : List ℕ) (a : Attempt)
    → member a.attempt_number ks ≡ true
    → is_unrouted cutoff (mark_one ks a) ≡ false
mark_one-member cutoff [] a h = cc
mark_one-member cutoff (k ∷ ks) a h = elim (Bool-cases (a.attempt_number == k)) [
  | inl e ↦
      mark_one-stays cutoff ks (mark_if (a.attempt_number == k) a)
        (mark_if-routed cutoff (a.attempt_number == k) a e)
  | inr e ↦
      mark_one-member cutoff ks (mark_if (a.attempt_number == k) a)
        (rw (mark_if-number (a.attempt_number == k) a) (rw e at h))
]

abbrev pick : Bool → ℕ → List ℕ → List ℕ
pick b k ks = if b then k ∷ ks else ks

clears_cons :
    (cutoff : ℕ) (ks : List ℕ) (a : Attempt) (as' : List Attempt)
    → is_unrouted cutoff (mark_one ks a) ≡ false
    → unrouted_numbers cutoff (mark_each ks as') ≡ []
    → unrouted_numbers cutoff (mark_each ks (a ∷ as')) ≡ []
clears_cons cutoff ks a as' e q =
    ap (unrouted_numbers cutoff) (mark_each-cons ks a as')
    ∙ ap
        (λ (b : Bool).
          pick b ((mark_one ks a).attempt_number) (unrouted_numbers cutoff (mark_each ks as')))
        e
    ∙ q

-- Marking the selected rows leaves none to select.
mark_each-clears :
    (cutoff : ℕ) (ks : List ℕ) (as' : List Attempt)
    → subset (unrouted_numbers cutoff as') ks ≡ true
    → unrouted_numbers cutoff (mark_each ks as') ≡ []
mark_each-clears cutoff ks [] h = ap (unrouted_numbers cutoff) (mark_each-nil ks)
mark_each-clears cutoff ks (a ∷ as') h = elim (Bool-cases (is_unrouted cutoff a)) [
  | inl e ↦
      let both = chosen true e in
      clears_cons cutoff ks a as' (mark_one-member cutoff ks a (ground arith))
        (mark_each-clears cutoff ks as' (ground arith))
  | inr e ↦
      clears_cons cutoff ks a as' (mark_one-stays cutoff ks a e)
        (mark_each-clears cutoff ks as' (chosen false e))
]
  where
    chosen :
        (b : Bool)
        → is_unrouted cutoff a ≡ b
        → subset (pick b a.attempt_number (unrouted_numbers cutoff as')) ks ≡ true
    chosen b e =
        subst
          (λ (c : Bool). subset (pick c a.attempt_number (unrouted_numbers cutoff as')) ks ≡ true) e
          h

unrouted-count :
    (cutoff : ℕ) (as' : List Attempt)
    → length (unrouted_numbers cutoff as') ≡ count_if (is_unrouted cutoff) as'
unrouted-count cutoff [] = refl
unrouted-count cutoff (a ∷ as') = elim (Bool-cases (is_unrouted cutoff a)) [
  | inl e ↦ rw (count_if, e) (ap suc (unrouted-count cutoff as'))
  | inr e ↦ rw (count_if, e) (unrouted-count cutoff as')
]

-- The numbers handed to the routing after these, newest first.
abbrev pub handed : List ℕ → List ℕ → List ℕ
handed [] routings = routings
handed (k ∷ ks) routings = handed ks (k ∷ routings)

module _ {F : Type 0} where
  replay_each-attempts :
      (ks : List ℕ) (j : Job F) → (replay_each ks j).attempts ≡ mark_each ks j.attempts
  unfolding replay_each route
  replay_each-attempts [] j = refl
  replay_each-attempts (k ∷ ks) j = replay_each-attempts ks (route k j)

  replay_each-routings :
      (ks : List ℕ) (j : Job F) → (replay_each ks j).routings ≡ handed ks j.routings
  unfolding replay_each route
  replay_each-routings [] j = refl
  replay_each-routings (k ∷ ks) j = replay_each-routings ks (route k j)

  -- The replay leaves no attempt unrouted that has an outcome from before the cutoff: it hands the
  -- numbers of exactly these to the routing, one after the other, and a second replay with the same
  -- cutoff changes nothing.
  pub replay_all-routes :
      (cutoff : ℕ) (j : Job F)
      → (unrouted_numbers cutoff ((replay_all cutoff j).attempts) ≡ [])
        × ((replay_all cutoff j).routings ≡ handed (unrouted_numbers cutoff j.attempts) j.routings)
        × (length (unrouted_numbers cutoff j.attempts) ≡ count_if (is_unrouted cutoff) j.attempts)
        × (replay_all cutoff (replay_all cutoff j) ≡ replay_all cutoff j)
  unfolding replay_all replay_each
  replay_all-routes cutoff j =
      let ks = unrouted_numbers cutoff j.attempts in
      let clear : unrouted_numbers cutoff ((replay_all cutoff j).attempts) ≡ [] =
        ap (unrouted_numbers cutoff) (replay_each-attempts ks j)
        ∙ mark_each-clears cutoff ks j.attempts (subset_of_members ks ks (λ y m. m)) in
      (
        clear,
        replay_each-routings ks j,
        unrouted-count cutoff j.attempts,
        ap (λ (ns : List ℕ). replay_each ns (replay_all cutoff j)) clear,
      )
