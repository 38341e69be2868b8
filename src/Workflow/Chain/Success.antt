-- ===== src/Workflow/Chain/Success.antt =====
-- What the success of a step does to a chain.
use django_qraft.Prelude.{
  ℕ, ◌+◌, Bool, true, false, none, some, inl, inr, List, get_elem?, ◌≡◌, refl, sym, ap, ◌∙◌, arith,
  Bool-cases, Option-cases, ◌==◌, Result, ok,
}
use django_qraft.Workflow.Status.{cancelled, same_status}
use django_qraft.Workflow.Chain.{
  Step, Chain, ChainError, advance, handle_step_success, settle_chain,
}

settle_chain_again :
    (accepted accepted' : Bool) (now now' : ℕ) (c : Chain)
    → settle_chain accepted' now' true (settle_chain accepted now true c)
      ≡ settle_chain accepted now true c
unfolding settle_chain
settle_chain_again accepted accepted' now now' c = ground arith

pub settle_chain-frame :
    (accepted : Bool) (now : ℕ) (success : Bool) (c : Chain)
    → ((settle_chain accepted now success c).steps ≡ c.steps)
      × ((settle_chain accepted now success c).current_step_index ≡ c.current_step_index)
      × ((settle_chain accepted now success c).queued ≡ c.queued)
      × ((settle_chain accepted now success c).next_task ≡ c.next_task)
unfolding settle_chain
settle_chain-frame accepted now success c = ground arith

settle_chain-live :
    (accepted : Bool) (now : ℕ) (success : Bool) (c : Chain)
    → same_status c.workflow.status cancelled ≡ false
    → same_status (settle_chain accepted now success c).workflow.status cancelled ≡ false
unfolding settle_chain
settle_chain-live accepted now success c h = ground arith

-- The success of the current step moves the index on exactly when there is a next step.
advance-current :
    (accepted : Bool) (now i : ℕ) (next_step : Step) (c c' : Chain)
    → advance accepted now i (some next_step) c ≡ ok c'
    → c'.current_step_index ≡ i + 1
unfolding advance
advance-current accepted now i next_step c c' h = ground arith

-- The four ways in which a success is handled without an exception.
pub data Handled (accepted : Bool) (now i : ℕ) (c c' : Chain) : Type 0 where
  stopped : same_status c.workflow.status cancelled ≡ true → c' ≡ c → Handled accepted now i c c'
  stale : (c.current_step_index == i) ≡ false → c' ≡ c → Handled accepted now i c c'
  last :
      same_status c.workflow.status cancelled ≡ false
      → (c.current_step_index == i) ≡ true
      → get_elem? c.steps (i + 1) ≡ none
      → c' ≡ settle_chain accepted now true c
      → Handled accepted now i c c'
  more :
      (next_step : Step)
      → same_status c.workflow.status cancelled ≡ false
      → (c.current_step_index == i) ≡ true
      → get_elem? c.steps (i + 1) ≡ some next_step
      → advance accepted now i (some next_step) c ≡ ok c'
      → Handled accepted now i c c'

stop_cancelled :
    (accepted : Bool) (now i : ℕ) (c : Chain)
    → same_status c.workflow.status cancelled ≡ true
    → handle_step_success accepted now i c ≡ ok c
unfolding handle_step_success
stop_cancelled accepted now i c h = rw h

skip_other :
    (accepted : Bool) (now i : ℕ) (c : Chain)
    → (c.current_step_index == i) ≡ false
    → handle_step_success accepted now i c ≡ ok c
unfolding handle_step_success
skip_other accepted now i c h = ground arith

at_current :
    (accepted : Bool) (now i : ℕ) (c : Chain)
    → same_status c.workflow.status cancelled ≡ false
    → (c.current_step_index == i) ≡ true
    → handle_step_success accepted now i c ≡ advance accepted now i (get_elem? c.steps (i + 1)) c
unfolding handle_step_success
at_current accepted now i c live here = rw (live, here)

advance_last :
    (accepted : Bool) (now i : ℕ) (c : Chain)
    → advance accepted now i none c ≡ ok (settle_chain accepted now true c)
unfolding advance
advance_last accepted now i c = refl

ok-injective : (c c' : Chain) → ◌≡◌ {A = Result ChainError Chain} (ok c) (ok c') → c' ≡ c
ok-injective c c' h = cc

pub success-Handled :
    (accepted : Bool) (now i : ℕ) (c c' : Chain)
    → handle_step_success accepted now i c ≡ ok c'
    → Handled accepted now i c c'
success-Handled accepted now i c c' h =
    elim (Bool-cases (same_status c.workflow.status cancelled)) [
      | inl e ↦ stopped e (ok-injective c c' (sym (stop_cancelled accepted now i c e) ∙ h))
      | inr e ↦ elim (Bool-cases (c.current_step_index == i)) [
        | inr n ↦ stale n (ok-injective c c' (sym (skip_other accepted now i c n) ∙ h))
        | inl m ↦
            let k = sym (at_current accepted now i c e m) ∙ h in
            elim (Option-cases (get_elem? c.steps (i + 1))) [
              | inl l ↦ last e m l (
                  ok-injective (settle_chain accepted now true c) c'
                    (sym (advance_last accepted now i c) ∙ (rw l at k)))
              | inr (s, next) ↦ more s e m next (rw next at k)
            ]
      ]
    ]

last_again :
    (accepted accepted' : Bool) (now now' i : ℕ) (c : Chain)
    → same_status c.workflow.status cancelled ≡ false
    → (c.current_step_index == i) ≡ true
    → get_elem? c.steps (i + 1) ≡ none
    → let c' = settle_chain accepted now true c in handle_step_success accepted' now' i c' ≡ ok c'
last_again accepted accepted' now now' i c live here none_left =
    let c' = settle_chain accepted now true c in
    let (steps, current, _, _) = settle_chain-frame accepted now true c in
    at_current accepted' now' i c' (settle_chain-live accepted now true c live)
      (ap (λ k. k == i) current ∙ here)
    ∙ ap (λ o. advance accepted' now' i o c')
        (ap (λ (ss : List Step). get_elem? ss (i + 1)) steps ∙ none_left)
    ∙ advance_last accepted' now' i c'
    ∙ ap ok (settle_chain_again accepted accepted' now now' c)

-- A redelivered success of a step changes nothing: once it was handled, handling it again, under
-- any answer of the broker and at any time, returns the same chain.
pub success_idempotent :
    (accepted accepted' : Bool) (now now' i : ℕ) (c c' : Chain)
    → handle_step_success accepted now i c ≡ ok c'
    → handle_step_success accepted' now' i c' ≡ ok c'
success_idempotent accepted accepted' now now' i c c' h =
    elim (success-Handled accepted now i c c' h) [
      | stopped e p ↦ rw p (stop_cancelled accepted' now' i c e)
      | stale e p ↦ rw p (skip_other accepted' now' i c e)
      | last live here l p ↦ rw p (last_again accepted accepted' now now' i c live here l)
      | more s live here l p ↦
          skip_other accepted' now' i c' (ground (arith, advance-current accepted now i s c c' p))
    ]
