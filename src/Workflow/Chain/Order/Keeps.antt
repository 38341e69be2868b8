-- ===== src/Workflow/Chain/Order/Keeps.antt =====
-- One operation keeps the order of a chain's steps.
use mathlib.Core.Path.{subst}
use mathlib.Core.Bool.{false≢true}
use django_qraft.Prelude.{
  ℕ, zero, suc, Bool, true, false, List, [], ◌∷◌, map, get_elem?, member, ◌≡◌, inl, inr, refl, sym,
  ◌∙◌, >>=-ok, arith, Result, ok, Bool-cases,
}
use django_qraft.Task.{TaskStatus, is_terminal_failure}
use django_qraft.Workflow.Status.{
  WorkflowStatus, running, waiting_approval, failed, cancelled, same_status,
}
use django_qraft.Workflow.Chain.{
  Step, Chain, ChainError, bound_to, move_to, queue_chain_step, settle_chain, handle_step_success,
  complete_chain, handle, route,
}
use django_qraft.Workflow.Chain.Success.{
  stopped, stale, last, more, success-Handled, settle_chain-frame,
}
use django_qraft.Workflow.Chain.Control.{
  start_chain, start_first, resume, approve, reject, cancel, new_step,
}
use django_qraft.Workflow.Chain.Order.Place.{
  InOrder, SamePlace, InOrder-SamePlace, move_to-SamePlace, ok-injective, queue-InOrder,
  advance-InOrder,
}

-- A caller's operation with the status that its object holds, or a completion that is routed to a
-- step; each with the broker's answer and the time.
pub data Op : Type 0 where
  start : Bool → List Bool → WorkflowStatus → Op
  completion : Bool → ℕ → ℕ → ℕ → Bool → TaskStatus → Op
  approval : Bool → Op
  rejection : Bool → ℕ → Op
  resumption : Bool → WorkflowStatus → Op
  cancellation : Bool → ℕ → Op

unfoldable pub apply : Op → Chain → Result ChainError Chain
unfolding start_chain route approve reject resume cancel
apply (start accepted appended status) c = start_chain accepted appended status c.steps c
apply (completion accepted now task i success task_status) c =
    route accepted now task i success task_status c
apply (approval accepted) c = approve accepted c
apply (rejection accepted now) c = reject accepted now c
apply (resumption accepted status) c = resume accepted status c
apply (cancellation accepted now) c = cancel accepted now c

new_steps_unbound :
    (task j : ℕ) (appended : List Bool)
    → bound_to task (get_elem? (map new_step appended) j) ≡ false
new_steps_unbound task j [] = refl
new_steps_unbound task zero (b ∷ bs) = refl
new_steps_unbound task (suc j) (b ∷ bs) = new_steps_unbound task j bs

start_first-InOrder :
    (accepted gated : Bool) (c c' : Chain)
    → InOrder c
    → c.current_step_index ≡ 0
    → start_first accepted gated c ≡ ok c'
    → InOrder c'
unfolding start_first
start_first-InOrder accepted gated c c' h z e =
    let (c₁, m, k) = >>=-ok (move_to running c) _ e in
    let h₁ = InOrder-SamePlace (move_to-SamePlace running c c₁ m) h in
    let z₁ : c₁.current_step_index ≡ 0 = SamePlace.current (move_to-SamePlace running c c₁ m) ∙ z in
    elim (Bool-cases gated) [
      | inl g ↦ InOrder-SamePlace (move_to-SamePlace waiting_approval c₁ c' (rw g at k)) h₁
      | inr g ↦
          queue-InOrder accepted c₁ c' h₁
            (subst (λ (n : ℕ). queue_chain_step accepted n c₁ ≡ ok c') (sym z₁) (rw g at k))
    ]

start-InOrder :
    (accepted : Bool) (appended : List Bool) (status : WorkflowStatus) (existing : List Step)
    (c c' : Chain)
    → c.steps ≡ existing
    → InOrder c
    → start_chain accepted appended status existing c ≡ ok c'
    → InOrder c'
unfolding start_chain
start-InOrder accepted [] status existing c c' p h e = cc
start-InOrder accepted (gated ∷ rest) status (s ∷ ss) c c' p h e = cc
start-InOrder accepted (gated ∷ rest) status [] c c' p h e =
    start_first-InOrder accepted gated
      (record c {
        steps = map new_step (gated ∷ rest);
        workflow = record (c.workflow) { status = status };
      })
      c'
      (record {
        climbs = h.climbs;
        bound = λ task j b. absurd (false≢true (sym (new_steps_unbound task j (gated ∷ rest)) ∙ b));
        unstarted = λ n. cc;
      })
      (h.unstarted p).0 e

moved-queued-InOrder :
    (accepted : Bool) (s : WorkflowStatus) (c c₁ c₂ c' : Chain)
    → InOrder c
    → move_to s c ≡ ok c₁
    → SamePlace c₂ c₁
    → queue_chain_step accepted c₂.current_step_index c₂ ≡ ok c'
    → InOrder c'
moved-queued-InOrder accepted s c c₁ c₂ c' h m same q =
    queue-InOrder accepted c₂ c'
      (InOrder-SamePlace same (InOrder-SamePlace (move_to-SamePlace s c c₁ m) h)) q

resume-InOrder :
    (accepted : Bool) (status : WorkflowStatus) (c c' : Chain)
    → InOrder c
    → resume accepted status c ≡ ok c'
    → InOrder c'
unfolding resume
resume-InOrder accepted status c c' h e = elim (Bool-cases (same_status status failed)) [
  | inr n ↦ absurd (raises n e)
  | inl y ↦
      let (c₁, m, q) = >>=-ok (move_to running c) _ (rw y at e) in
      moved-queued-InOrder accepted running c c₁ _ c' h m
        (record { current = refl; steps = refl; queued = refl }) q
]
  where
    raises : same_status status failed ≡ false → resume accepted status c ≡ ok c' → ⊥
    raises n e' = ground arith

approve-InOrder :
    (accepted : Bool) (c c' : Chain) → InOrder c → approve accepted c ≡ ok c' → InOrder c'
unfolding approve
approve-InOrder accepted c c' h e =
    let (c₁, m, q) = >>=-ok (move_to running c) _ e in
    moved-queued-InOrder accepted running c c₁ c₁ c' h m
      (record { current = refl; steps = refl; queued = refl }) q

reject-SamePlace :
    (accepted : Bool) (now : ℕ) (c c' : Chain) → reject accepted now c ≡ ok c' → SamePlace c' c
unfolding reject
reject-SamePlace accepted now c c' e = ground arith

cancel-SamePlace :
    (accepted : Bool) (now : ℕ) (c c' : Chain) → cancel accepted now c ≡ ok c' → SamePlace c' c
unfolding cancel
cancel-SamePlace accepted now c c' e = ground arith

settle_chain-SamePlace :
    (accepted : Bool) (now : ℕ) (success : Bool) (c : Chain)
    → SamePlace (settle_chain accepted now success c) c
settle_chain-SamePlace accepted now success c =
    let (steps, current, queued, _) = settle_chain-frame accepted now success c in
    record { current = current; steps = steps; queued = queued }

success-InOrder :
    (accepted : Bool) (now i : ℕ) (c c' : Chain)
    → InOrder c
    → member i c.queued ≡ true
    → handle_step_success accepted now i c ≡ ok c'
    → InOrder c'
success-InOrder accepted now i c c' h m e = elim (success-Handled accepted now i c c' e) [
  | stopped _ p ↦ subst InOrder (sym p) h
  | stale _ p ↦ subst InOrder (sym p) h
  | last _ _ _ p ↦
      subst InOrder (sym p) (InOrder-SamePlace (settle_chain-SamePlace accepted now true c) h)
  | more s _ here next p ↦ advance-InOrder accepted now i s c c' h (ground arith) here next p
]

complete_chain-InOrder :
    (accepted : Bool) (now : ℕ) (success : Bool) (c : Chain)
    → InOrder c
    → InOrder (complete_chain accepted now success c)
unfolding complete_chain
complete_chain-InOrder accepted now success c h =
    elim (Bool-cases (same_status c.workflow.status cancelled)) [
      | inl y ↦ rw y h
      | inr n ↦ rw n (InOrder-SamePlace (settle_chain-SamePlace accepted now success c) h)
    ]

handle-InOrder :
    (accepted : Bool) (now i : ℕ) (success : Bool) (s : TaskStatus) (c c' : Chain)
    → InOrder c
    → member i c.queued ≡ true
    → handle accepted now i success s c ≡ ok c'
    → InOrder c'
unfolding handle
handle-InOrder accepted now i success s c c' h m e =
    elim (Bool-cases (same_status c.workflow.status cancelled)) [
      | inl y ↦ subst InOrder (ok-injective c c' (rw y at e)) h
      | inr n ↦ elim (Bool-cases success) [
        | inl y ↦ success-InOrder accepted now i c c' h m (rw (n, y) at e)
        | inr f ↦ elim (Bool-cases (is_terminal_failure s)) [
          | inl y ↦
              subst InOrder (ok-injective _ c' (rw (n, f, y) at e))
                (complete_chain-InOrder accepted now false c h)
          | inr g ↦ subst InOrder (ok-injective c c' (rw (n, f, g) at e)) h
        ]
      ]
    ]

route-InOrder :
    (accepted : Bool) (now task i : ℕ) (success : Bool) (s : TaskStatus) (c c' : Chain)
    → InOrder c
    → route accepted now task i success s c ≡ ok c'
    → InOrder c'
unfolding route
route-InOrder accepted now task i success s c c' h e =
    elim (Bool-cases (bound_to task (get_elem? c.steps i))) [
      | inl y ↦ handle-InOrder accepted now i success s c c' h (h.bound task i y) (rw y at e)
      | inr n ↦ subst InOrder (ok-injective c c' (rw n at e)) h
    ]

pub apply-InOrder : (op : Op) (c c' : Chain) → InOrder c → apply op c ≡ ok c' → InOrder c'
unfolding apply
apply-InOrder (start accepted appended status) c c' h e =
    start-InOrder accepted appended status c.steps c c' refl h e
apply-InOrder (completion accepted now task i success s) c c' h e =
    route-InOrder accepted now task i success s c c' h e
apply-InOrder (approval accepted) c c' h e = approve-InOrder accepted c c' h e
apply-InOrder (rejection accepted now) c c' h e =
    InOrder-SamePlace (reject-SamePlace accepted now c c' e) h
apply-InOrder (resumption accepted status) c c' h e = resume-InOrder accepted status c c' h e
apply-InOrder (cancellation accepted now) c c' h e =
    InOrder-SamePlace (cancel-SamePlace accepted now c c' e) h
