-- ===== src/Workflow/Chain/Order/Place.antt =====
-- The place of a chain in its order of steps, and what keeps it.
use mathlib.Core.Path.{subst}
use django_qraft.Prelude.{
  ℕ, zero, suc, ◌+◌, Bool, true, some, List, [], ◌∷◌, get_elem?, set, member, ◌==◌, ◌≡◌, inl, inr,
  refl, sym, ap, ◌∙◌, arith, ◌≢◌, Result, ok, Bool-cases, Option-cases,
}
use django_qraft.Workflow.Status.{WorkflowStatus, waiting_approval}
use django_qraft.Workflow.Settle.{Workflow}
use django_qraft.Workflow.Chain.{
  Step, Chain, ChainError, bound_to, move_to, queue_chain_step, advance,
}
use django_qraft.Workflow.Chain.Order.Staircase.{Climbs, Climbs-next, bound_to-set}

pub record InOrder (c : Chain) : Type 0 where
  pub climbs : Climbs c.current_step_index c.queued
  pub bound : (task j : ℕ) → bound_to task (get_elem? c.steps j) ≡ true → member j c.queued ≡ true
  pub unstarted : c.steps ≡ [] → (c.current_step_index ≡ 0) × (c.queued ≡ [])

-- The row that `QraftChainModel.objects.create` makes.
abbrev pub new_chain : Workflow → ℕ → Chain
new_chain w next_task = record {
  workflow = w;
  current_step_index = 0;
  steps = [];
  next_task = next_task;
  queued = [];
}

pub new_chain-InOrder : (w : Workflow) (next_task : ℕ) → InOrder (new_chain w next_task)
new_chain-InOrder w next_task = record {
  climbs = refl;
  bound = λ task j h. ground arith;
  unstarted = λ _. (refl, refl);
}

-- Two chains that differ at most in their status and hooks.
pub record SamePlace (c d : Chain) : Type 0 where
  pub current : c.current_step_index ≡ d.current_step_index
  pub steps : c.steps ≡ d.steps
  pub queued : c.queued ≡ d.queued

pub InOrder-SamePlace : {c d : Chain} → SamePlace c d → InOrder d → InOrder c
InOrder-SamePlace s h = record {
  climbs = rw (s.current, s.queued) h.climbs;
  bound = λ task j b. rw s.queued (h.bound task j (rw s.steps at b));
  unstarted = λ e. rw (s.current, s.queued) (h.unstarted (rw s.steps at e));
}

pub move_to-SamePlace : (s : WorkflowStatus) (c c' : Chain) → move_to s c ≡ ok c' → SamePlace c' c
unfolding move_to
move_to-SamePlace s c c' h = ground arith

pub ok-injective : (c c' : Chain) → ◌≡◌ {A = Result ChainError Chain} (ok c) (ok c') → c ≡ c'
ok-injective c c' h = cc

unfoldable pub queued_step : ℕ → Step → Chain → Chain
queued_step i s c = record c {
  steps = set c.steps i (record s { qraft_task = some c.next_task });
  next_task = c.next_task + 1;
  queued = i ∷ c.queued;
}

pub queue_chain_step-ok :
    (accepted : Bool) (i : ℕ) (c c' : Chain)
    → queue_chain_step accepted i c ≡ ok c'
    → (s : Step) × (get_elem? c.steps i ≡ some s) × (c' ≡ queued_step i s c)
unfolding queue_chain_step queued_step
queue_chain_step-ok accepted i c c' h = elim (Option-cases (get_elem? c.steps i)) [
  | inl e ↦ ground arith
  | inr (s, e) ↦ (s, e, ground arith)
]

set_nonempty :
    (steps : List Step) (i : ℕ) (s v : Step) → get_elem? steps i ≡ some s → set steps i v ≢ []
set_nonempty [] i s v h e = cc
set_nonempty (x ∷ steps) zero s v h e = cc
set_nonempty (x ∷ steps) (suc i) s v h e = cc

queued_step-InOrder :
    (s : Step) (c : Chain)
    → get_elem? c.steps c.current_step_index ≡ some s
    → InOrder c
    → InOrder (queued_step c.current_step_index s c)
unfolding queued_step
queued_step-InOrder s c e h = record {
  climbs = (inl refl, h.climbs);
  bound = λ task j b. ground (
    arith,
    bound_to-set task c.current_step_index j c.steps (record s { qraft_task = some c.next_task }) b,
    h.bound task j,
  );
  unstarted = λ n. absurd (set_nonempty c.steps c.current_step_index s _ e n);
}

pub queue-InOrder :
    (accepted : Bool) (c c' : Chain)
    → InOrder c
    → queue_chain_step accepted c.current_step_index c ≡ ok c'
    → InOrder c'
queue-InOrder accepted c c' h e =
    let (s, at, p) = queue_chain_step-ok accepted c.current_step_index c c' e in
    subst InOrder (sym p) (queued_step-InOrder s c at h)

not_there : (i : ℕ) (s : Step) → get_elem? [] i ≢ some s
not_there i s h = cc

-- The index on the next step, which exists.
moved_on-InOrder :
    (i : ℕ) (s : Step) (c : Chain)
    → InOrder c
    → member c.current_step_index c.queued ≡ true
    → (c.current_step_index == i) ≡ true
    → get_elem? c.steps (i + 1) ≡ some s
    → InOrder (record c { current_step_index = i + 1 })
moved_on-InOrder i s c h m here next = record {
  climbs =
      let at_i : c.current_step_index ≡ i = ground arith in
      subst (λ (k : ℕ). Climbs (k + 1) c.queued) at_i
        (Climbs-next c.current_step_index c.queued h.climbs m);
  bound = h.bound;
  unstarted = λ e.
      absurd (not_there (i + 1) s (ap (λ (ss : List Step). get_elem? ss (i + 1)) (sym e) ∙ next));
}

pub advance-InOrder :
    (accepted : Bool) (now i : ℕ) (s : Step) (c c' : Chain)
    → InOrder c
    → member c.current_step_index c.queued ≡ true
    → (c.current_step_index == i) ≡ true
    → get_elem? c.steps (i + 1) ≡ some s
    → advance accepted now i (some s) c ≡ ok c'
    → InOrder c'
unfolding advance
advance-InOrder accepted now i s c c' h m here next e =
    let c₁ = record c { current_step_index = i + 1 } in
    let h₁ = moved_on-InOrder i s c h m here next in
    elim (Bool-cases s.requires_approval) [
      | inl gated ↦ InOrder-SamePlace (move_to-SamePlace waiting_approval c₁ c' (rw gated at e)) h₁
      | inr plain ↦ queue-InOrder accepted c₁ c' h₁ (rw plain at e)
    ]
