-- ===== src/Workflow/Chain/Anomalies.antt =====
-- Superseded completions, and two behaviours of chains that a caller may not expect.
use mathlib.Core.Path.{subst}
use django_qraft.Prelude.{
  ℕ, zero, suc, ◌+◌, Bool, true, false, some, List, [], ◌∷◌, get_elem?, set, ◌≡◌, ◌≢◌, refl, sym,
  ap, ◌∙◌, >>=-ok, arith, ok, err,
}
use django_qraft.Task.{TaskStatus}
use django_qraft.Workflow.Status.{WorkflowStatus, pending, running, failed}
use django_qraft.Workflow.Chain.{
  Step, Chain, enqueue_failed, already_run, bound_to, move_to, queue_chain_step, handle,
  handle_step_success, route,
}
use django_qraft.Workflow.Chain.Order.{queue_chain_step-ok, queued_step}
use django_qraft.Workflow.Chain.Control.{Handle, run, resume, reopened}

get_elem?-set_self :
    (steps : List Step) (i : ℕ) (s v : Step)
    → get_elem? steps i ≡ some s
    → get_elem? (set steps i v) i ≡ some v
get_elem?-set_self [] i s v h = cc
get_elem?-set_self (x ∷ steps) zero s v h = refl
get_elem?-set_self (x ∷ steps) (suc i) s v h = get_elem?-set_self steps i s v h

move_to-next_task :
    (s : WorkflowStatus) (c c' : Chain) → move_to s c ≡ ok c' → c'.next_task ≡ c.next_task
unfolding move_to
move_to-next_task s c c' h = ground arith

-- The step that was queued is bound to the new task alone.
queue-binds :
    (accepted : Bool) (task : ℕ) (c c' : Chain)
    → queue_chain_step accepted c.current_step_index c ≡ ok c'
    → task ≢ c.next_task
    → bound_to task (get_elem? c'.steps c'.current_step_index) ≡ false
unfolding queued_step
queue-binds accepted task c c' h fresh =
    let (s, at, p) = queue_chain_step-ok accepted c.current_step_index c c' h in
    subst (λ (d : Chain). bound_to task (get_elem? d.steps d.current_step_index) ≡ false) (sym p)
      (ap (bound_to task) (
          get_elem?-set_self c.steps c.current_step_index s
            (record s { qraft_task = some c.next_task }) at)
        ∙ ground arith)

resume-unbinds :
    (accepted : Bool) (task : ℕ) (c c' : Chain)
    → resume accepted failed c ≡ ok c'
    → task ≢ c.next_task
    → bound_to task (get_elem? c'.steps c'.current_step_index) ≡ false
unfolding resume
resume-unbinds accepted task c c' h fresh =
    let (c₁, m, q) = >>=-ok (move_to running c) _ h in
    queue-binds accepted task (reopened c₁) c' q (λ e. fresh (e ∙ move_to-next_task running c c₁ m))

unbound_dropped :
    (accepted : Bool) (now task i : ℕ) (success : Bool) (s : TaskStatus) (c : Chain)
    → bound_to task (get_elem? c.steps i) ≡ false
    → route accepted now task i success s c ≡ ok c
unfolding route
unbound_dropped accepted now task i success s c h = rw h

-- After a failed chain was resumed, the completion of any task but the one that the resume created
-- is dropped at the step that was queued anew: neither outcome changes the chain.
pub resume-drops_superseded :
    (accepted accepted' : Bool) (now task : ℕ) (success : Bool) (s : TaskStatus) (c c' : Chain)
    → resume accepted failed c ≡ ok c'
    → task ≢ c.next_task
    → route accepted' now task c'.current_step_index success s c' ≡ ok c'
resume-drops_superseded accepted accepted' now task success s c c' h fresh =
    unbound_dropped accepted' now task c'.current_step_index success s c'
      (resume-unbinds accepted task c c' h fresh)

-- The success of the current step of a failed chain, by the task that the step is bound to, moves
-- the chain on where a next step without a gate exists and the broker accepts it: that step is
-- queued, while the row keeps its failed status and its settlement.
pub failed_chain_advances :
    (now task i : ℕ) (s : TaskStatus) (next_step : Step) (c : Chain)
    → c.workflow.status ≡ failed
    → c.current_step_index ≡ i
    → bound_to task (get_elem? c.steps i) ≡ true
    → get_elem? c.steps (i + 1) ≡ some next_step
    → next_step.requires_approval ≡ false
    → (c' : Chain) × (route true now task i true s c ≡ ok c')
      × (c'.workflow ≡ c.workflow)
      × (c'.queued ≡ (i + 1) ∷ c.queued)
unfolding route handle handle_step_success
failed_chain_advances now task i s next_step c f here bound next plain = (
  record c {
    current_step_index = i + 1;
    steps = set c.steps (i + 1) (record next_step { qraft_task = some c.next_task });
    next_task = c.next_task + 1;
    queued = (i + 1) ∷ c.queued;
  },
  ground arith,
  refl,
  refl,
)

-- When the broker refuses the first step of a chain whose first step has no gate, the rows are as
-- before, but the object is spent: a second `run` of it raises as already run.
pub run_retry_refused :
    (accepted : Bool) (rest : List Bool) (c : Chain)
    → c.steps ≡ []
    → let h : Handle = record { appended = false ∷ rest; status = pending; chain = c } in
      let (outcome, h') = run false h in
      (outcome ≡ err enqueue_failed)
      × (h'.chain ≡ c)
      × ((run accepted h').0 ≡ err (already_run running))
unfolding run
run_retry_refused accepted rest c e = ground arith
