-- ===== src/Examples/Chains.antt =====
-- Chains at concrete rows.
use django_qraft.Prelude.{true, false, none, some, List, [], ◌∷◌, ◌≡◌, refl, arith, ok, err}
use django_qraft.Task.{TaskStatus}
use django_qraft.Hooks.Once.{no_hooks}
use django_qraft.Workflow.Status.{WorkflowStatus, pending, running, failed}
use django_qraft.Workflow.Settle.{Workflow}
use django_qraft.Workflow.Chain.{
  Step, Chain, enqueue_failed, already_run, handle_step_success, route,
}
use django_qraft.Workflow.Chain.Success.{success_idempotent}
use django_qraft.Workflow.Chain.Order.{Op, replay, new_chain, Climbs, chain_order}
use django_qraft.Workflow.Chain.Control.{Handle, run, resume}
use django_qraft.Workflow.Chain.Anomalies.{
  resume-drops_superseded, failed_chain_advances, run_retry_refused,
}

abbrev row : WorkflowStatus → Workflow
row s = record {
  status = s;
  settled_at = none;
  success_hook = none;
  failure_hook = none;
  on_cancelled = none;
  progress_hook = none;
  announced = [];
  hooks = no_hooks;
}

abbrev plain : Step
plain = record { requires_approval = false; qraft_task = none }

-- Step 0 of two runs as task 3.
abbrev at_first : WorkflowStatus → Chain
at_first s = record {
  workflow = row s;
  current_step_index = 0;
  steps = record { requires_approval = false; qraft_task = some 3 } ∷ plain ∷ [];
  next_task = 4;
  queued = 0 ∷ [];
}

-- Step 1 runs as task 4.
abbrev at_second : Chain
at_second = record {
  workflow = row running;
  current_step_index = 1;
  steps =
      record { requires_approval = false; qraft_task = some 3 }
      ∷ record { requires_approval = false; qraft_task = some 4 }
      ∷ [];
  next_task = 5;
  queued = 1 ∷ 0 ∷ [];
}

success_idempotent_example : handle_step_success false 9 0 at_second ≡ ok at_second
unfolding handle_step_success
success_idempotent_example = success_idempotent true false 8 9 0 (at_first running) at_second refl

abbrev history : List Op
history =
    Op.start true (false ∷ true ∷ false ∷ []) pending
    ∷ Op.completion true 5 0 0 true TaskStatus.succeeded
    ∷ Op.completion true 6 0 0 true TaskStatus.succeeded
    ∷ Op.approval true
    ∷ []

chain_order_example :
    let c = replay history (new_chain (row pending) 0) in Climbs c.current_step_index c.queued
chain_order_example = chain_order history (row pending) 0

-- The row of a failed chain after its resume.
abbrev resumed : Chain
resumed = record {
  workflow = row running;
  current_step_index = 0;
  steps = record { requires_approval = false; qraft_task = some 4 } ∷ plain ∷ [];
  next_task = 5;
  queued = 0 ∷ 0 ∷ [];
}

resume-drops_superseded_example : route true 9 3 0 true TaskStatus.succeeded resumed ≡ ok resumed
unfolding resume
resume-drops_superseded_example =
    resume-drops_superseded true true 9 3 true TaskStatus.succeeded (at_first failed) resumed refl
      (omega arith)

failed_chain_advances_example :
    (c' : Chain) × (route true 9 3 0 true TaskStatus.succeeded (at_first failed) ≡ ok c')
    × (c'.workflow ≡ row failed)
    × (c'.queued ≡ 1 ∷ 0 ∷ [])
failed_chain_advances_example =
    failed_chain_advances 9 3 0 TaskStatus.succeeded plain (at_first failed) refl refl refl refl
      refl

run_retry_refused_example :
    let h : Handle = record {
      appended = false ∷ true ∷ [];
      status = pending;
      chain = new_chain (row pending) 0;
    } in
    let (outcome, h') = run false h in
    (outcome ≡ err enqueue_failed)
    × (h'.chain ≡ new_chain (row pending) 0)
    × ((run true h').0 ≡ err (already_run running))
run_retry_refused_example = run_retry_refused true (true ∷ []) (new_chain (row pending) 0) refl
