-- ===== src/Examples/Workflows.antt =====
-- Settlement, fan-out and hooks at concrete rows.
use django_qraft.Prelude.{ℕ, Bool, true, false, none, some, [], ◌∷◌, ◌==◌, ◌≡◌, refl, inl, inr}
use django_qraft.Task.{TaskStatus}
use django_qraft.Hooks.Once.{HookKind, HookKey, no_hooks}
use django_qraft.Workflow.Status.{running, succeeded, failed}
use django_qraft.Workflow.Settle.{Workflow}
use django_qraft.Workflow.Settle.Race.{complete, withdraw, race, race-first}
use django_qraft.Workflow.Parallel.{Parallel, Completion, handle}
use django_qraft.Workflow.Parallel.Counts.{IsCounted, handle-IsCounted}
use django_qraft.Workflow.Parallel.FanIn.{deliver}
use django_qraft.Workflow.Parallel.Start.{Handle, run, new_row, new_handle, run-fan_in, run-refused}

abbrev live : Workflow
live = record {
  status = running;
  settled_at = none;
  success_hook = none;
  failure_hook = none;
  on_cancelled = some "shop.tasks.cancelled";
  progress_hook = none;
  announced = [];
  hooks = no_hooks;
}

race-first_example :
    let w = race (complete 5 true ∷ withdraw 6 true ∷ complete 7 false ∷ []) live in
    (w.status ≡ succeeded) × (w.announced ≡ succeeded ∷ [])
race-first_example =
    race-first (complete 5 true) (withdraw 6 true ∷ complete 7 false ∷ []) live (inr (inl refl))
      refl

abbrev one_of_two : Parallel
one_of_two = record {
  workflow = live;
  total_count = 2;
  completed_count = 1;
  success_count = 1;
  failure_count = 0;
  counted = 4 ∷ [];
  progress = [];
}

abbrev second_failed : Completion
second_failed = record { attempt = 5; success = some false; task_status = TaskStatus.exhausted }

handle-IsCounted_example : IsCounted (handle true 9 second_failed one_of_two)
handle-IsCounted_example =
    handle-IsCounted true 9 second_failed one_of_two
      (record { by_outcome = refl; by_attempt = refl; each_once = refl })

abbrev accepts_all : ℕ → Bool
accepts_all id = true

abbrev accepts_first : ℕ → Bool
accepts_first id = id == 7

abbrev eight_fails : ℕ → Bool
eight_fails id = id == 7

abbrev pair : Handle
pair = new_handle 2 (new_row none none none none) 7

run-fan_in_example :
    let q =
      deliver eight_fails
        ((8, true, 3) ∷ (7, true, 4) ∷ (8, true, 5) ∷ [])
        (run accepts_all pair).1.row in
    (q.workflow.status ≡ failed) × (q.workflow.announced ≡ failed ∷ []) × (q.completed_count ≡ 2)
unfolding run
run-fan_in_example =
    run-fan_in accepts_all 2 7 none none none none (7 ∷ 8 ∷ []) eight_fails
      ((8, true, 3) ∷ (7, true, 4) ∷ (8, true, 5) ∷ []) refl refl refl

run-refused_example : (run accepts_first pair).1 ≡ pair
unfolding run
run-refused_example = run-refused accepts_first pair refl refl

abbrev success_key : HookKey
success_key = record { kind = HookKind.success; generation = 0 }
