-- ===== src/Lease/Delivery/Memo.antt =====
-- What a context that is not cleared does to the next message: the process worker of Django-Q2.
use django_qraft.Prelude.{
  ℕ, ◌+◌, ◌<◌, ltb, true, false, Option, none, some, List, [], ◌∷◌, ◌≡◌, refl, ap, ◌∙◌, arith,
}
use django_qraft.Lease.{Execution, first_delivery, claim}
use django_qraft.Lease.Delivery.{
  unmarked, Phase, idle, received, ran, Context, Rows, write, claim_delivery, claim_marked,
  on_pre_execute, run_task, finish, Event, receive, execute, leave, World, step, at_end,
}
use django_qraft.Lease.Delivery.Calls.{write_self, eq_self}
use django_qraft.Lease.Delivery.Bounded.{fresh_context, threads}

abbrev pub executions : Option Execution → Option ℕ
executions none = none
executions (some e) = some e.execution_count

-- A process takes a message and is done with it, twice.
abbrev pub twice : ℕ → ℕ → ℕ → List Event
twice q now again =
    receive unmarked now 0 q
    ∷ execute now 0
    ∷ leave 0
    ∷ receive unmarked again 0 q
    ∷ execute again 0
    ∷ leave 0
    ∷ []

abbrev pub process : Rows → World
process rows = record { contexts = threads 1; rows = rows; calls = [] }

claim-first :
    (limit now worker : ℕ) (e : Execution)
    → e.date_started ≡ none
    → e.success ≡ none
    → e.execution_count < limit
    → claim limit now worker (some e) ≡ (
      first_delivery,
      some (record e {
        date_started = some now;
        heartbeat_at = some now;
        worker = some worker;
        execution_count = e.execution_count + 1;
      }),
    )
unfolding claim
claim-first limit now worker e d s lt =
    let l : ltb e.execution_count limit ≡ true = ground arith in simp (d, s, l)

-- The context of the process with the message's verdict.
abbrev with_memo : Phase → ℕ → Context
with_memo phase q = record {
  phase = phase;
  current_q2_task_id = some q;
  delivery_claim = some (q, first_delivery);
}

receive_first :
    (limit q now : ℕ) (rows : Rows) (row : Option Execution)
    → claim limit now 0 (rows q) ≡ (first_delivery, row)
    → on_pre_execute unmarked limit now 0 q fresh_context rows
      ≡ (with_memo received q, write rows q row)
unfolding on_pre_execute claim_marked claim_delivery
receive_first limit q now rows row h = rw h refl

claim_again :
    (limit q now : ℕ) (phase : Phase) (rows : Rows)
    → claim_delivery limit now 0 q (with_memo phase q) rows
      ≡ (first_delivery, with_memo phase q, rows)
unfolding claim_delivery
claim_again limit q now phase rows = rw (claim_delivery, eq_self q) refl

-- The process between its steps.
abbrev at_phase : Phase → ℕ → Rows → List ℕ → World
at_phase phase q rows calls = record {
  contexts = with_memo phase q ∷ [];
  rows = rows;
  calls = calls;
}

abbrev at_world : Context → Rows → World
at_world c rows = record { contexts = c ∷ []; rows = rows; calls = [] }

module _ (limit q now : ℕ) (rows : Rows) where
  step-receive :
      (row : Option Execution)
      → claim limit now 0 (rows q) ≡ (first_delivery, row)
      → step false limit (receive unmarked now 0 q) (process rows)
        ≡ at_phase received q (write rows q row) []
  unfolding step
  step-receive row h =
      ap (λ (r : Context × Rows). at_world r.0 r.1) (receive_first limit q now rows row h)

  step-receive_again :
      (calls : List ℕ)
      → step false limit (receive unmarked now 0 q) (at_phase idle q rows calls)
        ≡ at_phase received q rows calls
  unfolding step on_pre_execute claim_marked
  step-receive_again calls = rw (claim_again limit q now received rows) refl

  step-execute :
      (calls : List ℕ)
      → step false limit (execute now 0) (at_phase received q rows calls)
        ≡ at_phase ran q rows (q ∷ calls)
  unfolding step run_task
  step-execute calls = rw (claim_again limit q now received rows) refl

  step-leave :
      (calls : List ℕ)
      → step false limit (leave 0) (at_phase ran q rows calls) ≡ at_phase idle q rows calls
  unfolding step finish
  step-leave calls = refl

twice_lem :
    (limit q now again : ℕ) (rows : Rows) (row : Option Execution)
    → claim limit now 0 (rows q) ≡ (first_delivery, row)
    → at_end false limit (twice q now again) (process rows)
      ≡ at_phase idle q (write rows q row) (q ∷ q ∷ [])
unfolding at_end
twice_lem limit q now again rows row h =
    let rows' : Rows = write rows q row in
    let go_on = λ (events : List Event) (w : World). at_end false limit events w in
    let second : List Event = receive unmarked again 0 q ∷ execute again 0 ∷ leave 0 ∷ [] in
    ap (go_on (execute now 0 ∷ leave 0 ∷ second)) (step-receive limit q now rows row h)
    ∙ ap (go_on (leave 0 ∷ second)) (step-execute limit q now rows' [])
    ∙ ap (go_on second) (step-leave limit q now rows' (q ∷ []))
    ∙ ap (go_on (execute again 0 ∷ leave 0 ∷ [])) (step-receive_again limit q again rows' (q ∷ []))
    ∙ ap (go_on (leave 0 ∷ [])) (step-execute limit q again rows' (q ∷ []))
    ∙ step-leave limit q again rows' (q ∷ q ∷ [])

-- The process worker of Django-Q2 does not clear the context: a message that comes to one process
-- twice in a row is executed twice, whatever the budget. Of an attempt that was not started, has no
-- outcome and has an execution left, the function is called for both messages, while its row counts
-- one execution.
pub stale_memo :
    (limit q now again : ℕ) (rows : Rows) (e : Execution)
    → rows q ≡ some e
    → e.date_started ≡ none
    → e.success ≡ none
    → e.execution_count < limit
    → ((at_end false limit (twice q now again) (process rows)).calls ≡ q ∷ q ∷ [])
      × (executions ((at_end false limit (twice q now again) (process rows)).rows q)
          ≡ some (e.execution_count + 1))
stale_memo limit q now again rows e h d s lt =
    let row : Option Execution = some (record e {
      date_started = some now;
      heartbeat_at = some now;
      worker = some 0;
      execution_count = e.execution_count + 1;
    }) in
    let end = twice_lem limit q now again rows row (rw h (claim-first limit now 0 e d s lt)) in
    (
      ap (λ (w : World). w.calls) end,
      ap (λ (w : World). executions (w.rows q)) end ∙ ap executions (write_self rows q row),
    )
