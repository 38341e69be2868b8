-- ===== src/Lease/Delivery/Bounded.antt =====
-- Messages of any threads in any order: how often the function of an attempt is called.
use django_qraft.Prelude.{
  ℕ, suc, zero, ◌+◌, ◌≤◌, Bool, true, Option, none, some, List, [], ◌∷◌, get_elem?, set, count_if,
  all, ◌==◌, Bool-cases, Option-cases, inl, inr, ◌≡◌, refl, ◌∙◌, arith,
}
use django_qraft.Lease.{Execution, resolve}
use django_qraft.Lease.Delivery.{
  Marker, Phase, idle, received, ran, Context, Rows, write, on_pre_execute, run_task, finish, Event,
  receive, execute, leave, settle, World, add_call, receive_in, execute_in, leave_in, step, at_end,
}
use django_qraft.Lease.Delivery.Calls.{
  spares, memo, Counted, Counted-le, called, run-Counted, run-phase, receive-Keeps,
}

-- The calls of the message's function that were made.
abbrev pub calls_of : ℕ → List ℕ → ℕ
calls_of q = count_if (λ id. id == q)

-- The admissions by which a thread will yet call the function.
abbrev pending_in : Phase → ℕ → ℕ
pending_in ran m = 0
pending_in _ m = m

abbrev pending : ℕ → Context → ℕ
pending q c = pending_in c.phase (memo q c)

abbrev total : ℕ → List Context → ℕ
total q [] = 0
total q (c ∷ cs) = pending q c + total q cs

abbrev Covers : ℕ → ℕ → ℕ → World → Type 0
Covers limit q n w = Counted limit (total q w.contexts + (calls_of q w.calls + n)) (w.rows q)

-- All threads but one.
total-set :
    (q i : ℕ) (c : Context) (cs : List Context)
    → get_elem? cs i ≡ some c
    → (rest : ℕ) × (total q cs ≡ pending q c + rest)
      × ((c' : Context) → total q (set cs i c') ≡ pending q c' + rest)
total-set q i c [] h = cc
total-set q zero c (d ∷ cs) h = let same : d ≡ c = cc in (total q cs, rw same refl, λ c'. refl)
total-set q (suc i) c (d ∷ cs) h =
    let (rest, e, f) = total-set q i c cs h in
    (pending q d + rest, omega (arith, e), λ c'. omega (arith, f c'))

calls_of-add :
    (q : ℕ) (id : Option ℕ) (calls : List ℕ)
    → calls_of q (add_call id calls) ≡ called q id + calls_of q calls
calls_of-add q none calls = omega arith
calls_of-add q (some id) calls = ground arith

module _ (limit q n : ℕ) (w : World) where
  receive-Covers :
      (marker : Marker) (now thread q2 : ℕ) (phase : Phase) (c : Context)
      → spares q marker ≡ true
      → c.phase ≡ phase
      → get_elem? w.contexts thread ≡ some c
      → Covers limit q n w
      → Covers limit q n (receive_in marker limit now thread q2 phase c w)
  receive-Covers marker now thread q2 received c s p g h = h
  receive-Covers marker now thread q2 ran c s p g h = h
  receive-Covers marker now thread q2 idle c s p g h =
      let (rest, e, f) = total-set q thread c w.contexts g in
      let r = on_pre_execute marker limit now thread q2 c w.rows in
      let before : total q w.contexts ≡ memo q c + rest = rw p at e in
      let (h1, p1) =
        receive-Keeps marker limit now thread q2 q (rest + (calls_of q w.calls + n)) c w.rows s
          (Counted-le limit _ _ (w.rows q) (omega (arith, before)) h) in
      let after : total q (set w.contexts thread r.0) ≡ memo q r.0 + rest = f r.0 ∙ rw p1 refl in
      Counted-le limit _ _ (r.1 q) (omega (arith, after)) h1

  execute-Covers :
      (now thread : ℕ) (phase : Phase) (c : Context)
      → c.phase ≡ phase
      → get_elem? w.contexts thread ≡ some c
      → Covers limit q n w
      → Covers limit q n (execute_in limit now thread phase c w)
  execute-Covers now thread idle c p g h = h
  execute-Covers now thread ran c p g h = h
  execute-Covers now thread received c p g h =
      let (rest, e, f) = total-set q thread c w.contexts g in
      let r = run_task limit now thread c w.rows in
      let before : total q w.contexts ≡ memo q c + rest = rw p at e in
      let h1 =
        run-Counted limit now thread q (rest + (calls_of q w.calls + n)) c w.rows
          (Counted-le limit _ _ (w.rows q) (omega (arith, before)) h) in
      let after : total q (set w.contexts thread r.1) ≡ pending q r.1 + rest = f r.1 in
      let done : pending q r.1 ≡ 0 = rw (run-phase limit now thread c w.rows) refl in
      Counted-le limit _ _ (r.2 q) (omega (arith, after, done, calls_of-add q r.0 w.calls)) h1

  leave-Covers :
      (thread : ℕ) (phase : Phase) (c : Context)
      → c.phase ≡ phase
      → get_elem? w.contexts thread ≡ some c
      → Covers limit q n w
      → Covers limit q n (leave_in true thread phase c w)
  unfolding finish
  leave-Covers thread idle c p g h = h
  leave-Covers thread received c p g h = h
  leave-Covers thread ran c p g h =
      let (rest, e, f) = total-set q thread c w.contexts g in
      let before : total q w.contexts ≡ 0 + rest = rw p at e in
      let after : total q (set w.contexts thread (finish true c)) ≡ 0 + rest = f (finish true c) in
      Counted-le limit _ _ (w.rows q) (omega (arith, before, after)) h

resolve-Counted :
    (limit n : ℕ) (outcome : Bool) (row : Option Execution)
    → Counted limit n row
    → Counted limit n (resolve outcome row)
unfolding resolve
resolve-Counted limit n outcome none h = h
resolve-Counted limit n outcome (some e) h = ground arith

settle-Counted :
    (limit q q2 n : ℕ) (outcome : Bool) (rows : Rows)
    → Counted limit n (rows q)
    → Counted limit n (write rows q2 (resolve outcome (rows q2)) q)
settle-Counted limit q q2 n outcome rows h = elim (Bool-cases (q == q2)) [
  | inr e ↦ rw e h
  | inl e ↦
      let same : q2 ≡ q = ground arith in
      rw e (rw same (resolve-Counted limit n outcome (rows q) h))
]

-- The message's row is not adopted by another.
abbrev pub spares_row : ℕ → Event → Bool
spares_row q (receive marker now thread q2) = spares q marker
spares_row q _ = true

step-Covers :
    (limit q n : ℕ) (event : Event) (w : World)
    → spares_row q event ≡ true
    → Covers limit q n w
    → Covers limit q n (step true limit event w)
unfolding step
step-Covers limit q n (receive marker now thread q2) w s h =
    elim (Option-cases (get_elem? w.contexts thread)) [
      | inl e ↦ rw (step, e) h
      | inr (c, e) ↦
          rw (step, e) (receive-Covers limit q n w marker now thread q2 c.phase c s refl e h)
    ]
step-Covers limit q n (execute now thread) w s h =
    elim (Option-cases (get_elem? w.contexts thread)) [
      | inl e ↦ rw (step, e) h
      | inr (c, e) ↦ rw (step, e) (execute-Covers limit q n w now thread c.phase c refl e h)
    ]
step-Covers limit q n (leave thread) w s h = elim (Option-cases (get_elem? w.contexts thread)) [
  | inl e ↦ rw (step, e) h
  | inr (c, e) ↦ rw (step, e) (leave-Covers limit q n w thread c.phase c refl e h)
]
step-Covers limit q n (settle q2 outcome) w s h =
    settle-Counted limit q q2 (total q w.contexts + (calls_of q w.calls + n)) outcome w.rows h

at_end-Covers :
    (limit q n : ℕ) (events : List Event) (w : World)
    → all (spares_row q) events ≡ true
    → Covers limit q n w
    → Covers limit q n (at_end true limit events w)
unfolding at_end
at_end-Covers limit q n [] w s h = h
at_end-Covers limit q n (event ∷ events) w s h =
    at_end-Covers limit q n events (step true limit event w) (ground arith)
      (step-Covers limit q n event w (ground arith) h)

-- Threads that have no message and remember no verdict.
abbrev pub fresh_context : Context
fresh_context = record { phase = idle; current_q2_task_id = none; delivery_claim = none }

abbrev pub threads : ℕ → List Context
threads zero = []
threads (suc k) = fresh_context ∷ threads k

total-threads : (q k : ℕ) → total q (threads k) ≡ 0
total-threads q zero = refl
total-threads q (suc k) = omega (arith, total-threads q k)

Counted-bound : (limit n k : ℕ) (row : Option Execution) → Counted limit n row → k ≤ n → k ≤ limit
Counted-bound limit n k none h le = absurd h
Counted-bound limit n k (some e) h le = omega arith

-- The function of an attempt is called at most as often as its execution budget allows for the
-- message that holds its row, whatever the threads do: with threads of the threaded worker that start
-- without a message, and a row whose execution count is within the limit, that count and the calls of
-- the function for the message are within it after any messages, repeated ones too, any interleaving of
-- the threads, and any resolutions, if no other message adopts the row by its marker.
pub calls_bounded :
    (limit q k : ℕ) (rows : Rows) (e : Execution) (events : List Event)
    → rows q ≡ some e
    → e.execution_count ≤ limit
    → all (spares_row q) events ≡ true
    → calls_of q
          (at_end true limit events
            (record { contexts = threads k; rows = rows; calls = [] })).calls
        + e.execution_count
      ≤ limit
calls_bounded limit q k rows e events h le s =
    let begin : World = record { contexts = threads k; rows = rows; calls = [] } in
    let w = at_end true limit events begin in
    let n = e.execution_count in
    let covered : Covers limit q n begin = rw (total-threads q k, h) (omega arith, le) in
    Counted-bound limit (total q w.contexts + (calls_of q w.calls + n)) (calls_of q w.calls + n)
      (w.rows q) (at_end-Covers limit q n events begin s covered) (omega arith)
