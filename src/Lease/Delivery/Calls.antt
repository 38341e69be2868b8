-- ===== src/Lease/Delivery/Calls.antt =====
-- One message: the execution count of its row covers the call that the thread will make.
use django_qraft.Prelude.{
  ℕ, ◌+◌, ◌≤◌, Bool, true, false, Option, none, some, ◌==◌, Bool-cases, Option-cases, inl, inr, not,
  if◌then◌else◌, ◌≡◌, refl, sym, ap, ◌∙◌, arith,
}
use django_qraft.Lease.{
  Execution, Verdict, first_delivery, repeat_delivery, refused_delivery, no_attempt, claim,
}
use django_qraft.Lease.Delivery.{
  Phase, received, ran, Context, Rows, write, remembered, remember, claim_delivery, Marker,
  unmarked, of_new, held_by, is_marked, new_execution, adopted, call_unless_refused,
  open_marker_lease, claim_marked, on_pre_execute, run_task,
}

-- 1 for a verdict on which the runner calls the function.
abbrev admits : Option Verdict → ℕ
admits none = 0
admits (some refused_delivery) = 0
admits (some _) = 1

abbrev pub memo : ℕ → Context → ℕ
memo q c = admits (remembered q c.delivery_claim)

-- The row is there, with at least this count and within the limit.
abbrev pub Counted : ℕ → ℕ → Option Execution → Type 0
Counted limit n none = ⊥
Counted limit n (some e) = (n ≤ e.execution_count) × (e.execution_count ≤ limit)

claim-Counted :
    (limit now worker n : ℕ) (row : Option Execution)
    → Counted limit n row
    → Counted limit
        (admits (some (claim limit now worker row).0) + n)
        (claim limit now worker row).1
unfolding claim
claim-Counted limit now worker n none h = absurd h
claim-Counted limit now worker n (some e) h = ground arith

pub Counted-le :
    (limit n m : ℕ) (row : Option Execution) → m ≤ n → Counted limit n row → Counted limit m row
Counted-le limit n m none le h = h
Counted-le limit n m (some e) le h = omega arith

pub eq_self : (q : ℕ) → (q == q) ≡ true
eq_self q = ground arith

memo-remember-le :
    (q : ℕ) (verdict : Verdict) (c : Context)
    → remembered q c.delivery_claim ≡ none
    → memo q (remember q verdict c) ≤ admits (some verdict)
memo-remember-le q first_delivery c h = rw (eq_self q) (omega arith)
memo-remember-le q repeat_delivery c h = rw (eq_self q) (omega arith)
memo-remember-le q refused_delivery c h = rw (eq_self q) (omega arith)
memo-remember-le q no_attempt c h = rw h (omega arith)

abbrev has_attempt : Verdict → Bool
has_attempt no_attempt = false
has_attempt _ = true

admits-le-memo :
    (q : ℕ) (verdict : Verdict) (c : Context)
    → has_attempt verdict ≡ true
    → admits (some verdict) ≤ memo q (remember q verdict c)
admits-le-memo q first_delivery c h = rw (eq_self q) (omega arith)
admits-le-memo q repeat_delivery c h = rw (eq_self q) (omega arith)
admits-le-memo q refused_delivery c h = omega arith
admits-le-memo q no_attempt c h = cc

claim-has_attempt :
    (limit now worker n : ℕ) (row : Option Execution)
    → Counted limit n row
    → has_attempt (claim limit now worker row).0 ≡ true
unfolding claim
claim-has_attempt limit now worker n none h = absurd h
claim-has_attempt limit now worker n (some e) h = ground arith

memo-remember_other :
    (q2 q : ℕ) (verdict : Verdict) (c : Context)
    → (q2 == q) ≡ false
    → memo q (remember q2 verdict c) ≤ memo q c
memo-remember_other q2 q first_delivery c h = rw h (omega arith)
memo-remember_other q2 q repeat_delivery c h = rw h (omega arith)
memo-remember_other q2 q refused_delivery c h = rw h (omega arith)
memo-remember_other q2 q no_attempt c h = omega arith

phase-remember : (q : ℕ) (verdict : Verdict) (c : Context) → (remember q verdict c).phase ≡ c.phase
phase-remember q first_delivery c = refl
phase-remember q repeat_delivery c = refl
phase-remember q refused_delivery c = refl
phase-remember q no_attempt c = refl

write_other :
    (rows : Rows) (q2 q : ℕ) (row : Option Execution)
    → (q2 == q) ≡ false
    → write rows q2 row q ≡ rows q
write_other rows q2 q row h = let e : (q == q2) ≡ false = ground arith in rw e refl

pub write_self : (rows : Rows) (q : ℕ) (row : Option Execution) → write rows q row q ≡ row
write_self rows q row = rw (eq_self q) refl

-- What an operation of a thread keeps for the message: the count covers what the thread may yet call.
abbrev pub Keeps : ℕ → ℕ → ℕ → Phase → Context → Rows → Type 0
Keeps limit q n phase c rows = Counted limit (memo q c + n) (rows q) × (c.phase ≡ phase)

fresh-Keeps :
    (limit now worker q2 q n : ℕ) (c : Context) (rows : Rows)
    → remembered q2 c.delivery_claim ≡ none
    → Counted limit (memo q c + n) (rows q)
    → Keeps limit q n c.phase
        (remember q2 (claim limit now worker (rows q2)).0 c)
        (write rows q2 (claim limit now worker (rows q2)).1)
fresh-Keeps limit now worker q2 q n c rows fresh h = elim (Bool-cases (q2 == q)) [
  | inr e ↦
      let verdict : Verdict = (claim limit now worker (rows q2)).0 in
      (
        rw (write_other rows q2 q (claim limit now worker (rows q2)).1 e) (
            Counted-le limit (memo q c + n) (memo q (remember q2 verdict c) + n) (rows q)
              (omega (arith, memo-remember_other q2 q verdict c e)) h),
        phase-remember q2 verdict c,
      )
  | inl e ↦
      let same : q2 ≡ q = ground arith in
      let fresh' : remembered q c.delivery_claim ≡ none = rw (← same) fresh in
      let verdict : Verdict = (claim limit now worker (rows q)).0 in
      rw same (
        rw (write_self rows q (claim limit now worker (rows q)).1) (
            Counted-le limit (admits (some verdict) + n) (memo q (remember q verdict c) + n)
              (claim limit now worker (rows q)).1
              (omega (arith, memo-remember-le q verdict c fresh'))
              (claim-Counted limit now worker n (rows q)
                (Counted-le limit (memo q c + n) n (rows q) (omega arith) h))),
        phase-remember q verdict c,
      )
]

claim_delivery-Keeps :
    (limit now worker q2 q n : ℕ) (c : Context) (rows : Rows)
    → Counted limit (memo q c + n) (rows q)
    → Keeps limit q n c.phase
        (claim_delivery limit now worker q2 c rows).1
        (claim_delivery limit now worker q2 c rows).2
unfolding claim_delivery
claim_delivery-Keeps limit now worker q2 q n c rows h =
    elim (Option-cases (remembered q2 c.delivery_claim)) [
      | inr (verdict, e) ↦ rw (claim_delivery, e) (h, refl)
      | inl e ↦ rw (claim_delivery, e) (fresh-Keeps limit now worker q2 q n c rows e h)
    ]

claim_delivery-admits :
    (limit now worker q n : ℕ) (c : Context) (rows : Rows)
    → Counted limit n (rows q)
    → admits (some (claim_delivery limit now worker q c rows).0)
      ≤ memo q (claim_delivery limit now worker q c rows).1
unfolding claim_delivery
claim_delivery-admits limit now worker q n c rows h =
    elim (Option-cases (remembered q c.delivery_claim)) [
      | inr (verdict, e) ↦ rw (claim_delivery, e) (rw e (omega arith))
      | inl e ↦
          rw (claim_delivery, e)
            (admits-le-memo q (claim limit now worker (rows q)).0 c
              (claim-has_attempt limit now worker n (rows q) h))
    ]

-- The marker does not take the message's row away.
abbrev pub spares : ℕ → Marker → Bool
spares q (held_by old) = not (old == q)
spares q _ = true

no_row : (limit n : ℕ) (row : Option Execution) → row ≡ none → Counted limit n row → ⊥
no_row limit n none e h = h
no_row limit n (some x) e h = cc

adopted-other :
    (marker : Marker) (q2 q : ℕ) (rows : Rows)
    → spares q marker ≡ true
    → (q2 == q) ≡ false
    → adopted marker q2 rows q ≡ rows q
adopted-other unmarked q2 q rows s e = refl
adopted-other of_new q2 q rows s e = write_other rows q2 q (some new_execution) e
adopted-other (held_by old) q2 q rows s e =
    let differs : (old == q) ≡ false = ground arith in
    write_other (write rows old none) q2 q (rows old) e ∙ write_other rows old q none differs

open_marker-Counted :
    (marker : Marker) (limit q2 q n : ℕ) (rows : Rows)
    → spares q marker ≡ true
    → Counted limit n (rows q)
    → Counted limit n (open_marker_lease marker q2 rows q)
unfolding open_marker_lease
open_marker-Counted marker limit q2 q n rows s h = elim (Option-cases (rows q2)) [
  | inr (x, e) ↦ rw (open_marker_lease, e) h
  | inl e ↦ elim (Bool-cases (q2 == q)) [
    | inr d ↦ rw (open_marker_lease, e) (rw (adopted-other marker q2 q rows s d) h)
    | inl d ↦
        let same : q2 ≡ q = ground arith in
        absurd (no_row limit n (rows q) (ap rows (sym same) ∙ e) h)
  ]
]

claim_marked-Keeps :
    (marker : Marker) (limit now worker q2 q n : ℕ) (verdict : Verdict) (c : Context) (rows : Rows)
    → spares q marker ≡ true
    → Counted limit (memo q c + n) (rows q)
    → Keeps limit q n c.phase
        (claim_marked marker limit now worker q2 verdict c rows).0
        (claim_marked marker limit now worker q2 verdict c rows).1
unfolding claim_marked
claim_marked-Keeps marker limit now worker q2 q n no_attempt c rows s h =
    elim (Bool-cases (is_marked marker)) [
      | inl e ↦
          rw (claim_marked, e)
            (claim_delivery-Keeps limit now worker q2 q n c (open_marker_lease marker q2 rows)
              (open_marker-Counted marker limit q2 q (memo q c + n) rows s h))
      | inr e ↦ rw (claim_marked, e) (h, refl)
    ]
claim_marked-Keeps marker limit now worker q2 q n first_delivery c rows s h = (h, refl)
claim_marked-Keeps marker limit now worker q2 q n repeat_delivery c rows s h = (h, refl)
claim_marked-Keeps marker limit now worker q2 q n refused_delivery c rows s h = (h, refl)

-- A thread whose context was cleared takes a message.
pub receive-Keeps :
    (marker : Marker) (limit now worker q2 q n : ℕ) (c : Context) (rows : Rows)
    → spares q marker ≡ true
    → Counted limit (memo q c + n) (rows q)
    → Keeps limit q n received
        (on_pre_execute marker limit now worker q2 c rows).0
        (on_pre_execute marker limit now worker q2 c rows).1
unfolding on_pre_execute
receive-Keeps marker limit now worker q2 q n c rows s h =
    let begun : Context = record c { phase = received; current_q2_task_id = some q2 } in
    let (h1, p1) = claim_delivery-Keeps limit now worker q2 q n begun rows h in
    let r = claim_delivery limit now worker q2 begun rows in
    let (h2, p2) = claim_marked-Keeps marker limit now worker q2 q n r.0 r.1 r.2 s h1 in
    (h2, p2 ∙ p1)

-- The calls of the message's function.
abbrev pub called : ℕ → Option ℕ → ℕ
called q none = 0
called q (some id) = if id == q then 1 else 0

called-le_admits :
    (q : ℕ) (verdict : Verdict) → called q (call_unless_refused q verdict) ≤ admits (some verdict)
called-le_admits q first_delivery = rw (eq_self q) (omega arith)
called-le_admits q repeat_delivery = rw (eq_self q) (omega arith)
called-le_admits q refused_delivery = omega arith
called-le_admits q no_attempt = rw (eq_self q) (omega arith)

called_other :
    (q2 q : ℕ) (verdict : Verdict)
    → (q2 == q) ≡ false
    → called q (call_unless_refused q2 verdict) ≡ 0
called_other q2 q first_delivery h = rw h refl
called_other q2 q repeat_delivery h = rw h refl
called_other q2 q refused_delivery h = refl
called_other q2 q no_attempt h = rw h refl

called-le :
    (limit now worker q2 q n : ℕ) (c : Context) (rows : Rows)
    → Counted limit (memo q c + n) (rows q)
    → called q (call_unless_refused q2 (claim_delivery limit now worker q2 c rows).0)
      ≤ memo q (claim_delivery limit now worker q2 c rows).1
called-le limit now worker q2 q n c rows h = elim (Bool-cases (q2 == q)) [
  | inr e ↦ rw (called_other q2 q (claim_delivery limit now worker q2 c rows).0 e) (omega arith)
  | inl e ↦
      let same : q2 ≡ q = ground arith in
      rw same (
        omega (
          arith,
          called-le_admits q (claim_delivery limit now worker q c rows).0,
          claim_delivery-admits limit now worker q (memo q c + n) c rows h,
        ))
]

pub run-Counted :
    (limit now worker q n : ℕ) (c : Context) (rows : Rows)
    → Counted limit (memo q c + n) (rows q)
    → Counted limit
        (called q (run_task limit now worker c rows).0 + n)
        ((run_task limit now worker c rows).2 q)
unfolding run_task
run-Counted limit now worker q n c rows h = elim (Option-cases c.current_q2_task_id) [
  | inl e ↦ rw (run_task, e) (Counted-le limit (memo q c + n) (0 + n) (rows q) (omega arith) h)
  | inr (q2, e) ↦
      let r = claim_delivery limit now worker q2 c rows in
      let kept : Counted limit (memo q r.1 + n) (r.2 q) =
        (claim_delivery-Keeps limit now worker q2 q n c rows h).0 in
      rw (run_task, e)
        (Counted-le limit (memo q r.1 + n) (called q (call_unless_refused q2 r.0) + n) (r.2 q)
          (omega (arith, called-le limit now worker q2 q n c rows h)) kept)
]

pub run-phase :
    (limit now worker : ℕ) (c : Context) (rows : Rows)
    → (run_task limit now worker c rows).1.phase ≡ ran
unfolding run_task
run-phase limit now worker c rows = elim (Option-cases c.current_q2_task_id) [
  | inl e ↦ rw (run_task, e) refl
  | inr (q2, e) ↦ rw (run_task, e) refl
]
