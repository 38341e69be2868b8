-- ===== src/Job/Rows.antt =====
-- How statuses and single rows change under the operations.
use django_qraft.Prelude.{
  ℕ, true, false, ◌≡◌, refl, ap, ◌∙◌, arith, Bool-cases, inl, inr, is_none, if◌then◌else◌,
}
use django_qraft.Task.{TaskStatus, is_terminal_failure}
use django_qraft.Lease.{Execution, claim}
use django_qraft.Job.{Attempt, is_open, is_pending, touched, returned, claimed_execution}
use django_qraft.Job.Tracked.{is_live, Keeps}
use django_qraft.Job.Machine.{live, dead, phase}

pub phase-live : (s : TaskStatus) → is_live s ≡ true → phase s ≡ live
phase-live TaskStatus.pending e = refl
phase-live TaskStatus.running e = refl
phase-live TaskStatus.succeeded e = cc
phase-live TaskStatus.failed e = cc
phase-live TaskStatus.exhausted e = cc

pub phase-dead : (s : TaskStatus) → phase s ≡ dead → is_live s ≡ false
phase-dead TaskStatus.pending e = cc
phase-dead TaskStatus.running e = cc
phase-dead TaskStatus.succeeded e = refl
phase-dead TaskStatus.failed e = refl
phase-dead TaskStatus.exhausted e = refl

pub terminal-dead : (s : TaskStatus) → is_terminal_failure s ≡ true → phase s ≡ dead
terminal-dead TaskStatus.pending e = cc
terminal-dead TaskStatus.running e = cc
terminal-dead TaskStatus.succeeded e = cc
terminal-dead TaskStatus.failed e = refl
terminal-dead TaskStatus.exhausted e = refl

pub dead-terminal : (s : TaskStatus) → phase s ≡ dead → is_terminal_failure s ≡ true
dead-terminal TaskStatus.pending e = cc
dead-terminal TaskStatus.running e = cc
dead-terminal TaskStatus.succeeded e = cc
dead-terminal TaskStatus.failed e = refl
dead-terminal TaskStatus.exhausted e = refl

pub claimed-live :
    (s : TaskStatus) → is_live (if is_pending s then TaskStatus.running else s) ≡ is_live s
claimed-live TaskStatus.pending = refl
claimed-live TaskStatus.running = refl
claimed-live TaskStatus.succeeded = refl
claimed-live TaskStatus.failed = refl
claimed-live TaskStatus.exhausted = refl

pub claimed-phase :
    (s : TaskStatus) → phase (if is_pending s then TaskStatus.running else s) ≡ phase s
claimed-phase TaskStatus.pending = refl
claimed-phase TaskStatus.running = refl
claimed-phase TaskStatus.succeeded = refl
claimed-phase TaskStatus.failed = refl
claimed-phase TaskStatus.exhausted = refl

-- Whatever a claim writes, it does not touch the outcome.
pub claim-open :
    (limit now worker : ℕ) (e : Execution)
    → (claimed_execution limit now worker e).success ≡ e.success
unfolding claim
claim-open limit now worker e = ground arith

pub Keeps-claimed :
    (limit now worker : ℕ)
    → Keeps (λ b. record b { execution = claimed_execution limit now worker b.execution })
Keeps-claimed limit now worker = record {
  number = λ a. refl;
  closed = λ a h. ap is_none (claim-open limit now worker a.execution) ∙ h;
}

pub touched-open : (now : ℕ) (a : Attempt) → is_open (touched now a) ≡ is_open a
touched-open now a = elim (Bool-cases (is_open a)) [ inl e ↦ rw e e | inr e ↦ rw e e ]

pub returned-open : (now : ℕ) (a : Attempt) → is_open (returned now a) ≡ is_open a
returned-open now a = elim (Bool-cases (is_open a)) [ inl e ↦ rw e e | inr e ↦ rw e e ]

pub Keeps-touched : (now : ℕ) → Keeps (touched now)
Keeps-touched now = record {
  number = λ a. elim (Bool-cases (is_open a)) [ inl e ↦ rw e refl | inr e ↦ rw e refl ];
  closed = λ a h. touched-open now a ∙ h;
}

pub Keeps-returned : (now : ℕ) → Keeps (returned now)
Keeps-returned now = record {
  number = λ a. elim (Bool-cases (is_open a)) [ inl e ↦ rw e refl | inr e ↦ rw e refl ];
  closed = λ a h. returned-open now a ∙ h;
}
