-- ===== src/Enqueue/Create/Outcomes.antt =====
-- What one call of `async_task` does, on every branch.
use django_qraft.Prelude.{ℕ, String, true, ◌⊎◌, Option, none, some, ◌∷◌, Result, ok, err, ◌≡◌}
use django_qraft.Retry.Settings.{Checks, Defaults}
use django_qraft.Enqueue.{
  Call, CallError, integrity_error, enqueue_failed, no_such_graph, GraphLabels, check_arguments,
}
use django_qraft.Enqueue.Create.{
  Metadata, Message, Tables, reclaim, existing, Begun, prepare, has_holder, new_row, runner_path,
  finished,
}
use django_qraft.Enqueue.Create.Prepared.{has_controls, Of}

module _ {F : Type 0} where
  module _ (checks : Checks F) (defaults : Defaults F) (graphs : ℕ → Option GraphLabels) where
    -- The tables as the lookup left them: as they were, or without a dead task's hold on the key, if
    -- the call asked for that.
    abbrev pub Base : Call F → Tables F → Tables F → Type 0
    Base c t t' =
        (t' ≡ t)
        ⊎ ((key : String) × (c.idempotency_key ≡ some key)
            × (c.idempotency_retry_dead ≡ true)
            × (t' ≡ reclaim key t))

    abbrev pub Answered : Call F → Tables F → ℕ → Type 0
    Answered c t q2 =
        (key : String) × (c.idempotency_key ≡ some key) × (existing key t.rows ≡ some q2)

    -- A message whose function will call that of the call, under its key and with Qraft's options.
    abbrev pub Runs : Call F → Message → Type 0
    Runs c message =
        (message.func ≡ runner_path)
        × ((message.target ≡ c.func) ⊎ ((message.target ≡ none) × (c.func ≡ some runner_path)))
        × (message.idempotency_key ≡ c.idempotency_key)
        × (has_controls message.options ≡ true)

    abbrev pub Created : String → Option ℕ → Call F → Tables F → Tables F → ℕ → Type 0
    Created own answer c t t' q2 =
        (m : Metadata F) × (message : Message) × (t1 : Tables F) × Base c t t1
        × (answer ≡ some q2)
        × Of checks defaults c m
        × (t' ≡ record { rows = new_row own q2 m ∷ t1.rows; messages = message ∷ t1.messages })
        × (message.q2_task_id ≡ q2)
        × Runs c message

    -- Why a call raises: an argument is refused, the options are, the graph is gone, the broker does not
    -- take the message, or another task holds the key.
    abbrev pub Reason : Option ℕ → Call F → Tables F → CallError → Type 0
    Reason answer c t e =
        (check_arguments c ≡ err e)
        ⊎ ((prepare checks defaults graphs c ≡ err e)
            ⊎ ((e ≡ no_such_graph)
                ⊎ (((e ≡ enqueue_failed) × (answer ≡ none))
                    ⊎ ((e ≡ integrity_error) × (has_holder c.idempotency_key t.rows ≡ true)))))

    abbrev pub Outcome :
        String → Option ℕ → Call F → Tables F → Result CallError ℕ × Tables F → Type 0
    Outcome own answer c t (err e, t') = Base c t t' × Reason answer c t' e
    Outcome own answer c t (ok q2, t') =
        (Base c t t' × Answered c t' q2) ⊎ Created own answer c t t' q2

    -- The end of a call whose first part was done.
    abbrev rest : String → Option ℕ → Begun F × Tables F → Result CallError ℕ × Tables F
    rest own answer (b, t') = finished own graphs answer b t'
