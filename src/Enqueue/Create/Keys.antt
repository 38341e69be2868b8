-- ===== src/Enqueue/Create/Keys.antt =====
-- The parts of `async_task` and one idempotency key: its holder, and the messages under it.
use django_qraft.Prelude.{
  ℕ, ◌+◌, ◌≤◌, String, Bool, true, false, ◌&&◌, Option, none, some, List, [], ◌∷◌, any, count_if,
  str_eq, eq_iff, Result, ok, err, ◌>>=◌, Bool-cases, Option-cases, inl, inr, if◌then◌else◌, ◌≡◌,
  refl, sym, ap, ◌∙◌, arith,
}
use django_qraft.Retry.Settings.{Checks, Defaults}
use django_qraft.Enqueue.{Call, CallError, GraphLabels}
use django_qraft.Enqueue.Create.{
  Metadata, TaskRow, Message, Tables, has_key, holds, is_dead_holder, take_key, reclaim,
  after_check, look_up, has_holder, new_row, wrapped_dispatch, relabel, insert_and_enqueue,
  create_and_enqueue, settled, complete,
}

abbrev pub messages_under : String → List Message → ℕ
messages_under key = count_if (λ m. has_key key m.idempotency_key)

module _ {F : Type 0} where
  abbrev pub holders : String → List (TaskRow F) → ℕ
  holders key = count_if (holds key)

  -- Whether the call may take the key from a dead task.
  abbrev pub may_reclaim : String → Call F → Bool
  may_reclaim key c = has_key key c.idempotency_key && c.idempotency_retry_dead

  -- At most one task holds the key, and each other message is owed to a call that reclaimed.
  abbrev pub Bounded : String → ℕ → Tables F → Type 0
  Bounded key n t =
      (holders key t.rows ≤ 1) × (messages_under key t.messages ≤ holders key t.rows + n)

  holds_other :
      (key k : String) (r : TaskRow F)
      → str_eq key k ≡ false
      → holds key r ≡ true
      → holds k r ≡ false
  holds_other key k r e h = held r.metadata.idempotency_key h
    where
      held : (o : Option String) → has_key key o ≡ true → has_key k o ≡ false
      held none p = cc
      held (some j) p = ap (λ (x : String). str_eq x k) ((eq_iff j key).0 p) ∙ e

  dead-holds : (key : String) (r : TaskRow F) → is_dead_holder key r ≡ true → holds key r ≡ true
  dead-holds key r h = ground arith

  take-le :
      (key k : String) (rows : List (TaskRow F)) → holders k (take_key key rows) ≤ holders k rows
  take-le key k [] = omega arith
  take-le key k (r ∷ rs) = elim (Bool-cases (is_dead_holder key r)) [
    | inl e ↦ rw e (ground (arith, take-le key k rs))
    | inr e ↦ rw e (ground (arith, take-le key k rs))
  ]

  take_other :
      (key k : String) (rows : List (TaskRow F))
      → str_eq key k ≡ false
      → holders k (take_key key rows) ≡ holders k rows
  take_other key k [] h = refl
  take_other key k (r ∷ rs) h = elim (Bool-cases (is_dead_holder key r)) [
    | inl e ↦
        let other : holds k r ≡ false = holds_other key k r h (dead-holds key r e) in
        rw e (ground (arith, other, take_other key k rs h))
    | inr e ↦ rw e (ground (arith, take_other key k rs h))
  ]

  reclaim-Bounded :
      (key k : String) (n : ℕ) (t : Tables F)
      → Bounded k n t
      → Bounded k ((if str_eq key k then 1 else 0) + n) (reclaim key t)
  unfolding reclaim
  reclaim-Bounded key k n t h = elim (Bool-cases (str_eq key k)) [
    | inl e ↦ rw e (omega (arith, take-le key k t.rows))
    | inr e ↦ rw e (rw (take_other key k t.rows e) (omega arith))
  ]

  holders-zero :
      (key : String) (rows : List (TaskRow F)) → any (holds key) rows ≡ false → holders key rows ≡ 0
  holders-zero key [] h = refl
  holders-zero key (r ∷ rs) h = ground (arith, holders-zero key rs)

  messages_under-add :
      (k : String) (q2 : ℕ) (m : Metadata F) (ms : List Message)
      → messages_under k (wrapped_dispatch q2 m ∷ ms)
        ≡ (if has_key k m.idempotency_key then 1 else 0) + messages_under k ms
  unfolding wrapped_dispatch
  messages_under-add k q2 m ms = ground arith

  holders-add :
      (k own : String) (q2 : ℕ) (m : Metadata F) (rows : List (TaskRow F))
      → holders k (new_row own q2 m ∷ rows)
        ≡ (if has_key k m.idempotency_key then 1 else 0) + holders k rows
  holders-add k own q2 m rows = ground arith

  add-Bounded :
      (k : String) (n q2 : ℕ) (own : String) (m : Metadata F) (t : Tables F)
      → has_holder m.idempotency_key t.rows ≡ false
      → Bounded k n t
      → Bounded k n (record t {
        rows = new_row own q2 m ∷ t.rows;
        messages = wrapped_dispatch q2 m ∷ t.messages;
      })
  add-Bounded k n q2 own m t free h =
      let more = messages_under-add k q2 m t.messages in
      let held = holders-add k own q2 m t.rows in
      elim (Bool-cases (has_key k m.idempotency_key)) [
        | inr e ↦ omega (arith, rw e at more, rw e at held)
        | inl e ↦ omega (
          arith,
          rw e at more,
          rw e at held,
          holders-zero k t.rows (no_holder m.idempotency_key e free),
        )
      ]
    where
      no_holder :
          (o : Option String)
          → has_key k o ≡ true
          → has_holder o t.rows ≡ false
          → any (holds k) t.rows ≡ false
      no_holder none p q = cc
      no_holder (some j) p q =
          ap (λ (x : String). any (holds x) t.rows) (sym ((eq_iff j k).0 p)) ∙ q

  -- What a transaction leaves, if it is not rolled back.
  abbrev BoundedAfter : String → ℕ → Result CallError (ℕ × Tables F) → Type 0
  BoundedAfter k n (ok (q2, t)) = Bounded k n t
  BoundedAfter k n (err e) = Unit

  insert-Bounded :
      (k own : String) (n : ℕ) (answer : Option ℕ) (m : Metadata F) (t : Tables F)
      → Bounded k n t
      → BoundedAfter k n (insert_and_enqueue own answer m t)
  unfolding insert_and_enqueue
  insert-Bounded k own n answer m t h = elim (Bool-cases (has_holder m.idempotency_key t.rows)) [
    | inl e ↦ rw (insert_and_enqueue, e) tt
    | inr e ↦ elim (Option-cases answer) [
      | inl a ↦ rw (insert_and_enqueue, e, a) tt
      | inr (q2, a) ↦ rw (insert_and_enqueue, e, a) (add-Bounded k n q2 own m t e h)
    ]
  ]

  create-Bounded :
      (k own : String) (n : ℕ) (locked : ℕ → Option GraphLabels) (answer : Option ℕ)
      (m : Metadata F) (t : Tables F)
      → Bounded k n t
      → BoundedAfter k n (create_and_enqueue own locked answer m t)
  unfolding create_and_enqueue
  create-Bounded k own n locked answer m t h = relabelled (relabel locked m)
    where
      relabelled :
          (r : Result CallError (Metadata F))
          → BoundedAfter k n (r >>= λ m'. insert_and_enqueue own answer m' t)
      relabelled (ok m') = insert-Bounded k own n answer m' t h
      relabelled (err e) = tt

  settled-Bounded :
      (k : String) (n : ℕ) (m : Metadata F) (t : Tables F) (r : Result CallError (ℕ × Tables F))
      → BoundedAfter k n r
      → Bounded k n t
      → Bounded k n (settled m t r).1
  settled-Bounded k n m t (ok (q2, t')) g h = g
  settled-Bounded k n m t (err e) g h = h

  pub complete-Bounded :
      (k own : String) (n : ℕ) (locked : ℕ → Option GraphLabels) (answer : Option ℕ)
      (m : Metadata F) (t : Tables F)
      → Bounded k n t
      → Bounded k n (complete own locked answer m t).1
  unfolding complete
  complete-Bounded k own n locked answer m t h =
      settled-Bounded k n m t (create_and_enqueue own locked answer m t)
        (create-Bounded k own n locked answer m t h) h

  pub more-Bounded :
      (k : String) (b : Bool) (n : ℕ) (t : Tables F)
      → Bounded k n t
      → Bounded k ((if b then 1 else 0) + n) t
  more-Bounded k true n t h = omega arith
  more-Bounded k false n t h = omega arith

  -- The rows after the reclaim that the call may ask for.
  reclaimed-Bounded :
      (k key : String) (n : ℕ) (retry : Bool) (t : Tables F)
      → Bounded k n t
      → Bounded k
          ((if str_eq key k && retry then 1 else 0) + n)
          (if retry then reclaim key t else t)
  reclaimed-Bounded k key n true t h = elim (Bool-cases (str_eq key k)) [
    | inl e ↦ rw e (rw e at (reclaim-Bounded key k n t h))
    | inr e ↦ rw e (rw e at (reclaim-Bounded key k n t h))
  ]
  reclaimed-Bounded k key n false t h = more-Bounded k (str_eq key k && false) n t h

  module _ (checks : Checks F) (defaults : Defaults F) (graphs : ℕ → Option GraphLabels) where
    look_up-Bounded :
        (k : String) (n : ℕ) (c : Call F) (t : Tables F)
        → Bounded k n t
        → Bounded k ((if may_reclaim k c then 1 else 0) + n) (look_up checks defaults graphs c t).1
    unfolding look_up
    look_up-Bounded k n c t h = elim (Option-cases c.idempotency_key) [
      | inl e ↦ rw (look_up, e) (more-Bounded k false n t h)
      | inr (key, e) ↦ elim (Bool-cases (str_eq key "")) [
        | inl z ↦
            rw (look_up, e, z) (more-Bounded k (str_eq key k && c.idempotency_retry_dead) n t h)
        | inr z ↦ rw (look_up, e, z) (reclaimed-Bounded k key n c.idempotency_retry_dead t h)
      ]
    ]

    pub checked-Bounded :
        (k : String) (n : ℕ) (r : Result CallError (Unit {0})) (c : Call F) (t : Tables F)
        → Bounded k n t
        → Bounded k
            ((if may_reclaim k c then 1 else 0) + n)
            (after_check checks defaults graphs r c t).1
    checked-Bounded k n (err e) c t h = more-Bounded k (may_reclaim k c) n t h
    checked-Bounded k n (ok _) c t h = look_up-Bounded k n c t h
