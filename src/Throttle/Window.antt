-- ===== src/Throttle/Window.antt =====
-- What a bucket lets through over any stretch of time.
use native.Mathlib.Nat.{add-mul, zero-mul, mul-le-mul_right}
use django_qraft.Prelude.{
  ℕ, ◌+◌, ◌-◌, ◌*◌, ◌≤◌, min, String, Bool, true, false, List, [], ◌∷◌, leb, str_eq, eq_iff,
  Bool-cases, inl, inr, if◌then◌else◌, ◌≡◌, refl, sym, ap, ◌∙◌, arith,
}
use django_qraft.Throttle.{Bucket, whole_amounts, get_or_create, withdraw, at_key, acquire}

-- A call, so many seconds after the one before.
pub record Call : Type 0 where
  pub key : String
  pub cost : ℕ
  pub delay : ℕ

-- The tokens that a key could have drawn by now.
abbrev level : String → ℕ → ℕ → ℕ → List (Bucket ℕ) → ℕ
level key rate capacity now [] = capacity
level key rate capacity now (b ∷ bs) =
    if str_eq b.key key
    then b.tokens + (now - b.updated_at) * rate
    else level key rate capacity now bs

refill_grows : (n d u r : ℕ) → (n + d - u) * r ≤ (n - u) * r + d * r
refill_grows n d u r =
    let more : n + d - u ≤ (n - u) + d = omega arith in
    omega (arith, mul-le-mul_right r more, add-mul (n - u) d r)

level_grows :
    (key : String) (rate capacity now delay : ℕ) (bs : List (Bucket ℕ))
    → level key rate capacity (now + delay) bs ≤ level key rate capacity now bs + delay * rate
level_grows key rate capacity now delay [] = omega arith
level_grows key rate capacity now delay (b ∷ bs) = elim (Bool-cases (str_eq b.key key)) [
  | inl e ↦ rw e (omega (arith, refill_grows now delay b.updated_at rate))
  | inr e ↦ rw e (level_grows key rate capacity now delay bs)
]

abbrev drawn : Bool → ℕ → ℕ
drawn true cost = cost
drawn false cost = 0

no_time : (now r : ℕ) → (now - now) * r ≤ 0
no_time now r =
    let still : now - now ≤ 0 = omega arith in omega (arith, mul-le-mul_right r still, zero-mul r)

withdraw_pays :
    (rate capacity cost now : ℕ) (b : Bucket ℕ)
    → let r = withdraw whole_amounts rate capacity cost now b in
      (drawn r.0 cost + r.1.tokens ≤ b.tokens + (now - b.updated_at) * rate)
      × (r.1.updated_at ≡ now)
      × (r.1.key ≡ b.key)
unfolding withdraw
withdraw_pays rate capacity cost now b =
    let tokens = min capacity (b.tokens + (now - b.updated_at) * rate) in
    elim (Bool-cases (leb cost tokens)) [
      | inl e ↦ rw (withdraw, e) (ground arith, refl, refl)
      | inr e ↦ rw (withdraw, e) (omega arith, refl, refl)
    ]

-- What a call draws from a key's bucket.
abbrev drawn_by : String → String → Bool → ℕ → ℕ
drawn_by key called admitted cost = if str_eq called key then drawn admitted cost else 0

abbrev pub duration : List Call → ℕ
duration [] = 0
duration (c ∷ calls) = c.delay + duration calls

-- The rate and the capacity with which each key is called.
module _ (rates capacities : String → ℕ) where
  -- A withdrawal that pays from the bucket's level and stamps it.
  record IsPaid (rate now cost : ℕ) (b : Bucket ℕ) (r : Bool × Bucket ℕ) : Type 0 where
    pub paid : drawn r.0 cost + r.1.tokens ≤ b.tokens + (now - b.updated_at) * rate
    pub stamped : r.1.updated_at ≡ now
    pub same : r.1.key ≡ b.key

  level_created :
      (key called : String) (now : ℕ) (bs : List (Bucket ℕ))
      → level key (rates key) (capacities key) now (get_or_create called (capacities called) now bs)
        ≤ level key (rates key) (capacities key) now bs
  unfolding get_or_create
  level_created key called now [] = elim (Bool-cases (str_eq called key)) [
    | inl e ↦
        let same = (eq_iff called key).0 e in
        rw e (omega (arith, ap capacities same, no_time now (rates key)))
    | inr e ↦ rw e (omega arith)
  ]
  level_created key called now (b ∷ bs) =
      let rest = level_created key called now bs in
      elim (Bool-cases (str_eq b.key called)) [
        | inl e ↦ rw e (omega arith)
        | inr e ↦ rw e (elim (Bool-cases (str_eq b.key key)) [
          | inl k ↦ rw k (omega arith)
          | inr k ↦ rw k rest
        ])
      ]

  -- The bucket that was withdrawn from, before the others.
  head_pays :
      (key called : String) (cost now : ℕ) (b : Bucket ℕ) (r : Bool × Bucket ℕ)
      (bs : List (Bucket ℕ))
      → b.key ≡ called
      → IsPaid (rates called) now cost b r
      → drawn_by key called r.0 cost + level key (rates key) (capacities key) now (r.1 ∷ bs)
        ≤ level key (rates key) (capacities key) now (b ∷ bs)
  head_pays key called cost now b r bs q h = elim (Bool-cases (str_eq b.key key)) [
    | inl e ↦
        let e1 : str_eq (r.1.key) key ≡ true = ap (λ (k : String). str_eq k key) h.same ∙ e in
        let e2 : str_eq called key ≡ true = ap (λ (k : String). str_eq k key) (sym q) ∙ e in
        let same : called ≡ key = sym q ∙ (eq_iff b.key key).0 e in
        let rated = ap (λ (k : String). (now - b.updated_at) * rates k) same in
        rw (e, e1, e2, h.stamped) (omega (arith, h.paid, rated, no_time now (rates key)))
    | inr e ↦
        let e1 : str_eq (r.1.key) key ≡ false = ap (λ (k : String). str_eq k key) h.same ∙ e in
        let e2 : str_eq called key ≡ false = ap (λ (k : String). str_eq k key) (sym q) ∙ e in
        rw (e, e1, e2) (omega arith)
  ]

  at_key_pays :
      (key called : String) (cost now : ℕ) (f : Bucket ℕ → Bool × Bucket ℕ)
      → ((b : Bucket ℕ) → IsPaid (rates called) now cost b (f b))
      → (bs : List (Bucket ℕ))
      → drawn_by key called (at_key called f bs).0 cost
          + level key (rates key) (capacities key) now (at_key called f bs).1
        ≤ level key (rates key) (capacities key) now bs
  unfolding at_key
  at_key_pays key called cost now f pays [] = elim (Bool-cases (str_eq called key)) [
    | inl e ↦ rw e (omega arith)
    | inr e ↦ rw e (omega arith)
  ]
  at_key_pays key called cost now f pays (b ∷ bs) =
      let rest = at_key_pays key called cost now f pays bs in
      elim (Bool-cases (str_eq b.key called)) [
        | inl e ↦
            rw (at_key, e)
              (head_pays key called cost now b (f b) bs ((eq_iff b.key called).0 e) (pays b))
        | inr e ↦
            rw (at_key, e)
              (elim (Bool-cases (str_eq b.key key)) [
                | inr k ↦ rw k rest
                | inl k ↦
                    let other : str_eq called key ≡ false = differs b called key e k in
                    rw (k, other) (omega arith)
              ])
      ]
    where
      differs :
          (b : Bucket ℕ) (called key : String)
          → str_eq b.key called ≡ false
          → str_eq b.key key ≡ true
          → str_eq called key ≡ false
      differs b called key e k = elim (Bool-cases (str_eq called key)) [
        | inr n ↦ n
        | inl y ↦ absurd (
            ground (
              arith,
              e,
              (eq_iff b.key called).1 ((eq_iff b.key key).0 k ∙ sym ((eq_iff called key).0 y)),
            ))
      ]

  acquire_pays :
      (key called : String) (cost now : ℕ) (bs : List (Bucket ℕ))
      → let r = acquire whole_amounts called (rates called) (capacities called) cost now bs in
        drawn_by key called r.0 cost + level key (rates key) (capacities key) now r.1
        ≤ level key (rates key) (capacities key) now bs
  unfolding acquire
  acquire_pays key called cost now bs = omega (
    arith,
    level_created key called now bs,
    at_key_pays key called cost now
        (withdraw whole_amounts (rates called) (capacities called) cost now)
        (λ b.
          let (paid, stamped, same) = withdraw_pays (rates called) (capacities called) cost now b in
          record { paid = paid; stamped = stamped; same = same })
        (get_or_create called (capacities called) now bs),
  )

  -- The tokens that a key's admitted calls cost, over a sequence of calls.
  unfoldable pub spent : String → List Call → ℕ → List (Bucket ℕ) → ℕ
  unfolding acquire
  spent key [] now bs = 0
  spent key (c ∷ calls) now bs =
      let r =
        acquire whole_amounts c.key (rates c.key) (capacities c.key) c.cost (now + c.delay) bs in
      drawn_by key c.key r.0 c.cost + spent key calls (now + c.delay) r.1

  spent-level :
      (key : String) (calls : List Call) (now : ℕ) (bs : List (Bucket ℕ))
      → spent key calls now bs
        ≤ level key (rates key) (capacities key) now bs + duration calls * rates key
  unfolding spent
  spent-level key [] now bs = omega arith
  spent-level key (c ∷ calls) now bs =
      let r =
        acquire whole_amounts c.key (rates c.key) (capacities c.key) c.cost (now + c.delay) bs in
      omega (
        arith,
        acquire_pays key c.key c.cost (now + c.delay) bs,
        spent-level key calls (now + c.delay) r.1,
        level_grows key (rates key) (capacities key) now c.delay bs,
        add-mul c.delay (duration calls) (rates key),
      )

  -- With whole numbers of tokens and seconds, and each key called with a rate and a capacity of its
  -- own that stay, the admitted calls of a key that has no bucket yet cost together at most its
  -- capacity and what its rate adds over the time of the calls, whatever calls of other keys come
  -- between.
  pub spent-bounded :
      (key : String) (calls : List Call) (now : ℕ)
      → spent key calls now [] ≤ capacities key + duration calls * rates key
  spent-bounded key calls now = spent-level key calls now []
