-- ===== src/Usage/Recorded.antt =====
-- What the attempts of a task record, and what is aggregated from it.
use django_qraft.Prelude.{
  ℕ, ◌+◌, String, Bool, true, false, Option, none, some, [], ◌∷◌, str_eq, eq_iff, All, is_none,
  Object, get, put, get-put, get-put_other, Bool-cases, Option-cases, inl, inr, if◌then◌else◌, ◌≡◌,
  refl, sym, ap, ◌∙◌, arith,
}
use mathlib.Core.Path.{subst}
use text.Mathlib.TextPositions.{eq_refl}
use django_qraft.Usage.{
  Value, Decimals, is_money, or_zero, recorded_value, merge_fields, sum_fields,
}
use django_qraft.Usage.Values.{
  fits, worth, worth_in, worth_of, fits_in, recorded-worth, recorded-fits, sum_value-Sums,
}

module _ (D : Decimals) (numeric : String → Bool) (k : String) where
  -- A field fits its key, and under the key in question it has a worth.
  abbrev pub IsFine : String × Value → Type 0
  IsFine f = (fits numeric f.0 f.1 ≡ true) × (str_eq f.0 k ≡ true → is_none (worth D k f.1) ≡ false)

  abbrev pub Fine : Object Value → Type 0
  Fine o = All IsFine o

  -- What the fields under the key count for.
  abbrev pub total : Object Value → ℕ
  total [] = 0
  total (f ∷ fs) = (if str_eq f.0 k then or_zero (worth D k f.1) else 0) + total fs

  abbrev pub worth_at : Object Value → ℕ
  worth_at o = worth_of D (is_money k) (get k o)

  put-Fine :
      (key : String) (v : Value) (o : Object Value) → IsFine (key, v) → Fine o → Fine (put key v o)
  unfolding put
  put-Fine key v [] h fine = (h, tt)
  put-Fine key v (f ∷ fs) h fine = elim (Bool-cases (str_eq f.0 key)) [
    | inl e ↦ rw (put, e) (rw ((eq_iff f.0 key).0 e) h, fine.1)
    | inr e ↦ rw (put, e) (fine.0, put-Fine key v fs h fine.1)
  ]

  get-fits :
      (key : String) (o : Object Value)
      → Fine o
      → fits_in D (is_money key) (numeric key) (get key o) ≡ true
  unfolding get
  get-fits key [] fine = refl
  get-fits key (f ∷ fs) fine = elim (Bool-cases (str_eq f.0 key)) [
    | inl e ↦
        rw (get, e)
          (ap (λ (x : String). fits numeric x f.1) (sym ((eq_iff f.0 key).0 e)) ∙ fine.0.0)
    | inr e ↦ rw (get, e) (get-fits key fs fine.1)
  ]

  total-put :
      (v : Value) (o : Object Value)
      → total (put k v o) + worth_at o ≡ total o + or_zero (worth D k v)
  unfolding get put
  total-put v [] = rw (eq_refl k) (omega arith)
  total-put v (f ∷ fs) = elim (Bool-cases (str_eq f.0 k)) [
    | inl e ↦ rw (put, get, e) (rw e (omega arith))
    | inr e ↦ rw (put, get, e) (rw e (omega (arith, total-put v fs)))
  ]

  total-put_other :
      (key : String) (v : Value) (o : Object Value)
      → str_eq key k ≡ false
      → total (put key v o) ≡ total o
  unfolding put
  total-put_other key v [] h = rw h refl
  total-put_other key v (f ∷ fs) h = elim (Bool-cases (str_eq f.0 key)) [
    | inl e ↦
        let q : str_eq f.0 k ≡ false = ap (λ (x : String). str_eq x k) ((eq_iff f.0 key).0 e) ∙ h in
        rw (put, e, q) refl
    | inr e ↦
        rw (put, e)
          (ap (λ (t : ℕ). (if str_eq f.0 k then or_zero (worth D k f.1) else 0) + t)
            (total-put_other key v fs h))
  ]

  -- The worth of a field under the key.
  worth-some : (v : Value) → is_none (worth D k v) ≡ false → (w : ℕ) × (worth D k v ≡ some w)
  worth-some v h = elim (Option-cases (worth D k v)) [
    | inl e ↦ let no : true ≡ false = rw e at h in absurd (cc)
    | inr x ↦ x
  ]

  -- A field is recorded.
  record-total_here :
      (v : Value) (o : Object Value)
      → is_none (worth D k v) ≡ false
      → total (put k (recorded_value D (is_money k) (get k o) v) o)
        ≡ or_zero (worth D k v) + total o
  record-total_here v o h =
      let (w, e) = worth-some v h in
      let after = recorded-worth D (is_money k) (get k o) v w e in
      let counts = total-put (recorded_value D (is_money k) (get k o) v) o in
      omega (arith, counts, ap or_zero after, ap or_zero e)

  record-total :
      (key : String) (v : Value) (o : Object Value)
      → IsFine (key, v)
      → total (put key (recorded_value D (is_money key) (get key o) v) o)
        ≡ (if str_eq key k then or_zero (worth D k v) else 0) + total o
  record-total key v o h = elim (Bool-cases (str_eq key k)) [
    | inr e ↦ rw e (total-put_other key _ o e ∙ omega arith)
    | inl e ↦ rw e (
        ap (λ (x : String). total (put x (recorded_value D (is_money x) (get x o) v) o))
          ((eq_iff key k).0 e)
        ∙ record-total_here v o (h.1 e))
  ]

  record-IsFine :
      (key : String) (v : Value) (o : Object Value)
      → IsFine (key, v)
      → IsFine (key, recorded_value D (is_money key) (get key o) v)
  record-IsFine key v o h = (
    recorded-fits D (is_money key) (numeric key) (get key o) v h.0,
    λ e.
        let (w, x) = worth-some v (h.1 e) in
        let same : key ≡ k = (eq_iff key k).0 e in
        let after = recorded-worth D (is_money k) (get k o) v w x in rw same (rw after refl),
  )

  pub merge-Fine :
      (fs o : Object Value)
      → Fine fs
      → Fine o
      → Fine (merge_fields D o fs) × (total (merge_fields D o fs) ≡ total fs + total o)
  unfolding merge_fields
  merge-Fine [] o h fine = (fine, omega arith)
  merge-Fine (f ∷ fs) o h fine =
      let v' : Value = recorded_value D (is_money f.0) (get f.0 o) f.1 in
      let (a, b) =
        merge-Fine fs (put f.0 v' o) h.1 (put-Fine f.0 v' o (record-IsFine f.0 f.1 o h.0) fine) in
      (a, omega (arith, b, record-total f.0 f.1 o h.0))

  -- A field is added to a sum.
  sum-worth :
      (key : String) (v v' : Value) (o : Object Value)
      → IsFine (key, v)
      → ((w : ℕ)
          → worth_in D (is_money key) v ≡ some w
          → worth_in D (is_money key) v' ≡ some (worth_of D (is_money key) (get key o) + w))
      → (str_eq key k ≡ true → is_none (worth D k v') ≡ false)
        × (worth_at (put key v' o)
            ≡ (if str_eq key k then or_zero (worth D k v) else 0) + worth_at o)
  sum-worth key v v' o h adds = elim (Bool-cases (str_eq key k)) [
    | inr e ↦ (
      λ x. let no : true ≡ false = sym x ∙ e in absurd (cc),
      rw e (rw (get-put_other k key v' o e) (omega arith)),
    )
    | inl e ↦
        let same : key ≡ k = (eq_iff key k).0 e in
        let (w, x) = worth-some v (h.1 e) in
        let y : worth D k v' ≡ some (worth_at o + w) =
          rw same at (adds w (ap (λ (q : String). worth D q v) same ∙ x)) in
        (
          λ _. rw y refl,
          rw e (rw same (rw (get-put k v' o) (omega (arith, ap or_zero y, ap or_zero x)))),
        )
  ]

  abbrev pub SumsTo : ℕ → Option (Object Value) → Type 0
  SumsTo n none = ⊥
  SumsTo n (some o) = Fine o × (worth_at o ≡ n)

  pub sum_fields-SumsTo :
      (fs o : Object Value) → Fine fs → Fine o → SumsTo (total fs + worth_at o) (sum_fields D o fs)
  unfolding sum_fields
  sum_fields-SumsTo [] o h fine = (fine, omega arith)
  sum_fields-SumsTo (f ∷ fs) o h fine =
      let (v', e, fit, adds) =
        sum_value-Sums D (is_money f.0) (numeric f.0) (get f.0 o) f.1 (get-fits f.0 o fine) h.0.0 in
      let (some_worth, counts) = sum-worth f.0 f.1 v' o h.0 adds in
      let rest =
        sum_fields-SumsTo fs (put f.0 v' o) h.1 (put-Fine f.0 v' o (fit, some_worth) fine) in
      rw (sum_fields, e)
        (subst (λ (n : ℕ). SumsTo n (sum_fields D (put f.0 v' o) fs)) (omega (arith, counts)) rest)
