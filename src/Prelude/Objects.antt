-- ===== src/Prelude/Objects.antt =====
-- The object of a JSON column: an association list of texts.
use Prim.Native.String.{String}
use mathlib.Core.Path.{◌≡◌, refl, ap, ◌∙◌}
use mathlib.Core.Logic.{inl, inr}
use mathlib.Core.Bool.{false}
use mathlib.Core.List.{List, [], ◌∷◌}
use mathlib.Core.Option.{Option, none, some}
use text.Mathlib.Text.{◌==◌ as str_eq}
use text.Mathlib.TextEquality.{eq_iff}
use text.Mathlib.TextPositions.{eq_refl}
use django_qraft.Prelude.Tests.{if◌then◌else◌, Bool-cases}

abbrev pub Object : Type 0 → Type 0
Object V = List (String × V)

module _ {V : Type 0} where
  unfoldable pub get : String → Object V → Option V
  get key [] = none
  get key (f ∷ fs) = let rest = get key fs in if str_eq f.0 key then some f.1 else rest

  -- `object[key] = value`
  unfoldable pub put : String → V → Object V → Object V
  put key value [] = (key, value) ∷ []
  put key value (f ∷ fs) =
      let rest = put key value fs in if str_eq f.0 key then (f.0, value) ∷ fs else f ∷ rest

  pub get-put : (key : String) (value : V) (o : Object V) → get key (put key value o) ≡ some value
  unfolding get put
  get-put key value [] = rw (eq_refl key) refl
  get-put key value (f ∷ fs) = elim (Bool-cases (str_eq f.0 key)) [
    | inl e ↦ rw (put, e) (rw (get, e) refl)
    | inr e ↦ rw (put, e) (rw (get, e) (get-put key value fs))
  ]

  pub get-put_other :
      (key other : String) (value : V) (o : Object V)
      → str_eq other key ≡ false
      → get key (put other value o) ≡ get key o
  unfolding get put
  get-put_other key other value [] h = rw (put, get, h) refl
  get-put_other key other value (f ∷ fs) h = elim (Bool-cases (str_eq f.0 other)) [
    | inl e ↦
        let q : str_eq f.0 key ≡ false =
          ap (λ (k : String). str_eq k key) ((eq_iff f.0 other).0 e) ∙ h in
        rw (put, get, e, q) refl
    | inr e ↦ elim (Bool-cases (str_eq f.0 key)) [
      | inl k ↦ rw (put, get, e, k) refl
      | inr k ↦ rw (put, get, e, k) (get-put_other key other value fs h)
    ]
  ]
