-- ===== src/Pricing/Recorded.antt =====
-- What the cost of recorded usage rests on.
use django_qraft.Prelude.{
  ◌+◌, String, Bool, true, false, not, ◌&&◌, Option, List, [], ◌∷◌, ltb, is_none, any, all,
  count_if, Bool-cases, Option-cases, inl, inr, if◌then◌else◌, ◌≡◌, ◌↔◌, refl, arith,
}
use django_qraft.Pricing.{
  Decimals, Price, Entry, Usage, complete, partial, nothing, Tally, has_tokens, price_now,
  add_entry, add_entries, no_tally, no_entries, cost,
}

module _ {D : Type 0} (M : Decimals D) where
  -- The table prices it, or it has its cost.
  abbrev pub is_costed : (String → Option String → Option (Price D)) → Entry D → Bool
  is_costed lookup e = not (is_none (price_now M lookup e))

  price_now-recorded :
      (lookup lookup' : String → Option String → Option (Price D)) (e : Entry D)
      → is_none e.estimated_cost ≡ false
      → price_now M lookup e ≡ price_now M lookup' e
  unfolding price_now
  price_now-recorded lookup lookup' e h = elim (Option-cases e.estimated_cost) [
    | inl n ↦ absurd (ground arith)
    | inr (c, q) ↦ rw (price_now, q) refl
  ]

  add_entry-recorded :
      (lookup lookup' : String → Option String → Option (Price D)) (t : Tally D) (e : Entry D)
      → is_none e.estimated_cost ≡ false
      → add_entry M lookup t e ≡ add_entry M lookup' t e
  unfolding add_entry
  add_entry-recorded lookup lookup' t e h =
      rw (add_entry, price_now-recorded lookup lookup' e h) refl

  add_entries-recorded :
      (lookup lookup' : String → Option String → Option (Price D)) (t : Tally D)
      (es : List (Entry D))
      → all (λ e. not (is_none e.estimated_cost)) es ≡ true
      → add_entries M lookup t es ≡ add_entries M lookup' t es
  unfolding add_entries
  add_entries-recorded lookup lookup' t [] h = refl
  add_entries-recorded lookup lookup' t (e ∷ es) h =
      rw (add_entry-recorded lookup lookup' t e (ground arith))
        (add_entries-recorded lookup lookup' (add_entry M lookup' t e) es (ground arith))

  -- A change of the price table does not change the cost of usage whose entries were all priced when
  -- they were recorded.
  pub recorded_cost_stands :
      (lookup lookup' : String → Option String → Option (Price D)) (u : Usage D)
      → all (λ e. not (is_none e.estimated_cost)) u.entries ≡ true
      → cost M lookup u ≡ cost M lookup' u
  unfolding cost
  recorded_cost_stands lookup lookup' u h =
      rw (cost, add_entries-recorded lookup lookup' (no_tally M) u.entries h) refl

  module _ (lookup : String → Option String → Option (Price D)) where
    -- An entry with tokens that has no cost.
    abbrev pub is_lacking : Entry D → Bool
    is_lacking e = not (is_costed lookup e) && has_tokens e

    add_entry-counts :
        (t : Tally D) (e : Entry D)
        → ((add_entry M lookup t e).priced ≡ t.priced + (if is_costed lookup e then 1 else 0))
          × ((add_entry M lookup t e).unpriced ≡ t.unpriced + (if is_lacking e then 1 else 0))
    unfolding add_entry
    add_entry-counts t e = elim (Option-cases (price_now M lookup e)) [
      | inr (c, q) ↦ rw (add_entry, q) (refl, omega arith)
      | inl q ↦ elim (Bool-cases (has_tokens e)) [
        | inl k ↦ rw (add_entry, q, k) (omega arith, refl)
        | inr k ↦ rw (add_entry, q, k) (omega arith, omega arith)
      ]
    ]

    count-cons :
        (p : Entry D → Bool) (e : Entry D) (es : List (Entry D))
        → count_if p (e ∷ es) ≡ (if p e then 1 else 0) + count_if p es
    count-cons p e es = elim (Bool-cases (p e)) [
      | inl h ↦ rw (count_if, h) (omega arith)
      | inr h ↦ rw (count_if, h) (omega arith)
    ]

    add_entries-counts :
        (t : Tally D) (es : List (Entry D))
        → ((add_entries M lookup t es).priced ≡ t.priced + count_if (is_costed lookup) es)
          × ((add_entries M lookup t es).unpriced ≡ t.unpriced + count_if is_lacking es)
    unfolding add_entries
    add_entries-counts t [] = (omega arith, omega arith)
    add_entries-counts t (e ∷ es) =
        let (p, u) = add_entry-counts t e in
        let (ps, us) = add_entries-counts (add_entry M lookup t e) es in
        (
          omega (arith, p, ps, count-cons (is_costed lookup) e es),
          omega (arith, u, us, count-cons is_lacking e es),
        )

    any-count : (p : Entry D → Bool) (es : List (Entry D)) → any p es ≡ ltb 0 (count_if p es)
    any-count p [] = refl
    any-count p (e ∷ es) = elim (Bool-cases (p e)) [
      | inl h ↦ rw (count_if, h) (ground arith)
      | inr h ↦ rw (count_if, h) (any-count p es)
    ]

    coverage-cases :
        (a b : Bool)
        → ((if a && not b then complete else if a then partial else nothing) ≡ complete)
          ↔ ((a ≡ true) × (b ≡ false))
    coverage-cases true true = ((λ h. cc), (λ h. cc))
    coverage-cases true false = ((λ h. (refl, refl)), (λ h. refl))
    coverage-cases false true = ((λ h. cc), (λ h. cc))
    coverage-cases false false = ((λ h. cc), (λ h. cc))

    -- The cost of usage with entries is complete exactly if some entry has a cost, recorded or by the
    -- table, and no entry with tokens lacks one.
    pub complete_iff :
        (u : Usage D)
        → no_entries u.entries ≡ false
        → ((cost M lookup u).coverage ≡ complete)
          ↔ ((any (is_costed lookup) u.entries ≡ true) × (any is_lacking u.entries ≡ false))
    unfolding cost
    complete_iff u h =
        let (p, q) = add_entries-counts (no_tally M) u.entries in
        let priced : (add_entries M lookup (no_tally M) u.entries).priced
            ≡ count_if (is_costed lookup) u.entries =
          omega (arith, p) in
        let lacking : (add_entries M lookup (no_tally M) u.entries).unpriced
            ≡ count_if is_lacking u.entries =
          omega (arith, q) in
        rw
          (
            cost,
            h,
            any-count (is_costed lookup) u.entries,
            any-count is_lacking u.entries,
            priced,
            lacking,
          )
          (coverage-cases (ltb 0 (count_if (is_costed lookup) u.entries))
            (ltb 0 (count_if is_lacking u.entries)))
