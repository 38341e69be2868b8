-- ===== src/Retry/RoundTrip.antt =====
-- A policy that was made is read back as it was stored, and has its bounds.
use mathlib.Core.Path.{subst}
use django_qraft.Prelude.{
  ◌≤◌, Bool, true, false, not, ◌&&◌, some, leb, Result, ok, >>=-ok, ◌≡◌, refl, arith,
}
use django_qraft.Retry.{RetryBackoff, fixed, linear, exponential, RetryPolicy}
use django_qraft.Retry.Settings.{
  Checks, Defaults, Arguments, PolicyError, attempts_out_of_range, jitter_out_of_range,
  negative_delay, cap_not_positive, backoff_value, parse_backoff, or_else, require, parsed, to_dict,
  from_dict,
}

parse_backoff-value : (b : RetryBackoff) → parse_backoff (backoff_value b) ≡ some b
unfolding parse_backoff
parse_backoff-value exponential = refl
parse_backoff-value linear = refl
parse_backoff-value fixed = refl

require-ok : (b : Bool) (x : PolicyError) (u : Unit {0}) → require b x ≡ ok u → b ≡ true
require-ok true x u h = refl
require-ok false x u h = cc

module _ {F : Type 0} (C : Checks F) where
  -- What the constructor checks of the attributes.
  pub record IsValid (p : RetryPolicy F) : Type 0 where
    pub at_least_once : 1 ≤ p.max_attempts
    pub at_most_ten : p.max_attempts ≤ 10
    pub fraction : C.is_fraction p.jitter_max ≡ true
    pub delay : C.is_negative p.base_delay ≡ false
    pub cap : C.is_positive p.rate_limit_max_delay ≡ true

  same_policy :
      {p q : RetryPolicy F} → ◌≡◌ {A = Result PolicyError (RetryPolicy F)} (ok p) (ok q) → p ≡ q
  same_policy h = cc

  pub from_dict-IsValid :
      (d : Defaults F) (a : Arguments F) (p : RetryPolicy F) → from_dict C d a ≡ ok p → IsValid p
  unfolding from_dict
  from_dict-IsValid d a p e =
      let (u1, c1, e1) =
        >>=-ok
          (require
            (leb 1 (or_else a.max_attempts d.max_attempts)
              && leb (or_else a.max_attempts d.max_attempts) 10)
            attempts_out_of_range)
          _ e in
      let (u2, c2, e2) =
        >>=-ok (require (C.is_fraction (or_else a.jitter_max d.jitter_max)) jitter_out_of_range) _
          e1 in
      let (s, c3, e3) =
        >>=-ok (parsed (or_else a.backoff_strategy (backoff_value d.backoff))) _ e2 in
      let (u4, c4, e4) =
        >>=-ok (require (not (C.is_negative (or_else a.base_delay d.delay))) negative_delay) _ e3 in
      let (u5, c5, e5) =
        >>=-ok
          (require (C.is_positive (or_else a.rate_limit_max_delay C.default_cap)) cap_not_positive)
          _ e4 in
      let range =
        require-ok
          (leb 1 (or_else a.max_attempts d.max_attempts)
            && leb (or_else a.max_attempts d.max_attempts) 10)
          attempts_out_of_range u1 c1 in
      subst IsValid (same_policy e5) (record {
        at_least_once = ground (arith, range);
        at_most_ten = ground (arith, range);
        fraction =
            require-ok (C.is_fraction (or_else a.jitter_max d.jitter_max)) jitter_out_of_range u2
              c2;
        delay = ground (
          arith,
          require-ok (not (C.is_negative (or_else a.base_delay d.delay))) negative_delay u4 c4,
        );
        cap =
            require-ok (C.is_positive (or_else a.rate_limit_max_delay C.default_cap))
              cap_not_positive u5 c5;
      })

  stored-valid : (d : Defaults F) (p : RetryPolicy F) → IsValid p → from_dict C d (to_dict p) ≡ ok p
  unfolding from_dict to_dict
  stored-valid d p h =
      let low : leb 1 p.max_attempts ≡ true = ground (arith, h.at_least_once) in
      let high : leb p.max_attempts 10 ≡ true = ground (arith, h.at_most_ten) in
      rw
        (
          from_dict,
          to_dict,
          parsed,
          low,
          high,
          h.fraction,
          parse_backoff-value p.backoff_strategy,
          h.delay,
          h.cap,
        )
        refl

  -- A policy that the constructor made is stored and read back unchanged, even where the default
  -- settings have changed in between.
  pub from_dict-to_dict :
      (d d' : Defaults F) (a : Arguments F) (p : RetryPolicy F)
      → from_dict C d a ≡ ok p
      → from_dict C d' (to_dict p) ≡ ok p
  from_dict-to_dict d d' a p e = stored-valid d' p (from_dict-IsValid d a p e)
