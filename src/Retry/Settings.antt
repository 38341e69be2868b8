-- ===== src/Retry/Settings.antt =====
-- qraft/retry.py: how a policy is made, checked, stored and read again.
use django_qraft.Prelude.{
  ℕ, String, Bool, true, false, not, ◌&&◌, Option, none, some, List, [], ◌∷◌, leb, str_eq, is_none,
  Result, ok, err, ◌>>=◌, if◌then◌else◌,
}
use django_qraft.Retry.{RetryBackoff, fixed, linear, exponential, RetryPolicy}

-- Tests of floating-point numbers, and the default cap of 300 seconds.
pub record Checks (F : Type 0) : Type 0 where
  pub is_negative : F → Bool
  pub is_fraction : F → Bool
  pub is_positive : F → Bool
  pub default_cap : F

-- `RetryDefaultsSettings`
pub record Defaults (F : Type 0) : Type 0 where
  pub max_attempts : ℕ
  pub delay : F
  pub backoff : RetryBackoff
  pub jitter : Bool
  pub jitter_max : F

-- The keyword arguments of `RetryPolicy`, as in the JSON of the task's column; a number for the cap,
-- where it is given.
pub record Arguments (F : Type 0) : Type 0 where
  pub max_attempts : Option ℕ
  pub base_delay : Option F
  pub backoff_strategy : Option String
  pub jitter : Option Bool
  pub jitter_max : Option F
  pub retry_exceptions : Option (List String)
  pub skip_exceptions : Option (List String)
  pub rate_limit_exceptions : Option (List String)
  pub rate_limit_max_delay : Option F

-- `ValueError`, by its causes in the order of the checks.
pub data PolicyError : Type 0 where
  attempts_out_of_range : PolicyError
  jitter_out_of_range : PolicyError
  invalid_strategy : String → PolicyError
  negative_delay : PolicyError
  cap_not_positive : PolicyError

abbrev pub rate_limit_names : List String
rate_limit_names =
    "RateLimited" ∷ "RateLimitError" ∷ "TooManyRequests" ∷ "TooManyRequestsError"
    ∷ "ThrottlingException" ∷ "ResourceExhausted" ∷ "ServiceUnavailableError" ∷ "OverloadedError"
    ∷ "APIStatusError429" ∷ []

abbrev pub backoff_value : RetryBackoff → String
backoff_value exponential = "exponential"
backoff_value linear = "linear"
backoff_value fixed = "fixed"

-- The strategy of a value.
unfoldable pub parse_backoff : String → Option RetryBackoff
parse_backoff s =
    if str_eq s "exponential"
    then some exponential
    else if str_eq s "linear"
    then some linear
    else if str_eq s "fixed"
    then some fixed
    else none

abbrev pub or_else : {A : Type 0} → Option A → A → A
or_else none a = a
or_else (some b) a = b

abbrev pub require : Bool → PolicyError → Result PolicyError (Unit {0})
require true e = ok tt
require false e = err e

abbrev pub parsed : String → Result PolicyError RetryBackoff
parsed s = elim (parse_backoff s) [ none ↦ err (invalid_strategy s) | some b ↦ ok b ]

module _ {F : Type 0} where
  -- `RetryPolicy.to_dict`
  unfoldable pub to_dict : RetryPolicy F → Arguments F
  to_dict p = record {
    max_attempts = some p.max_attempts;
    base_delay = some p.base_delay;
    backoff_strategy = some (backoff_value p.backoff_strategy);
    jitter = some p.jitter;
    jitter_max = some p.jitter_max;
    retry_exceptions = some p.retry_exceptions;
    skip_exceptions = some p.skip_exceptions;
    rate_limit_exceptions = some p.rate_limit_exceptions;
    rate_limit_max_delay = some p.rate_limit_max_delay;
  }

  module _ (C : Checks F) where
    -- The attributes that `__init__` sets, with a strategy that is known.
    abbrev pub with_defaults : Defaults F → Arguments F → RetryBackoff → RetryPolicy F
    with_defaults d a strategy = record {
      max_attempts = or_else a.max_attempts d.max_attempts;
      base_delay = or_else a.base_delay d.delay;
      backoff_strategy = strategy;
      jitter = or_else a.jitter d.jitter;
      jitter_max = or_else a.jitter_max d.jitter_max;
      retry_exceptions = or_else a.retry_exceptions [];
      skip_exceptions = or_else a.skip_exceptions [];
      rate_limit_exceptions = or_else a.rate_limit_exceptions rate_limit_names;
      rate_limit_max_delay = or_else a.rate_limit_max_delay C.default_cap;
    }

    -- `RetryPolicy.__init__` and `from_dict`
    unfoldable pub from_dict : Defaults F → Arguments F → Result PolicyError (RetryPolicy F)
    unfolding parse_backoff
    from_dict d a = do
      _ ←
          require
            (leb 1 (or_else a.max_attempts d.max_attempts)
              && leb (or_else a.max_attempts d.max_attempts) 10)
            attempts_out_of_range
      _ ← require (C.is_fraction (or_else a.jitter_max d.jitter_max)) jitter_out_of_range
      strategy ← parsed (or_else a.backoff_strategy (backoff_value d.backoff))
      _ ← require (not (C.is_negative (or_else a.base_delay d.delay))) negative_delay
      _ ← require (C.is_positive (or_else a.rate_limit_max_delay C.default_cap)) cap_not_positive
      ok (with_defaults d a strategy)

    abbrev pub some_policy :
        Result PolicyError (RetryPolicy F) → Result PolicyError (Option (RetryPolicy F))
    some_policy (ok p) = ok (some p)
    some_policy (err e) = err e

    -- `RetryPolicy.from_options`: a policy if any of its keys is among the options.
    unfoldable pub from_options :
        Defaults F → Arguments F → Result PolicyError (Option (RetryPolicy F))
    unfolding from_dict
    from_options d a =
        if is_none a.max_attempts
          && is_none a.base_delay
          && is_none a.backoff_strategy
          && is_none a.jitter
          && is_none a.jitter_max
          && is_none a.retry_exceptions
          && is_none a.skip_exceptions
          && is_none a.rate_limit_exceptions
          && is_none a.rate_limit_max_delay
        then ok none
        else some_policy (from_dict d a)
