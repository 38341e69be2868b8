-- ===== src/Retry/Delay.antt =====
-- qraft/retry.py: the bounds on the delays after a rate limit.
use django_qraft.Prelude.{ℕ, ◌≤◌, Bool, true, Option, none, some}
use django_qraft.Retry.{Arithmetic, RetryPolicy, calculate_delay}

-- A delay after a rate limit, or by a provider's hint, is at most the cap of the policy, whatever
-- is drawn.
pub calculate_delay-capped :
    {F : Type 0} (A : Arithmetic F) (draw : F → F → F) (p : RetryPolicy F) (attempt_number : ℕ)
    (retry_after : Option F)
    → calculate_delay A draw p attempt_number retry_after true ≤ A.truncate p.rate_limit_max_delay
unfolding calculate_delay
calculate_delay-capped A draw p attempt_number (some hint) =
    A.truncate-mono _ _ (A.smaller-right _ _)
calculate_delay-capped A draw p attempt_number none = A.truncate-mono _ _ (A.smaller-right _ _)

-- A provider's hint is a floor up to the cap: where the draw is not negative, the delay is between
-- the hint, cut at the cap, and the cap, both in whole seconds.
pub calculate_delay-hint :
    {F : Type 0} (A : Arithmetic F) (draw : F → F → F) (p : RetryPolicy F) (attempt_number : ℕ)
    (hint : F) (rate_limited : Bool)
    → A.AtMost (A.from_int 0) (draw (A.from_int 0) (A.times hint A.tenth))
    → (A.truncate (A.smaller hint p.rate_limit_max_delay)
        ≤ calculate_delay A draw p attempt_number (some hint) rate_limited)
      × (calculate_delay A draw p attempt_number (some hint) rate_limited
          ≤ A.truncate p.rate_limit_max_delay)
unfolding calculate_delay
calculate_delay-hint A draw p attempt_number hint rate_limited drawn = (
  A.truncate-mono _ _ (A.smaller-mono _ _ _ (A.plus-grows hint _ drawn)),
  A.truncate-mono _ _ (A.smaller-right _ _),
)
