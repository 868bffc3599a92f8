-- ===== src/Resilience.antt =====
-- Retries with backoff: src/fleet_management/resilience.py. Times are whole microseconds. A value
-- `rand()` of the unit interval is `r` parts of `scale`, and a time that depends on one is counted
-- in parts of `2 * scale`, so that the jitter stays a whole number.
pub mod Backoff
pub mod Calls
mod Tests
use fleet_management.Prelude.{
  ℕ, zero, suc, ◌+◌, ◌-◌, ◌*◌, ◌^◌, min, Bool, true, false, Option, none, some, ◌==◌, ltb, leb,
  if◌then◌else◌,
}

pub record RetryPolicy : Type 0 where
  pub max_attempts : ℕ
  pub attempt_timeout : ℕ
  pub base_delay : ℕ
  pub max_delay : ℕ

-- The constructor with `__post_init__`: `none` is its `ValueError`.
unfoldable pub make_policy : ℕ → ℕ → ℕ → ℕ → Option RetryPolicy
make_policy max_attempts attempt_timeout base_delay max_delay =
    if ltb max_attempts 1
    then none
    else if leb attempt_timeout 0
    then none
    else some (record {
      max_attempts = max_attempts;
      attempt_timeout = attempt_timeout;
      base_delay = base_delay;
      max_delay = max_delay;
    })

unfoldable pub exponential : RetryPolicy → ℕ → ℕ
exponential p attempt = min p.max_delay (p.base_delay * 2 ^ (attempt - 1))

-- `exponential / 2 + rand() * exponential / 2`, in parts of `2 * scale`
unfoldable pub backoff_delay : RetryPolicy → (scale : ℕ) → (attempt : ℕ) → (r : ℕ) → ℕ
unfolding exponential
backoff_delay p scale attempt r = exponential p attempt * scale + r * exponential p attempt

-- the sum over `range(first, first + count)`
unfoldable pub sum_pauses : RetryPolicy → ℕ → ℕ → ℕ
sum_pauses p first zero = 0
sum_pauses p first (suc count) = exponential p first + sum_pauses p (suc first) count

unfoldable pub worst_case_seconds : RetryPolicy → ℕ
unfolding sum_pauses
worst_case_seconds p = p.max_attempts * p.attempt_timeout + sum_pauses p 1 (p.max_attempts - 1)

-- How one run of the operation ends: with a value, with an exception of `retry_on`, or with
-- another exception.
pub data Attempt (A E : Type 0) : Type 0 where
  success : A → Attempt A E
  transient : E → Attempt A E
  permanent : E → Attempt A E

-- How the call ends. `unreachable` is the `AssertionError` behind the loop.
pub data Retried (A E : Type 0) : Type 0 where
  returned : A → Retried A E
  exhausted : ℕ → E → Retried A E
  propagated : E → Retried A E
  unreachable : Retried A E

module _ {A E : Type 0} (timeout_error : E) (p : RetryPolicy) (scale : ℕ) (rand overrun : ℕ → ℕ)
    (operation : ℕ → ℕ × Attempt A E) where
  -- `asyncio.wait_for(operation(), timeout)`: how long the n-th run takes, and how it ends. A run
  -- that is cut off at the timeout is cancelled, and waited for until it has ended, `overrun n` later.
  abbrev pub attempt_time : ℕ → ℕ
  attempt_time n =
      if ltb p.attempt_timeout (operation n).0
      then p.attempt_timeout + overrun n
      else (operation n).0

  abbrev pub attempt_outcome : ℕ → Attempt A E
  attempt_outcome n =
      if ltb p.attempt_timeout (operation n).0 then transient timeout_error else (operation n).1

  -- the end of one round, given the rounds that follow
  abbrev pub after_attempt : Attempt A E → ℕ → ℕ → Retried A E × ℕ → Retried A E × ℕ
  after_attempt (success a) attempt spent rest = (returned a, spent)
  after_attempt (permanent e) attempt spent rest = (propagated e, spent)
  after_attempt (transient e) attempt spent rest =
      if attempt == p.max_attempts
      then (exhausted attempt e, spent)
      else (rest.0, spent + backoff_delay p scale attempt (rand attempt) + rest.1)

  -- `for attempt in range(...)`, with the rounds that are left; the second part of the result is
  -- the time spent.
  unfoldable pub retry_loop : ℕ → ℕ → Retried A E × ℕ
  retry_loop zero attempt = (unreachable, 0)
  retry_loop (suc left) attempt =
      after_attempt (attempt_outcome attempt) attempt (2 * scale * attempt_time attempt)
        (retry_loop left (suc attempt))

  unfoldable pub call_with_retry : Retried A E × ℕ
  unfolding retry_loop
  call_with_retry = retry_loop p.max_attempts 1
