-- ===== src/Resilience/Backoff.antt =====
-- The pauses between the attempts of resilience.py, and how long a call can take.
use fleet_management.Prelude.{ℕ, zero, suc, ◌+◌, ◌-◌, ◌*◌, ◌≤◌, ◌≡◌, refl, arith}
use fleet_management.Resilience.{
  RetryPolicy, exponential, backoff_delay, sum_pauses, worst_case_seconds, Attempt, success,
  transient, permanent, Retried, unreachable, after_attempt, attempt_time, attempt_outcome,
  retry_loop, call_with_retry,
}

-- A pause keeps at least half of the exponential delay and never exceeds it nor `max_delay`.
pub backoff_delay_bounds :
    (p : RetryPolicy) (scale attempt r : ℕ)
    → r ≤ scale
    → (exponential p attempt * scale ≤ backoff_delay p scale attempt r)
      × (backoff_delay p scale attempt r ≤ 2 * scale * exponential p attempt)
      × (backoff_delay p scale attempt r ≤ 2 * scale * p.max_delay)
unfolding backoff_delay
backoff_delay_bounds p scale attempt r h = grind arith

scaled : (k m n : ℕ) → m ≤ n → 2 * k * m ≤ 2 * k * n
scaled k m n h = grind arith

pred_suc : (n : ℕ) → suc n - 1 ≡ n
pred_suc n = omega arith

module _ {A E : Type 0} (timeout_error : E) (p : RetryPolicy) (scale : ℕ) (rand overrun : ℕ → ℕ)
    (operation : ℕ → ℕ × Attempt A E) where
  attempt_time_le :
      (n extra : ℕ)
      → overrun n ≤ extra
      → attempt_time timeout_error p scale rand overrun operation n ≤ p.attempt_timeout + extra
  attempt_time_le n extra prompt = ground (arith, prompt)

  spent_le :
      (n extra : ℕ)
      → overrun n ≤ extra
      → 2 * scale * attempt_time timeout_error p scale rand overrun operation n
        ≤ 2 * scale * (p.attempt_timeout + extra)
  spent_le n extra prompt =
      scaled scale (attempt_time timeout_error p scale rand overrun operation n)
        (p.attempt_timeout + extra) (attempt_time_le n extra prompt)

  after_time :
      (o : Attempt A E) (attempt spent pause more : ℕ) (rest : Retried A E × ℕ)
      → backoff_delay p scale attempt (rand attempt) ≤ pause
      → rest.1 ≤ more
      → (after_attempt timeout_error p scale rand overrun operation o attempt spent rest).1
        ≤ spent + pause + more
  after_time (success a) attempt spent pause more rest h k = omega arith
  after_time (permanent e) attempt spent pause more rest h k = omega arith
  after_time (transient e) attempt spent pause more rest h k = ground arith

  -- the last round makes no pause
  last_time :
      (o : Attempt A E) (attempt spent : ℕ) (rest : Retried A E × ℕ)
      → attempt ≡ p.max_attempts
      → (after_attempt timeout_error p scale rand overrun operation o attempt spent rest).1 ≡ spent
  last_time (success a) attempt spent rest e = refl
  last_time (permanent x) attempt spent rest e = refl
  last_time (transient x) attempt spent rest e = ground arith

  retry_loop_time :
      (left attempt extra : ℕ)
      → ((n : ℕ) → rand n ≤ scale)
      → ((n : ℕ) → overrun n ≤ extra)
      → attempt + left ≡ p.max_attempts
      → (retry_loop timeout_error p scale rand overrun operation (suc left) attempt).1
        ≤ 2 * scale * (suc left * (p.attempt_timeout + extra) + sum_pauses p attempt left)
  unfolding retry_loop sum_pauses
  retry_loop_time zero attempt extra small prompt rounds =
      rw
        (last_time (attempt_outcome timeout_error p scale rand overrun operation attempt) attempt
          (2 * scale * attempt_time timeout_error p scale rand overrun operation attempt)
          (unreachable, 0) (omega arith))
        (omega (arith, spent_le attempt extra (prompt attempt)))
  retry_loop_time (suc left) attempt extra small prompt rounds =
      let rest = retry_loop timeout_error p scale rand overrun operation (suc left) (suc attempt) in
      omega (
        arith,
        spent_le attempt extra (prompt attempt),
        after_time (attempt_outcome timeout_error p scale rand overrun operation attempt) attempt
            (2 * scale * attempt_time timeout_error p scale rand overrun operation attempt)
            (2 * scale * exponential p attempt)
            (2 * scale * (suc left * (p.attempt_timeout + extra) + sum_pauses p (suc attempt) left))
            rest (backoff_delay_bounds p scale attempt (rand attempt) (small attempt)).1
            (retry_loop_time left (suc attempt) extra small prompt (omega arith)),
      )

  loop_time :
      (rounds extra : ℕ)
      → ((n : ℕ) → rand n ≤ scale)
      → ((n : ℕ) → overrun n ≤ extra)
      → rounds ≡ p.max_attempts
      → (retry_loop timeout_error p scale rand overrun operation rounds 1).1
        ≤ 2 * scale * (rounds * (p.attempt_timeout + extra) + sum_pauses p 1 (rounds - 1))
  unfolding retry_loop
  loop_time zero extra small prompt all = omega arith
  loop_time (suc left) extra small prompt all =
      rw (pred_suc left) (retry_loop_time left 1 extra small prompt (omega arith))

  -- Where each run that is cut off ends at most `extra` after its timeout, a call never takes longer
  -- than the policy's `worst_case_seconds` and `extra` for each attempt, and so not longer than
  -- `worst_case_seconds` where such runs end at once, whatever the operation does and however the
  -- jitter falls.
  pub call_with_retry_time :
      (extra : ℕ)
      → ((n : ℕ) → rand n ≤ scale)
      → ((n : ℕ) → overrun n ≤ extra)
      → (call_with_retry timeout_error p scale rand overrun operation).1
        ≤ 2 * scale * (worst_case_seconds p + p.max_attempts * extra)
  unfolding call_with_retry worst_case_seconds
  call_with_retry_time extra small prompt =
      grind (arith, loop_time p.max_attempts extra small prompt refl)
