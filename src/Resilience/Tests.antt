-- ===== src/Resilience/Tests.antt =====
-- The theorems on retries at a call that times out once and then succeeds.
use fleet_management.Prelude.{ℕ, ◌+◌, ◌*◌, ◌≤◌, ◌≡◌, refl, String, arith, ◌==◌, if◌then◌else◌}
use fleet_management.Resilience.{
  RetryPolicy, worst_case_seconds, Attempt, success, attempt_outcome, call_with_retry,
}
use fleet_management.Resilience.Backoff.{call_with_retry_time}
use fleet_management.Resilience.Calls.{decision, call_with_retry_decided}

abbrev policy : RetryPolicy
policy = record { max_attempts = 3; attempt_timeout = 500; base_delay = 50; max_delay = 150 }

-- The first run takes too long.
abbrev slow_once : ℕ → ℕ × Attempt ℕ String
slow_once n = if n == 1 then (900, success 7) else (20, success 8)

abbrev no_jitter : ℕ → ℕ
no_jitter _ = 0

-- a run that is cut off needs some time to end
abbrev late_end : ℕ → ℕ
late_end _ = 15

call_with_retry_time_example :
    (call_with_retry "timeout" policy 10 no_jitter late_end slow_once).1
    ≤ 2 * 10 * (worst_case_seconds policy + 3 * 15)
call_with_retry_time_example =
    call_with_retry_time "timeout" policy 10 no_jitter late_end slow_once 15 (λ n. omega arith)
      (λ n. omega arith)

call_with_retry_decided_example :
    (call_with_retry "timeout" policy 10 no_jitter late_end slow_once).0
    ≡ decision "timeout" policy 10 no_jitter late_end slow_once 2
        (attempt_outcome "timeout" policy 10 no_jitter late_end slow_once 2)
call_with_retry_decided_example =
    call_with_retry_decided "timeout" policy 10 no_jitter late_end slow_once 1 (omega arith)
      (("timeout", refl), tt) tt
