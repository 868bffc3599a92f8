-- ===== src/Resilience/Calls.antt =====
-- How a call with the retries of resilience.py ends.
use fleet_management.Prelude.{ℕ, zero, suc, ◌+◌, ◌-◌, ◌≤◌, ◌≡◌, refl, sym, ◌∙◌, arith}
use mathlib.Core.Path.{subst}
use fleet_management.Resilience.{
  RetryPolicy, Attempt, success, transient, permanent, Retried, returned, exhausted, propagated,
  after_attempt, attempt_outcome, retry_loop, call_with_retry,
}

module _ {A E : Type 0} (timeout_error : E) (p : RetryPolicy) (scale : ℕ) (rand overrun : ℕ → ℕ)
    (operation : ℕ → ℕ × Attempt A E) where
  abbrev outcome : ℕ → Attempt A E
  outcome = attempt_outcome timeout_error p scale rand overrun operation

  -- The `count` runs from `first` on all fail with exceptions that are retried.
  abbrev pub FailsTransiently : ℕ → ℕ → Type 0
  FailsTransiently first zero = Unit
  FailsTransiently first (suc count) =
      ((e : E) × (outcome first ≡ transient e)) × FailsTransiently (suc first) count

  abbrev shift : ℕ → ℕ → ℕ
  shift zero n = n
  shift (suc k) n = shift k (suc n)

  abbrev extend : ℕ → ℕ → ℕ
  extend zero n = n
  extend (suc k) n = suc (extend k n)

  shift_eq : (k n : ℕ) → shift k n ≡ n + k
  shift_eq zero n = omega arith
  shift_eq (suc k) n = omega (arith, shift_eq k (suc n))

  extend_eq : (k n : ℕ) → extend k n ≡ k + n
  extend_eq zero n = omega arith
  extend_eq (suc k) n = omega (arith, extend_eq k n)

  skip_failures :
      (k left attempt : ℕ)
      → attempt + k ≤ p.max_attempts
      → FailsTransiently attempt k
      → (retry_loop timeout_error p scale rand overrun operation (extend k left) attempt).0
        ≡ (retry_loop timeout_error p scale rand overrun operation left (shift k attempt)).0
  unfolding retry_loop
  skip_failures zero left attempt rounds fails = refl
  skip_failures (suc k) left attempt rounds fails =
      let (e, failed) = fails.0 in
      rw failed (ground (arith, skip_failures k left (suc attempt) (omega arith) fails.1))

  -- What a run that is not retried makes of the call.
  abbrev pub decision : ℕ → Attempt A E → Retried A E
  decision n (success a) = returned a
  decision n (permanent e) = propagated e
  decision n (transient e) = exhausted n e

  abbrev pub IsFinal : ℕ → Attempt A E → Type 0
  IsFinal n (success a) = Unit
  IsFinal n (permanent e) = Unit
  IsFinal n (transient e) = n ≡ p.max_attempts

  final_round :
      (o : Attempt A E) (attempt spent : ℕ) (rest : Retried A E × ℕ)
      → IsFinal attempt o
      → (after_attempt timeout_error p scale rand overrun operation o attempt spent rest).0
        ≡ decision attempt o
  final_round (success a) attempt spent rest h = refl
  final_round (permanent e) attempt spent rest h = refl
  final_round (transient e) attempt spent rest h = ground arith

  one_round :
      (left n : ℕ)
      → IsFinal n (outcome n)
      → (retry_loop timeout_error p scale rand overrun operation (suc left) n).0
        ≡ decision n (outcome n)
  unfolding retry_loop
  one_round left n = final_round (outcome n) n _ _

  -- When the first `k` runs fail transiently, and run `k + 1` is one of the allowed attempts and
  -- either succeeds, fails permanently or is the last allowed one, the call ends as that run: with
  -- its value, its exception at once, or `RetryExhaustedError` with the number of attempts.
  pub call_with_retry_decided :
      (k : ℕ)
      → k + 1 ≤ p.max_attempts
      → FailsTransiently 1 k
      → IsFinal (k + 1) (outcome (k + 1))
      → (call_with_retry timeout_error p scale rand overrun operation).0
        ≡ decision (k + 1) (outcome (k + 1))
  unfolding call_with_retry
  call_with_retry_decided k room fails final =
      let left = p.max_attempts - k - 1 in
      let rounds : p.max_attempts ≡ extend k (suc left) = omega (arith, extend_eq k (suc left)) in
      subst
        (λ n.
          (retry_loop timeout_error p scale rand overrun operation n 1).0
          ≡ decision (k + 1) (outcome (k + 1)))
        (sym rounds)
        (skip_failures k (suc left) 1 (omega arith) fails
          ∙ subst
              (λ n.
                (retry_loop timeout_error p scale rand overrun operation (suc left) n).0
                ≡ decision (k + 1) (outcome (k + 1)))
              (omega (arith, shift_eq k 1)) (one_round left (k + 1) final))
