-- ===== src/Telemetry/Worker.antt =====
-- The connection of telemetry/worker.py, src/fleet_management: how long it waits for RabbitMQ.
use mathlib.Core.Path.{subst}
use fleet_management.Prelude.{ℕ, zero, suc, ◌+◌, ◌*◌, ◌<◌, ◌≡◌, refl, arith}
use fleet_management.Resilience.{Attempt, success, transient, permanent}

-- `CONNECT_ATTEMPTS` and `CONNECT_RETRY_SECONDS`
abbrev pub connect_attempts : ℕ
connect_attempts = 10

abbrev pub connect_retry_seconds : ℕ
connect_retry_seconds = 3

-- How `connect_rabbitmq` ends; `not_connected` is the `RuntimeError` behind the loop.
pub data Connecting (C E : Type 0) : Type 0 where
  connected : C → Connecting C E
  propagated : E → Connecting C E
  not_connected : Connecting C E

-- The n-th `connect_robust`: an `OSError` is `transient`, and any other exception `permanent`.
module _ {C E : Type 0} (connect_robust : ℕ → Attempt C E) where
  -- one round, given the rounds that follow, with the seconds slept
  abbrev pub after_connect : Attempt C E → Connecting C E × ℕ → Connecting C E × ℕ
  after_connect (success c) rest = (connected c, 0)
  after_connect (permanent e) rest = (propagated e, 0)
  after_connect (transient e) rest = (rest.0, connect_retry_seconds + rest.1)

  unfoldable pub connect_loop : ℕ → ℕ → Connecting C E × ℕ
  connect_loop zero attempt = (not_connected, 0)
  connect_loop (suc left) attempt =
      after_connect (connect_robust attempt) (connect_loop left (suc attempt))

  unfoldable pub connect_rabbitmq : Connecting C E × ℕ
  unfolding connect_loop
  connect_rabbitmq = connect_loop connect_attempts 1

  abbrev pub IsTransient : Attempt C E → Type 0
  IsTransient (success c) = ⊥
  IsTransient (permanent e) = ⊥
  IsTransient (transient e) = Unit

  -- the attempts from `first` on, `count` of them, end with an `OSError`
  abbrev pub AllTransient : ℕ → ℕ → Type 0
  AllTransient zero first = Unit
  AllTransient (suc count) first =
      IsTransient (connect_robust first) × AllTransient count (suc first)

  -- How a loop of `left` rounds ends: at the first attempt that is not an `OSError`, with three
  -- seconds for each before it, or after all of them.
  pub data Connects (left first : ℕ) : Connecting C E × ℕ → Type 0 where
    at_attempt :
        (before seconds : ℕ) (c : C)
        → before < left
        → AllTransient before first
        → connect_robust (first + before) ≡ success c
        → seconds ≡ connect_retry_seconds * before
        → Connects left first (connected c, seconds)
    fails_at :
        (before seconds : ℕ) (e : E)
        → before < left
        → AllTransient before first
        → connect_robust (first + before) ≡ permanent e
        → seconds ≡ connect_retry_seconds * before
        → Connects left first (propagated e, seconds)
    gives_up :
        (seconds : ℕ)
        → AllTransient left first
        → seconds ≡ connect_retry_seconds * left
        → Connects left first (not_connected, seconds)

  by_transient :
      (first : ℕ) (e : E) → connect_robust first ≡ transient e → IsTransient (connect_robust first)
  by_transient first e h = rw h tt

  later :
      (left first : ℕ) (e : E) (o : Connecting C E × ℕ)
      → connect_robust first ≡ transient e
      → Connects left (suc first) o
      → Connects (suc left) first (o.0, connect_retry_seconds + o.1)
  later left first e o first_fails (at_attempt before seconds c inside failed found slept) =
      at_attempt (suc before) (connect_retry_seconds + seconds) c (omega (arith, inside))
        (by_transient first e first_fails, failed)
        (subst (λ n. connect_robust n ≡ success c) (omega arith) found) (omega (arith, slept))
  later left first e o first_fails (fails_at before seconds x inside failed found slept) =
      fails_at (suc before) (connect_retry_seconds + seconds) x (omega (arith, inside))
        (by_transient first e first_fails, failed)
        (subst (λ n. connect_robust n ≡ permanent x) (omega arith) found) (omega (arith, slept))
  later left first e o first_fails (gives_up seconds failed slept) =
      gives_up (connect_retry_seconds + seconds) (by_transient first e first_fails, failed)
        (omega (arith, slept))

  by_attempt :
      (left first : ℕ) (a : Attempt C E) (o : Connecting C E × ℕ)
      → connect_robust first ≡ a
      → Connects left (suc first) o
      → Connects (suc left) first (after_connect a o)
  by_attempt left first (success c) o e rest =
      at_attempt 0 0 c (omega arith) tt (subst (λ n. connect_robust n ≡ success c) (omega arith) e)
        refl
  by_attempt left first (permanent x) o e rest =
      fails_at 0 0 x (omega arith) tt (subst (λ n. connect_robust n ≡ permanent x) (omega arith) e)
        refl
  by_attempt left first (transient x) o e rest = later left first x o e rest

  connect_loop_outcome : (left first : ℕ) → Connects left first (connect_loop left first)
  unfolding connect_loop
  connect_loop_outcome zero first = gives_up 0 tt refl
  connect_loop_outcome (suc left) first =
      by_attempt left first (connect_robust first) (connect_loop left (suc first)) refl
        (connect_loop_outcome left (suc first))

  -- The worker connects at the first of ten attempts that succeeds, having slept three seconds for
  -- each one before it; an exception that is no `OSError` ends it at that attempt; and after ten
  -- `OSError`s and thirty seconds it gives up.
  pub connect_rabbitmq_outcome : Connects 10 1 connect_rabbitmq
  unfolding connect_rabbitmq
  connect_rabbitmq_outcome = connect_loop_outcome connect_attempts 1
