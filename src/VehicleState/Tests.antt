-- ===== src/VehicleState/Tests.antt =====
-- The theorems on queries of the vehicles' state at a few readings.
use fleet_management.Prelude.{ℕ, String, true, false, List, [], ◌∷◌, Option}
use fleet_management.Samples.{free_car, taken_car}
use fleet_management.Resilience.{RetryPolicy, Attempt, transient}
use fleet_management.Telemetry.{TelemetryMessage, CachedState}
use fleet_management.Telemetry.Samples.{coarse, unary_codec, reading, empty_cache}
use fleet_management.VehicleState.Fleet.{get_fleet_positions}
use fleet_management.VehicleState.Positions.{Shows, get_fleet_positions-Shows}

abbrev readings : List (TelemetryMessage coarse)
readings = reading 1 4 ∷ reading 2 12 ∷ reading 1 9 ∷ []

abbrev two_attempts : RetryPolicy
two_attempts = record { max_attempts = 2; attempt_timeout = 500; base_delay = 50; max_delay = 150 }

abbrev redis_down : ℕ → ℕ × Attempt (Option CachedState) String
redis_down _ = (20, transient "connection refused")

abbrev no_delay : ℕ → ℕ
no_delay _ = 0

get_fleet_positions-Shows_example :
    Shows coarse unary_codec (1 ∷ 2 ∷ []) [] true (
      get_fleet_positions coarse unary_codec false empty_cache readings (taken_car ∷ free_car ∷ []))
get_fleet_positions-Shows_example =
    get_fleet_positions-Shows coarse unary_codec false empty_cache readings
      (taken_car ∷ free_car ∷ []) (λ k. tt)
