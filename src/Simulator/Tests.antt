-- ===== src/Simulator/Tests.antt =====
-- The theorem on the simulated fleet with whole numbers for floats.
use fleet_management.Prelude.{ℕ, ◌+◌, ◌-◌, ◌*◌, ◌/◌, ◌≡◌, [], ◌∷◌, ltb}
use fleet_management.Models.Fleet.{available, rented}
use fleet_management.Telemetry.Samples.{coarse}
use fleet_management.Simulator.{Arithmetic, Rng, Listed, sync_fleet}
use fleet_management.Simulator.Fleet.{placed_in, last_listed, sync_fleet-last_listed}

-- on a flat map
abbrev flat : Arithmetic coarse
flat = record {
  less = ltb;
  decimal = λ n k. n;
  add = λ a b. a + b;
  sub = λ a b. a - b;
  mul = λ a b. a * b;
  div = λ a b. a / b;
  degrees = λ a. a;
  radians = λ a. a;
  cos = λ a. 1;
  sin = λ a. 0;
  atan2 = λ a b. 0;
  hypot = λ a b. a + b;
  tau = 6;
  minus_one = 0;
  round_to = λ digits a. a;
}

abbrev dice : ℕ → Rng coarse
dice n = record { uniform = λ i low high. low; choice = λ size. 0 }

abbrev departed : Listed
departed = record { id = 1; station_id = 2; status = rented }

abbrev returned : Listed
returned = record { id = 1; station_id = 3; status = available }

sync_fleet-last_listed_example :
    placed_in coarse flat 1 (sync_fleet coarse flat dice (departed ∷ returned ∷ []) [])
    ≡ last_listed coarse flat 1 (placed_in coarse flat 1 []) (departed ∷ returned ∷ [])
sync_fleet-last_listed_example =
    sync_fleet-last_listed coarse flat 1 dice (departed ∷ returned ∷ []) []
