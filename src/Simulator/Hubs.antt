-- ===== src/Simulator/Hubs.antt =====
-- The hubs of the simulated stations: telemetry/simulator.py of src/fleet_management.
use fleet_management.Prelude.{
  ℕ, zero, suc, ◌+◌, ◌-◌, ◌%◌, Option, none, some, List, [], ◌∷◌, ◌++◌, map, length,
}

-- Degrees of latitude and longitude in ten-thousandths.
abbrev pub Hub : Type 0
Hub = ℕ × ℕ

pub data Bank : Type 0 where
  right left : Bank

-- `HUBS`
abbrev pub hubs : Bank → List Hub
hubs right =
    (504_501, 305_241)
    ∷ (504_392, 305_167)
    ∷ (504_325, 305_165)
    ∷ (504_410, 304_890)
    ∷ (504_620, 304_822)
    ∷ (504_659, 305_153)
    ∷ (504_729, 305_048)
    ∷ (504_864, 304_979)
    ∷ (505_013, 304_983)
    ∷ (504_549, 304_459)
    ∷ (504_588, 304_199)
    ∷ (504_277, 305_389)
    ∷ (504_130, 305_244)
    ∷ (504_049, 305_167)
    ∷ []
hubs left =
    (504_518, 305_982)
    ∷ (504_559, 306_126)
    ∷ (504_618, 306_303)
    ∷ (504_647, 306_457)
    ∷ (503_980, 306_342)
    ∷ (503_953, 306_163)
    ∷ (504_013, 306_526)
    ∷ []

-- `ALL_HUBS`
abbrev pub all_hubs : List (Bank × Hub)
all_hubs = map (λ hub. (right, hub)) (hubs right) ++ map (λ hub. (left, hub)) (hubs left)

-- `ALL_HUBS[index]`
abbrev pub hub_at : List (Bank × Hub) → ℕ → Option (Bank × Hub)
hub_at [] index = none
hub_at (h ∷ hs) zero = some h
hub_at (h ∷ hs) (suc index) = hub_at hs index

-- `(station_id - 1) % len(ALL_HUBS)`, which Python counts upwards from -1 too.
unfoldable pub station_hub : ℕ → Option (Bank × Hub)
station_hub station_id = hub_at all_hubs ((station_id + (length all_hubs - 1)) % length all_hubs)
