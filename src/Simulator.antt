-- ===== src/Simulator.antt =====
-- The telemetry simulator: src/fleet_management/telemetry/simulator.py. Floats with the functions of
-- `math` are a parameter, and so are the random numbers. The fleet, a dict by id, is the list of its
-- vehicles.
pub mod Hubs
pub mod Fleet
mod Tests
unfoldable pub use Hubs.*
use fleet_management.Prelude.{
  ℕ, zero, suc, ◌+◌, ◌-◌, ◌%◌, String, ◌≡◌, Bool, true, false, not, ◌&&◌, Option, none, some, List,
  [], ◌∷◌, ◌++◌, map, length, select, find?, is_some, update_where, count_where, ◌==◌,
  if◌then◌else◌,
}
use fleet_management.Models.Fleet.{VehicleStatus, is_rented}
use fleet_management.Telemetry.{Floats, TelemetryMessage}

-- Floats with their arithmetic and the functions of `math`; `decimal n k` is the literal n / 10 ^ k.
pub record Arithmetic (F : Floats) : Type 0 where
  pub less : F.Float → F.Float → Bool
  pub decimal : ℕ → ℕ → F.Float
  pub add : F.Float → F.Float → F.Float
  pub sub : F.Float → F.Float → F.Float
  pub mul : F.Float → F.Float → F.Float
  pub div : F.Float → F.Float → F.Float
  pub degrees : F.Float → F.Float
  pub radians : F.Float → F.Float
  pub cos : F.Float → F.Float
  pub sin : F.Float → F.Float
  pub atan2 : F.Float → F.Float → F.Float
  pub hypot : F.Float → F.Float → F.Float
  pub tau : F.Float
  pub minus_one : F.Float
  pub round_to : ℕ → F.Float → F.Float

-- `random.Random`: the i-th `uniform` of a call, and the place that `choice` takes in a list.
pub record Rng (F : Floats) : Type 0 where
  pub uniform : ℕ → F.Float → F.Float → F.Float
  pub choice : ℕ → ℕ

pub record SimVehicle (F : Floats) : Type 0 where
  pub vehicle_id : ℕ
  pub station_id : ℕ
  pub status : VehicleStatus
  pub latitude : F.Float
  pub longitude : F.Float
  pub heading : F.Float
  pub speed : F.Float
  pub fuel_level : F.Float
  pub bank : Bank
  pub target : Option (F.Float × F.Float)

-- A vehicle as the API lists it.
pub record Listed : Type 0 where
  pub id : ℕ
  pub station_id : ℕ
  pub status : VehicleStatus

module _ (F : Floats) (M : Arithmetic F) where
  abbrev pub driving : SimVehicle F → Bool
  driving v = is_rented v.status

  abbrev pub float_min : F.Float → F.Float → F.Float
  float_min a b = if M.less b a then b else a

  abbrev pub float_max : F.Float → F.Float → F.Float
  float_max a b = if M.less a b then b else a

  abbrev pub earth_radius_m : F.Float
  earth_radius_m = M.decimal 6_371_000 0

  abbrev pub station_spread_m : F.Float
  station_spread_m = M.decimal 40 0

  abbrev pub arrival_m : F.Float
  arrival_m = M.decimal 25 0

  abbrev pub fuel_use_per_km : F.Float
  fuel_use_per_km = M.decimal 6 1

  abbrev pub fuel_recharge_per_tick : F.Float
  fuel_recharge_per_tick = M.decimal 5 2

  unfoldable pub offset : F.Float → F.Float → F.Float → F.Float → F.Float × F.Float
  offset lat lon north_m east_m = (
    M.add lat (M.degrees (M.div north_m earth_radius_m)),
    M.add lon (M.degrees (M.div east_m (M.mul earth_radius_m (M.cos (M.radians lat))))),
  )

  unfoldable pub distance_m : F.Float → F.Float → F.Float → F.Float → F.Float
  distance_m lat1 lon1 lat2 lon2 =
      M.hypot (M.mul (M.radians (M.sub lat2 lat1)) earth_radius_m)
        (M.mul (M.mul (M.radians (M.sub lon2 lon1)) earth_radius_m) (M.cos (M.radians lat1)))

  unfoldable pub bearing_rad : F.Float → F.Float → F.Float → F.Float → F.Float
  bearing_rad lat1 lon1 lat2 lon2 =
      M.atan2 (M.mul (M.radians (M.sub lon2 lon1)) (M.cos (M.radians lat1)))
        (M.radians (M.sub lat2 lat1))

  abbrev pub point : Hub → F.Float × F.Float
  point hub = (M.decimal hub.0 4, M.decimal hub.1 4)

  -- The vehicle at a hub, with the draws from the `first` on.
  abbrev pub park_at : Rng F → ℕ → Option (Bank × Hub) → SimVehicle F → SimVehicle F
  park_at rng first none v = v
  park_at rng first (some (bank, hub)) v =
      let spread = λ (i : ℕ). M.mul (rng.uniform i M.minus_one (M.decimal 1 0)) station_spread_m in
      let place = offset (point hub).0 (point hub).1 (spread first) (spread (suc first)) in
      record v {
        bank = bank;
        latitude = place.0;
        longitude = place.1;
        speed = F.float_0;
        target = none;
      }

  unfoldable pub park_at_station : Rng F → ℕ → SimVehicle F → SimVehicle F
  park_at_station rng first v = park_at rng first (station_hub v.station_id) v

  abbrev pub nth_point : List (F.Float × F.Float) → ℕ → Option (F.Float × F.Float)
  nth_point [] index = none
  nth_point (p ∷ ps) zero = some p
  nth_point (p ∷ ps) (suc index) = nth_point ps index

  -- `none` is the `IndexError` of `choice` where no hub is far enough away.
  unfoldable pub pick_target : Rng F → SimVehicle F → Option (F.Float × F.Float)
  pick_target rng v =
      let far = λ (p : F.Float × F.Float).
        M.less (M.mul arrival_m (M.decimal 4 0)) (distance_m v.latitude v.longitude p.0 p.1) in
      let options = select far (map point (hubs v.bank)) in
      nth_point options (rng.choice (length options))

  -- The drive towards the target.
  unfoldable pub drive : F.Float → F.Float × F.Float → SimVehicle F → SimVehicle F
  drive dt (lat, lon) v =
      let remaining = distance_m v.latitude v.longitude lat lon in
      let step = float_min (M.mul v.speed dt) remaining in
      let heading = bearing_rad v.latitude v.longitude lat lon in
      let place =
        offset v.latitude v.longitude (M.mul step (M.cos heading)) (M.mul step (M.sin heading)) in
      let used = M.div (M.mul fuel_use_per_km step) (M.decimal 1000 0) in
      record v {
        heading = heading;
        latitude = place.0;
        longitude = place.1;
        fuel_level = float_max F.float_0 (M.sub v.fuel_level used);
        target = if F.float_leb (M.sub remaining step) arrival_m then none else some (lat, lon);
      }

  abbrev pub recharge : SimVehicle F → SimVehicle F
  recharge v = record v {
    speed = F.float_0;
    fuel_level = float_min F.float_100 (M.add v.fuel_level fuel_recharge_per_tick);
  }

  -- towards the target that the vehicle has, or towards a new one at a new speed
  abbrev pub drive_on :
      Rng F → F.Float → SimVehicle F → Option (F.Float × F.Float) → Option (SimVehicle F)
  drive_on rng dt v (some target) = some (drive dt target v)
  drive_on rng dt v none = elim (pick_target rng v) as (λ _. Option (SimVehicle F)) [
    | none ↦ none
    | some target ↦
        some (drive dt target (record v { speed = rng.uniform 0 (M.decimal 7 0) (M.decimal 14 0) }))
  ]

  unfoldable pub advance : Rng F → F.Float → SimVehicle F → Option (SimVehicle F)
  advance rng dt v = if driving v then drive_on rng dt v v.target else some (recharge v)

  unfoldable pub to_message : ℕ → SimVehicle F → TelemetryMessage F
  to_message now v = record {
    vehicle_id = v.vehicle_id;
    recorded_at = now;
    latitude = M.round_to 6 v.latitude;
    longitude = M.round_to 6 v.longitude;
    fuel_level = M.round_to 1 v.fuel_level;
    is_locked = not (driving v);
  }

  abbrev pub new_vehicle : Rng F → Listed → SimVehicle F
  new_vehicle rng row = record {
    vehicle_id = row.id;
    station_id = row.station_id;
    status = row.status;
    latitude = F.float_0;
    longitude = F.float_0;
    heading = rng.uniform 0 F.float_0 M.tau;
    speed = F.float_0;
    fuel_level = rng.uniform 1 (M.decimal 40 0) (M.decimal 100 0);
    bank = right;
    target = none;
  }

  -- What the listing makes of a vehicle that is simulated already.
  abbrev pub follow : Rng F → Listed → SimVehicle F → SimVehicle F
  follow rng row v =
      let returned = driving v && not (is_rented row.status) in
      let moved = record v { status = row.status; station_id = row.station_id } in
      if returned then park_at_station rng 0 moved else moved

  abbrev pub sync_one : Rng F → Listed → List (SimVehicle F) → List (SimVehicle F)
  sync_one rng row fleet =
      if is_some (find? (λ v. v.vehicle_id == row.id) fleet)
      then update_where (λ v. v.vehicle_id == row.id) (follow rng row) fleet
      else fleet ++ park_at_station rng 2 (new_vehicle rng row) ∷ []

  -- Each vehicle of the listing with random numbers of its own.
  unfoldable pub sync_fleet : (ℕ → Rng F) → List Listed → List (SimVehicle F) → List (SimVehicle F)
  sync_fleet rngs [] fleet = fleet
  sync_fleet rngs (row ∷ listed) fleet =
      sync_fleet (λ i. rngs (suc i)) listed (sync_one (rngs 0) row fleet)
