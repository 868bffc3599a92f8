-- ===== src/Telemetry/Delivery.antt =====
-- A second delivery of one message to `handle_message` of telemetry/worker.py.
use mathlib.Core.Path.{subst}
use text.Mathlib.TextPositions.{eq_refl}
use fleet_management.Prelude.{
  ℕ, String, ◌≡◌, refl, inl, inr, Bool, true, false, Option, none, some, List, [], ◌∷◌, ◌++◌, find?,
  is_some, find?-append, leb, ◌==◌, Option-cases, Bool-cases, arith,
}
use fleet_management.Models.Fleet.{Vehicle}
use fleet_management.Telemetry.{
  Floats, Codec, TelemetryMessage, CachedState, Pipeline, hset, cached_state, vehicle_state_key,
  store_if, is_newer, validate, same_reading, insert_reading, save_reading, fits_integer,
  update_vehicle_state, update_cache, handle_message,
}
use fleet_management.Telemetry.Cache.{IsReadable, updated}

module _ (F : Floats) (codec : Codec F) (vehicles : List Vehicle) where
  -- A message of a vehicle that the table has.
  abbrev pub IsKnown : TelemetryMessage F → Type 0
  IsKnown m = is_some (find? (λ v. v.id == m.vehicle_id) vehicles) ≡ true

  insert_again :
      (m : TelemetryMessage F) (rs : List (TelemetryMessage F))
      → (insert_reading F codec m (insert_reading F codec m rs).1).1
        ≡ (insert_reading F codec m rs).1
  unfolding insert_reading
  insert_again m rs = elim (Option-cases (find? (same_reading F codec m) rs)) [
    | inr (r, found) ↦ rw found (rw found refl)
    | inl missing ↦ rw missing (rw (appended m rs missing) refl)
  ]
    where
      self : (m : TelemetryMessage F) → same_reading F codec m m ≡ true
      self m = ground arith

      appended :
          (m : TelemetryMessage F) (rs : List (TelemetryMessage F))
          → find? (same_reading F codec m) rs ≡ none
          → is_some (find? (same_reading F codec m) (rs ++ m ∷ [])) ≡ true
      appended m rs missing =
          ground (arith, self m, find?-append (same_reading F codec m) rs (m ∷ []))

  -- A state that a message has brought up to date is not changed by the same message again.
  update_again :
      (m : TelemetryMessage F) (redis after : String → Option CachedState) (changed : Bool)
      → update_vehicle_state F codec m redis ≡ some (changed, after)
      → update_vehicle_state F codec m after ≡ some (false, after)
  unfolding update_vehicle_state
  update_again m redis after changed e =
      split (is_newer F codec m.recorded_at (redis (vehicle_state_key F codec m.vehicle_id))) refl e
    where
      leb_refl : (n : ℕ) → leb n n ≡ true
      leb_refl n = ground arith

      written_again :
          (key : String)
          → store_if F codec m
              (hset F codec key (cached_state F codec m) redis)
              (is_newer F codec m.recorded_at (hset F codec key (cached_state F codec m) redis key))
            ≡ some (false, hset F codec key (cached_state F codec m) redis)
      written_again key =
          rw (eq_refl key)
            (rw (codec.parse-print_time m.recorded_at) (rw (leb_refl m.recorded_at) refl))

      split :
          (d : Option Bool)
          → is_newer F codec m.recorded_at (redis (vehicle_state_key F codec m.vehicle_id)) ≡ d
          → store_if F codec m redis d ≡ some (changed, after)
          → store_if F codec m after
              (is_newer F codec m.recorded_at (after (vehicle_state_key F codec m.vehicle_id)))
            ≡ some (false, after)
      split none d e = cc
      split (some false) d e =
          subst
            (λ r.
              store_if F codec m r
                (is_newer F codec m.recorded_at (r (vehicle_state_key F codec m.vehicle_id)))
              ≡ some (false, r))
            (let q : redis ≡ after = cc e in q) (rw d refl)
      split (some true) d e =
          subst
            (λ r.
              store_if F codec m r
                (is_newer F codec m.recorded_at (r (vehicle_state_key F codec m.vehicle_id)))
              ≡ some (false, r))
            (let q : hset F codec (vehicle_state_key F codec m.vehicle_id) (cached_state F codec m)
                    redis
                  ≡ after =
                cc e in
              q)
            (written_again (vehicle_state_key F codec m.vehicle_id))

  again_known :
      (redis_up : Bool) (m : TelemetryMessage F) (s : Pipeline F)
      → IsReadable F codec s.redis
      → let saved = record s { readings = (insert_reading F codec m s.readings).1 } in
        let first = (update_cache F codec redis_up m saved).1 in
        update_cache F codec true m
          (record first { readings = (insert_reading F codec m first.readings).1 })
        ≡ update_cache F codec true m saved
  again_known false m s readable = rw (insert_again m s.readings) refl
  again_known true m s readable =
      let (changed, after, e, u) = updated F codec m s.redis readable in
      rw e (rw (insert_again m s.readings, update_again m s.redis after changed e) refl)

  -- A message that is delivered again, because Redis failed after the reading was stored or for any
  -- other reason, ends as if it had been delivered once with everything up, when the database
  -- answers and the cached moments can be read.
  pub redelivered :
      (redis_up : Bool) (body : Option (TelemetryMessage F)) (s : Pipeline F)
      → IsReadable F codec s.redis
      → handle_message F codec true true vehicles body
          (handle_message F codec true redis_up vehicles body s).1
        ≡ handle_message F codec true true vehicles body s
  unfolding handle_message save_reading
  redelivered redis_up body s readable = elim (Option-cases (validate F codec body)) [
    | inl bad ↦ rw bad refl
    | inr (m, valid) ↦ elim (Bool-cases (fits_integer m.vehicle_id)) [
      | inr too_large ↦ rw valid (rw too_large refl)
      | inl fits ↦ elim (Bool-cases (is_some (find? (λ v. v.id == m.vehicle_id) vehicles))) [
        | inl known ↦ rw valid (rw (fits, known) (again_known redis_up m s readable))
        | inr absent ↦ rw valid (rw (fits, absent) refl)
      ]
    ]
  ]
