-- ===== src/Telemetry/Outcomes.antt =====
-- How a delivery to `handle_message` of telemetry/worker.py ends, told by what is stored then.
use text.Mathlib.TextPositions.{eq_refl}
use fleet_management.Prelude.{
  ◌≤◌, String, ◌≡◌, refl, ◌⊎◌, inl, inr, Bool, true, false, Option, none, some, List, [], ◌∷◌,
  find?, is_some, find?-append, leb, ltb, ◌==◌, Option-cases, Bool-cases, arith,
}
use fleet_management.Models.Fleet.{Vehicle}
use fleet_management.Telemetry.{
  Floats, Codec, TelemetryMessage, CachedState, Pipeline, process, hset, cached_state,
  vehicle_state_key, within_bounds, validate, same_reading, insert_reading, save_reading,
  fits_integer, update_vehicle_state, update_cache, handle_message,
}
use fleet_management.Telemetry.Delivery.{IsKnown}
use fleet_management.Telemetry.Contract.{
  InBounds, IsValid, IsSaved, IsUpToDate, IsUnreadable, Handled, invalid, unknown, db_failed,
  out_of_range, saved_only, stored,
}

module _ (F : Floats) (codec : Codec F) where
  within_bounds-InBounds :
      (m : TelemetryMessage F) → within_bounds F codec m ≡ true → InBounds F codec m
  unfolding within_bounds
  within_bounds-InBounds m h = record {
    some_vehicle = ground (arith, h);
    from_south = ground (arith, h);
    to_north = ground (arith, h);
    from_west = ground (arith, h);
    to_east = ground (arith, h);
    not_below_empty = ground (arith, h);
    not_above_full = ground (arith, h);
  }

  InBounds-within_bounds :
      (m : TelemetryMessage F) → InBounds F codec m → within_bounds F codec m ≡ true
  unfolding within_bounds
  InBounds-within_bounds m b =
      let positive : ltb 0 m.vehicle_id ≡ true = ground (arith, b.some_vehicle) in
      rw
        (
          positive, b.from_south, b.to_north, b.from_west, b.to_east, b.not_below_empty,
          b.not_above_full,
        )
        refl

  validate_cases :
      (body : Option (TelemetryMessage F))
      → ((validate F codec body ≡ none) × ((m : TelemetryMessage F) → ¬ IsValid F codec body m))
        ⊎ ((m : TelemetryMessage F) × (validate F codec body ≡ some m) × IsValid F codec body m)
  unfolding validate
  validate_cases none = inl (refl, λ m v. cc (v.0))
  validate_cases (some m) = elim (Bool-cases (within_bounds F codec m)) [
    | inl within ↦ inr (m, rw within refl, (refl, within_bounds-InBounds m within))
    | inr outside ↦ inl (
      rw outside refl,
      λ n v. let same : m ≡ n = cc (v.0) in cc (same, InBounds-within_bounds n v.1, outside),
    )
  ]

  insert-IsSaved :
      (m : TelemetryMessage F) (rs : List (TelemetryMessage F))
      → IsSaved F codec m rs (insert_reading F codec m rs).1
  unfolding insert_reading
  insert-IsSaved m rs = elim (Option-cases (find? (same_reading F codec m) rs)) [
    | inr (r, found) ↦
        rw found (record { there = rw found refl; nothing_else = inl refl; once = λ _. refl })
    | inl missing ↦ rw missing (record {
      there = ground (arith, find?-append (same_reading F codec m) rs (m ∷ []));
      nothing_else = inr refl;
      once = λ h. absurd (ground (arith, h));
    })
  ]

  hset-IsUpToDate :
      (m : TelemetryMessage F) (redis : String → Option CachedState)
      → IsUpToDate F codec m redis
          (hset F codec (vehicle_state_key F codec m.vehicle_id) (cached_state F codec m) redis)
  hset-IsUpToDate m redis = record {
    state = cached_state F codec m;
    moment = m.recorded_at;
    cached = rw (eq_refl (vehicle_state_key F codec m.vehicle_id)) refl;
    readable = codec.parse-print_time m.recorded_at;
    not_older = omega arith;
    kept_or_written = inr refl;
    others = λ key other. rw other refl;
  }

  -- How the update of the cache ends.
  update_cases :
      (m : TelemetryMessage F) (redis : String → Option CachedState)
      → ((update_vehicle_state F codec m redis ≡ none) × IsUnreadable F codec m redis)
        ⊎ ((changed : Bool) × (after : String → Option CachedState) × (update_vehicle_state F codec
                m redis
              ≡ some (changed, after))
            × IsUpToDate F codec m redis after)
  unfolding update_vehicle_state
  update_cases m redis = elim (Option-cases (redis (vehicle_state_key F codec m.vehicle_id))) [
    | inl empty ↦ inr (true, _, rw empty refl, hset-IsUpToDate m redis)
    | inr (c, found) ↦ elim (Option-cases (codec.parse_time c.recorded_at)) [
      | inl no_moment ↦ inl (rw found (rw no_moment refl), (c, found, no_moment))
      | inr (t, reads) ↦ elim (Bool-cases (leb m.recorded_at t)) [
        | inr newer ↦ inr (true, _, rw found (rw reads (rw newer refl)), hset-IsUpToDate m redis)
        | inl older ↦ inr (
          false,
          redis,
          rw found (rw reads (rw older refl)),
          record {
            state = c;
            moment = t;
            cached = found;
            readable = reads;
            not_older = ground (arith, older);
            kept_or_written = inl refl;
            others = λ key other. refl;
          },
        )
      ]
    ]
  ]

  module _ (vehicles : List Vehicle) where
    Handled-known :
        (redis_up : Bool) (body : Option (TelemetryMessage F)) (s : Pipeline F)
        (m : TelemetryMessage F)
        → IsValid F codec body m
        → m.vehicle_id ≤ 2147483647
        → IsKnown F codec vehicles m
        → Handled F codec vehicles true redis_up body s (
            update_cache F codec redis_up m
              (record s { readings = (insert_reading F codec m s.readings).1 }))
    Handled-known false body s m valid fits known =
        saved_only m _ valid fits known refl (inl refl) (insert-IsSaved m s.readings)
    Handled-known true body s m valid fits known = elim (update_cases m s.redis) [
      | inl (fails, unreadable) ↦
          rw fails
            (saved_only m _ valid fits known refl (inr unreadable) (insert-IsSaved m s.readings))
      | inr (changed, after, e, up_to_date) ↦
          rw e
            (stored m _ after valid fits known refl refl (insert-IsSaved m s.readings) up_to_date)
    ]

    Handled-valid :
        (db_up redis_up : Bool) (body : Option (TelemetryMessage F)) (s : Pipeline F)
        (m : TelemetryMessage F)
        → IsValid F codec body m
        → Handled F codec vehicles db_up redis_up body s
            (process F codec db_up redis_up vehicles m s)
    unfolding save_reading
    Handled-valid false redis_up body s m valid = db_failed m valid refl
    Handled-valid true redis_up body s m valid = elim (Bool-cases (fits_integer m.vehicle_id)) [
      | inr too_large ↦ rw too_large (out_of_range m valid (ground (arith, too_large)))
      | inl small ↦
          let fits : m.vehicle_id ≤ 2147483647 = ground (arith, small) in
          elim (Bool-cases (is_some (find? (λ v. v.id == m.vehicle_id) vehicles))) [
            | inl known ↦ rw (small, known) (Handled-known redis_up body s m valid fits known)
            | inr absent ↦ rw (small, absent) (unknown m valid refl fits absent)
          ]
    ]

    -- A message is dropped only where it is no message with its fields in bounds, or the database
    -- answers and does not have its vehicle; then nothing is stored. It goes back to the queue only
    -- where the database or Redis fails, its vehicle id does not fit in an INTEGER column, or the
    -- cached moment of its vehicle cannot be read. It is
    -- acknowledged only where there is a stored reading of its vehicle and moment, added only where
    -- there was none, and the cached state of the vehicle is not older than it, nothing else being
    -- changed.
    pub handle_outcome :
        (db_up redis_up : Bool) (body : Option (TelemetryMessage F)) (s : Pipeline F)
        → Handled F codec vehicles db_up redis_up body s
            (handle_message F codec db_up redis_up vehicles body s)
    unfolding handle_message
    handle_outcome db_up redis_up body s = elim (validate_cases body) [
      | inl (refused, no_message) ↦ rw refused (invalid no_message)
      | inr (m, accepted, valid) ↦ rw accepted (Handled-valid db_up redis_up body s m valid)
    ]
