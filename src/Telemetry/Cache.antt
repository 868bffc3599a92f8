-- ===== src/Telemetry/Cache.antt =====
-- The cached states of vehicles (`update_vehicle_state` of telemetry/processor.py) after several
-- messages.
use mathlib.Core.Path.{subst}
use text.Mathlib.TextLemmas.{append_cancel_left, append_cancel_right}
use text.Mathlib.TextPositions.{eq_refl}
use fleet_management.Prelude.{
  ℕ, ◌≤◌, ◌<◌, String, ◌≡◌, ◌≢◌, refl, sym, ◌∙◌, ap, Bool, true, false, Option, none, some, List,
  [], ◌∷◌, max, leb, ◌==◌, if◌then◌else◌, str_eq, eq_iff, Option-cases, Bool-cases, inl, inr, arith,
}
use fleet_management.Telemetry.{
  Floats, Codec, TelemetryMessage, CachedState, vehicle_state_key, cached_state, hset,
  update_vehicle_state,
}

leb→le : (a b : ℕ) → leb a b ≡ true → a ≤ b
leb→le a b h = ground arith

leb→gt : (a b : ℕ) → leb a b ≡ false → b < a
leb→gt a b h = ground arith

module _ (F : Floats) (codec : Codec F) where
  -- The moment of the cached state of a vehicle.
  abbrev pub time_of : Option CachedState → Option ℕ
  time_of none = none
  time_of (some c) = codec.parse_time c.recorded_at

  abbrev pub cached_time : ℕ → (String → Option CachedState) → Option ℕ
  cached_time v redis = time_of (redis (vehicle_state_key F codec v))

  -- Every moment that is cached is a text that can be read back.
  abbrev pub IsReadable : (String → Option CachedState) → Type 0
  IsReadable redis =
      (key : String) (c : CachedState)
      → redis key ≡ some c
      → (t : ℕ) × (codec.parse_time c.recorded_at ≡ some t)

  abbrev pub later_of : Option ℕ → ℕ → Option ℕ
  later_of none t = some t
  later_of (some s) t = some (max s t)

  key_injective : (v w : ℕ) → vehicle_state_key F codec v ≡ vehicle_state_key F codec w → v ≡ w
  unfolding vehicle_state_key
  key_injective v w e =
      codec.print_int_injective v w
        (append_cancel_right _ _ ":state" (append_cancel_left "vehicle:" _ _ e))

  key_ne :
      (v w : ℕ) → v ≢ w → str_eq (vehicle_state_key F codec v) (vehicle_state_key F codec w) ≡ false
  key_ne v w ne =
      elim (Bool-cases (str_eq (vehicle_state_key F codec v) (vehicle_state_key F codec w))) [
        | inl same ↦ absurd (ne (key_injective v w ((eq_iff _ _).0 same)))
        | inr other ↦ other
      ]

  -- What one update does to the moments of all vehicles: `v`'s becomes the later one.
  pub record Updated (m : TelemetryMessage F) (redis after : String → Option CachedState)
      : Type 0 where
    pub own :
        cached_time m.vehicle_id after ≡ later_of (cached_time m.vehicle_id redis) m.recorded_at
    pub others : (w : ℕ) → w ≢ m.vehicle_id → cached_time w after ≡ cached_time w redis
    pub readable : IsReadable after

  written :
      (m : TelemetryMessage F) (redis : String → Option CachedState)
      → IsReadable redis
      → later_of (cached_time m.vehicle_id redis) m.recorded_at ≡ some m.recorded_at
      → Updated m redis
          (hset F codec (vehicle_state_key F codec m.vehicle_id) (cached_state F codec m) redis)
  written m redis readable newer = record {
    own =
        rw (eq_refl (vehicle_state_key F codec m.vehicle_id))
          (codec.parse-print_time m.recorded_at ∙ sym newer);
    others = λ w ne. rw (key_ne w m.vehicle_id ne) refl;
    readable = λ key c e. elim (Bool-cases (str_eq key (vehicle_state_key F codec m.vehicle_id))) [
      | inl same ↦
          let eq : c ≡ cached_state F codec m = ground (arith, same) in
          (
            m.recorded_at,
            ap (λ (x : CachedState). codec.parse_time x.recorded_at) eq
                ∙ codec.parse-print_time m.recorded_at,
          )
      | inr other ↦ readable key c (rw other at e)
    ];
  }

  kept :
      (m : TelemetryMessage F) (redis : String → Option CachedState)
      → IsReadable redis
      → cached_time m.vehicle_id redis ≡ later_of (cached_time m.vehicle_id redis) m.recorded_at
      → Updated m redis redis
  kept m redis readable older = record { own = older; others = λ w ne. refl; readable = readable }

  -- How an update of readable states ends: the state is written if it is newer, and otherwise
  -- everything stays.
  pub updated :
      (m : TelemetryMessage F) (redis : String → Option CachedState)
      → IsReadable redis
      → (changed : Bool) × (after : String → Option CachedState) × (update_vehicle_state F codec m
            redis
          ≡ some (changed, after))
        × Updated m redis after
  unfolding update_vehicle_state
  updated m redis readable = elim (Option-cases (redis (vehicle_state_key F codec m.vehicle_id))) [
    | inl empty ↦ (
      true,
      hset F codec (vehicle_state_key F codec m.vehicle_id) (cached_state F codec m) redis,
      rw empty refl,
      written m redis readable (rw empty refl),
    )
    | inr (c, found) ↦
        let (t, reads) = readable (vehicle_state_key F codec m.vehicle_id) c found in
        elim (Bool-cases (leb m.recorded_at t)) [
          | inl old ↦ (
            false,
            redis,
            rw found (rw reads (rw old refl)),
            kept m redis readable
                (rw found (rw reads (ap some (omega (arith, leb→le m.recorded_at t old))))),
          )
          | inr new ↦ (
            true,
            hset F codec (vehicle_state_key F codec m.vehicle_id) (cached_state F codec m) redis,
            rw found (rw reads (rw new refl)),
            written m redis readable
                (rw found (rw reads (ap some (omega (arith, leb→gt m.recorded_at t new))))),
          )
        ]
  ]

  -- What the worker makes of the cache for one message, a failure left aside.
  abbrev pub redis_after :
      Option (Bool × (String → Option CachedState))
      → (String → Option CachedState)
      → String
      → Option CachedState
  redis_after none redis = redis
  redis_after (some (_, after)) redis = after

  pub update_each :
      List (TelemetryMessage F) → (String → Option CachedState) → String → Option CachedState
  update_each [] redis = redis
  update_each (m ∷ ms) redis =
      update_each ms (redis_after (update_vehicle_state F codec m redis) redis)

  -- The latest of the moment `acc` and those of a vehicle's messages.
  abbrev pub newest : ℕ → Option ℕ → List (TelemetryMessage F) → Option ℕ
  newest v acc [] = acc
  newest v acc (m ∷ ms) =
      newest v (if m.vehicle_id == v then later_of acc m.recorded_at else acc) ms

  step_time :
      (v : ℕ) (m : TelemetryMessage F) (redis after : String → Option CachedState)
      → Updated m redis after
      → cached_time v after ≡ (
          if m.vehicle_id == v
          then later_of (cached_time v redis) m.recorded_at
          else cached_time v redis)
  step_time v m redis after u = elim (Bool-cases (m.vehicle_id == v)) [
    | inl same ↦
        let e : m.vehicle_id ≡ v = ground arith in
        rw same
          (subst (λ k. cached_time k after ≡ later_of (cached_time k redis) m.recorded_at) e u.own)
    | inr other ↦ rw other (u.others v (λ (e : v ≡ m.vehicle_id). ground arith))
  ]

  -- After any messages in any order, the cached moment of each vehicle is the latest of the one
  -- that was cached before and those of its messages, when the cached moments can be read.
  pub update_each-newest :
      (v : ℕ) (ms : List (TelemetryMessage F)) (redis : String → Option CachedState)
      → IsReadable redis
      → cached_time v (update_each ms redis) ≡ newest v (cached_time v redis) ms
  unfolding update_each
  update_each-newest v [] redis readable = refl
  update_each-newest v (m ∷ ms) redis readable =
      let (changed, after, e, u) = updated m redis readable in
      rw (e, redis_after)
        (update_each-newest v ms after u.readable
          ∙ ap (λ t. newest v t ms) (step_time v m redis after u))
