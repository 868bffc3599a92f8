-- ===== src/Telemetry/Redelivery.antt =====
-- What becomes of a message that the broker delivers to `handle_message` of telemetry/worker.py,
-- src/fleet_management, until it is settled.
use mathlib.Core.Path.{subst}
use fleet_management.Prelude.{
  ◌≡◌, ◌≢◌, ◌⊎◌, refl, sym, ◌∙◌, Bool, true, false, Option, some, List, [], ◌∷◌, ◌++◌, find?,
  is_some, ◌==◌, Option-cases, Bool-cases, inl, inr,
}
use fleet_management.Models.Fleet.{Vehicle}
use fleet_management.Telemetry.{
  Floats, Codec, TelemetryMessage, Pipeline, Disposition, ack, reject, nack, validate, save_reading,
  fits_integer, handle_message,
}
use fleet_management.Telemetry.Cache.{IsReadable, updated}
use fleet_management.Telemetry.Delivery.{IsKnown, redelivered}

module _ (F : Floats) (codec : Codec F) (vehicles : List Vehicle) where
  abbrev pub after_delivery :
      Disposition × Pipeline F → (Pipeline F → Disposition × Pipeline F) → Disposition × Pipeline F
  after_delivery (nack, s) rest = rest s
  after_delivery (ack, s) rest = (ack, s)
  after_delivery (reject, s) rest = (reject, s)

  -- The broker delivers a message again until it is acknowledged or rejected; each delivery is
  -- given by whether the database and Redis answer during it.
  pub deliver :
      List (Bool × Bool) → Option (TelemetryMessage F) → Pipeline F → Disposition × Pipeline F
  deliver [] body s = (nack, s)
  deliver ((db_up, redis_up) ∷ conditions) body s =
      after_delivery (handle_message F codec db_up redis_up vehicles body s)
        (deliver conditions body)

  -- A message whose vehicle id the column cannot hold.
  abbrev pub IsUnstorable : Option (TelemetryMessage F) → Type 0
  IsUnstorable body =
      (m : TelemetryMessage F) × (validate F codec body ≡ some m)
      × (fits_integer m.vehicle_id ≡ false)

  unstorable_handled :
      (db_up redis_up : Bool) (body : Option (TelemetryMessage F)) (s : Pipeline F)
      → IsUnstorable body
      → handle_message F codec db_up redis_up vehicles body s ≡ (nack, s)
  unfolding handle_message save_reading
  unstorable_handled false redis_up body s (m, valid, too_large) = rw valid refl
  unstorable_handled true redis_up body s (m, valid, too_large) = rw valid (rw too_large refl)

  unstorable_stays :
      (conditions : List (Bool × Bool)) (body : Option (TelemetryMessage F)) (s : Pipeline F)
      → IsUnstorable body
      → deliver conditions body s ≡ (nack, s)
  unfolding deliver
  unstorable_stays [] body s stuck = refl
  unstorable_stays ((db_up, redis_up) ∷ conditions) body s stuck =
      rw (unstorable_handled db_up redis_up body s stuck) (unstorable_stays conditions body s stuck)

  known_delivery :
      (db_up redis_up : Bool) (body : Option (TelemetryMessage F)) (s : Pipeline F)
      (m : TelemetryMessage F) (rest : Pipeline F → Disposition × Pipeline F)
      → IsReadable F codec s.redis
      → ((after : Pipeline F)
          → IsReadable F codec after.redis
          → rest after ≡ handle_message F codec true true vehicles body after)
      → validate F codec body ≡ some m
      → fits_integer m.vehicle_id ≡ true
      → IsKnown F codec vehicles m
      → after_delivery (handle_message F codec db_up redis_up vehicles body s) rest
        ≡ handle_message F codec true true vehicles body s
  unfolding handle_message save_reading
  known_delivery false redis_up body s m rest readable settles valid fits known =
      let again : after_delivery (handle_message F codec false redis_up vehicles body s) rest
          ≡ rest s =
        rw valid refl in
      again ∙ settles s readable
  known_delivery true false body s m rest readable settles valid fits known =
      let saved = (handle_message F codec true false vehicles body s).1 in
      let again : after_delivery (handle_message F codec true false vehicles body s) rest
          ≡ rest saved =
        rw valid (rw (fits, known) refl) in
      again
      ∙ settles saved (rw valid (rw (fits, known) readable))
      ∙ redelivered F codec vehicles false body s readable
  known_delivery true true body s m rest readable settles valid fits known =
      let (changed, after, e, u) = updated F codec m s.redis readable in
      rw valid (rw (fits, known) (rw e refl))

  one_delivery :
      (db_up redis_up : Bool) (body : Option (TelemetryMessage F)) (s : Pipeline F)
      (rest : Pipeline F → Disposition × Pipeline F)
      → IsReadable F codec s.redis
      → ((after : Pipeline F)
          → IsReadable F codec after.redis
          → rest after ≡ handle_message F codec true true vehicles body after)
      → after_delivery (handle_message F codec db_up redis_up vehicles body s) rest
        ≡ handle_message F codec true true vehicles body s
  unfolding handle_message save_reading
  one_delivery db_up redis_up body s rest readable settles =
      elim (Option-cases (validate F codec body)) [
        | inl bad ↦ rw bad refl
        | inr (m, valid) ↦ elim (Bool-cases (fits_integer m.vehicle_id)) [
          | inr too_large ↦ stuck (m, valid, too_large)
          | inl fits ↦ elim (Bool-cases (is_some (find? (λ v. v.id == m.vehicle_id) vehicles))) [
            | inl known ↦
                known_delivery db_up redis_up body s m rest readable settles valid fits known
            | inr absent ↦ refused db_up m valid fits absent
          ]
        ]
      ]
    where
      stuck :
          IsUnstorable body
          → after_delivery (handle_message F codec db_up redis_up vehicles body s) rest
            ≡ handle_message F codec true true vehicles body s
      stuck unstorable =
          let again : after_delivery (handle_message F codec db_up redis_up vehicles body s) rest
              ≡ rest s =
            rw (unstorable_handled db_up redis_up body s unstorable) refl in
          again ∙ settles s readable

      refused :
          (up : Bool) (m : TelemetryMessage F)
          → validate F codec body ≡ some m
          → fits_integer m.vehicle_id ≡ true
          → is_some (find? (λ v. v.id == m.vehicle_id) vehicles) ≡ false
          → after_delivery (handle_message F codec up redis_up vehicles body s) rest
            ≡ handle_message F codec true true vehicles body s
      refused false m valid fits absent =
          let again : after_delivery (handle_message F codec false redis_up vehicles body s) rest
              ≡ rest s =
            rw valid refl in
          again ∙ settles s readable
      refused true m valid fits absent = rw valid (rw (fits, absent) refl)

  settled :
      (body : Option (TelemetryMessage F)) (s : Pipeline F)
      → IsReadable F codec s.redis
      → IsUnstorable body ⊎ ((handle_message F codec true true vehicles body s).0 ≢ nack)
  unfolding handle_message save_reading
  settled body s readable = elim (Option-cases (validate F codec body)) [
    | inl bad ↦ inr (rw bad (λ e. cc e))
    | inr (m, valid) ↦ elim (Bool-cases (fits_integer m.vehicle_id)) [
      | inr too_large ↦ inl (m, valid, too_large)
      | inl fits ↦ elim (Bool-cases (is_some (find? (λ v. v.id == m.vehicle_id) vehicles))) [
        | inl known ↦
            let (changed, after, e, u) = updated F codec m s.redis readable in
            inr (rw valid (rw (fits, known) (rw e (λ q. cc q))))
        | inr absent ↦ inr (rw valid (rw (fits, absent) (λ q. cc q)))
      ]
    ]
  ]

  deliver_same :
      (before after : List (Bool × Bool)) (body : Option (TelemetryMessage F)) (s : Pipeline F)
      → IsReadable F codec s.redis
      → deliver (before ++ (true, true) ∷ after) body s
        ≡ handle_message F codec true true vehicles body s
  unfolding deliver
  deliver_same [] after body s readable = elim (settled body s readable) [
    | inl stuck ↦
        rw (unstorable_handled true true body s stuck) (unstorable_stays after body s stuck)
    | inr ends ↦ last (handle_message F codec true true vehicles body s) ends
  ]
    where
      last : (o : Disposition × Pipeline F) → o.0 ≢ nack → after_delivery o (deliver after body) ≡ o
      last (ack, t) ne = refl
      last (reject, t) ne = refl
      last (nack, t) ne = absurd (ne refl)
  deliver_same ((db_up, redis_up) ∷ before) after body s readable =
      one_delivery db_up redis_up body s (deliver (before ++ (true, true) ∷ after) body) readable
        (λ t r. deliver_same before after body t r)

  -- A message is settled in the end: if the broker delivers it again until it is acknowledged or
  -- rejected, and the database and Redis both answer at one of the deliveries, it is, unless it is a
  -- valid message whose vehicle id is too large for an INTEGER column; and what is answered and
  -- stored is what one delivery with both up would have answered and stored, however many deliveries
  -- failed before and after which step, when the cached moments can be read.
  pub deliver_settles :
      (before after : List (Bool × Bool)) (body : Option (TelemetryMessage F)) (s : Pipeline F)
      → IsReadable F codec s.redis
      → (IsUnstorable body ⊎ ((deliver (before ++ (true, true) ∷ after) body s).0 ≢ nack))
        × (deliver (before ++ (true, true) ∷ after) body s
            ≡ handle_message F codec true true vehicles body s)
  deliver_settles before after body s readable =
      let same = deliver_same before after body s readable in
      (
        elim (settled body s readable) [
          | inl stuck ↦ inl stuck
          | inr ends ↦ inr (subst (λ (o : Disposition × Pipeline F). o.0 ≢ nack) (sym same) ends)
        ],
        same,
      )
