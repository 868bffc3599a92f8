-- ===== src/Erasure/Others.antt =====
-- What an erasure (services/erasure_service.py of src/fleet_management) leaves of others, and a
-- repeated one.
use mathlib.Core.Path.{subst}
use fleet_management.Prelude.{
  ℕ, String, ◌≡◌, ◌≢◌, refl, sym, ap, ◌∙◌, List, [], ◌∷◌, select, update_where, delete_where, some,
  none, ◌==◌, find?-update_ne, find?-update_self, arith,
}
use fleet_management.Models.Account.{User}
use fleet_management.Models.Privacy.{
  UserConsent, UserActivity, MarketingMessage, AnalyticsEvent, AuditEvent,
}
use fleet_management.Session.{Db, Ambient, Result, ok, or_raise}
use fleet_management.Consent.{is_granted_of, withdraw_consent, withdraw_all}
use fleet_management.Audit.{record_audit_event, audit_event, add_audit_event}
use fleet_management.Erasure.{
  Randomness, AnonymizeOutcome, anonymize_user, anonymize_found, anonymize_user_row, erase,
  event_type, stage_erasure,
}
use fleet_management.Erasure.Outcome.{
  find_user, Erasing, rejected, repeated, erased, anonymize_outcome,
}
use fleet_management.Erasure.Complete.{own_id}

-- The rows of one user are the same before and after, and so are the tables that are retained.
pub record Untouched (j : ℕ) (db after : Db) : Type 0 where
  pub account : find_user j after ≡ find_user j db
  pub activity :
      select (λ a. a.user_id == j) after.user_activity
      ≡ select (λ a. a.user_id == j) db.user_activity
  pub messages :
      select (λ m. m.user_id == j) after.marketing_messages
      ≡ select (λ m. m.user_id == j) db.marketing_messages
  pub analytics :
      select (λ e. e.user_id == j) after.analytics_events
      ≡ select (λ e. e.user_id == j) db.analytics_events
  pub consents :
      select (λ c. c.user_id == j) after.user_consents
      ≡ select (λ c. c.user_id == j) db.user_consents
  pub rentals : after.rentals ≡ db.rentals
  pub vehicles : after.vehicles ≡ db.vehicles
  pub stations : after.stations ≡ db.stations

select-delete_ne {ℓ} :
    {A : Type ℓ} (key : A → ℕ) (j k : ℕ) (xs : List A)
    → j ≢ k
    → select (λ x. key x == j) (delete_where (λ x. key x == k) xs) ≡ select (λ x. key x == j) xs
select-delete_ne key j k [] ne = refl
select-delete_ne key j k (x ∷ xs) ne = ground (arith, select-delete_ne key j k xs ne)

select-withdrawn_ne :
    (now j k : ℕ) (source : String) (cs : List UserConsent)
    → j ≢ k
    → select (λ c. c.user_id == j) (update_where (is_granted_of k) (withdraw_consent now source) cs)
      ≡ select (λ c. c.user_id == j) cs
select-withdrawn_ne now j k source [] ne = refl
select-withdrawn_ne now j k source (c ∷ cs) ne =
    ground (arith, select-withdrawn_ne now j k source cs ne)

pub stage_erasure-Untouched :
    (env : Ambient) (rnd : Randomness) (k j actor_id : ℕ) (correlation_id : String) (db : Db)
    → j ≢ k
    → Untouched j db (stage_erasure env rnd k actor_id correlation_id db)
unfolding erase withdraw_all
stage_erasure-Untouched env rnd k j actor_id correlation_id db ne = record {
  account =
      find?-update_ne (λ (u : User). u.id) (anonymize_user_row rnd (env.now 0)) (λ u. refl) k j
        db.users ne;
  activity = select-delete_ne (λ (a : UserActivity). a.user_id) j k db.user_activity ne;
  messages = select-delete_ne (λ (m : MarketingMessage). m.user_id) j k db.marketing_messages ne;
  analytics = select-delete_ne (λ (e : AnalyticsEvent). e.user_id) j k db.analytics_events ne;
  consents = select-withdrawn_ne (env.now 1) j k "erasure" db.user_consents ne;
  rentals = refl;
  vehicles = refl;
  stations = refl;
}

same_Untouched :
    (j : ℕ) (db : Db) (trail : List AuditEvent)
    → Untouched j db (record db { audit_events = trail })
same_Untouched j db trail = record {
  account = refl;
  activity = refl;
  messages = refl;
  analytics = refl;
  consents = refl;
  rentals = refl;
  vehicles = refl;
  stations = refl;
}

Erasing-Untouched :
    (env : Ambient) (rnd : Randomness) (subject_id j actor_id : ℕ) (correlation_id : String)
    (db : Db) (o : Result AnonymizeOutcome × Db)
    → j ≢ subject_id
    → Erasing env rnd subject_id actor_id correlation_id db o
    → Untouched j db o.1
Erasing-Untouched env rnd subject_id j actor_id correlation_id db o ne (rejected e) =
    same_Untouched j db db.audit_events
Erasing-Untouched env rnd subject_id j actor_id correlation_id db o ne (repeated u t found before) =
    same_Untouched j db _
Erasing-Untouched env rnd subject_id j actor_id correlation_id db o ne (erased u found first hold) =
    stage_erasure-Untouched env rnd u.id j actor_id correlation_id db
      (subst (λ k. j ≢ k) (sym (own_id subject_id db u found)) ne)

-- Whatever the call does, every other user's account row, activity, messages, analytics events and
-- consents stay as they are, and so do the rentals, the vehicles and the stations.
pub anonymize_user-Untouched :
    (env : Ambient) (rnd : Randomness) (subject_id j actor_id : ℕ) (correlation_id : String)
    (db : Db)
    → j ≢ subject_id
    → Untouched j db (anonymize_user env rnd subject_id actor_id correlation_id db).1
anonymize_user-Untouched env rnd subject_id j actor_id correlation_id db ne =
    Erasing-Untouched env rnd subject_id j actor_id correlation_id db _ ne
      (anonymize_outcome env rnd subject_id actor_id correlation_id db)

again :
    (later : Ambient) (rnd : Randomness) (k actor_id : ℕ) (correlation_id : String) (db : Db)
    (u : User) (t : ℕ)
    → find_user k db ≡ some u
    → u.anonymized_at ≡ some t
    → anonymize_user later rnd k actor_id correlation_id db ≡ (
      ok (record { subject_id = u.id; status = "already_anonymized"; actions = none }),
      add_audit_event
          (audit_event later event_type actor_id u.id "already_anonymized" correlation_id)
          db,
    )
unfolding anonymize_user record_audit_event
again later rnd k actor_id correlation_id db u t found before =
    rw (found, or_raise) (rw (before, anonymize_found) refl)

-- The answer to a call for an account that is anonymized already.
abbrev pub already_answer : Ambient → ℕ → ℕ → String → Db → Result AnonymizeOutcome × Db
already_answer later k actor_id correlation_id db = (
  ok (record { subject_id = k; status = "already_anonymized"; actions = none }),
  add_audit_event (audit_event later event_type actor_id k "already_anonymized" correlation_id) db,
)

Erasing-again :
    (env later : Ambient) (rnd rnd' : Randomness) (subject_id actor_id actor' : ℕ)
    (correlation_id correlation' : String) (db : Db) (out : AnonymizeOutcome)
    (o : Result AnonymizeOutcome × Db)
    → Erasing env rnd subject_id actor_id correlation_id db o
    → o.0 ≡ ok out
    → anonymize_user later rnd' subject_id actor' correlation' o.1
      ≡ already_answer later subject_id actor' correlation' o.1
unfolding erase withdraw_all
Erasing-again env later rnd rnd' subject_id actor_id actor' correlation_id correlation' db out o
      (rejected e) done =
    cc
Erasing-again env later rnd rnd' subject_id actor_id actor' correlation_id correlation' db out o
      (repeated u t found before) done =
    let after =
      add_audit_event (audit_event env event_type actor_id u.id "already_anonymized" correlation_id)
        db in
    again later rnd' subject_id actor' correlation' after u t found before
    ∙ ap (λ k. already_answer later k actor' correlation' after) (own_id subject_id db u found)
Erasing-again env later rnd rnd' subject_id actor_id actor' correlation_id correlation' db out o
      (erased u found first hold) done =
    let e = own_id subject_id db u found in
    let after = stage_erasure env rnd u.id actor_id correlation_id db in
    let own : find_user u.id db ≡ some u = subst (λ k. find_user k db ≡ some u) (sym e) found in
    subst
      (λ k.
        anonymize_user later rnd' k actor' correlation' after
        ≡ already_answer later k actor' correlation' after)
      e
      (again later rnd' u.id actor' correlation' after (anonymize_user_row rnd (env.now 0) u)
        (env.now 0)
        (find?-update_self (λ (w : User). w.id) (anonymize_user_row rnd (env.now 0)) (λ w. refl)
          u.id db.users u own)
        refl)

-- Erasure is idempotent: after a call that succeeded, a further one, by anyone and at any time,
-- answers that the account is anonymized already, and adds one audit entry and nothing else.
pub anonymize_user-anonymize_user :
    (env later : Ambient) (rnd rnd' : Randomness) (subject_id actor_id actor' : ℕ)
    (correlation_id correlation' : String) (db : Db) (out : AnonymizeOutcome)
    → (anonymize_user env rnd subject_id actor_id correlation_id db).0 ≡ ok out
    → let after = (anonymize_user env rnd subject_id actor_id correlation_id db).1 in
      anonymize_user later rnd' subject_id actor' correlation' after
      ≡ already_answer later subject_id actor' correlation' after
anonymize_user-anonymize_user env later rnd rnd' subject_id actor_id actor' correlation_id
      correlation' db out =
    Erasing-again env later rnd rnd' subject_id actor_id actor' correlation_id correlation' db out _
      (anonymize_outcome env rnd subject_id actor_id correlation_id db)
