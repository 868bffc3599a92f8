-- ===== src/System/Effects.antt =====
-- What the export, the erasure, the actions that depend on a consent and the marketing job do to a
-- sound database (api/privacy.py of src/fleet_management and the services behind it).
use mathlib.Core.Path.{subst}
use fleet_management.Prelude.{
  ℕ, String, ◌≡◌, refl, sym, Bool, true, false, not, none, List, [], ◌∷◌, map, find?, select, ◌==◌,
  HasUniqueKeys, HasUniqueKeys-append, arith,
}
use fleet_management.Models.Privacy.{
  ConsentPurpose, MarketingMessage, AuditEvent, marketing_email, optional_analytics,
}
use fleet_management.Session.{
  Db, marketing_messages, Ambient, Action, Result, commit_checked, pure, ◌>>◌,
}
use fleet_management.Audit.{add_audit_event}
use fleet_management.Consent.{withdraw_all, check, current_policy_version, user_exists}
use fleet_management.Consent.Withdrawals.{withdraw_all-IsEvidenced}
use fleet_management.Consent.Keys.{withdraw_all-OnePerPurpose}
use fleet_management.Marketing.{
  new_message, stage_message, new_event, stage_event, require_consent, deny, unless_allowed,
  enqueue_marketing_email, record_analytics_event, dispatch_pending_marketing,
}
use fleet_management.Marketing.Dispatch.{settle, dispatch-settle}
use fleet_management.Erasure.{
  Randomness, AnonymizeOutcome, stage_erasure, erase, unique_columns_hold,
}
use fleet_management.Erasure.Outcome.{Erasing, rejected, repeated, erased, anonymize_outcome}
use fleet_management.PrivacyRoutes.{
  SubjectAccess, export_personal_data, anonymize, queue_marketing_email, track_analytics_event,
}
use fleet_management.System.{IsSound, find_message}
use fleet_management.System.Frame.{SameAll-IsSound, SameFleet-IsConsistent}
use fleet_management.System.Columns.{commit_checked-keeps}
use fleet_management.System.Handlers.{add_audit_event-SameAll}

-- A change of the messages alone.
with_messages-IsSound :
    (db : Db) (ms : List MarketingMessage)
    → HasUniqueKeys (λ (m : MarketingMessage). m.id) ms
    → IsSound db
    → IsSound (record db { marketing_messages = ms })
unfolding unique_columns_hold
with_messages-IsSound db ms keys sound = record {
  consistent =
      SameFleet-IsConsistent db _ (record { vehicles = refl; rentals = refl }) sound.consistent;
  one_per_purpose = sound.one_per_purpose;
  evidenced = sound.evidenced;
  message_keys = keys;
  unique_columns = sound.unique_columns;
}

pub export_personal_data-IsSound :
    (env : Ambient) (access : SubjectAccess) (db : Db)
    → IsSound db
    → IsSound (export_personal_data env access db).1
unfolding export_personal_data
export_personal_data-IsSound env access db sound =
    SameAll-IsSound db _ (add_audit_event-SameAll _ db) sound

find?-of_select {ℓ} :
    {A : Type ℓ} (q p : A → Bool) (xs : List A) → find? q xs ≡ none → find? q (select p xs) ≡ none
find?-of_select q p [] h = refl
find?-of_select q p (x ∷ xs) h = ground (arith, find?-of_select q p xs)

HasUniqueKeys-select {ℓ} :
    {A : Type ℓ} (key : A → ℕ) (p : A → Bool) (xs : List A)
    → HasUniqueKeys key xs
    → HasUniqueKeys key (select p xs)
HasUniqueKeys-select key p [] u = tt
HasUniqueKeys-select key p (x ∷ xs) u =
    ground
      (arith, find?-of_select (λ y. key y == key x) p xs u.0, HasUniqueKeys-select key p xs u.1)

stage_erasure-IsSound :
    (env : Ambient) (rnd : Randomness) (k actor_id : ℕ) (correlation_id : String) (db : Db)
    → unique_columns_hold (stage_erasure env rnd k actor_id correlation_id db) ≡ true
    → IsSound db
    → IsSound (stage_erasure env rnd k actor_id correlation_id db)
unfolding erase withdraw_all
stage_erasure-IsSound env rnd k actor_id correlation_id db hold sound = record {
  consistent =
      SameFleet-IsConsistent db _ (record { vehicles = refl; rentals = refl }) sound.consistent;
  one_per_purpose = withdraw_all-OnePerPurpose env (env.now 1) k "erasure" db sound.one_per_purpose;
  evidenced =
      withdraw_all-IsEvidenced env (env.now 1) k "erasure" db sound.one_per_purpose sound.evidenced;
  message_keys =
      HasUniqueKeys-select (λ (m : MarketingMessage). m.id) (λ m. not (m.user_id == k))
        db.marketing_messages sound.message_keys;
  unique_columns = hold;
}

Erasing-IsSound :
    (env : Ambient) (rnd : Randomness) (subject_id actor_id : ℕ) (correlation_id : String) (db : Db)
    (o : Result AnonymizeOutcome × Db)
    → Erasing env rnd subject_id actor_id correlation_id db o
    → IsSound db
    → IsSound o.1
Erasing-IsSound env rnd subject_id actor_id correlation_id db o (rejected e) sound = sound
Erasing-IsSound env rnd subject_id actor_id correlation_id db o (repeated u t found before) sound =
    SameAll-IsSound db _ (add_audit_event-SameAll _ db) sound
Erasing-IsSound env rnd subject_id actor_id correlation_id db o (erased u found first hold) sound =
    stage_erasure-IsSound env rnd u.id actor_id correlation_id db hold sound

pub anonymize-IsSound :
    (env : Ambient) (rnd : Randomness) (access : SubjectAccess) (db : Db)
    → IsSound db
    → IsSound (anonymize env rnd access db).1
unfolding anonymize
anonymize-IsSound env rnd access db =
    Erasing-IsSound env rnd access.subject.id access.actor.id access.correlation_id db _
      (anonymize_outcome env rnd access.subject.id access.actor.id access.correlation_id db)

-- The gate before an action keeps what the action and an audit entry keep.
pub require_consent-keeps :
    {A : Type 0} (Q : Db → Type 0) (env : Ambient) (user_id : ℕ) (purpose : ConsentPurpose)
    (actor_id : ℕ) (correlation_id : String) (rest : Action A) (db : Db)
    → ((e : AuditEvent) → Q (add_audit_event e db))
    → Q (rest db).1
    → Q ((require_consent env user_id purpose actor_id correlation_id >> rest) db).1
unfolding require_consent
require_consent-keeps {A} Q env user_id purpose actor_id correlation_id rest db audited rested =
    gated (check db user_id purpose current_policy_version).allowed
  where
    gated :
        (b : Bool)
        → Q
            ((unless_allowed b (
                  deny env user_id purpose actor_id correlation_id
                    (check db user_id purpose current_policy_version))
                >> rest)
              db).1
    gated true = rested
    gated false = audited _

pub queue_marketing_email-IsSound :
    (env : Ambient) (campaign : String) (access : SubjectAccess) (db : Db)
    → find_message (env.new_id marketing_messages 0) db ≡ none
    → IsSound db
    → IsSound (queue_marketing_email env campaign access db).1
unfolding queue_marketing_email enqueue_marketing_email
queue_marketing_email-IsSound env campaign access db fresh sound =
    let new = new_message env access.subject.id campaign in
    require_consent-keeps IsSound env access.subject.id marketing_email access.actor.id
      access.correlation_id
      (commit_checked (user_exists access.subject.id) (stage_message new) >> pure new) db
      (λ e. SameAll-IsSound db _ (add_audit_event-SameAll e db) sound)
      (commit_checked-keeps IsSound (user_exists access.subject.id) (stage_message new) new db
        (λ known.
          with_messages-IsSound db _
            (HasUniqueKeys-append (λ (m : MarketingMessage). m.id) db.marketing_messages new
              sound.message_keys fresh)
            sound)
        sound)

pub track_analytics_event-IsSound :
    (env : Ambient) (event_name : String) (access : SubjectAccess) (db : Db)
    → IsSound db
    → IsSound (track_analytics_event env event_name access db).1
unfolding track_analytics_event record_analytics_event
track_analytics_event-IsSound env event_name access db sound =
    let new = new_event env access.subject.id event_name in
    require_consent-keeps IsSound env access.subject.id optional_analytics access.actor.id
      access.correlation_id
      (commit_checked (user_exists access.subject.id) (stage_event new) >> pure new) db
      (λ e. SameAll-IsSound db _ (add_audit_event-SameAll e db) sound)
      (commit_checked-keeps IsSound (user_exists access.subject.id) (stage_event new) new db
        (λ known. SameAll-IsSound db _ (ground arith) sound) sound)

settle_keys :
    (db : Db) (now k : ℕ) (ms : List MarketingMessage)
    → find? (λ m. m.id == k) ms ≡ none
    → find? (λ m. m.id == k) (map (settle db now) ms) ≡ none
settle_keys db now k [] h = refl
settle_keys db now k (m ∷ ms) h = ground (arith, settle_keys db now k ms)

HasUniqueKeys-settle :
    (db : Db) (now : ℕ) (ms : List MarketingMessage)
    → HasUniqueKeys (λ (m : MarketingMessage). m.id) ms
    → HasUniqueKeys (λ (m : MarketingMessage). m.id) (map (settle db now) ms)
HasUniqueKeys-settle db now [] u = tt
HasUniqueKeys-settle db now (m ∷ ms) u =
    ground (arith, settle_keys db now m.id ms u.0, HasUniqueKeys-settle db now ms u.1)

pub dispatch-IsSound :
    (env : Ambient) (db : Db) → IsSound db → IsSound (dispatch_pending_marketing env db).1
dispatch-IsSound env db sound = subst IsSound (sym (dispatch-settle env db sound.message_keys)) (
    with_messages-IsSound db _
      (HasUniqueKeys-settle db (env.now 0) db.marketing_messages sound.message_keys) sound)
