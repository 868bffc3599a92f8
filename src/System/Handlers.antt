-- ===== src/System/Handlers.antt =====
-- What the routes of api/privacy.py, src/fleet_management, and the handlers behind them do to a
-- sound database.
use mathlib.Core.Path.{subst}
use fleet_management.Prelude.{
  ℕ, String, ◌≡◌, refl, sym, Option, none, some, [], ◌∷◌, ◌++◌, find?, if◌then◌else◌, str_eq,
  HasUniqueKeys, Bool-cases, inl, inr, arith,
}
use fleet_management.Models.Fleet.{Renter}
use fleet_management.Models.Account.{User}
use fleet_management.Models.Privacy.{ConsentPurpose, MarketingMessage, AuditEvent}
use fleet_management.Session.{Db, Ambient, Action, Result, ok, err, pure, ◌>>=◌}
use fleet_management.Audit.{add_audit_event}
use fleet_management.Consent.{ConsentChange, grant, revoke}
use fleet_management.Consent.Outcome.{
  Granting, already, renewed, created, refused, grant_outcome, Revoking, no_consent, inactive,
  revoked, revoke_outcome,
}
use fleet_management.Consent.Evidence.{IsEvidenced, grant-IsEvidenced, revoke-IsEvidenced}
use fleet_management.Consent.Withdrawals.{OnePerPurpose}
use fleet_management.Consent.Keys.{grant-OnePerPurpose, revoke-OnePerPurpose}
use fleet_management.PrivacyRoutes.{
  SubjectAccess, Handler, is_allowed, find_subject, access_to, subject_access, route,
  create_renter_profile, new_profile, profile_fits, grant_consent, revoke_consent,
}
use fleet_management.System.{IsSound}
use fleet_management.System.Frame.{
  SameFleet, SameColumns, SameMessages, SameAll, SameFleet-IsConsistent,
  SameColumns-unique_columns_hold,
}
use fleet_management.System.Columns.{insert_renter}

-- Neither audit entries nor the rows that hold no more than one's own data matter.
pub add_audit_event-SameAll : (e : AuditEvent) (db : Db) → SameAll db (add_audit_event e db)
add_audit_event-SameAll e db = ground arith

-- A route keeps what its handler and an audit entry keep.
pub route-keeps :
    {A : Type 0} (Q : Db → Type 0) (env : Ambient) (event correlation_id : String) (user_id : ℕ)
    (actor : User) (handler : Handler A) (db : Db)
    → ((e : AuditEvent) → Q (add_audit_event e db))
    → ((access : SubjectAccess) → Q (handler access db).1)
    → Q (route env event correlation_id user_id actor handler db).1
unfolding subject_access
route-keeps {A} Q env event correlation_id user_id actor handler db audited handled =
    reached (if is_allowed actor user_id then find_subject user_id db else none)
  where
    answered : (o : Result A × Db) → Q o.1 → Q o.1
    answered o q = q

    reached :
        (o : Option User)
        → Q
            ((access_to env event correlation_id user_id actor (is_allowed actor user_id) o
                >>= handler)
              db).1
    reached none = audited _
    reached (some subject) = handled _

pub insert_renter-IsSound :
    (db : Db) (r : Renter)
    → find? (λ x. str_eq x.license_number r.license_number) db.renters ≡ none
    → IsSound db
    → IsSound (record db { renters = db.renters ++ r ∷ [] })
insert_renter-IsSound db r unused sound = record {
  consistent =
      SameFleet-IsConsistent db _ (record { vehicles = refl; rentals = refl }) sound.consistent;
  one_per_purpose = sound.one_per_purpose;
  evidenced = sound.evidenced;
  message_keys = sound.message_keys;
  unique_columns = insert_renter db r sound.unique_columns unused;
}

pub create_renter_profile-IsSound :
    (env : Ambient) (full_name license_number : String) (access : SubjectAccess) (db : Db)
    → IsSound db
    → IsSound (create_renter_profile env full_name license_number access db).1
unfolding create_renter_profile
create_renter_profile-IsSound env full_name license_number access db sound =
    elim (Bool-cases (profile_fits access.subject.id license_number db)) [
      | inr taken ↦ rw taken sound
      | inl fits ↦
          let new = new_profile env access.subject.id full_name license_number in
          let unused : find? (λ r. str_eq r.license_number license_number) db.renters ≡ none =
            ground (arith, fits) in
          rw fits (insert_renter-IsSound db new unused sound)
    ]

-- The part of a sound database that consents have no share in.
abbrev pub SameRest : Db → Db → Type 0
SameRest db after = SameFleet db after × SameColumns db after × SameMessages db after

pub Granting-SameRest :
    (env : Ambient) (user_id : ℕ) (purpose : ConsentPurpose) (version source : String) (db : Db)
    (o : Result ConsentChange × Db)
    → Granting env user_id purpose version source db o
    → SameRest db o.1
Granting-SameRest env user_id purpose version source db o (already c found same) = ground arith
Granting-SameRest env user_id purpose version source db o (renewed c found other) = ground arith
Granting-SameRest env user_id purpose version source db o (created missing known) = ground arith
Granting-SameRest env user_id purpose version source db o (refused missing unknown) = ground arith

pub Revoking-SameRest :
    (env : Ambient) (user_id : ℕ) (purpose : ConsentPurpose) (source : String) (db : Db)
    (o : Result ConsentChange × Db)
    → Revoking env user_id purpose source db o
    → SameRest db o.1
Revoking-SameRest env user_id purpose source db o (no_consent missing) = ground arith
Revoking-SameRest env user_id purpose source db o (inactive c found gone) = ground arith
Revoking-SameRest env user_id purpose source db o (revoked c found live) = ground arith

SameRest-IsSound :
    (db after : Db)
    → SameRest db after
    → OnePerPurpose after.user_consents
    → IsEvidenced after
    → IsSound db
    → IsSound after
SameRest-IsSound db after rest one told sound = record {
  consistent = SameFleet-IsConsistent db after rest.0 sound.consistent;
  one_per_purpose = one;
  evidenced = told;
  message_keys =
      subst (HasUniqueKeys (λ (m : MarketingMessage). m.id)) (sym rest.2) sound.message_keys;
  unique_columns = SameColumns-unique_columns_hold db after rest.1 sound.unique_columns;
}

-- A handler that only reshapes the answer.
pub answered-keeps :
    {A B : Type 0} (Q : Db → Type 0) (m : Action A) (f : A → B) (db : Db)
    → Q (m db).1
    → Q ((m >>= λ a. pure (f a)) db).1
answered-keeps {A} {B} Q m f db q = by_answer (m db) q
  where
    by_answer :
        (o : Result A × Db)
        → Q o.1
        → Q (elim o.0 as (λ _. Result B × Db) [ ok a ↦ (ok (f a), o.1) | err e ↦ (err e, o.1) ]).1
    by_answer (ok a, d) q = q
    by_answer (err e, d) q = q

pub grant_consent-IsSound :
    (env : Ambient) (purpose : ConsentPurpose) (version source : String) (access : SubjectAccess)
    (db : Db)
    → IsSound db
    → IsSound (grant_consent (λ d. d) env purpose version source access db).1
unfolding grant_consent
grant_consent-IsSound env purpose version source access db sound =
    let user_id = access.subject.id in
    answered-keeps IsSound (grant (λ d. d) env user_id purpose version source) _ db (
      SameRest-IsSound db _
        (Granting-SameRest env user_id purpose version source db _
          (grant_outcome env user_id purpose version source db))
        (grant-OnePerPurpose env user_id purpose version source db sound.one_per_purpose)
        (grant-IsEvidenced env user_id purpose version source db sound.evidenced) sound)

pub revoke_consent-IsSound :
    (env : Ambient) (purpose : ConsentPurpose) (source : Option String) (access : SubjectAccess)
    (db : Db)
    → IsSound db
    → IsSound (revoke_consent env purpose source access db).1
unfolding revoke_consent
revoke_consent-IsSound env purpose source access db sound =
    let user_id = access.subject.id in
    let text = elim source as (λ _. String) [ none ↦ "api" | some s ↦ s ] in
    answered-keeps IsSound (revoke env user_id purpose text) _ db (
      SameRest-IsSound db _
        (Revoking-SameRest env user_id purpose text db _
          (revoke_outcome env user_id purpose text db))
        (revoke-OnePerPurpose env user_id purpose text db sound.one_per_purpose)
        (revoke-IsEvidenced env user_id purpose text db sound.evidenced) sound)
