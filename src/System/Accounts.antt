-- ===== src/System/Accounts.antt =====
-- What the requests of src/fleet_management leave of the row of an account that was anonymized.
use mathlib.Core.Path.{subst}
use fleet_management.Prelude.{
  ℕ, String, ◌≡◌, ◌≢◌, sym, ◌∙◌, Option, none, some, [], ◌∷◌, find?-append, ◌==◌, arith,
}
use fleet_management.Models.Account.{User, UserRole}
use fleet_management.Models.Privacy.{ConsentPurpose, marketing_email, optional_analytics}
use fleet_management.Session.{Db, Ambient, Result, commit_checked, pure, ◌>>◌}
use fleet_management.Account.{Passwords, create_user, new_user}
use fleet_management.Registration.{create_renter, new_renter, stage_renter, license_free}
use fleet_management.Marketing.{
  new_message, stage_message, new_event, stage_event, enqueue_marketing_email,
  record_analytics_event, dispatch_pending_marketing,
}
use fleet_management.Consent.{grant, revoke, user_exists}
use fleet_management.Consent.Outcome.{grant_outcome, revoke_outcome}
use fleet_management.Erasure.{Randomness, AnonymizeOutcome}
use fleet_management.Erasure.Outcome.{
  find_user, Erasing, rejected, repeated, erased, anonymize_outcome,
}
use fleet_management.Erasure.Others.{stage_erasure-Untouched}
use fleet_management.Erasure.Complete.{own_id}
use fleet_management.PrivacyRoutes.{
  SubjectAccess, export_personal_data, anonymize, create_renter_profile, grant_consent,
  revoke_consent, queue_marketing_email, track_analytics_event,
}
use fleet_management.System.Frame.{SameColumns}
use fleet_management.System.Columns.{commit_checked-keeps}
use fleet_management.System.Handlers.{answered-keeps, Granting-SameRest, Revoking-SameRest}
use fleet_management.System.Effects.{require_consent-keeps}

-- The row of an account that was anonymized at `t`.
module _ (k t : ℕ) (u : User) (gone : u.anonymized_at ≡ some t) where
  abbrev pub Stays : Db → Type 0
  Stays db = find_user k db ≡ some u

  pub same_users : (db after : Db) → SameColumns db after → Stays db → Stays after
  same_users db after same stays = rw same.users stays

  pub create_user-Stays :
      (P : Passwords) (env : Ambient) (salt : ℕ) (email password full_name : String)
      (role : UserRole) (phone : Option String) (db : Db)
      → Stays db
      → Stays (create_user P env salt email password full_name role phone db).1
  unfolding create_user
  create_user-Stays P env salt email password full_name role phone db stays = ground (
    arith,
    stays,
    find?-append (λ (w : User). w.id == k) db.users
        (new_user P env salt email password full_name role phone ∷ []),
  )

  pub create_renter-Stays :
      (env : Ambient) (full_name license_number : String) (db : Db)
      → Stays db
      → Stays (create_renter env full_name license_number db).1
  unfolding create_renter
  create_renter-Stays env full_name license_number db stays =
      let new = new_renter env full_name license_number in
      commit_checked-keeps Stays (license_free license_number) (stage_renter new) new db
        (λ free. stays) stays

  Erasing-Stays :
      (env : Ambient) (rnd : Randomness) (subject_id actor_id : ℕ) (correlation_id : String)
      (db : Db) (o : Result AnonymizeOutcome × Db)
      → Erasing env rnd subject_id actor_id correlation_id db o
      → Stays db
      → Stays o.1
  Erasing-Stays env rnd subject_id actor_id correlation_id db o (rejected e) stays = stays
  Erasing-Stays env rnd subject_id actor_id correlation_id db o (repeated w s found before) stays =
      stays
  Erasing-Stays env rnd subject_id actor_id correlation_id db o (erased w found first hold) stays =
      (stage_erasure-Untouched env rnd w.id k actor_id correlation_id db other).account ∙ stays
    where
      own : find_user w.id db ≡ some w
      own = subst (λ j. find_user j db ≡ some w) (sym (own_id subject_id db w found)) found

      other : k ≢ w.id
      other e =
          let both : find_user k db ≡ some w = subst (λ j. find_user j db ≡ some w) (sym e) own in
          cc (both, stays, first, gone)

  module _ (env : Ambient) (access : SubjectAccess) (db : Db) (stays : Stays db) where
    pub create_renter_profile-Stays :
        (full_name license_number : String)
        → Stays (create_renter_profile env full_name license_number access db).1
    unfolding create_renter_profile
    create_renter_profile-Stays full_name license_number = ground (arith, stays)

    pub grant_consent-Stays :
        (purpose : ConsentPurpose) (version source : String)
        → Stays (grant_consent (λ d. d) env purpose version source access db).1
    unfolding grant_consent
    grant_consent-Stays purpose version source =
        let user_id = access.subject.id in
        answered-keeps Stays (grant (λ d. d) env user_id purpose version source) _ db (
          same_users db _
            (Granting-SameRest env user_id purpose version source db _
              (grant_outcome env user_id purpose version source db)).1
            stays)

    pub revoke_consent-Stays :
        (purpose : ConsentPurpose) (source : Option String)
        → Stays (revoke_consent env purpose source access db).1
    unfolding revoke_consent
    revoke_consent-Stays purpose source =
        let user_id = access.subject.id in
        let text = elim source as (λ _. String) [ none ↦ "api" | some s ↦ s ] in
        answered-keeps Stays (revoke env user_id purpose text) _ db (
          same_users db _
            (Revoking-SameRest env user_id purpose text db _
              (revoke_outcome env user_id purpose text db)).1
            stays)

    pub export_personal_data-Stays : Stays (export_personal_data env access db).1
    unfolding export_personal_data
    export_personal_data-Stays = stays

    pub anonymize-Stays : (rnd : Randomness) → Stays (anonymize env rnd access db).1
    unfolding anonymize
    anonymize-Stays rnd =
        Erasing-Stays env rnd access.subject.id access.actor.id access.correlation_id db _
          (anonymize_outcome env rnd access.subject.id access.actor.id access.correlation_id db)
          stays

    pub queue_marketing_email-Stays :
        (campaign : String) → Stays (queue_marketing_email env campaign access db).1
    unfolding queue_marketing_email enqueue_marketing_email
    queue_marketing_email-Stays campaign =
        let new = new_message env access.subject.id campaign in
        require_consent-keeps Stays env access.subject.id marketing_email access.actor.id
          access.correlation_id
          (commit_checked (user_exists access.subject.id) (stage_message new) >> pure new) db
          (λ e. stays)
          (commit_checked-keeps Stays (user_exists access.subject.id) (stage_message new) new db
            (λ known. stays) stays)

    pub track_analytics_event-Stays :
        (event_name : String) → Stays (track_analytics_event env event_name access db).1
    unfolding track_analytics_event record_analytics_event
    track_analytics_event-Stays event_name =
        let new = new_event env access.subject.id event_name in
        require_consent-keeps Stays env access.subject.id optional_analytics access.actor.id
          access.correlation_id
          (commit_checked (user_exists access.subject.id) (stage_event new) >> pure new) db
          (λ e. stays)
          (commit_checked-keeps Stays (user_exists access.subject.id) (stage_event new) new db
            (λ known. stays) stays)

  pub dispatch-Stays :
      (env : Ambient) (db : Db) → Stays db → Stays (dispatch_pending_marketing env db).1
  unfolding dispatch_pending_marketing
  dispatch-Stays env db stays = stays
