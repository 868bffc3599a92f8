-- ===== src/System.antt =====
-- The service as a whole: the requests that change the database, one after the other, as a relation
-- between its states (the routes of src/fleet_management/api and the services behind them).
pub mod Frame
pub mod Columns
pub mod Handlers
pub mod Effects
pub mod Sound
pub mod View
pub mod Bystanders
pub mod Refines
pub mod Accounts
pub mod Finality
mod Tests
use fleet_management.Prelude.{ℕ, String, ◌≡◌, Option, none, true, find?, ◌==◌, HasUniqueKeys}
use fleet_management.Models.Account.{User, UserRole}
use fleet_management.Models.Privacy.{ConsentPurpose, MarketingMessage}
use fleet_management.Session.{Db, marketing_messages, rentals, vehicles, Ambient}
use fleet_management.Account.{Passwords, Tokens, create_user, login}
use fleet_management.Registration.{create_station, create_vehicle, create_renter}
use fleet_management.Rental.{start_rental, end_rental, find_rental, find_vehicle}
use fleet_management.Rental.Consistency.{IsConsistent}
use fleet_management.Consent.Evidence.{IsEvidenced}
use fleet_management.Consent.Withdrawals.{OnePerPurpose}
use fleet_management.Erasure.{Randomness, unique_columns_hold}
use fleet_management.Marketing.{dispatch_pending_marketing}
use fleet_management.PrivacyRoutes.{
  route, export_personal_data, anonymize, create_renter_profile, grant_consent, revoke_consent,
  queue_marketing_email, track_analytics_event,
}

abbrev pub find_message : ℕ → Db → Option MarketingMessage
find_message k db = find? (λ m. m.id == k) db.marketing_messages

-- One request or job that runs with nothing beside it. The database gives a new rental, vehicle or
-- message an id that no row has.
module _ (P : Passwords) (T : Tokens) where
  pub data Step (db after : Db) : Type 0 where
    registers :
        (env : Ambient) (salt : ℕ) (email password full_name : String) (role : UserRole)
        (phone : Option String)
        → after ≡ (create_user P env salt email password full_name role phone db).1
        → Step db after
    logs_in :
        (env : Ambient) (expire_minutes : ℕ) (username password : String)
        (ip_address user_agent : Option String)
        → after ≡ (login T P env expire_minutes username password ip_address user_agent db).1
        → Step db after
    adds_station :
        (env : Ambient) (address : String) (capacity : ℕ)
        → after ≡ (create_station env address capacity db).1
        → Step db after
    adds_vehicle :
        (env : Ambient) (license_plate model : String) (station_id : ℕ)
        → find_vehicle (env.new_id vehicles 0) db ≡ none
        → after ≡ (create_vehicle env license_plate model station_id db).1
        → Step db after
    adds_renter :
        (env : Ambient) (full_name license_number : String)
        → after ≡ (create_renter env full_name license_number db).1
        → Step db after
    starts :
        (env : Ambient) (renter_id vehicle_id : ℕ)
        → find_rental (env.new_id rentals 0) db ≡ none
        → after ≡ (start_rental env renter_id vehicle_id db).1
        → Step db after
    ends :
        (env : Ambient) (rental_id station_id : ℕ)
        → after ≡ (end_rental env rental_id station_id db).1
        → Step db after
    links_profile :
        (env : Ambient) (event correlation_id : String) (user_id : ℕ) (actor : User)
        (full_name license_number : String)
        → after
          ≡ (route env event correlation_id user_id actor
              (create_renter_profile env full_name license_number)
              db).1
        → Step db after
    grants :
        (env : Ambient) (event correlation_id : String) (user_id : ℕ) (actor : User)
        (purpose : ConsentPurpose) (version source : String)
        → after
          ≡ (route env event correlation_id user_id actor
              (grant_consent (λ d. d) env purpose version source)
              db).1
        → Step db after
    revokes :
        (env : Ambient) (event correlation_id : String) (user_id : ℕ) (actor : User)
        (purpose : ConsentPurpose) (source : Option String)
        → after
          ≡ (route env event correlation_id user_id actor (revoke_consent env purpose source) db).1
        → Step db after
    exports :
        (env : Ambient) (event correlation_id : String) (user_id : ℕ) (actor : User)
        → after ≡ (route env event correlation_id user_id actor (export_personal_data env) db).1
        → Step db after
    erases :
        (env : Ambient) (rnd : Randomness) (event correlation_id : String) (user_id : ℕ)
        (actor : User)
        → after ≡ (route env event correlation_id user_id actor (anonymize env rnd) db).1
        → Step db after
    queues :
        (env : Ambient) (event correlation_id : String) (user_id : ℕ) (actor : User)
        (campaign : String)
        → find_message (env.new_id marketing_messages 0) db ≡ none
        → after
          ≡ (route env event correlation_id user_id actor (queue_marketing_email env campaign) db).1
        → Step db after
    tracks :
        (env : Ambient) (event correlation_id : String) (user_id : ℕ) (actor : User)
        (event_name : String)
        → after
          ≡ (route env event correlation_id user_id actor
              (track_analytics_event env event_name)
              db).1
        → Step db after
    dispatches : (env : Ambient) → after ≡ (dispatch_pending_marketing env db).1 → Step db after

  -- What requests can make of a state.
  pub data Reach (start : Db) : Db → Type 0 where
    here : Reach start start
    next : {db after : Db} → Reach start db → Step db after → Reach start after

-- What holds between requests: vehicles and rentals agree, each user has one consent for a purpose
-- and the history tells all of them, messages have ids of their own, and the e-mail addresses and
-- the licence numbers are distinct.
pub record IsSound (db : Db) : Type 0 where
  pub consistent : IsConsistent db
  pub one_per_purpose : OnePerPurpose db.user_consents
  pub evidenced : IsEvidenced db
  pub message_keys : HasUniqueKeys (λ (m : MarketingMessage). m.id) db.marketing_messages
  pub unique_columns : unique_columns_hold db ≡ true
