-- ===== src/System/Frame.antt =====
-- Which tables a request leaves as they are (the services of src/fleet_management).
use mathlib.Core.Path.{subst}
use fleet_management.Prelude.{
  ℕ, String, ◌≡◌, refl, sym, true, Option, none, some, arith, HasUniqueKeys,
}
use fleet_management.Models.Fleet.{Vehicle, Rental}
use fleet_management.Models.Account.{User, UserRole}
use fleet_management.Models.Privacy.{MarketingMessage}
use fleet_management.Session.{Db, Ambient}
use fleet_management.Account.{Passwords, Tokens, create_user, login, login_as, authenticate}
use fleet_management.Registration.{create_station}
use fleet_management.Rental.Consistency.{IsConsistent}
use fleet_management.Consent.Evidence.{IsEvidenced}
use fleet_management.Consent.Withdrawals.{OnePerPurpose}
use fleet_management.Erasure.{unique_columns_hold}
use fleet_management.System.{IsSound}

pub record SameFleet (db after : Db) : Type 0 where
  pub vehicles : after.vehicles ≡ db.vehicles
  pub rentals : after.rentals ≡ db.rentals

pub record SameConsents (db after : Db) : Type 0 where
  pub user_consents : after.user_consents ≡ db.user_consents
  pub consent_history : after.consent_history ≡ db.consent_history

pub record SameColumns (db after : Db) : Type 0 where
  pub users : after.users ≡ db.users
  pub renters : after.renters ≡ db.renters

abbrev pub SameMessages : Db → Db → Type 0
SameMessages db after = after.marketing_messages ≡ db.marketing_messages

pub SameFleet-IsConsistent :
    (db after : Db) → SameFleet db after → IsConsistent db → IsConsistent after
SameFleet-IsConsistent db after same c = record {
  vehicle_keys = subst (HasUniqueKeys (λ (v : Vehicle). v.id)) (sym same.vehicles) c.vehicle_keys;
  rental_keys = subst (HasUniqueKeys (λ (r : Rental). r.id)) (sym same.rentals) c.rental_keys;
  one_rental = λ k. rw same.vehicles (rw same.rentals (c.one_rental k));
}

pub SameConsents-IsEvidenced :
    (db after : Db) → SameConsents db after → IsEvidenced db → IsEvidenced after
SameConsents-IsEvidenced db after same told user_id purpose =
    rw same.user_consents (rw same.consent_history (told user_id purpose))

pub SameColumns-unique_columns_hold :
    (db after : Db)
    → SameColumns db after
    → unique_columns_hold db ≡ true
    → unique_columns_hold after ≡ true
unfolding unique_columns_hold
SameColumns-unique_columns_hold db after same unique = rw same.users (rw same.renters unique)

-- what a request that changes none of these tables leaves
pub record SameAll (db after : Db) : Type 0 where
  pub fleet : SameFleet db after
  pub consents : SameConsents db after
  pub columns : SameColumns db after
  pub messages : SameMessages db after

pub SameAll-IsSound : (db after : Db) → SameAll db after → IsSound db → IsSound after
SameAll-IsSound db after same sound = record {
  consistent = SameFleet-IsConsistent db after same.fleet sound.consistent;
  one_per_purpose = subst OnePerPurpose (sym same.consents.user_consents) sound.one_per_purpose;
  evidenced = SameConsents-IsEvidenced db after same.consents sound.evidenced;
  message_keys =
      subst (HasUniqueKeys (λ (m : MarketingMessage). m.id)) (sym same.messages) sound.message_keys;
  unique_columns = SameColumns-unique_columns_hold db after same.columns sound.unique_columns;
}

pub login-SameAll :
    (T : Tokens) (P : Passwords) (env : Ambient) (expire_minutes : ℕ) (username password : String)
    (ip_address user_agent : Option String) (db : Db)
    → SameAll db (login T P env expire_minutes username password ip_address user_agent db).1
unfolding login
login-SameAll T P env expire_minutes username password ip_address user_agent db =
    kept (authenticate P username password db)
  where
    kept :
        (u : Option User) → SameAll db (login_as T env expire_minutes ip_address user_agent u db).1
    kept none = record {
      fleet = record { vehicles = refl; rentals = refl };
      consents = record { user_consents = refl; consent_history = refl };
      columns = record { users = refl; renters = refl };
      messages = refl;
    }
    kept (some u) = record {
      fleet = record { vehicles = refl; rentals = refl };
      consents = record { user_consents = refl; consent_history = refl };
      columns = record { users = refl; renters = refl };
      messages = refl;
    }

pub create_station-SameAll :
    (env : Ambient) (address : String) (capacity : ℕ) (db : Db)
    → SameAll db (create_station env address capacity db).1
unfolding create_station
create_station-SameAll env address capacity db = ground arith

pub create_user-SameFleet :
    (P : Passwords) (env : Ambient) (salt : ℕ) (email password full_name : String) (role : UserRole)
    (phone : Option String) (db : Db)
    → SameFleet db (create_user P env salt email password full_name role phone db).1
unfolding create_user
create_user-SameFleet P env salt email password full_name role phone db = ground arith

pub create_user-SameConsents :
    (P : Passwords) (env : Ambient) (salt : ℕ) (email password full_name : String) (role : UserRole)
    (phone : Option String) (db : Db)
    → SameConsents db (create_user P env salt email password full_name role phone db).1
      × SameMessages db (create_user P env salt email password full_name role phone db).1
unfolding create_user
create_user-SameConsents P env salt email password full_name role phone db = ground arith
