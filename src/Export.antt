-- ===== src/Export.antt =====
-- The export of a subject's personal data: src/fleet_management/services/export_service.py with the
-- sections of src/fleet_management/schemas_privacy.py. A moment that is printed is in milliseconds.
pub mod Erased
mod Tests
use fleet_management.Prelude.{
  ℕ, ◌/◌, String, Bool, Option, none, some, List, [], ◌∷◌, map, find?, select, order_by, is_some,
  ◌==◌,
}
use fleet_management.Models.Fleet.{Renter, Rental, RentalStatus}
use fleet_management.Models.Account.{User, UserRole}
use fleet_management.Models.Privacy.{
  ConsentPurpose, ConsentStatus, ConsentAction, UserConsent, ConsentHistory, UserActivity,
  MarketingMessage, MarketingStatus, AnalyticsEvent,
}
use fleet_management.Session.{Db}
use fleet_management.Consent.{list_current, list_history}
use fleet_management.Erasure.{belongs_to}

pub record ProfileSection : Type 0 where
  pub id : ℕ
  pub email : String
  pub full_name : String
  pub phone : Option String
  pub created_at : ℕ

pub record SettingsSection : Type 0 where
  pub role : UserRole
  pub is_active : Bool
  pub anonymized : Bool

pub record RenterProfileSection : Type 0 where
  pub id : ℕ
  pub full_name : String
  pub license_number : String

pub record ActivityItem : Type 0 where
  pub action : String
  pub occurred_at : ℕ
  pub ip_address : Option String
  pub user_agent : Option String

pub record RentalItem : Type 0 where
  pub id : ℕ
  pub vehicle_id : ℕ
  pub start_station_id : ℕ
  pub end_station_id : Option ℕ
  pub started_at : ℕ
  pub ended_at : Option ℕ
  pub status : RentalStatus

pub record ConsentCurrentItem : Type 0 where
  pub purpose : ConsentPurpose
  pub status : ConsentStatus
  pub policy_version : String
  pub granted_at : Option ℕ
  pub withdrawn_at : Option ℕ
  pub updated_at : ℕ
  pub source : String

pub record ConsentHistoryItem : Type 0 where
  pub purpose : ConsentPurpose
  pub action : ConsentAction
  pub policy_version : String
  pub source : String
  pub occurred_at : ℕ

pub record ConsentsSection : Type 0 where
  pub current : List ConsentCurrentItem
  pub history : List ConsentHistoryItem

pub record MarketingItem : Type 0 where
  pub campaign : String
  pub status : MarketingStatus
  pub created_at : ℕ
  pub processed_at : Option ℕ

pub record AnalyticsItem : Type 0 where
  pub event_name : String
  pub occurred_at : ℕ

pub record Omission : Type 0 where
  pub category : String
  pub reason : String

pub record PersonalDataExport : Type 0 where
  pub schema_version : String
  pub generated_at : ℕ
  pub subject_id : ℕ
  pub data_categories : List String
  pub profile : ProfileSection
  pub settings : SettingsSection
  pub renter_profile : Option RenterProfileSection
  pub activity : List ActivityItem
  pub rentals : List RentalItem
  pub consents : ConsentsSection
  pub marketing_messages : List MarketingItem
  pub analytics_events : List AnalyticsItem
  pub omissions : List Omission

abbrev pub data_categories : List String
data_categories =
    "profile" ∷ "settings" ∷ "renter_profile" ∷ "activity" ∷ "rentals" ∷ "consents"
    ∷ "marketing_messages" ∷ "analytics_events" ∷ []

abbrev pub omissions : List Omission
omissions =
    record {
      category = "credentials";
      reason = "Password hash and tokens are security data, not personal data of the subject.";
    }
    ∷ record {
      category = "telemetry";
      reason = "Vehicle telemetry describes vehicles and is not linked to a subject.";
    }
    ∷ record {
      category = "audit_events";
      reason = "Audit trail holds only ids and results, kept for accountability.";
    }
    ∷ []

abbrev pub profile_section : User → ProfileSection
profile_section u = record {
  id = u.id;
  email = u.email;
  full_name = u.full_name;
  phone = u.phone;
  created_at = u.created_at;
}

abbrev pub settings_section : User → SettingsSection
settings_section u = record {
  role = u.role;
  is_active = u.is_active;
  anonymized = is_some u.anonymized_at;
}

abbrev pub renter_section : Option Renter → Option RenterProfileSection
renter_section none = none
renter_section (some r) =
    some (record { id = r.id; full_name = r.full_name; license_number = r.license_number })

abbrev pub activity_item : UserActivity → ActivityItem
activity_item a = record {
  action = a.action;
  occurred_at = a.occurred_at;
  ip_address = a.ip_address;
  user_agent = a.user_agent;
}

abbrev pub rental_item : Rental → RentalItem
rental_item r = record {
  id = r.id;
  vehicle_id = r.vehicle_id;
  start_station_id = r.start_station_id;
  end_station_id = r.end_station_id;
  started_at = r.started_at;
  ended_at = r.ended_at;
  status = r.status;
}

abbrev pub consent_item : UserConsent → ConsentCurrentItem
consent_item c = record {
  purpose = c.purpose;
  status = c.status;
  policy_version = c.policy_version;
  granted_at = c.granted_at;
  withdrawn_at = c.withdrawn_at;
  updated_at = c.updated_at;
  source = c.source;
}

abbrev pub history_item : ConsentHistory → ConsentHistoryItem
history_item h = record {
  purpose = h.purpose;
  action = h.action;
  policy_version = h.policy_version;
  source = h.source;
  occurred_at = h.occurred_at;
}

abbrev pub marketing_item : MarketingMessage → MarketingItem
marketing_item m = record {
  campaign = m.campaign;
  status = m.status;
  created_at = m.created_at;
  processed_at = m.processed_at;
}

abbrev pub analytics_item : AnalyticsEvent → AnalyticsItem
analytics_item e = record { event_name = e.event_name; occurred_at = e.occurred_at }

abbrev pub rentals_of_renter : Option Renter → Db → List Rental
rentals_of_renter none db = []
rentals_of_renter (some renter) db =
    order_by (λ r. r.id) (select (λ r. r.renter_id == renter.id) db.rentals)

unfoldable pub build_export : ℕ → User → Db → PersonalDataExport
build_export now subject db =
    let renter = find? (belongs_to subject.id) db.renters in
    record {
      schema_version = "1.0";
      generated_at = now / 1000;
      subject_id = subject.id;
      data_categories = data_categories;
      profile = profile_section subject;
      settings = settings_section subject;
      renter_profile = renter_section renter;
      activity =
          map activity_item
            (order_by (λ a. a.id) (select (λ a. a.user_id == subject.id) db.user_activity));
      rentals = map rental_item (rentals_of_renter renter db);
      consents = record {
        current = map consent_item (list_current subject.id db);
        history = map history_item (list_history subject.id db);
      };
      marketing_messages =
          map marketing_item
            (order_by (λ m. m.id) (select (λ m. m.user_id == subject.id) db.marketing_messages));
      analytics_events =
          map analytics_item
            (order_by (λ e. e.id) (select (λ e. e.user_id == subject.id) db.analytics_events));
      omissions = omissions;
    }
