-- ===== src/Export/Erased.antt =====
-- What an export (services/export_service.py of src/fleet_management) shows of an erased account.
use fleet_management.Prelude.{
  ℕ, String, ◌≡◌, refl, ap, Bool, true, false, Option, none, some, List, [], ◌∷◌, map, find?,
  select, count_where, All, order_by, insert_by, leb, ◌==◌, Bool-cases, inl, inr, arith,
}
use fleet_management.Models.Fleet.{Renter}
use fleet_management.Models.Account.{User}
use fleet_management.Models.Privacy.{UserConsent, is_granted}
use fleet_management.Session.{Db, Ambient, ok}
use fleet_management.Consent.{is_granted_of, list_current, purpose_rank}
use fleet_management.Erasure.{
  belongs_to, anonymized_name, Randomness, AnonymizeOutcome, Actions, anonymize_user,
}
use fleet_management.Erasure.Complete.{anonymize_user-IsErased}
use fleet_management.Export.{
  PersonalDataExport, RenterProfileSection, ConsentCurrentItem, consent_item, renter_section,
  build_export, activity_item, marketing_item, analytics_item,
}

module _ {ℓ} {A : Type ℓ} where
  select-empty : (p : A → Bool) (xs : List A) → count_where p xs ≡ 0 → select p xs ≡ []
  select-empty p [] h = refl
  select-empty p (x ∷ xs) h = ground (arith, select-empty p xs)

  All-insert_by :
      (q : A → Bool) (key : A → ℕ) (x : A) (xs : List A)
      → q x ≡ false
      → All (λ y. q y ≡ false) xs
      → All (λ y. q y ≡ false) (insert_by key x xs)
  All-insert_by q key x [] h all = (h, tt)
  All-insert_by q key x (y ∷ ys) h all = elim (Bool-cases (leb (key x) (key y))) [
    | inl first ↦ rw first (h, all)
    | inr later ↦ rw later (all.0, All-insert_by q key x ys h all.1)
  ]

  All-order_by :
      (q : A → Bool) (key : A → ℕ) (xs : List A)
      → All (λ y. q y ≡ false) xs
      → All (λ y. q y ≡ false) (order_by key xs)
  All-order_by q key [] all = tt
  All-order_by q key (x ∷ xs) all =
      All-insert_by q key x (order_by key xs) all.0 (All-order_by q key xs all.1)

none_granted :
    (k : ℕ) (cs : List UserConsent)
    → count_where (is_granted_of k) cs ≡ 0
    → All (λ c. is_granted c.status ≡ false) (select (λ c. c.user_id == k) cs)
none_granted k [] h = tt
none_granted k (c ∷ cs) h = elim (Bool-cases (c.user_id == k)) [
  | inl own ↦ rw own (ground (arith, h), none_granted k cs (ground (arith, h)))
  | inr other ↦ rw other (none_granted k cs (ground (arith, h)))
]

items_withdrawn :
    (cs : List UserConsent)
    → All (λ c. is_granted c.status ≡ false) cs
    → All (λ (c : ConsentCurrentItem). is_granted c.status ≡ false) (map consent_item cs)
items_withdrawn [] all = tt
items_withdrawn (c ∷ cs) all = (all.0, items_withdrawn cs all.1)

-- the name on a renter profile that is shown
abbrev pub HidesName : Option RenterProfileSection → Type 0
HidesName none = Unit
HidesName (some r) = r.full_name ≡ anonymized_name

named_nobody :
    (k : ℕ) (rs : List Renter)
    → All (λ (r : Renter). belongs_to k r ≡ true → r.full_name ≡ anonymized_name) rs
    → HidesName (renter_section (find? (belongs_to k) rs))
named_nobody k [] all = tt
named_nobody k (r ∷ rs) all = elim (Bool-cases (belongs_to k r)) [
  | inl own ↦ rw own (all.0 own)
  | inr other ↦ rw other (named_nobody k rs all.1)
]

-- An export that holds nothing personal but what must be retained.
pub record IsBare (e : PersonalDataExport) : Type 0 where
  pub no_activity : e.activity ≡ []
  pub no_messages : e.marketing_messages ≡ []
  pub no_analytics : e.analytics_events ≡ []
  pub no_name : HidesName e.renter_profile
  pub all_withdrawn :
      All (λ (c : ConsentCurrentItem). is_granted c.status ≡ false) e.consents.current

-- The export of an account that was just erased shows no activity, no marketing message and no
-- analytics event, only withdrawn consents, and no renter's name.
pub build_export-anonymize_user :
    (env : Ambient) (rnd : Randomness) (actor_id : ℕ) (correlation_id : String) (db : Db)
    (out : AnonymizeOutcome) (actions : Actions) (now : ℕ) (subject : User)
    → (anonymize_user env rnd subject.id actor_id correlation_id db).0 ≡ ok out
    → out.actions ≡ some actions
    → IsBare
        (build_export now subject (anonymize_user env rnd subject.id actor_id correlation_id db).1)
unfolding build_export list_current
build_export-anonymize_user env rnd actor_id correlation_id db out actions now subject done acted =
    let after = (anonymize_user env rnd subject.id actor_id correlation_id db).1 in
    let gone =
      anonymize_user-IsErased env rnd subject.id actor_id correlation_id db out actions done
        acted in
    record {
      no_activity =
          ap (λ rows. map activity_item (order_by (λ a. a.id) rows))
            (select-empty (λ a. a.user_id == subject.id) after.user_activity gone.no_activity);
      no_messages =
          ap (λ rows. map marketing_item (order_by (λ m. m.id) rows))
            (select-empty (λ m. m.user_id == subject.id) after.marketing_messages gone.no_messages);
      no_analytics =
          ap (λ rows. map analytics_item (order_by (λ e. e.id) rows))
            (select-empty (λ e. e.user_id == subject.id) after.analytics_events gone.no_analytics);
      no_name = named_nobody subject.id after.renters gone.no_names;
      all_withdrawn = items_withdrawn (list_current subject.id after) (
          All-order_by (λ c. is_granted c.status) (λ c. purpose_rank c.purpose)
            (select (λ c. c.user_id == subject.id) after.user_consents)
            (none_granted subject.id after.user_consents gone.no_grants));
    }
