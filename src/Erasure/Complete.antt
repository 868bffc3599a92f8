-- ===== src/Erasure/Complete.antt =====
-- What an erasure (services/erasure_service.py of src/fleet_management) leaves of its subject.
use mathlib.Core.Path.{subst}
use fleet_management.Prelude.{
  ℕ, String, ◌≡◌, refl, sym, Bool, true, false, none, some, List, [], ◌∷◌, update_where,
  delete_where, count_where, All, ◌==◌, find?-update_self, find?-satisfies, Bool-cases, inl, inr,
  arith,
}
use fleet_management.Models.Fleet.{Renter}
use fleet_management.Models.Account.{User}
use fleet_management.Models.Privacy.{UserConsent, UserActivity, MarketingMessage, AnalyticsEvent}
use fleet_management.Session.{Db, Ambient, Result, ok}
use fleet_management.Consent.{is_granted_of, withdraw_consent, withdraw_all}
use fleet_management.Erasure.{
  Randomness, AnonymizeOutcome, Actions, anonymize_user, anonymize_user_row, anonymize_renter_row,
  anonymized_name, belongs_to, erase, stage_erasure,
}
use fleet_management.Erasure.Outcome.{
  find_user, Erasing, rejected, repeated, erased, anonymize_outcome,
}

-- Nothing of a user's personal data is left, and no consent stands.
pub record IsErased (user_id : ℕ) (db : Db) : Type 0 where
  pub no_activity : count_where (λ a. a.user_id == user_id) db.user_activity ≡ 0
  pub no_messages : count_where (λ m. m.user_id == user_id) db.marketing_messages ≡ 0
  pub no_analytics : count_where (λ e. e.user_id == user_id) db.analytics_events ≡ 0
  pub no_grants : count_where (is_granted_of user_id) db.user_consents ≡ 0
  pub no_names :
      All (λ (r : Renter). belongs_to user_id r ≡ true → r.full_name ≡ anonymized_name) db.renters
  pub closed :
      (u : User)
      → find_user user_id db ≡ some u
      → (u.is_active ≡ false) × (u.phone ≡ none) × (u.full_name ≡ anonymized_name)

count-delete {ℓ} : {A : Type ℓ} (p : A → Bool) (xs : List A) → count_where p (delete_where p xs) ≡ 0
count-delete p [] = refl
count-delete p (x ∷ xs) = ground (arith, count-delete p xs)

count-withdrawn :
    (now user_id : ℕ) (source : String) (cs : List UserConsent)
    → count_where
        (is_granted_of user_id)
        (update_where (is_granted_of user_id) (withdraw_consent now source) cs)
      ≡ 0
count-withdrawn now user_id source [] = refl
count-withdrawn now user_id source (c ∷ cs) = ground (arith, count-withdrawn now user_id source cs)

names_gone :
    (rnd : Randomness) (user_id : ℕ) (rs : List Renter)
    → All
        (λ (r : Renter). belongs_to user_id r ≡ true → r.full_name ≡ anonymized_name)
        (update_where (belongs_to user_id) (anonymize_renter_row rnd) rs)
names_gone rnd user_id [] = tt
names_gone rnd user_id (r ∷ rs) = elim (Bool-cases (belongs_to user_id r)) [
  | inl own ↦ rw own (λ _. refl, names_gone rnd user_id rs)
  | inr other ↦ rw other ((λ own. cc), names_gone rnd user_id rs)
]

erase-IsErased :
    (env : Ambient) (rnd : Randomness) (now user_id : ℕ) (db : Db) (u : User)
    → find_user user_id db ≡ some u
    → IsErased user_id (erase env rnd now user_id db).1
unfolding erase withdraw_all
erase-IsErased env rnd now user_id db u found = record {
  no_activity = count-delete (λ (a : UserActivity). a.user_id == user_id) db.user_activity;
  no_messages = count-delete (λ (m : MarketingMessage). m.user_id == user_id) db.marketing_messages;
  no_analytics = count-delete (λ (e : AnalyticsEvent). e.user_id == user_id) db.analytics_events;
  no_grants = count-withdrawn (env.now 1) user_id "erasure" db.user_consents;
  no_names = names_gone rnd user_id db.renters;
  closed = λ v e. ground (
    arith,
    find?-update_self (λ (w : User). w.id) (anonymize_user_row rnd now) (λ w. refl) user_id db.users
        u,
  );
}

pub own_id : (k : ℕ) (db : Db) (u : User) → find_user k db ≡ some u → u.id ≡ k
own_id k db u found = ground (arith, find?-satisfies (λ (w : User). w.id == k) db.users u found)

Erasing-IsErased :
    (env : Ambient) (rnd : Randomness) (subject_id actor_id : ℕ) (correlation_id : String) (db : Db)
    (out : AnonymizeOutcome) (actions : Actions) (o : Result AnonymizeOutcome × Db)
    → Erasing env rnd subject_id actor_id correlation_id db o
    → o.0 ≡ ok out
    → out.actions ≡ some actions
    → IsErased subject_id o.1
Erasing-IsErased env rnd subject_id actor_id correlation_id db out actions o (rejected e) done
      acted =
    cc
Erasing-IsErased env rnd subject_id actor_id correlation_id db out actions o
      (repeated u t found before) done acted =
    cc
Erasing-IsErased env rnd subject_id actor_id correlation_id db out actions o
      (erased u found first hold) done acted =
    let e : u.id ≡ subject_id = own_id subject_id db u found in
    let gone = erase-IsErased env rnd (env.now 0) subject_id db u found in
    subst (λ k. IsErased subject_id (stage_erasure env rnd k actor_id correlation_id db)) (sym e)
      (record {
        no_activity = gone.no_activity;
        no_messages = gone.no_messages;
        no_analytics = gone.no_analytics;
        no_grants = gone.no_grants;
        no_names = gone.no_names;
        closed = gone.closed;
      })

-- An erasure that reports its actions has deleted the subject's activity, marketing messages and
-- analytics events, withdrawn every consent, replaced the name on each renter row, and closed the
-- account, without its name and phone number.
pub anonymize_user-IsErased :
    (env : Ambient) (rnd : Randomness) (subject_id actor_id : ℕ) (correlation_id : String) (db : Db)
    (out : AnonymizeOutcome) (actions : Actions)
    → (anonymize_user env rnd subject_id actor_id correlation_id db).0 ≡ ok out
    → out.actions ≡ some actions
    → IsErased subject_id (anonymize_user env rnd subject_id actor_id correlation_id db).1
anonymize_user-IsErased env rnd subject_id actor_id correlation_id db out actions =
    Erasing-IsErased env rnd subject_id actor_id correlation_id db out actions _
      (anonymize_outcome env rnd subject_id actor_id correlation_id db)
