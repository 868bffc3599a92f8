-- ===== src/Consent/Withdrawals.antt =====
-- The history after `withdraw_all` of services/consent_service.py, src/fleet_management.
use mathlib.Core.Path.{subst}
use fleet_management.Prelude.{
  ℕ, suc, String, ◌≡◌, refl, true, Option, none, some, List, [], ◌∷◌, if◌then◌else◌, find?, select,
  find?-update, arith,
}
use fleet_management.Models.Privacy.{ConsentPurpose, withdrawn, UserConsent}
use fleet_management.Session.{Db, consent_history, Ambient}
use fleet_management.Consent.{
  is_consent, is_granted_of, withdraw_all, revoke_events, revoke_event, withdraw_consent,
}
use fleet_management.Consent.Evidence.{Standing, record_event, replay, replay-append, IsEvidenced}

-- No user has two rows for one purpose (`uq_user_consents_user_purpose`).
abbrev pub OnePerPurpose : List UserConsent → Type 0
OnePerPurpose [] = Unit
OnePerPurpose (c ∷ cs) = (find? (is_consent c.user_id c.purpose) cs ≡ none) × OnePerPurpose cs

-- What the entries of `withdraw_all` add for one pair: the row that they tell of is withdrawn.
withdrawn_standing : ℕ → Option UserConsent → Standing → Standing
withdrawn_standing user_id none acc = acc
withdrawn_standing user_id (some c) acc =
    if is_granted_of user_id c then some (withdrawn, c.policy_version) else acc

is_consent-eq :
    (v : ℕ) (q : ConsentPurpose) (c : UserConsent)
    → is_consent v q c ≡ true
    → (c.user_id ≡ v) × (c.purpose ≡ q)
is_consent-eq v q c h = (ground arith, ground arith)

unmatched_elsewhere :
    (v : ℕ) (q : ConsentPurpose) (c : UserConsent) (cs : List UserConsent)
    → find? (is_consent c.user_id c.purpose) cs ≡ none
    → is_consent v q c ≡ true
    → find? (is_consent v q) cs ≡ none
unmatched_elsewhere v q c cs alone here =
    let (eu, ep) = is_consent-eq v q c here in
    subst (λ k. find? (is_consent k q) cs ≡ none) eu
      (subst (λ r. find? (is_consent c.user_id r) cs ≡ none) ep alone)

replay-revoke_events :
    (env : Ambient) (i now user_id : ℕ) (source : String) (v : ℕ) (q : ConsentPurpose)
    (acc : Standing) (cs : List UserConsent)
    → OnePerPurpose cs
    → replay v q acc (revoke_events env i now source (select (is_granted_of user_id) cs))
      ≡ withdrawn_standing user_id (find? (is_consent v q) cs) acc
unfolding withdrawn_standing
replay-revoke_events env i now user_id source v q acc [] u = refl
replay-revoke_events env i now user_id source v q acc (c ∷ cs) u =
    let event = revoke_event (env.new_id consent_history i) now source c in
    ground (
      arith,
      unmatched_elsewhere v q c cs u.0,
      replay-revoke_events env (suc i) now user_id source v q (record_event v q acc event) cs u.1,
      replay-revoke_events env i now user_id source v q acc cs u.1,
    )

-- Where replaying the history tells the status and version of every consent, and no user has two
-- rows for one purpose, it does so after all consents of a user are withdrawn.
pub withdraw_all-IsEvidenced :
    (env : Ambient) (now user_id : ℕ) (source : String) (db : Db)
    → OnePerPurpose db.user_consents
    → IsEvidenced db
    → IsEvidenced (withdraw_all env now user_id source db).1
unfolding withdraw_all withdrawn_standing
withdraw_all-IsEvidenced env now user_id source db one h v q = ground (
  arith,
  h v q,
  find?-update (is_consent v q) (is_granted_of user_id) (withdraw_consent now source)
      db.user_consents (λ x. refl),
  replay-append v q none db.consent_history
      (revoke_events env 0 now source (select (is_granted_of user_id) db.user_consents)),
  replay-revoke_events env 0 now user_id source v q (replay v q none db.consent_history)
      db.user_consents one,
)
