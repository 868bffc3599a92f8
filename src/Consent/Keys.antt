-- ===== src/Consent/Keys.antt =====
-- The unique constraint of the consents, and two first grants at once: `grant`, `revoke` and
-- `withdraw_all` of services/consent_service.py, src/fleet_management.
use fleet_management.Prelude.{
  ℕ, String, ◌≡◌, refl, Bool, true, false, none, some, List, [], ◌∷◌, ◌++◌, find?, update_where,
  find?-update, find?-append, if◌then◌else◌, arith,
}
use fleet_management.Models.Privacy.{ConsentPurpose, UserConsent}
use fleet_management.Session.{Db, Ambient, Result}
use fleet_management.Consent.{
  ConsentChange, grant_from, get_current, is_consent, is_granted_of, second_try, grant, revoke,
  withdraw_all, renew_consent, withdraw_consent, new_consent,
}
use fleet_management.Consent.Outcome.{
  Granting, already, renewed, created, refused, grant_outcome, Revoking, no_consent, inactive,
  revoked, revoke_outcome,
}
use fleet_management.Consent.Withdrawals.{OnePerPurpose}

find?-update_none :
    (v : ℕ) (q : ConsentPurpose) (p : UserConsent → Bool) (f : UserConsent → UserConsent)
    (cs : List UserConsent)
    → ((c : UserConsent) → is_consent v q (f c) ≡ is_consent v q c)
    → find? (is_consent v q) cs ≡ none
    → find? (is_consent v q) (update_where p f cs) ≡ none
find?-update_none v q p f cs same h = rw (find?-update (is_consent v q) p f cs same) (rw h refl)

-- An update that leaves user and purpose of each row alone keeps the constraint.
OnePerPurpose-update :
    (p : UserConsent → Bool) (f : UserConsent → UserConsent) (cs : List UserConsent)
    → ((c : UserConsent) → (f c).user_id ≡ c.user_id)
    → ((c : UserConsent) → (f c).purpose ≡ c.purpose)
    → ((v : ℕ) (q : ConsentPurpose) (c : UserConsent) → is_consent v q (f c) ≡ is_consent v q c)
    → OnePerPurpose cs
    → OnePerPurpose (update_where p f cs)
OnePerPurpose-update p f [] eu ep same h = tt
OnePerPurpose-update p f (c ∷ cs) eu ep same h =
    (head (p c), OnePerPurpose-update p f cs eu ep same h.1)
  where
    tail_none : find? (is_consent c.user_id c.purpose) (update_where p f cs) ≡ none
    tail_none = find?-update_none c.user_id c.purpose p f cs (same c.user_id c.purpose) h.0

    head :
        (b : Bool)
        → find?
            (is_consent (if b then f c else c).user_id (if b then f c else c).purpose)
            (update_where p f cs)
          ≡ none
    head true = rw (eu c, ep c) tail_none
    head false = tail_none

OnePerPurpose-append :
    (cs : List UserConsent) (c : UserConsent)
    → find? (is_consent c.user_id c.purpose) cs ≡ none
    → OnePerPurpose cs
    → OnePerPurpose (cs ++ c ∷ [])
OnePerPurpose-append [] c missing h = (refl, tt)
OnePerPurpose-append (d ∷ cs) c missing h = (
  ground (arith, find?-append (is_consent d.user_id d.purpose) cs (c ∷ []), h.0, symmetric d c),
  OnePerPurpose-append cs c (ground (arith, symmetric d c)) h.1,
)
  where
    symmetric :
        (x y : UserConsent) → is_consent x.user_id x.purpose y ≡ is_consent y.user_id y.purpose x
    symmetric x y = ground arith

Granting-OnePerPurpose :
    (env : Ambient) (user_id : ℕ) (purpose : ConsentPurpose) (version source : String) (db : Db)
    (o : Result ConsentChange × Db)
    → Granting env user_id purpose version source db o
    → OnePerPurpose db.user_consents
    → OnePerPurpose o.1.user_consents
Granting-OnePerPurpose env user_id purpose version source db o (already c found same) h = h
Granting-OnePerPurpose env user_id purpose version source db o (renewed c found other) h =
    OnePerPurpose-update (is_consent user_id purpose) (renew_consent (env.now 0) version source)
      db.user_consents (λ c. refl) (λ c. refl) (λ v q c. refl) h
Granting-OnePerPurpose env user_id purpose version source db o (created missing known) h =
    OnePerPurpose-append db.user_consents (new_consent env user_id purpose version source) missing h
Granting-OnePerPurpose env user_id purpose version source db o (refused missing unknown) h = h

Revoking-OnePerPurpose :
    (env : Ambient) (user_id : ℕ) (purpose : ConsentPurpose) (source : String) (db : Db)
    (o : Result ConsentChange × Db)
    → Revoking env user_id purpose source db o
    → OnePerPurpose db.user_consents
    → OnePerPurpose o.1.user_consents
Revoking-OnePerPurpose env user_id purpose source db o (no_consent missing) h = h
Revoking-OnePerPurpose env user_id purpose source db o (inactive c found gone) h = h
Revoking-OnePerPurpose env user_id purpose source db o (revoked c found live) h =
    OnePerPurpose-update (is_consent user_id purpose) (withdraw_consent (env.now 0) source)
      db.user_consents (λ c. refl) (λ c. refl) (λ v q c. refl) h

-- Where each user has at most one consent for a purpose, that is so after a grant.
pub grant-OnePerPurpose :
    (env : Ambient) (user_id : ℕ) (purpose : ConsentPurpose) (version source : String) (db : Db)
    → OnePerPurpose db.user_consents
    → OnePerPurpose (grant (λ d. d) env user_id purpose version source db).1.user_consents
grant-OnePerPurpose env user_id purpose version source db =
    Granting-OnePerPurpose env user_id purpose version source db _
      (grant_outcome env user_id purpose version source db)

pub revoke-OnePerPurpose :
    (env : Ambient) (user_id : ℕ) (purpose : ConsentPurpose) (source : String) (db : Db)
    → OnePerPurpose db.user_consents
    → OnePerPurpose (revoke env user_id purpose source db).1.user_consents
revoke-OnePerPurpose env user_id purpose source db =
    Revoking-OnePerPurpose env user_id purpose source db _
      (revoke_outcome env user_id purpose source db)

pub withdraw_all-OnePerPurpose :
    (env : Ambient) (now user_id : ℕ) (source : String) (db : Db)
    → OnePerPurpose db.user_consents
    → OnePerPurpose (withdraw_all env now user_id source db).1.user_consents
unfolding withdraw_all
withdraw_all-OnePerPurpose env now user_id source db =
    OnePerPurpose-update (is_granted_of user_id) (withdraw_consent now source) db.user_consents
      (λ c. refl) (λ c. refl) (λ v q c. refl)

-- Where the call read no consent, and another session's commit put one there before this one's,
-- the retried grant ends as a grant made after that commit, with the clock read again.
pub grant_race :
    (others : Db → Db) (env : Ambient) (user_id : ℕ) (purpose : ConsentPurpose)
    (version source : String) (db : Db) (winner : UserConsent)
    → get_current user_id purpose db ≡ none
    → get_current user_id purpose (others db) ≡ some winner
    → grant others env user_id purpose version source db
      ≡ grant (λ d. d) (second_try env) user_id purpose version source (others db)
unfolding grant
grant_race others env user_id purpose version source db winner missing there =
    rw (missing, grant_from) (rw there (ground arith))
