-- ===== src/Marketing/Dispatch.antt =====
-- The background job `dispatch_pending_marketing` of services/marketing_service.py, which decides
-- first and writes second, beside one pass over the table.
use fleet_management.Prelude.{
  update_missing, ℕ, ◌+◌, ◌≡◌, refl, ◌∙◌, ap, true, false, none, List, [], ◌∷◌, map, select, find?,
  some, count_where, HasUniqueKeys, All, ◌==◌, if◌then◌else◌, Bool-cases, inl, inr, arith,
}
use fleet_management.Models.Privacy.{marketing_email, MarketingMessage, sent, skipped, is_queued}
use fleet_management.Session.{Db, Ambient, ok}
use fleet_management.Consent.{check, current_policy_version}
use fleet_management.Marketing.{
  DispatchOutcome, process, apply, verdict, decide_queue, apply_all, Summary, summary,
  dispatch_pending_marketing,
}

-- One pass: a queued message of a user whose consent stands is sent, every other queued message is
-- skipped, and all other messages stay.
abbrev pub settle : Db → ℕ → MarketingMessage → MarketingMessage
settle db now m =
    if is_queued m.status
    then record m {
      status =
          if (check db m.user_id marketing_email current_policy_version).allowed
          then sent
          else skipped;
      processed_at = some now;
    }
    else m

==_refl : (k : ℕ) → (k == k) ≡ true
==_refl k = ground arith

-- outcomes that are about other rows pass the first row by
apply_all-cons :
    (outcomes : List DispatchOutcome) (m : MarketingMessage) (ms : List MarketingMessage)
    → All (λ (o : DispatchOutcome). (m.id == o.message.id) ≡ false) outcomes
    → apply_all outcomes (m ∷ ms) ≡ m ∷ apply_all outcomes ms
unfolding apply_all
apply_all-cons [] m ms h = refl
apply_all-cons (o ∷ outcomes) m ms h = rw h.0 (apply_all-cons outcomes m (apply o ms) h.1)

apart :
    (k : ℕ) (db : Db) (now : ℕ) (ms : List MarketingMessage)
    → find? (λ m. m.id == k) ms ≡ none
    → All
        (λ (o : DispatchOutcome). (k == o.message.id) ≡ false)
        (map (verdict db now) (select (λ m. is_queued m.status) ms))
apart k db now [] h = tt
apart k db now (m ∷ ms) h = elim (Bool-cases (is_queued m.status)) [
  | inl waits ↦ rw waits (ground arith, apart k db now ms (ground arith))
  | inr settled ↦ rw settled (apart k db now ms (ground arith))
]

-- the outcome of the first row itself
apply_all-head :
    (db : Db) (now : ℕ) (m : MarketingMessage) (outcomes : List DispatchOutcome)
    (ms : List MarketingMessage)
    → find? (λ x. x.id == m.id) ms ≡ none
    → All (λ (o : DispatchOutcome). (m.id == o.message.id) ≡ false) outcomes
    → apply_all (verdict db now m ∷ outcomes) (m ∷ ms)
      ≡ process (verdict db now m) m ∷ apply_all outcomes ms
unfolding apply_all
apply_all-head db now m outcomes ms alone others = rw (==_refl m.id) (
    rw
      (update_missing (λ (x : MarketingMessage). x.id) (process (verdict db now m)) (λ x. refl) m.id
        ms alone)
      (apply_all-cons outcomes (process (verdict db now m) m) ms others))

apply_all-settle :
    (db : Db) (now : ℕ) (ms : List MarketingMessage)
    → HasUniqueKeys (λ (m : MarketingMessage). m.id) ms
    → apply_all (map (verdict db now) (select (λ m. is_queued m.status) ms)) ms
      ≡ map (settle db now) ms
unfolding apply_all
apply_all-settle db now [] u = refl
apply_all-settle db now (m ∷ ms) u = elim (Bool-cases (is_queued m.status)) [
  | inl waits ↦ rw waits (
      apply_all-head db now m (map (verdict db now) (select (λ x. is_queued x.status) ms)) ms u.0
        (apart m.id db now ms u.0)
      ∙ ap (λ rest. process (verdict db now m) m ∷ rest) (apply_all-settle db now ms u.1))
  | inr settled ↦ rw settled (
      apply_all-cons (map (verdict db now) (select (λ x. is_queued x.status) ms)) m ms
        (apart m.id db now ms u.0)
      ∙ ap (λ rest. m ∷ rest) (apply_all-settle db now ms u.1))
]

-- The job marks each queued message as sent where the gate allows marketing e-mail to its user at
-- that moment, and as skipped where it does not, stamps it with the moment, leaves every other
-- message as it is, and changes no other table, when no two messages share an id.
pub dispatch-settle :
    (env : Ambient) (db : Db)
    → HasUniqueKeys (λ (m : MarketingMessage). m.id) db.marketing_messages
    → (dispatch_pending_marketing env db).1
      ≡ record db { marketing_messages = map (settle db (env.now 0)) db.marketing_messages }
unfolding dispatch_pending_marketing
dispatch-settle env db u =
    ap (λ ms. record db { marketing_messages = ms })
      (apply_all-settle db (env.now 0) db.marketing_messages u)

settled_none_queued :
    (db : Db) (now : ℕ) (ms : List MarketingMessage)
    → count_where (λ m. is_queued m.status) (map (settle db now) ms) ≡ 0
settled_none_queued db now [] = refl
settled_none_queued db now (m ∷ ms) = ground (arith, settled_none_queued db now ms)

summary_total :
    (db : Db) (now : ℕ) (ms : List MarketingMessage)
    → let s = summary (map (verdict db now) (select (λ m. is_queued m.status) ms)) in
      s.sent + s.skipped ≡ count_where (λ m. is_queued m.status) ms
unfolding summary
summary_total db now [] = refl
summary_total db now (m ∷ ms) = ground (arith, summary_total db now ms)

-- The counts that the job reports add up to the messages that were queued, and afterwards none is
-- queued, when no two messages share an id.
pub dispatch_drains :
    (env : Ambient) (db : Db)
    → HasUniqueKeys (λ (m : MarketingMessage). m.id) db.marketing_messages
    → let (report, after) = dispatch_pending_marketing env db in
      (count_where (λ m. is_queued m.status) after.marketing_messages ≡ 0)
      × ((s : Summary) × (report ≡ ok s)
          × (s.sent + s.skipped ≡ count_where (λ m. is_queued m.status) db.marketing_messages))
unfolding dispatch_pending_marketing
dispatch_drains env db u = (
  rw (apply_all-settle db (env.now 0) db.marketing_messages u)
      (settled_none_queued db (env.now 0) db.marketing_messages),
  (summary (decide_queue db (env.now 0)), refl, summary_total db (env.now 0) db.marketing_messages),
)
