-- ===== src/ListCache/Staleness.antt =====
-- How old a list can be that `read_through_json` of src/fleet_management/cache.py answers.
use text.Mathlib.TextPositions.{eq_refl}
use fleet_management.Prelude.{
  ℕ, ◌+◌, ◌≤◌, String, ◌≡◌, refl, Bool, true, false, Option, none, some, List, ◌∷◌, ltb, arith,
  Bool-cases, inl, inr,
}
use fleet_management.ListCache.{Entry, live, cached_or_loaded, read_through_json, invalidate}

-- `rendered t` is the JSON of the list as it was at the moment `t`.
module _ (rendered : ℕ → String) (lag ttl : ℕ) where
  -- A text that was the list's at a moment not after `now`, and no longer ago than `lag` and `ttl`
  -- before `until`.
  abbrev pub WasCurrent : (now until : ℕ) → String → Type 0
  WasCurrent now until text = (t : ℕ) × (text ≡ rendered t) × (t ≤ now) × (until ≤ t + lag + ttl)

  -- What an entry holds was the list at a moment, and it expires `ttl` after it was written, which
  -- took at most `lag`.
  abbrev pub IsDated : ℕ → Option Entry → Type 0
  IsDated now none = Unit
  IsDated now (some e) = WasCurrent now e.expires_at e.payload

  served :
      (set_up : Bool) (now set_at : ℕ) (key : String) (redis : String → Option Entry)
      (found : Option String)
      → set_at ≤ now + lag
      → IsDated now (redis key)
      → ((text : String) → found ≡ some text → WasCurrent now now text)
      → let (text, after) =
          cached_or_loaded set_up key
            (record { payload = rendered now; expires_at = set_at + ttl })
            redis
            found in
        WasCurrent now now text × IsDated now (after key)
  served set_up now set_at key redis (some text) quick dated good = (good text refl, dated)
  served false now set_at key redis none quick dated good =
      ((now, refl, omega arith, omega arith), dated)
  served true now set_at key redis none quick dated good = (
    (now, refl, omega arith, omega arith),
    rw (eq_refl key) (now, refl, omega arith, omega arith),
  )

  found_current :
      (now : ℕ) (o : Option Entry) (text : String)
      → IsDated now o
      → live now o ≡ some text
      → WasCurrent now now text
  found_current now none text dated e = absurd (cc e)
  found_current now (some entry) text dated e = elim (Bool-cases (ltb now entry.expires_at)) [
    | inl fresh ↦
        let (t, same, past, bound) = dated in
        (t, ground (arith, same, e, fresh), past, ground (arith, fresh, bound))
    | inr over ↦ absurd (ground (arith, e, over))
  ]

  -- Whether Redis answers or not, and whether the cache is enabled or not, the list that is served
  -- at a moment was the list at some moment not after it, at most the expiry time and the lag of a
  -- write ago; and what the cache holds then is dated as well.
  pub read_through_json-WasCurrent :
      (enabled get_up set_up : Bool) (now set_at : ℕ) (key : String) (redis : String → Option Entry)
      → set_at ≤ now + lag
      → IsDated now (redis key)
      → let (text, after) =
          read_through_json enabled get_up set_up ttl now set_at key (rendered now) redis in
        WasCurrent now now text × IsDated now (after key)
  unfolding read_through_json
  read_through_json-WasCurrent false get_up set_up now set_at key redis quick dated =
      ((now, refl, omega arith, omega arith), dated)
  read_through_json-WasCurrent true false set_up now set_at key redis quick dated =
      served set_up now set_at key redis none quick dated (λ text e. absurd (cc e))
  read_through_json-WasCurrent true true set_up now set_at key redis quick dated =
      served set_up now set_at key redis (live now (redis key)) quick dated
        (λ text. found_current now (redis key) text dated)

-- Once a write has invalidated its list in Redis, the next read answers with what is loaded then.
pub read_through_json-invalidate :
    (enabled get_up set_up : Bool) (ttl now set_at : ℕ) (key loaded : String) (others : List String)
    (redis : String → Option Entry)
    → (read_through_json enabled get_up set_up ttl now set_at key loaded
        (invalidate true (key ∷ others) redis)).0
      ≡ loaded
unfolding read_through_json invalidate
read_through_json-invalidate false get_up set_up ttl now set_at key loaded others redis = refl
read_through_json-invalidate true false set_up ttl now set_at key loaded others redis = refl
read_through_json-invalidate true true set_up ttl now set_at key loaded others redis =
    rw (eq_refl key) refl
