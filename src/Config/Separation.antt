-- ===== src/Config/Separation.antt =====
-- What the settings' checks of config.py, src/fleet_management, let through.
use mathlib.Core.Path.{subst}
use fleet_management.Prelude.{
  ◌≤◌, String, ◌≡◌, refl, sym, ◌∙◌, true, false, Option, none, some, str_eq, eq_iff, Bool-cases,
  inl, inr, arith,
}
use fleet_management.Config.{
  Environment, sandbox, production, Settings, ends_with, ends_with_any, text_length,
  allowed_db_suffixes, name_or_empty, secret_is_strong, db_name, check_environment_rules,
  check_production_safety, wrong_database,
}

-- Two endings of which neither ends with the other are not endings of one text.
not_both :
    (a b s : String)
    → ends_with a b ≡ false
    → ends_with b a ≡ false
    → ends_with s a ≡ true
    → ends_with s b ≡ false
not_both a b String.[] h k e = subst (λ t. ends_with t b ≡ false) (sym ((eq_iff "" a).0 e)) h
not_both a b (String.◌∷◌ c s) h k e = elim (Bool-cases (str_eq (String.◌∷◌ c s) a)) [
  | inl same ↦ subst (λ t. ends_with t b ≡ false) (sym ((eq_iff (String.◌∷◌ c s) a).0 same)) h
  | inr other ↦ elim (Bool-cases (str_eq (String.◌∷◌ c s) b)) [
    | inl whole ↦
        let both : ends_with b a ≡ true =
          subst (λ t. ends_with t a ≡ true) ((eq_iff (String.◌∷◌ c s) b).0 whole) e in
        cc (both, k)
    | inr longer ↦ rw longer (not_both a b s h k (rw other at e))
  ]
]

sandbox_not_production :
    (name : String)
    → ends_with_any name (allowed_db_suffixes sandbox) ≡ true
    → ends_with name "_production" ≡ false
sandbox_not_production name e = elim (Bool-cases (ends_with name "_sandbox")) [
  | inl first ↦ not_both "_sandbox" "_production" name refl refl first
  | inr other ↦ elim (Bool-cases (ends_with name "_test")) [
    | inl second ↦ not_both "_test" "_production" name refl refl second
    | inr neither ↦ ground (arith, e)
  ]
]

module _ (database_of : String → Option String) where
  database_allowed :
      (s : Settings)
      → check_environment_rules database_of s ≡ none
      → ends_with_any (db_name database_of s.database_url) (allowed_db_suffixes s.app_env) ≡ true
  unfolding check_environment_rules
  database_allowed s e =
      elim (Bool-cases
        (ends_with_any (db_name database_of s.database_url) (allowed_db_suffixes s.app_env))) [
          | inl allowed ↦ allowed
          | inr refused ↦
              let raised : check_environment_rules database_of s ≡ some wrong_database =
                rw refused refl in
              cc (raised, e)
        ]

  -- A database serves one environment: two settings that are both accepted and whose URLs name a
  -- database of the same name, whatever else stands in them, are for the same environment.
  pub environments_apart :
      (s t : Settings)
      → database_of s.database_url ≡ database_of t.database_url
      → check_environment_rules database_of s ≡ none
      → check_environment_rules database_of t ≡ none
      → s.app_env ≡ t.app_env
  environments_apart s t same e f = by_environment s.app_env t.app_env (database_allowed s e) (
      subst
        (λ (name : Option String).
          ends_with_any (name_or_empty name) (allowed_db_suffixes t.app_env) ≡ true)
        (sym same) (database_allowed t f))
    where
      by_environment :
          (a b : Environment)
          → ends_with_any (db_name database_of s.database_url) (allowed_db_suffixes a) ≡ true
          → ends_with_any (db_name database_of s.database_url) (allowed_db_suffixes b) ≡ true
          → a ≡ b
      by_environment sandbox sandbox p q = refl
      by_environment production production p q = refl
      by_environment sandbox production p q =
          let no = sandbox_not_production (db_name database_of s.database_url) p in
          ground (arith, no, q)
      by_environment production sandbox p q =
          let no = sandbox_not_production (db_name database_of s.database_url) q in
          ground (arith, no, p)

  safety_checked :
      (s : Settings)
      → s.app_env ≡ production
      → ends_with_any (db_name database_of s.database_url) (allowed_db_suffixes s.app_env) ≡ true
      → check_environment_rules database_of s ≡ none
      → check_production_safety s ≡ none
  unfolding check_environment_rules
  safety_checked s live allowed e =
      let checked : check_environment_rules database_of s ≡ check_production_safety s =
        rw allowed (rw live refl) in
      sym checked ∙ e

  safe_parts :
      (s : Settings)
      → check_production_safety s ≡ none
      → (s.debug ≡ false) × (secret_is_strong s.jwt_secret_key ≡ true)
  safe_parts s e = ground (arith, e)

  strong_key :
      (key : Option String)
      → secret_is_strong key ≡ true
      → (k : String) × (key ≡ some k) × (32 ≤ text_length k)
  strong_key none h = absurd (cc h)
  strong_key (some k) h = (k, refl, ground (arith, h))

  -- Settings for production that are accepted name a database for production, keep the debug mode
  -- off and have a secret of at least 32 characters.
  pub production_is_safe :
      (s : Settings)
      → s.app_env ≡ production
      → check_environment_rules database_of s ≡ none
      → (ends_with (db_name database_of s.database_url) "_production" ≡ true)
        × (s.debug ≡ false)
        × ((key : String) × (s.jwt_secret_key ≡ some key) × (32 ≤ text_length key))
  production_is_safe s live e =
      let allowed = database_allowed s e in
      let (quiet, strong) = safe_parts s (safety_checked s live allowed e) in
      (ground (arith, allowed, live), quiet, strong_key s.jwt_secret_key strong)
