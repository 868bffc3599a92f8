-- ===== src/Privacy/Handlers/Configured.antt =====
-- What `configure_logging` of src/fleet_management/privacy/logging_setup.py leaves: the filters and
-- the formatters of the handlers.
use fleet_management.Prelude.{
  ℕ, String, ◌≡◌, refl, ◌∙◌, Bool, true, ◌||◌, Option, List, [], ◌∷◌, ◌++◌, ◌==◌, str_eq,
  Bool-cases, inl, inr, ap, sym, arith,
}
use fleet_management.Privacy.Handlers.{
  Filter, pii_sanitizing, Handler, Logging, is_sanitized, add_filter, install, install_missing,
  update_at, for_each, root_handlers, store_with, log_format, configure_logging, is_listed,
}

is_sanitized-add : (fs : List Filter) → is_sanitized (fs ++ pii_sanitizing ∷ []) ≡ true
is_sanitized-add [] = refl
is_sanitized-add (f ∷ fs) = ground (arith, is_sanitized-add fs)

install_missing-sanitized :
    (json_format : Bool) (h : Handler) → is_sanitized (install_missing json_format h).filters ≡ true
unfolding install
install_missing-sanitized json_format h = elim (Bool-cases (is_sanitized h.filters)) [
  | inl there ↦ rw there there
  | inr missing ↦ rw missing (is_sanitized-add h.filters)
]

module _ (f : Handler → Handler)
    (sanitizes : (h : Handler) → is_sanitized (f h).filters ≡ true) where
  update_at-keeps :
      (k j : ℕ) (store : ℕ → Handler)
      → is_sanitized (store j).filters ≡ true
      → is_sanitized (update_at f k store j).filters ≡ true
  update_at-keeps k j store there = elim (Bool-cases (j == k)) [
    | inl same ↦ rw same (sanitizes (store j))
    | inr different ↦ rw different there
  ]

  for_each-keeps :
      (ks : List ℕ) (j : ℕ) (store : ℕ → Handler)
      → is_sanitized (store j).filters ≡ true
      → is_sanitized (for_each f ks store j).filters ≡ true
  for_each-keeps [] j store there = there
  for_each-keeps (k ∷ ks) j store there =
      for_each-keeps ks j (update_at f k store) (update_at-keeps k j store there)

  for_each-sanitizes :
      (ks : List ℕ) (j : ℕ) (store : ℕ → Handler)
      → is_listed j ks ≡ true
      → is_sanitized (for_each f ks store j).filters ≡ true
  for_each-sanitizes [] j store listed = absurd (ground arith)
  for_each-sanitizes (k ∷ ks) j store listed = elim (Bool-cases (j == k)) [
    | inl same ↦ for_each-keeps ks j (update_at f k store) (rw same (sanitizes (store j)))
    | inr different ↦ for_each-sanitizes ks j (update_at f k store) (ground arith)
  ]

module _ (f : Handler → Handler) where
  update_at-idle :
      (k : ℕ) (store : ℕ → Handler)
      → f (store k) ≡ store k
      → (j : ℕ) → update_at f k store j ≡ store j
  update_at-idle k store idle j = elim (Bool-cases (j == k)) [
    | inl same ↦
        let at : j ≡ k = ground arith in rw same (ap f (ap store at) ∙ idle ∙ sym (ap store at))
    | inr different ↦ rw different refl
  ]

  for_each-idle :
      (ks : List ℕ) (store : ℕ → Handler)
      → ((k : ℕ) → is_listed k ks ≡ true → f (store k) ≡ store k)
      → (j : ℕ) → for_each f ks store j ≡ store j
  for_each-idle [] store idle j = refl
  for_each-idle (k ∷ ks) store idle j =
      let unchanged = update_at-idle k store (idle k (ground arith)) in
      for_each-idle ks (update_at f k store)
        (λ i listed. ap f (unchanged i) ∙ idle i (ground arith) ∙ sym (unchanged i)) j
      ∙ unchanged j

add_filter-formatter :
    (ks : List ℕ) (store : ℕ → Handler) (j : ℕ)
    → (for_each add_filter ks store j).formatter ≡ (store j).formatter
add_filter-formatter [] store j = refl
add_filter-formatter (k ∷ ks) store j =
    add_filter-formatter ks (update_at add_filter k store) j
    ∙ (elim (Bool-cases (j == k)) [ inl same ↦ rw same refl | inr different ↦ rw different refl ])

root_kept :
    (json_format : Bool) (new later : ℕ) (ks : List ℕ) (store : ℕ → Handler)
    → ((k : ℕ) → is_listed k (root_handlers new ks) ≡ true → is_sanitized (store k).filters ≡ true)
    → (k : ℕ)
    → for_each
        (install_missing json_format)
        (root_handlers later (root_handlers new ks))
        (store_with later (root_handlers new ks) store)
        k
      ≡ store k
root_kept json_format new later [] store ready =
    for_each-idle (install_missing json_format) (new ∷ []) store
      (λ k listed. rw (ready k listed) refl)
root_kept json_format new later (r ∷ ks) store ready =
    for_each-idle (install_missing json_format) (r ∷ ks) store
      (λ k listed. rw (ready k listed) refl)

-- However the log was set up before, also with handlers that its loggers share: afterwards every
-- handler of the root logger and of the two loggers of the server sanitizes what it writes.
pub configure_logging-sanitized :
    (lower : String → String) (env_format : Option String) (level new : ℕ) (l : Logging) (k : ℕ)
    → let after = configure_logging lower env_format level new l in
      is_listed k after.root || is_listed k after.uvicorn || is_listed k after.uvicorn_error ≡ true
      → is_sanitized (after.handlers k).filters ≡ true
unfolding configure_logging
configure_logging-sanitized lower env_format level new l k listed =
    let json_format : Bool = str_eq (lower (log_format env_format)) "json" in
    let root = root_handlers new l.root in
    let start = store_with new l.root l.handlers in
    let installed = for_each (install_missing json_format) root start in
    let added = for_each add_filter l.uvicorn installed in
    let adds = λ (h : Handler). is_sanitized-add h.filters in
    elim (Bool-cases (is_listed k root)) [
      | inl in_root ↦ for_each-keeps add_filter adds l.uvicorn_error k added (
          for_each-keeps add_filter adds l.uvicorn k installed (
            for_each-sanitizes (install_missing json_format) (install_missing-sanitized json_format)
              root k start in_root))
      | inr elsewhere ↦ elim (Bool-cases (is_listed k l.uvicorn)) [
        | inl in_server ↦
            for_each-keeps add_filter adds l.uvicorn_error k added
              (for_each-sanitizes add_filter adds l.uvicorn k installed in_server)
        | inr last ↦
            for_each-sanitizes add_filter adds l.uvicorn_error k added
              (ground (arith, elsewhere, last, listed))
      ]
    ]

-- A second configuration, whatever format and level it asks for, changes the formatter of no
-- handler.
pub configure_logging-configure_logging :
    (lower : String → String) (env_format env_format' : Option String) (level level' new new' : ℕ)
    (l : Logging) (k : ℕ)
    → let once = configure_logging lower env_format level new l in
      ((configure_logging lower env_format' level' new' once).handlers k).formatter
      ≡ (once.handlers k).formatter
unfolding configure_logging
configure_logging-configure_logging lower env_format env_format' level level' new new' l k =
    let json_format : Bool = str_eq (lower (log_format env_format')) "json" in
    let once : Logging = configure_logging lower env_format level new l in
    let start = store_with new' once.root once.handlers in
    let installed = for_each (install_missing json_format) (root_handlers new' once.root) start in
    let ready = λ (i : ℕ) (listed : is_listed i once.root ≡ true).
      configure_logging-sanitized lower env_format level new l i (ground (arith, listed)) in
    add_filter-formatter l.uvicorn_error (for_each add_filter l.uvicorn installed) k
    ∙ add_filter-formatter l.uvicorn installed k
    ∙ ap (λ (h : Handler). h.formatter)
        (root_kept json_format new new' l.root once.handlers ready k)
