-- ===== src/Privacy/Handlers.antt =====
-- The handlers of the log: `install` and `configure_logging` of
-- src/fleet_management/privacy/logging_setup.py. Loggers share handlers, so these stand in a store.
pub mod Configured
use fleet_management.Prelude.{
  ℕ, String, ◌≡◌, refl, ◌∙◌, Bool, true, false, ◌||◌, Option, none, some, List, [], ◌∷◌, ◌++◌, ◌==◌,
  if◌then◌else◌, str_eq, Bool-cases, inl, inr, ap, sym, arith,
}

pub data Filter : Type 0 where
  pii_sanitizing : Filter
  other_filter : ℕ → Filter

pub data Formatter : Type 0 where
  json_sanitizing : Formatter
  sanitizing : Formatter
  standard : Formatter

pub record Handler : Type 0 where
  pub filters : List Filter
  pub formatter : Formatter

-- The handlers by their identity, and what `logging` keeps of the four loggers that are set up.
pub record Logging : Type 0 where
  pub handlers : ℕ → Handler
  pub level : ℕ
  pub root : List ℕ
  pub uvicorn : List ℕ
  pub uvicorn_error : List ℕ
  pub access_disabled : Bool

abbrev pub is_pii_sanitizing : Filter → Bool
is_pii_sanitizing pii_sanitizing = true
is_pii_sanitizing (other_filter n) = false

abbrev pub is_sanitized : List Filter → Bool
is_sanitized [] = false
is_sanitized (f ∷ fs) = is_pii_sanitizing f || is_sanitized fs

-- `handler.addFilter(PiiSanitizingFilter())`: a new object is never there already
abbrev pub add_filter : Handler → Handler
add_filter h = record h { filters = h.filters ++ pii_sanitizing ∷ [] }

unfoldable pub install : Bool → Handler → Handler
install json_format h = record (add_filter h) {
  formatter = if json_format then json_sanitizing else sanitizing;
}

abbrev pub install_missing : Bool → Handler → Handler
install_missing json_format h = if is_sanitized h.filters then h else install json_format h

abbrev pub update_at : (Handler → Handler) → ℕ → (ℕ → Handler) → ℕ → Handler
update_at f k store j = if j == k then f (store j) else store j

abbrev pub for_each : (Handler → Handler) → List ℕ → (ℕ → Handler) → ℕ → Handler
for_each f [] store = store
for_each f (k ∷ ks) store = for_each f ks (update_at f k store)

-- `logging.StreamHandler(sys.stderr)`
abbrev pub stream_handler : Handler
stream_handler = record { filters = []; formatter = standard }

-- `if not root.handlers: root.addHandler(...)`, with the identity of the new handler
abbrev pub root_handlers : ℕ → List ℕ → List ℕ
root_handlers new [] = new ∷ []
root_handlers new (k ∷ ks) = k ∷ ks

abbrev pub store_with : ℕ → List ℕ → (ℕ → Handler) → ℕ → Handler
store_with new [] store = update_at (λ h. stream_handler) new store
store_with new (k ∷ ks) store = store

-- `os.getenv("LOG_FORMAT", "text")`
abbrev pub log_format : Option String → String
log_format none = "text"
log_format (some value) = value

unfoldable pub configure_logging :
    (lower : String → String) (env_format : Option String) (level new : ℕ) → Logging → Logging
configure_logging lower env_format level new l =
    let json_format : Bool = str_eq (lower (log_format env_format)) "json" in
    let root = root_handlers new l.root in
    record l {
      handlers = for_each add_filter l.uvicorn_error (
          for_each add_filter l.uvicorn
            (for_each (install_missing json_format) root (store_with new l.root l.handlers)));
      level = level;
      root = root;
      access_disabled = true;
    }

abbrev pub is_listed : ℕ → List ℕ → Bool
is_listed j [] = false
is_listed j (k ∷ ks) = (j == k) || is_listed j ks
