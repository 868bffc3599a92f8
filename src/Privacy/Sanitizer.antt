-- ===== src/Privacy/Sanitizer.antt =====
-- Masking of texts and of nested values: privacy/sanitizer.py of src/fleet_management. The engine
-- of regular expressions and `str.lower` are parameters, and so are the methods that turn a model or
-- a dataclass into a dict. Sets are given by their elements in a row.
pub mod Hides
use Prim.Native.Char.{Char}
use Prim.Native.String.{◌++◌ as str_append}
use fleet_management.Prelude.{
  ℕ, String, Bool, true, false, ◌||◌, ◌&&◌, Option, none, some, List, [], ◌∷◌, if◌then◌else◌,
  str_eq,
}

abbrev pub redacted : String
redacted = "[REDACTED]"

-- A pattern with its flag `re.IGNORECASE`.
pub record Pattern : Type 0 where
  pub source : String
  pub ignore_case : Bool

abbrev secret_key : String
secret_key =
    "[\\w-]*(?:password|passwd|pwd|token|api[_-]?key|secret|authorization|credential)[\\w-]*"

-- `_SECRET_KEY_RE` and its fellows
abbrev pub secret_key_re : Pattern
secret_key_re = record { source = secret_key; ignore_case = true }

abbrev pub secret_kv_re : Pattern
secret_kv_re = record {
  source = str_append "(?P<key>" (
      str_append secret_key
        ")(?P<sep>[\"']?\\s*[:=]\\s*)(?P<val>\"[^\"]*\"|'[^']*'|(?:(?:Bearer|Basic)\\s+)?[^\\s,;}&\\]]+)");
  ignore_case = true;
}

abbrev pub name_kv_re : Pattern
name_kv_re = record {
  source =
      "(?P<key>[\"']?(?:full_name|first_name|last_name|license_number)[\"']?\\s*[:=]\\s*)(?P<q>[\"'])(?P<val>.*?)(?P=q)";
  ignore_case = true;
}

abbrev pub bearer_re : Pattern
bearer_re = record { source = "\\bBearer\\s+[A-Za-z0-9._~+/=-]+"; ignore_case = true }

abbrev pub jwt_re : Pattern
jwt_re = record {
  source = "\\beyJ[A-Za-z0-9_-]+\\.[A-Za-z0-9_-]+\\.[A-Za-z0-9_-]*";
  ignore_case = false;
}

abbrev pub hash_re : Pattern
hash_re = record { source = "\\$argon2[\\w$=,+/.-]+"; ignore_case = false }

abbrev pub email_re : Pattern
email_re = record {
  source = "([A-Za-z0-9._%+-])[A-Za-z0-9._%+-]*@([A-Za-z0-9-]+(?:\\.[A-Za-z0-9-]+)+)";
  ignore_case = false;
}

abbrev pub phone_re : Pattern
phone_re = record {
  source = "(?<![\\w+])\\+?\\d(?:[\\s().-]?\\d){8,14}(?!\\w)";
  ignore_case = false;
}

abbrev pub iso_date_re : Pattern
iso_date_re = record { source = "\\d{4}-\\d{2}-\\d{2}"; ignore_case = false }

abbrev pub non_digit_re : Pattern
non_digit_re = record { source = "\\D"; ignore_case = false }

-- `_NAME_KEYS`
abbrev pub is_name_key : String → Bool
is_name_key key =
    str_eq key "full_name"
    || str_eq key "first_name"
    || str_eq key "last_name"
    || str_eq key "license_number"

-- What the code uses of `re` and of texts: substitution with a function of the match's groups,
-- `fullmatch`, `match` and `lower`.
pub record Texts : Type 0 where
  pub sub : Pattern → ((String → String) → String) → String → String
  pub fullmatch : Pattern → String → Bool
  pub match_start : Pattern → String → Bool
  pub lower : String → String

abbrev pub first_character : String → String
first_character String.[] = ""
first_character (String.◌∷◌ c s) = String.◌∷◌ c ""

-- `value[-2:]`
abbrev pub last_two : String → String
last_two String.[] = ""
last_two (String.◌∷◌ a String.[]) = String.◌∷◌ a ""
last_two (String.◌∷◌ a (String.◌∷◌ b String.[])) = String.◌∷◌ a (String.◌∷◌ b "")
last_two (String.◌∷◌ a (String.◌∷◌ b (String.◌∷◌ c s))) = last_two (String.◌∷◌ b (String.◌∷◌ c s))

unfoldable pub mask_name : String → String
mask_name String.[] = ""
mask_name (String.◌∷◌ c s) = String.◌∷◌ c "***"

-- The quote around a value, which is not empty where the pattern matches.
abbrev quote_of : String → String
quote_of val =
    let first = first_character val in if str_eq first "\"" || str_eq first "'" then first else ""

abbrev pub redact_secret_kv : (String → String) → String
redact_secret_kv group =
    let quote = quote_of (group "val") in
    str_append (group "key")
      (str_append (group "sep") (str_append quote (str_append redacted quote)))

abbrev pub mask_name_kv : (String → String) → String
mask_name_kv group =
    str_append (group "key")
      (str_append (group "q") (str_append (mask_name (group "val")) (group "q")))

-- A value that a log call may be given. `dumped` is a pydantic model or a dataclass, by what
-- `model_dump` or `asdict` make of it, `exception` one by its text, and `other` a value that is returned as it is.
mutual
  pub data Value : Type 0 where
    plain_text : String → Value
    dict : Entries → Value
    sequence : Values → Value
    dumped : Value → Value
    exception : (shown : String) → Value
    other : ℕ → Value

  pub data Entries : Type 0 where
    end : Entries
    entry : (key : String) → Value → Entries → Entries

  pub data Values : Type 0 where
    nil : Values
    cons : Value → Values → Values

module _ (T : Texts) where
  unfoldable pub mask_email : String → String
  mask_email email =
      T.sub email_re (λ group. str_append (group "1") (str_append "***@" (group "2"))) email

  abbrev pub mask_phone_match : (String → String) → String
  mask_phone_match group =
      let raw = group "0" in
      if T.match_start iso_date_re raw
      then raw
      else (let digits = T.sub non_digit_re (λ _. "") raw in
          let prefix = if str_eq (first_character raw) "+" then "+" else "" in
          str_append prefix (str_append "***" (last_two digits)))

  unfoldable pub mask_phone : String → String
  mask_phone s = T.sub phone_re mask_phone_match s

  unfoldable pub sanitize_text : String → String
  sanitize_text s =
      let t1 = T.sub secret_kv_re redact_secret_kv s in
      let t2 = T.sub bearer_re (λ _. str_append "Bearer " redacted) t1 in
      let t3 = T.sub jwt_re (λ _. redacted) t2 in
      let t4 = T.sub hash_re (λ _. redacted) t3 in
      let t5 = T.sub name_kv_re mask_name_kv t4 in mask_phone (mask_email t5)

  abbrev pub is_secret_key : String → Bool
  is_secret_key key = T.fullmatch secret_key_re key

  -- `_sanitize_item`, given what `sanitize_value` makes of the value
  abbrev pub sanitize_item : Bool → Bool → Value → Value → Value
  sanitize_item true is_name value sanitized = plain_text redacted
  sanitize_item false true (plain_text s) sanitized = plain_text (mask_name s)
  sanitize_item false is_name value sanitized = sanitized

  unfoldable mutual
    pub sanitize_value : Value → Value
    sanitize_value (plain_text s) = plain_text (sanitize_text s)
    sanitize_value (dict es) = dict (sanitize_entries es)
    sanitize_value (sequence vs) = sequence (sanitize_values vs)
    sanitize_value (dumped v) = sanitize_value v
    sanitize_value (exception shown) = exception shown
    sanitize_value (other n) = other n

    pub sanitize_entries : Entries → Entries
    sanitize_entries end = end
    sanitize_entries (entry key v es) =
        entry key
          (sanitize_item (is_secret_key key) (is_name_key (T.lower key)) v (sanitize_value v))
          (sanitize_entries es)

    pub sanitize_values : Values → Values
    sanitize_values nil = nil
    sanitize_values (cons v vs) = cons (sanitize_value v) (sanitize_values vs)
