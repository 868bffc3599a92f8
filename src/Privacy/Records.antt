-- ===== src/Privacy/Records.antt =====
-- The sanitizing of log records: `sanitize_record` of privacy/logging_setup.py,
-- src/fleet_management. What `logging` makes of a message and its arguments, and of an exception, is
-- a parameter.
use fleet_management.Prelude.{
  String, ◌≡◌, refl, ap, ◌∙◌, Bool, true, false, Option, none, some, Bool-cases, inl, inr,
  if◌then◌else◌, str_eq,
}
use fleet_management.Privacy.Sanitizer.{
  Texts, Value, plain_text, exception, Entries, end, entry, Values, sanitize_text, sanitize_value,
  sanitize_entries, sanitize_values, sanitize_item, is_secret_key, is_name_key,
}

-- `record.args`
pub data Args : Type 0 where
  no_args : Args
  positional : Values → Args
  named : Entries → Args

-- The attributes that the code touches; `exc_info` stands for the traceback it formats to.
pub record LogRecord : Type 0 where
  pub msg : String
  pub args : Args
  pub exc_info : Option String
  pub exc_text : Option String
  pub stack_info : Option String
  pub correlation_id : Option String
  pub pii_sanitized : Bool
  pub extras : Entries

-- `a or b`, for texts that may be missing
abbrev pub or_text : Option String → Option String → Option String
or_text none b = b
or_text (some a) b = if str_eq a "" then b else some a

abbrev pub text_or : Option String → String → String
text_or none b = b
text_or (some a) b = if str_eq a "" then b else a

abbrev pub or_dash : Option String → String
or_dash none = "-"
or_dash (some a) = if str_eq a "" then "-" else a

module _ (T : Texts) (format_message : String → Args → String) where
  abbrev pub sanitize_args : Args → Args
  sanitize_args no_args = no_args
  sanitize_args (positional vs) = positional (sanitize_values T vs)
  sanitize_args (named es) = named (sanitize_entries T es)

  abbrev pub without_exception : Value → Value
  without_exception (exception shown) = plain_text (sanitize_text T shown)
  without_exception v = v

  -- `_sanitize_extra`
  abbrev pub sanitize_extra : String → Value → Value
  sanitize_extra key v =
      without_exception
        (sanitize_item T (is_secret_key T key) (is_name_key (T.lower key)) v (sanitize_value T v))

  abbrev pub sanitize_extras : Entries → Entries
  sanitize_extras end = end
  sanitize_extras (entry key v es) = entry key (sanitize_extra key v) (sanitize_extras es)

  abbrev pub sanitized_text : Option String → Option String
  sanitized_text none = none
  sanitized_text (some s) = if str_eq s "" then some s else some (sanitize_text T s)

  -- The traceback where there is one, and else what `exc_text` was.
  abbrev pub sanitized_exception : Option String → Option String → Option String
  sanitized_exception exc_text none = sanitized_text exc_text
  sanitized_exception exc_text (some info) = some (sanitize_text T (text_or exc_text info))

  abbrev pub with_correlation_id : Option String → LogRecord → LogRecord
  with_correlation_id context r = record r {
    correlation_id = some (or_dash (or_text r.correlation_id context));
  }

  abbrev pub sanitize_once : LogRecord → LogRecord
  sanitize_once r = record r {
    msg = sanitize_text T (format_message r.msg (sanitize_args r.args));
    args = no_args;
    exc_text = sanitized_exception r.exc_text r.exc_info;
    stack_info = sanitized_text r.stack_info;
    extras = sanitize_extras r.extras;
    pii_sanitized = true;
  }

  abbrev pub unless_sanitized : Bool → LogRecord → LogRecord
  unless_sanitized true r = r
  unless_sanitized false r = sanitize_once r

  unfoldable pub sanitize_record : Option String → LogRecord → LogRecord
  sanitize_record context r = unless_sanitized r.pii_sanitized (with_correlation_id context r)

  or_dash_filled : (o : Option String) → str_eq (or_dash o) "" ≡ false
  or_dash_filled none = refl
  or_dash_filled (some a) = elim (Bool-cases (str_eq a "")) [
    | inl empty ↦ rw empty refl
    | inr full ↦ rw full full
  ]

  dash_kept : (o other : Option String) → or_dash (or_text (some (or_dash o)) other) ≡ or_dash o
  dash_kept o other = rw (or_dash_filled o) (rw (or_dash_filled o) refl)

  when_sanitized : (b : Bool) (r : LogRecord) → b ≡ true → unless_sanitized b r ≡ r
  when_sanitized true r e = refl
  when_sanitized false r e = absurd (cc e)

  -- The filter and the formatter can both sanitize a record: what the first has made of it the
  -- second leaves as it is, in whatever context it runs.
  pub sanitize_record-sanitize_record :
      (first second : Option String) (r : LogRecord)
      → sanitize_record second (sanitize_record first r) ≡ sanitize_record first r
  unfolding sanitize_record
  sanitize_record-sanitize_record first second r = by_flag r.pii_sanitized refl
    where
      own : Option String
      own = or_text r.correlation_id first

      by_flag :
          (b : Bool)
          → r.pii_sanitized ≡ b
          → let once = unless_sanitized b (with_correlation_id first r) in
            unless_sanitized once.pii_sanitized (with_correlation_id second once) ≡ once
      by_flag true e =
          when_sanitized r.pii_sanitized _ e
          ∙ ap (λ id. record r { correlation_id = some id }) (dash_kept own second)
      by_flag false e =
          ap
            (λ id. record (sanitize_once (with_correlation_id first r)) {
              correlation_id = some id;
            })
            (dash_kept own second)
