-- ===== src/Account/Samples.antt =====
-- Trivial hashing and tokens for the tests of the modules.
use text.Mathlib.TextPositions.{eq_refl}
use fleet_management.Prelude.{
  ℕ, ◌*◌, ◌≤◌, ◌<◌, ◌≡◌, ap, ◌&&◌, Option, none, some, ltb, leb, if◌then◌else◌, str_eq, arith,
}
use fleet_management.Telemetry.Samples.{unary, letters, letters-unary}
use fleet_management.Account.{Passwords, Tokens, Payload, second}

-- A password is its own hash.
abbrev pub plain : Passwords
plain = record {
  strip = λ s. s;
  lower = λ s. s;
  hash = λ salt password. password;
  verify = λ password hashed. str_eq password hashed;
  verify-hash = λ salt password. eq_refl password;
}

abbrev pub read_claims : ℕ → Payload → Option Payload
read_claims now p = if leb (p.iat * second) now && ltb now (p.exp * second) then some p else none

pub claims_readable :
    (p : Payload) (now : ℕ)
    → p.iat * second ≤ now
    → now < p.exp * second
    → read_claims now p ≡ some p
claims_readable p now after before = ground arith

-- A token is its claims.
abbrev pub open_tokens : Tokens
open_tokens = record {
  Token = Payload;
  print_int = unary;
  parse_int = λ s. some (letters s);
  encode = λ p. p;
  decode = read_claims;
  parse-print = λ n. ap some (letters-unary n);
  decode-encode = claims_readable;
}
