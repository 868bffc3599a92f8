-- ===== src/Telemetry/Samples.antt =====
-- Floats and texts for tests: a number stands for a float, and a text of as many letters for a
-- number.
use Prim.Native.String.{String, [], ◌∷◌}
use fleet_management.Prelude.{ℕ, zero, suc, ◌≡◌, refl, sym, ap, ◌∙◌, Option, some, none, leb, true}
use fleet_management.Telemetry.{Floats, Codec, TelemetryMessage, CachedState}

abbrev pub coarse : Floats
coarse = record {
  Float = ℕ;
  float_leb = leb;
  minus_90 = 0;
  plus_90 = 180;
  minus_180 = 0;
  plus_180 = 360;
  float_0 = 0;
  float_100 = 100;
}

abbrev pub unary : ℕ → String
unary zero = []
unary (suc n) = "a" ∷ unary n

abbrev pub letters : String → ℕ
letters [] = 0
letters (c ∷ s) = suc (letters s)

pub letters-unary : (n : ℕ) → letters (unary n) ≡ n
letters-unary zero = refl
letters-unary (suc n) = ap suc (letters-unary n)

abbrev pub unary_codec : Codec coarse
unary_codec = record {
  print_int = unary;
  print_time = unary;
  parse_time = λ s. some (letters s);
  print_float = unary;
  parse_float = λ s. some (letters s);
  print_int_injective = λ m n e. sym (letters-unary m) ∙ ap letters e ∙ letters-unary n;
  parse-print_time = λ t. ap some (letters-unary t);
  parse-print_float = λ x. ap some (letters-unary x);
}

abbrev pub reading : ℕ → ℕ → TelemetryMessage coarse
reading vehicle_id recorded_at = record {
  vehicle_id = vehicle_id;
  recorded_at = recorded_at;
  latitude = 100;
  longitude = 50;
  fuel_level = 30;
  is_locked = true;
}

abbrev pub empty_cache : String → Option CachedState
empty_cache _ = none
