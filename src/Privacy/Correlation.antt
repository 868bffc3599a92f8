-- ===== src/Privacy/Correlation.antt =====
-- The ids that tie the log lines of a request together: privacy/correlation.py of
-- src/fleet_management. A fresh `uuid4` is a parameter.
pub mod Reuse
use Prim.Native.Char.{Char, code}
use Prim.Native.String.{◌++◌ as str_append}
use mathlib.Core.Path.{subst}
use text.Mathlib.TextEquality.{Char-path}
use text.Mathlib.TextLemmas.{cons-append}
use fleet_management.Prelude.{
  ℕ, suc, ◌+◌, ◌≤◌, String, ◌≡◌, refl, sym, ap, ◌∙◌, ◌↔◌, ◌⊎◌, inl, inr, Bool, true, not, ◌&&◌,
  ◌||◌, Option, none, some, leb, ◌==◌, if◌then◌else◌, str_eq, eq_iff, Bool-cases, arith,
}

-- `[A-Za-z0-9._-]`
abbrev pub is_id_char : Char → Bool
is_id_char c =
    let n = code c in
    (leb b'A' n && leb n b'Z')
    || (leb b'a' n && leb n b'z')
    || (leb b'0' n && leb n b'9')
    || n == b'.'
    || n == b'_'
    || n == b'-'

-- `{1,64}$` after `taken` characters: `$` stands at the end, and also before a last newline.
abbrev pub at_end : ℕ → Bool
at_end taken = leb 1 taken && leb taken 64

unfoldable pub match_rest : ℕ → String → Bool
match_rest taken String.[] = at_end taken
match_rest taken (String.◌∷◌ c s) =
    let rest = match_rest (suc taken) s in
    if is_id_char c then rest else (code c == b'\n') && str_eq s "" && at_end taken

-- `_VALID_ID_RE.match`
unfoldable pub is_valid_id : String → Bool
unfolding match_rest
is_valid_id s = match_rest 0 s

-- `incoming and ...`: no id and an empty id are alike.
unfoldable pub accept_or_generate : (fresh : String) → Option String → String
accept_or_generate fresh none = fresh
accept_or_generate fresh (some incoming) =
    if not (str_eq incoming "") && is_valid_id incoming then incoming else fresh

unfoldable pub current_correlation_id : (fresh : String) → Option String → String
current_correlation_id fresh none = fresh
current_correlation_id fresh (some id) = if str_eq id "" then fresh else id

abbrev pub characters : String → ℕ
characters String.[] = 0
characters (String.◌∷◌ c s) = suc (characters s)

abbrev pub all_id_chars : String → Bool
all_id_chars String.[] = true
all_id_chars (String.◌∷◌ c s) = is_id_char c && all_id_chars s

-- One to 64 characters of the class, by themselves or with a newline behind them.
pub record Accepted (taken : ℕ) (s : String) : Type 0 where
  pub id : String
  pub of_class : all_id_chars id ≡ true
  pub some_characters : 1 ≤ taken + characters id
  pub few_characters : taken + characters id ≤ 64
  pub whole : (s ≡ id) ⊎ (s ≡ str_append id "\n")

at_end_bounds : (n : ℕ) → at_end n ≡ true → (1 ≤ n) × (n ≤ 64)
at_end_bounds n h = ground (arith, h)

bounds_at_end : (n : ℕ) → 1 ≤ n → n ≤ 64 → at_end n ≡ true
bounds_at_end n low high = ground (arith, low, high)

and_parts : (a b : Bool) → (a && b) ≡ true → (a ≡ true) × (b ≡ true)
and_parts a b h = ground arith

newline : (c : Char) → (code c == b'\n') ≡ true → Path String (String.◌∷◌ c "") "\n"
newline c h =
    let same : code c ≡ b'\n' = ground (arith, h) in
    ap (λ x. String.◌∷◌ x "") (Char-path c "\n" same)

longer :
    (taken : ℕ) (c : Char) (s : String)
    → is_id_char c ≡ true
    → Accepted (suc taken) s
    → Accepted taken (String.◌∷◌ c s)
longer taken c s of a = record {
  id = String.◌∷◌ c a.id;
  of_class = rw of a.of_class;
  some_characters = omega arith;
  few_characters = omega (arith, a.few_characters);
  whole = elim a.whole [
    | inl same ↦ inl (ap (λ t. String.◌∷◌ c t) same)
    | inr with_newline ↦ inr (ap (λ t. String.◌∷◌ c t) with_newline ∙ sym (cons-append c a.id "\n"))
  ];
}

match_rest-Accepted : (taken : ℕ) (s : String) → match_rest taken s ≡ true → Accepted taken s
unfolding match_rest
match_rest-Accepted taken String.[] h = record {
  id = "";
  of_class = refl;
  some_characters = omega (arith, (at_end_bounds taken h).0);
  few_characters = omega (arith, (at_end_bounds taken h).1);
  whole = inl refl;
}
match_rest-Accepted taken (String.◌∷◌ c s) h = elim (Bool-cases (is_id_char c)) [
  | inl of ↦ longer taken c s of (match_rest-Accepted (suc taken) s (rw of at h))
  | inr other ↦
      let parts = and_parts (code c == b'\n' && str_eq s "") (at_end taken) (rw other at h) in
      let last = and_parts (code c == b'\n') (str_eq s "") parts.0 in
      let bounds = at_end_bounds taken parts.1 in
      record {
        id = "";
        of_class = refl;
        some_characters = omega (arith, bounds.0);
        few_characters = omega (arith, bounds.1);
        whole = inr (ap (λ t. String.◌∷◌ c t) ((eq_iff s "").0 last.1) ∙ newline c last.0);
      }
]

match_own :
    (taken : ℕ) (w : String)
    → all_id_chars w ≡ true
    → at_end (taken + characters w) ≡ true
    → (match_rest taken w ≡ true) × (match_rest taken (str_append w "\n") ≡ true)
unfolding match_rest
match_own taken String.[] of ends =
    let e : taken + 0 ≡ taken = omega arith in
    let here : at_end taken ≡ true = subst (λ n. at_end n ≡ true) e ends in (here, here)
match_own taken (String.◌∷◌ c w) of ends =
    let parts = and_parts (is_id_char c) (all_id_chars w) of in
    let e : taken + suc (characters w) ≡ suc taken + characters w = omega arith in
    let rest = match_own (suc taken) w parts.1 (subst (λ n. at_end n ≡ true) e ends) in
    (rw parts.0 rest.0, rw (cons-append c w "\n") (rw parts.0 rest.1))

-- The pattern matches an id exactly where it has one to 64 characters of the class, by themselves or with
-- a newline behind them, before which the `$` of a Python pattern also stands.
pub is_valid_id_iff : (s : String) → (is_valid_id s ≡ true) ↔ Accepted 0 s
unfolding is_valid_id
is_valid_id_iff s = (match_rest-Accepted 0 s, λ a. accepted a a.whole)
  where
    own :
        (a : Accepted 0 s) → (is_valid_id a.id ≡ true) × (is_valid_id (str_append a.id "\n") ≡ true)
    own a =
        match_own 0 a.id a.of_class
          (bounds_at_end (0 + characters a.id) a.some_characters a.few_characters)

    accepted : (a : Accepted 0 s) → (s ≡ a.id) ⊎ (s ≡ str_append a.id "\n") → is_valid_id s ≡ true
    accepted a (inl same) = rw same (own a).0
    accepted a (inr with_newline) = rw with_newline (own a).1
