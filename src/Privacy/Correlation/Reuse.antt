-- ===== src/Privacy/Correlation/Reuse.antt =====
-- Which ids of clients are taken over: `accept_or_generate` of privacy/correlation.py,
-- src/fleet_management, with the class of the pattern by the codes of its characters.
use Prim.Native.Char.{Char, code}
use Prim.Native.String.{◌++◌ as str_append}
use mathlib.Core.Path.{subst}
use fleet_management.Prelude.{
  ◌≤◌, String, ◌≡◌, refl, ◌⊎◌, inl, inr, true, false, Option, none, some, str_eq, eq_iff,
  Bool-cases, arith,
}
use fleet_management.Privacy.Correlation.{
  is_id_char, is_valid_id, accept_or_generate, characters, all_id_chars, Accepted, is_valid_id_iff,
}

-- A letter, a digit, a dot, an underscore or a dash of ASCII.
abbrev pub InClass : Char → Type 0
InClass c =
    ((65 ≤ code c) × (code c ≤ 90))
    ⊎ (((97 ≤ code c) × (code c ≤ 122))
        ⊎ (((48 ≤ code c) × (code c ≤ 57)) ⊎ ((code c ≡ 46) ⊎ ((code c ≡ 95) ⊎ (code c ≡ 45)))))

abbrev pub AllInClass : String → Type 0
AllInClass String.[] = Unit
AllInClass (String.◌∷◌ c s) = InClass c × AllInClass s

-- One to 64 characters of the class, by themselves or with a newline behind them.
pub record WellFormed (s : String) : Type 0 where
  pub id : String
  pub of_class : AllInClass id
  pub some_characters : 1 ≤ characters id
  pub few_characters : characters id ≤ 64
  pub whole : (s ≡ id) ⊎ (s ≡ str_append id "\n")

-- What is answered for an id that came with a request: that id where it is well-formed, and
-- otherwise the fresh one.
pub data Answered (fresh : String) : Option String → String → Type 0 where
  missing : Answered fresh none fresh
  reused : (s : String) → WellFormed s → Answered fresh (some s) s
  replaced : (s : String) → ¬ WellFormed s → Answered fresh (some s) fresh

is_id_char-InClass : (c : Char) → is_id_char c ≡ true → InClass c
is_id_char-InClass c h = ground (arith, h)

InClass-is_id_char : (c : Char) → InClass c → is_id_char c ≡ true
InClass-is_id_char c h = ground (arith, h)

all_id_chars-AllInClass : (s : String) → all_id_chars s ≡ true → AllInClass s
all_id_chars-AllInClass String.[] h = tt
all_id_chars-AllInClass (String.◌∷◌ c s) h =
    (is_id_char-InClass c (ground (arith, h)), all_id_chars-AllInClass s (ground (arith, h)))

AllInClass-all_id_chars : (s : String) → AllInClass s → all_id_chars s ≡ true
AllInClass-all_id_chars String.[] h = refl
AllInClass-all_id_chars (String.◌∷◌ c s) h =
    rw (InClass-is_id_char c h.0) (AllInClass-all_id_chars s h.1)

Accepted-WellFormed : (s : String) → Accepted 0 s → WellFormed s
Accepted-WellFormed s a = record {
  id = a.id;
  of_class = all_id_chars-AllInClass a.id a.of_class;
  some_characters = omega (arith, a.some_characters);
  few_characters = omega (arith, a.few_characters);
  whole = a.whole;
}

WellFormed-Accepted : (s : String) → WellFormed s → Accepted 0 s
WellFormed-Accepted s a = record {
  id = a.id;
  of_class = AllInClass-all_id_chars a.id a.of_class;
  some_characters = omega (arith, a.some_characters);
  few_characters = omega (arith, a.few_characters);
  whole = a.whole;
}

empty_refused : is_valid_id "" ≡ false
unfolding is_valid_id
empty_refused = refl

-- An id that came with a request is taken over exactly where it has one to 64 letters, digits, dots,
-- underscores and dashes of ASCII, by themselves or with a newline behind them, before which the `$`
-- of a Python pattern also stands; any other, an empty one and a missing one give a fresh id.
pub accept_or_generate_lem :
    (fresh : String) (incoming : Option String)
    → Answered fresh incoming (accept_or_generate fresh incoming)
unfolding accept_or_generate
accept_or_generate_lem fresh none = missing
accept_or_generate_lem fresh (some s) =
    let accepted = λ (w : WellFormed s). (is_valid_id_iff s).1 (WellFormed-Accepted s w) in
    elim (Bool-cases (str_eq s "")) [
      | inl empty ↦ rw empty (
          replaced s λ w.
            cc (
              subst (λ t. is_valid_id t ≡ true) ((eq_iff s "").0 empty) (accepted w),
              empty_refused,
            ))
      | inr full ↦ elim (Bool-cases (is_valid_id s)) [
        | inl valid ↦
            rw (full, valid) (reused s (Accepted-WellFormed s ((is_valid_id_iff s).0 valid)))
        | inr invalid ↦ rw (full, invalid) (replaced s λ w. cc (accepted w, invalid))
      ]
    ]
