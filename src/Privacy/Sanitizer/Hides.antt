-- ===== src/Privacy/Sanitizer/Hides.antt =====
-- What a log reader cannot tell apart behind `sanitize_value` of privacy/sanitizer.py,
-- src/fleet_management.
use text.Mathlib.TextLemmas.{nil≢cons, cons≢nil, head-eq_of_cons-eq}
use fleet_management.Prelude.{ℕ, String, ◌≡◌, refl, ap, Bool, true, false}
use fleet_management.Privacy.Sanitizer.{
  Texts, Value, plain_text, dict, sequence, dumped, exception, other, Entries, end, entry, Values,
  nil, cons, is_secret_key, is_name_key, first_character, mask_name, redacted, sanitize_item,
  sanitize_value, sanitize_entries, sanitize_values,
}

module _ (T : Texts) where
  -- Two values that differ only in what stands under the keys of secrets, whatever it is, and in
  -- texts under the keys of names, behind their first character.
  mutual
    pub data Similar : Value → Value → Type 0 where
      same_text : (s : String) → Similar (plain_text s) (plain_text s)
      same_exception : (shown : String) → Similar (exception shown) (exception shown)
      same_other : (n : ℕ) → Similar (other n) (other n)
      in_dict : (es fs : Entries) → SimilarEntries es fs → Similar (dict es) (dict fs)
      in_sequence : (vs ws : Values) → SimilarValues vs ws → Similar (sequence vs) (sequence ws)
      in_dumped : (v w : Value) → Similar v w → Similar (dumped v) (dumped w)

    pub data SimilarEntries : Entries → Entries → Type 0 where
      no_entries : SimilarEntries end end
      secret_entry :
          (key : String) (v w : Value) (es fs : Entries)
          → is_secret_key T key ≡ true
          → SimilarEntries es fs
          → SimilarEntries (entry key v es) (entry key w fs)
      name_entry :
          (key s t : String) (es fs : Entries)
          → is_name_key (T.lower key) ≡ true
          → first_character s ≡ first_character t
          → SimilarEntries es fs
          → SimilarEntries (entry key (plain_text s) es) (entry key (plain_text t) fs)
      plain_entry :
          (key : String) (v w : Value) (es fs : Entries)
          → Similar v w
          → SimilarEntries es fs
          → SimilarEntries (entry key v es) (entry key w fs)

    pub data SimilarValues : Values → Values → Type 0 where
      no_values : SimilarValues nil nil
      both_values :
          (v w : Value) (vs ws : Values)
          → Similar v w
          → SimilarValues vs ws
          → SimilarValues (cons v vs) (cons w ws)

  mask_name_first :
      (s t : String) → first_character s ≡ first_character t → mask_name s ≡ mask_name t
  unfolding mask_name
  mask_name_first String.[] String.[] e = refl
  mask_name_first String.[] (String.◌∷◌ d t) e = absurd (nil≢cons e)
  mask_name_first (String.◌∷◌ c s) String.[] e = absurd (cons≢nil e)
  mask_name_first (String.◌∷◌ c s) (String.◌∷◌ d t) e =
      ap (λ x. String.◌∷◌ x "***") (head-eq_of_cons-eq e)

  item_of_name :
      (secret : Bool) (s t : String) (v w : Value)
      → mask_name s ≡ mask_name t
      → sanitize_item T secret true (plain_text s) v ≡ sanitize_item T secret true (plain_text t) w
  item_of_name true s t v w e = refl
  item_of_name false s t v w e = ap plain_text e

  item_of_similar :
      (secret name : Bool) (v w : Value)
      → Similar v w
      → sanitize_value T v ≡ sanitize_value T w
      → sanitize_item T secret name v (sanitize_value T v)
        ≡ sanitize_item T secret name w (sanitize_value T w)
  item_of_similar true name v w similar e = refl
  item_of_similar false false v w similar e = e
  item_of_similar false true v w (same_text s) e = refl
  item_of_similar false true v w (same_exception shown) e = e
  item_of_similar false true v w (same_other n) e = e
  item_of_similar false true v w (in_dict es fs similar) e = e
  item_of_similar false true v w (in_sequence vs ws similar) e = e
  item_of_similar false true v w (in_dumped x y similar) e = e

  both :
      (key : String) (v w : Value) (es fs : Entries)
      → v ≡ w
      → es ≡ fs
      → entry key v es ≡ entry key w fs
  both key v w es fs e f = cc (e, f)

  mutual
    unfolding sanitize_value sanitize_entries sanitize_values

    hides : (v w : Value) → Similar v w → sanitize_value T v ≡ sanitize_value T w
    hides v w (same_text s) = refl
    hides v w (same_exception shown) = refl
    hides v w (same_other n) = refl
    hides v w (in_dict es fs similar) = ap dict (hides_entries es fs similar)
    hides v w (in_sequence vs ws similar) = ap sequence (hides_values vs ws similar)
    hides v w (in_dumped x y similar) = hides x y similar

    hides_entries :
        (es fs : Entries) → SimilarEntries es fs → sanitize_entries T es ≡ sanitize_entries T fs
    hides_entries es fs no_entries = refl
    hides_entries es fs (secret_entry key v w rest rest' secret similar) = rw secret (
        both key (plain_text redacted) (plain_text redacted) _ _ refl
          (hides_entries rest rest' similar))
    hides_entries es fs (name_entry key s t rest rest' name first similar) =
        both key _ _ _ _
          (rw name (item_of_name (is_secret_key T key) s t _ _ (mask_name_first s t first)))
          (hides_entries rest rest' similar)
    hides_entries es fs (plain_entry key v w rest rest' same similar) =
        both key _ _ _ _
          (item_of_similar (is_secret_key T key) (is_name_key (T.lower key)) v w same
            (hides v w same))
          (hides_entries rest rest' similar)

    hides_values :
        (vs ws : Values) → SimilarValues vs ws → sanitize_values T vs ≡ sanitize_values T ws
    hides_values vs ws no_values = refl
    hides_values vs ws (both_values v w rest rest' same similar) =
        cc (hides v w same, hides_values rest rest' similar)

  -- What is logged of a value does not depend on what stands under the key of a secret, nor on the
  -- texts under the keys of names behind their first character: two values that differ in nothing
  -- else are sanitized to the same.
  pub sanitize_value-hides : (v w : Value) → Similar v w → sanitize_value T v ≡ sanitize_value T w
  sanitize_value-hides v w similar = hides v w similar
