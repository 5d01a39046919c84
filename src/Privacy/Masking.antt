-- ===== src/Privacy/Masking.antt =====
-- privacy/masking.py: the partial masker.
use open_data_gov.Prelude.{
  ℕ, zero, suc, ◌+◌, ◌-◌, String, [], ◌∷◌, text_length, f_string, leb, ltb, if◌then◌else◌,
}

pub record PartialMasker : Type 0 where
  pub show_first : ℕ
  pub show_last : ℕ

-- "*" * n
unfoldable pub stars : ℕ → String
stars zero = ""
stars (suc n) = String.◌∷◌ "*" (stars n)

-- value[:n]
unfoldable pub text_take : ℕ → String → String
text_take zero s = ""
text_take (suc n) String.[] = ""
text_take (suc n) (String.◌∷◌ c s) = String.◌∷◌ c (text_take n s)

-- value[n:]
unfoldable pub text_drop : ℕ → String → String
text_drop zero s = s
text_drop (suc n) String.[] = ""
text_drop (suc n) (String.◌∷◌ c s) = text_drop n s

-- `value[-n:] if n > 0 else ""`, of a value that is longer than n
unfoldable pub text_last : ℕ → String → String
text_last n s = if ltb 0 n then text_drop (text_length s - n) s else ""

unfoldable pub mask : PartialMasker → String → String
mask masker value =
    if leb (text_length value) (masker.show_first + masker.show_last)
    then stars (text_length value)
    else f_string (
        text_take masker.show_first value
        ∷ stars (text_length value - masker.show_first - masker.show_last)
        ∷ text_last masker.show_last value
        ∷ [])
