-- ===== src/Privacy/Maskers.antt =====
-- privacy/masking.py: the hash, redact and email maskers, and CPF_MASKER.
use Prim.Native.Char.{Char}
use Prim.Native.String.{String}
use open_data_gov.Prelude.{
  Bool, [], ◌∷◌, Option, none, some, ◌==◌, string_eq, f_string, if◌then◌else◌,
}
use open_data_gov.Runtime.{Runtime}
use open_data_gov.Privacy.Masking.{PartialMasker, text_take}

-- CPF_MASKER
abbrev pub cpf_masker : PartialMasker
cpf_masker = record { show_first = 0; show_last = 4 }

pub record RedactMasker : Type 0 where
  pub replacement : String

-- RedactMasker()
abbrev pub redact_masker : RedactMasker
redact_masker = record { replacement = "[REDACTED]" }

unfoldable pub redact : RedactMasker → String → String
redact masker value = masker.replacement

-- whether a character is the at sign
abbrev pub is_at : String → Bool
is_at s = s == "@"

-- the parts of a text from those of its tail
unfoldable pub split_here : Char → String → Option (String × String) → Option (String × String)
split_here c s (some parts) = some (String.◌∷◌ c parts.0, parts.1)
split_here c s none = if is_at (String.◌∷◌ c "") then some ("", s) else none

-- value.rsplit("@", 1), of a text with an at sign; none of another
unfoldable pub rsplit_at : String → Option (String × String)
unfolding split_here
rsplit_at String.[] = none
rsplit_at (String.◌∷◌ c s) = split_here c s (rsplit_at s)

pub record HashMasker : Type 0 where
  pub salt : String

module _ ⦃rt : Runtime⦄ where
  unfoldable pub hash_mask : HashMasker → String → String
  hash_mask masker value = text_take 16 (rt.sha256_hexdigest (f_string (masker.salt ∷ value ∷ [])))

  -- what is made of the parts of a value
  unfoldable pub email_parts : String → Option (String × String) → String
  unfolding hash_mask
  email_parts value none = hash_mask (record { salt = "" }) value
  email_parts value (some parts) =
      f_string (text_take 8 (rt.sha256_hexdigest parts.0) ∷ "@" ∷ parts.1 ∷ [])

  -- EmailMasker().mask
  unfoldable pub email_mask : String → String
  unfolding rsplit_at email_parts
  email_mask value = email_parts value (rsplit_at value)
