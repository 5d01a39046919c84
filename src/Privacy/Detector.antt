-- ===== src/Privacy/Detector.antt =====
-- libs/python/odg-core/src/odg_core/privacy/detector.py
use open_data_gov.Prelude.{String, Bool, List, [], ◌∷◌, ◌++◌, if◌then◌else◌}

-- _PII_PATTERNS, with the texts that are compiled
abbrev pub column_patterns : List (String × String)
column_patterns =
    ("cpf", "(?i)^(cpf|cnpj|tax_id|ssn|social_security)")
    ∷ ("email", "(?i)(email|e_mail)")
    ∷ ("phone", "(?i)(phone|telefone|celular|mobile)")
    ∷ ("address", "(?i)(address|endereco|street|cep|zip_code|postal)")
    ∷ ("name", "(?i)^(full_name|first_name|last_name|nome)")
    ∷ ("birth_date", "(?i)(birth|nascimento|dob)")
    ∷ ("financial", "(?i)(credit_card|card_number|account_number|iban)")
    ∷ ("document", "(?i)(passport|rg_number|driver_license)")
    ∷ []

pub record Detection : Type 0 where
  pub column : String
  pub pii_type : String

-- `search_pattern pattern s` is whether `re.compile(pattern).search(s)` finds a match.
module _ (search_pattern : String → String → Bool) where
  -- the loop over the patterns, which the first match ends
  unfoldable pub detect_column : List (String × String) → String → List Detection → List Detection
  detect_column [] col detections = detections
  detect_column ((pii_type, pattern) ∷ patterns) col detections =
      let rest = detect_column patterns col detections in
      if search_pattern pattern col
      then detections ++ record { column = col; pii_type = pii_type } ∷ []
      else rest

  unfoldable pub detect_columns : List String → List Detection → List Detection
  unfolding detect_column
  detect_columns [] detections = detections
  detect_columns (col ∷ cols) detections =
      detect_columns cols (detect_column column_patterns col detections)

  unfoldable pub detect_pii_columns : List String → List Detection
  unfolding detect_columns
  detect_pii_columns column_names = detect_columns column_names []
