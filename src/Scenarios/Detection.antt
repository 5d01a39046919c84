-- ===== src/Scenarios/Detection.antt =====
-- Personal columns, and a drift between two lists of columns.
use open_data_gov.Prelude.{String, ◌≡◌, ◌↔◌, Bool, false, List, In, [], ◌∷◌, some, ◌==◌, string_eq}
use open_data_gov.Privacy.Detector.{Detection, column_patterns, detect_pii_columns}
use open_data_gov.Privacy.Detected.{first_type, detect_pii_columns_iff}
use open_data_gov.Observability.Drift.{detect_schema_drift}
use open_data_gov.Observability.Differences.{detect_schema_drift_iff}

abbrev search : (pattern s : String) → Bool
search pattern s = pattern == "(?i)(email|e_mail)"

abbrev detection : Detection
detection = record { column = "email"; pii_type = "email" }

detect_pii_columns_iff_example : In detection (detect_pii_columns search ("id" ∷ "email" ∷ [])) ↔ (
    In {A = String} "email" ("id" ∷ "email" ∷ [])
    × (first_type search column_patterns "email" ≡ some "email"))
detect_pii_columns_iff_example = detect_pii_columns_iff search ("id" ∷ "email" ∷ []) detection

abbrev expected : List String
expected = "id" ∷ "total" ∷ "id" ∷ []

abbrev actual : List String
actual = "total" ∷ "email" ∷ []

detect_schema_drift_iff_example :
    let drift = detect_schema_drift expected actual in
    ((x : String) → In x drift.added ↔ (In x actual × ¬ In x expected))
    × ((x : String) → In x drift.removed ↔ (In x expected × ¬ In x actual))
    × ((drift.has_drift ≡ false) ↔ ((x : String) → In x expected ↔ In x actual))
detect_schema_drift_iff_example = detect_schema_drift_iff expected actual
