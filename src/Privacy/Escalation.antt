-- ===== src/Privacy/Escalation.antt =====
-- Controls only get stricter as data gets more sensitive.
use open_data_gov.Prelude.{◌≤◌, ◌≡◌, true, arith}
use open_data_gov.Enums.Data.{DataClassification, data_classification_rank}
use open_data_gov.Privacy.Classification.{Control, get_required_controls}

-- A control that a classification requires is required by every higher classification, in the
-- order of the enumeration from public to top secret.
pub get_required_controls_mono :
    (low high : DataClassification) (control : Control)
    → data_classification_rank low ≤ data_classification_rank high
    → get_required_controls low control ≡ true
    → get_required_controls high control ≡ true
unfolding get_required_controls
get_required_controls_mono low high control order required = ground arith
