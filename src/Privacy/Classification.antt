-- ===== src/Privacy/Classification.antt =====
-- privacy/classification.py and privacy/jurisdiction.py
use open_data_gov.Prelude.{String, Bool, true, false, List, [], ◌∷◌}
use open_data_gov.Enums.Data.{DataClassification}
use open_data_gov.Enums.Compliance.{ComplianceFramework, Jurisdiction}

-- the keys of an entry of CLASSIFICATION_CONTROLS
pub data Control : Type 0 where
  rbac encryption_at_rest encryption_in_transit pii_masking differential_privacy : Control
  mfa_required audit_logging : Control

-- CLASSIFICATION_CONTROLS, which has an entry for every classification: the default is not used.
unfoldable pub get_required_controls : DataClassification → Control → Bool
get_required_controls DataClassification.public Control.encryption_in_transit = true
get_required_controls DataClassification.public _ = false
get_required_controls DataClassification.internal Control.rbac = true
get_required_controls DataClassification.internal Control.encryption_in_transit = true
get_required_controls DataClassification.internal Control.audit_logging = true
get_required_controls DataClassification.internal _ = false
get_required_controls DataClassification.confidential Control.differential_privacy = false
get_required_controls DataClassification.confidential Control.mfa_required = false
get_required_controls DataClassification.confidential _ = true
get_required_controls DataClassification.restricted _ = true
get_required_controls DataClassification.top_secret _ = true

pub record JurisdictionPolicy : Type 0 where
  pub jurisdiction : Jurisdiction
  pub allowed_regions : List String
  pub data_transfer_restricted : Bool
  pub applicable_frameworks : List ComplianceFramework

-- JURISDICTION_FRAMEWORKS
unfoldable pub jurisdiction_frameworks : Jurisdiction → List ComplianceFramework
jurisdiction_frameworks Jurisdiction.br =
    ComplianceFramework.lgpd ∷ ComplianceFramework.dama_dmbok ∷ []
jurisdiction_frameworks Jurisdiction.eu =
    ComplianceFramework.gdpr ∷ ComplianceFramework.eu_ai_act ∷ ComplianceFramework.dama_dmbok ∷ []
jurisdiction_frameworks Jurisdiction.us =
    ComplianceFramework.sox ∷ ComplianceFramework.nist_ai_rmf ∷ ComplianceFramework.dama_dmbok ∷ []
jurisdiction_frameworks Jurisdiction.global =
    ComplianceFramework.iso_42001 ∷ ComplianceFramework.dama_dmbok ∷ []

unfoldable pub restricts_transfer : Jurisdiction → Bool
restricts_transfer Jurisdiction.eu = true
restricts_transfer Jurisdiction.br = true
restricts_transfer _ = false

unfoldable pub get_jurisdiction_policy : Jurisdiction → JurisdictionPolicy
get_jurisdiction_policy jurisdiction = record {
  jurisdiction = jurisdiction;
  allowed_regions = [];
  data_transfer_restricted = restricts_transfer jurisdiction;
  applicable_frameworks = jurisdiction_frameworks jurisdiction;
}
