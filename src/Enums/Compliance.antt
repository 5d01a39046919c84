-- ===== src/Enums/Compliance.antt =====
-- The enumerations of libs/python/odg-core/src/odg_core/enums.py: ComplianceFramework, AIRiskLevel, Jurisdiction.
-- A member's value is the text that its StrEnum class gives it; `rank` numbers the members.
use open_data_gov.Prelude.{ℕ, String, ◌≡◌, ◌↔◌, true, arith, Eq, nat_beq}

pub data ComplianceFramework : Type 0 where
  lgpd gdpr eu_ai_act nist_ai_rmf iso_42001 sox dama_dmbok : ComplianceFramework

abbrev pub compliance_framework_value : ComplianceFramework → String
compliance_framework_value ComplianceFramework.lgpd = "lgpd"
compliance_framework_value ComplianceFramework.gdpr = "gdpr"
compliance_framework_value ComplianceFramework.eu_ai_act = "eu_ai_act"
compliance_framework_value ComplianceFramework.nist_ai_rmf = "nist_ai_rmf"
compliance_framework_value ComplianceFramework.iso_42001 = "iso_42001"
compliance_framework_value ComplianceFramework.sox = "sox"
compliance_framework_value ComplianceFramework.dama_dmbok = "dama_dmbok"

abbrev pub compliance_framework_rank : ComplianceFramework → ℕ
compliance_framework_rank ComplianceFramework.lgpd = 0
compliance_framework_rank ComplianceFramework.gdpr = 1
compliance_framework_rank ComplianceFramework.eu_ai_act = 2
compliance_framework_rank ComplianceFramework.nist_ai_rmf = 3
compliance_framework_rank ComplianceFramework.iso_42001 = 4
compliance_framework_rank ComplianceFramework.sox = 5
compliance_framework_rank ComplianceFramework.dama_dmbok = 6

pub compliance_framework_beq_iff :
    (a b : ComplianceFramework)
    → (nat_beq (compliance_framework_rank a) (compliance_framework_rank b) ≡ true) ↔ (a ≡ b)
compliance_framework_beq_iff a b = ground arith

instance abbrev pub compliance_framework_eq : Eq ComplianceFramework
compliance_framework_eq = record {
  beq = λ a b. nat_beq (compliance_framework_rank a) (compliance_framework_rank b);
  beq_iff = compliance_framework_beq_iff;
}

pub data AiRiskLevel : Type 0 where
  high limited minimal : AiRiskLevel

abbrev pub ai_risk_level_value : AiRiskLevel → String
ai_risk_level_value AiRiskLevel.high = "high"
ai_risk_level_value AiRiskLevel.limited = "limited"
ai_risk_level_value AiRiskLevel.minimal = "minimal"

abbrev pub ai_risk_level_rank : AiRiskLevel → ℕ
ai_risk_level_rank AiRiskLevel.high = 0
ai_risk_level_rank AiRiskLevel.limited = 1
ai_risk_level_rank AiRiskLevel.minimal = 2

pub ai_risk_level_beq_iff :
    (a b : AiRiskLevel) → (nat_beq (ai_risk_level_rank a) (ai_risk_level_rank b) ≡ true) ↔ (a ≡ b)
ai_risk_level_beq_iff a b = ground arith

instance abbrev pub ai_risk_level_eq : Eq AiRiskLevel
ai_risk_level_eq = record {
  beq = λ a b. nat_beq (ai_risk_level_rank a) (ai_risk_level_rank b);
  beq_iff = ai_risk_level_beq_iff;
}

pub data Jurisdiction : Type 0 where
  br eu us global : Jurisdiction

abbrev pub jurisdiction_value : Jurisdiction → String
jurisdiction_value Jurisdiction.br = "br"
jurisdiction_value Jurisdiction.eu = "eu"
jurisdiction_value Jurisdiction.us = "us"
jurisdiction_value Jurisdiction.global = "global"

abbrev pub jurisdiction_rank : Jurisdiction → ℕ
jurisdiction_rank Jurisdiction.br = 0
jurisdiction_rank Jurisdiction.eu = 1
jurisdiction_rank Jurisdiction.us = 2
jurisdiction_rank Jurisdiction.global = 3

pub jurisdiction_beq_iff :
    (a b : Jurisdiction) → (nat_beq (jurisdiction_rank a) (jurisdiction_rank b) ≡ true) ↔ (a ≡ b)
jurisdiction_beq_iff a b = ground arith

instance abbrev pub jurisdiction_eq : Eq Jurisdiction
jurisdiction_eq = record {
  beq = λ a b. nat_beq (jurisdiction_rank a) (jurisdiction_rank b);
  beq_iff = jurisdiction_beq_iff;
}
