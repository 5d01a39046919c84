-- ===== src/Compliance/Lgpd.antt =====
-- libs/python/odg-core/src/odg_core/compliance/lgpd.py
use open_data_gov.Prelude.{Bool, not, List, [], ◌∷◌, ◌==◌, nat_eq}
use open_data_gov.Enums.Compliance.{ComplianceFramework, ai_risk_level_eq}
use open_data_gov.Compliance.Protocol.{
  Context, is_truthy, ComplianceFinding, ComplianceResult, reported, critical_count, score_of,
}

-- the tests of `check` in their order, each with the finding that it appends
unfoldable pub lgpd_rules : Context → List (Bool × ComplianceFinding)
lgpd_rules context =
    (
      not (is_truthy context "has_legal_basis"),
      record {
        rule_id = "LGPD-7";
        severity = "critical";
        description = "No legal basis for data processing";
        recommendation = "Document legal basis under LGPD Art. 7";
      },
    )
    ∷ (
      not (is_truthy context "supports_data_subject_rights"),
      record {
        rule_id = "LGPD-18";
        severity = "high";
        description = "Data subject rights not implemented";
        recommendation = "Implement access, correction, deletion, portability per Art. 18";
      },
    )
    ∷ (
      not (is_truthy context "has_dpo"),
      record {
        rule_id = "LGPD-41";
        severity = "medium";
        description = "No Data Protection Officer (DPO/Encarregado) designated";
        recommendation = "Designate an Encarregado per Art. 41";
      },
    )
    ∷ (
      not (is_truthy context "has_security_measures"),
      record {
        rule_id = "LGPD-46";
        severity = "high";
        description = "Security measures not documented";
        recommendation = "Implement and document security measures per Art. 46";
      },
    )
    ∷ []

unfoldable pub lgpd_check : Context → ComplianceResult
lgpd_check context =
    let findings = reported (lgpd_rules context) in
    let score = score_of findings 4 in
    record {
      framework = ComplianceFramework.lgpd;
      passed = critical_count findings == 0;
      score = score;
      findings = findings;
      metadata = [];
    }
