-- ===== src/Compliance/Gdpr.antt =====
-- libs/python/odg-core/src/odg_core/compliance/gdpr.py
use open_data_gov.Prelude.{Bool, not, ◌&&◌, List, [], ◌∷◌, ◌==◌, nat_eq}
use open_data_gov.Enums.Compliance.{ComplianceFramework, ai_risk_level_eq}
use open_data_gov.Compliance.Protocol.{
  Context, is_truthy, ComplianceFinding, ComplianceResult, reported, critical_count, score_of,
}

-- the tests of `check` in their order, each with the finding that it appends
unfoldable pub gdpr_rules : Context → List (Bool × ComplianceFinding)
gdpr_rules context =
    (
      not (is_truthy context "has_lawful_basis"),
      record {
        rule_id = "GDPR-6";
        severity = "critical";
        description = "No lawful basis for data processing";
        recommendation = "Document lawful basis under GDPR Art. 6";
      },
    )
    ∷ (
      not (is_truthy context "supports_data_portability"),
      record {
        rule_id = "GDPR-20";
        severity = "high";
        description = "Data portability not supported";
        recommendation = "Implement data export in machine-readable format";
      },
    )
    ∷ (
      not (is_truthy context "has_dpia"),
      record {
        rule_id = "GDPR-35";
        severity = "medium";
        description = "No Data Protection Impact Assessment conducted";
        recommendation = "Conduct DPIA for high-risk processing activities";
      },
    )
    ∷ (
      (is_truthy context "transfers_outside_eu")
          && (not (is_truthy context "has_adequacy_decision")),
      record {
        rule_id = "GDPR-45";
        severity = "critical";
        description = "Cross-border transfer without adequacy decision";
        recommendation = "Ensure adequate safeguards for international data transfers";
      },
    )
    ∷ []

unfoldable pub gdpr_check : Context → ComplianceResult
gdpr_check context =
    let findings = reported (gdpr_rules context) in
    let score = score_of findings 4 in
    record {
      framework = ComplianceFramework.gdpr;
      passed = critical_count findings == 0;
      score = score;
      findings = findings;
      metadata = [];
    }
