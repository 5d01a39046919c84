-- ===== src/Compliance/Iso42001.antt =====
-- libs/python/odg-core/src/odg_core/compliance/iso_42001.py
use open_data_gov.Prelude.{Bool, not, List, [], ◌∷◌, nat_eq}
use open_data_gov.Enums.Compliance.{ComplianceFramework, ai_risk_level_eq}
use open_data_gov.Compliance.Protocol.{
  Context, is_truthy, ComplianceFinding, ComplianceResult, reported, score_of, at_least,
}

-- the tests of `check` in their order, each with the finding that it appends
unfoldable pub iso_42001_rules : Context → List (Bool × ComplianceFinding)
iso_42001_rules context =
    (
      not (is_truthy context "has_ai_scope_definition"),
      record {
        rule_id = "ISO42001-4";
        severity = "medium";
        description = "AI management system scope not defined";
        recommendation = "Define scope, interested parties, and AIMS boundaries (Clause 4)";
      },
    )
    ∷ (
      not (is_truthy context "has_ai_leadership_commitment"),
      record {
        rule_id = "ISO42001-5";
        severity = "medium";
        description = "No leadership commitment to AI management";
        recommendation = "Establish AI policy and management responsibility (Clause 5)";
      },
    )
    ∷ (
      not (is_truthy context "has_ai_risk_assessment"),
      record {
        rule_id = "ISO42001-6";
        severity = "high";
        description = "No AI risk assessment process";
        recommendation = "Implement AI risk assessment and treatment (Clause 6)";
      },
    )
    ∷ (
      not (is_truthy context "has_ai_lifecycle_management"),
      record {
        rule_id = "ISO42001-8";
        severity = "high";
        description = "No AI system lifecycle management";
        recommendation = "Implement operational planning and control for AI systems (Clause 8)";
      },
    )
    ∷ (
      not (is_truthy context "has_ai_monitoring"),
      record {
        rule_id = "ISO42001-9";
        severity = "medium";
        description = "No AI performance monitoring and evaluation";
        recommendation = "Establish monitoring, measurement, and internal audit (Clause 9)";
      },
    )
    ∷ []

unfoldable pub iso_42001_check : Context → ComplianceResult
iso_42001_check context =
    let findings = reported (iso_42001_rules context) in
    let score = score_of findings 5 in
    record {
      framework = ComplianceFramework.iso_42001;
      passed = at_least 6 10 score;
      score = score;
      findings = findings;
      metadata = [];
    }
