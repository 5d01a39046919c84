-- ===== src/Compliance/NistAiRmf.antt =====
-- libs/python/odg-core/src/odg_core/compliance/nist_ai_rmf.py
use open_data_gov.Prelude.{Bool, not, List, [], ◌∷◌, nat_eq}
use open_data_gov.Enums.Compliance.{ComplianceFramework, ai_risk_level_eq}
use open_data_gov.Compliance.Protocol.{
  Context, is_truthy, ComplianceFinding, ComplianceResult, reported, score_of, at_least,
}

-- the tests of `check` in their order, each with the finding that it appends
unfoldable pub nist_ai_rmf_rules : Context → List (Bool × ComplianceFinding)
nist_ai_rmf_rules context =
    (
      not (is_truthy context "has_ai_governance_policy"),
      record {
        rule_id = "NIST-GOVERN-1";
        severity = "high";
        description = "No AI governance policies and procedures established";
        recommendation = "Define organizational AI risk management policies (GOVERN 1.1-1.7)";
      },
    )
    ∷ (
      not (is_truthy context "has_ai_risk_mapping"),
      record {
        rule_id = "NIST-MAP-1";
        severity = "medium";
        description = "AI system context and risk not mapped";
        recommendation = "Map AI system context, stakeholders, and risk (MAP 1.1-1.6)";
      },
    )
    ∷ (
      not (is_truthy context "has_ai_metrics"),
      record {
        rule_id = "NIST-MEASURE-1";
        severity = "medium";
        description = "No AI performance and risk metrics defined";
        recommendation = "Define quantitative metrics for AI trustworthiness (MEASURE 1.1-1.3)";
      },
    )
    ∷ (
      not (is_truthy context "has_ai_incident_response"),
      record {
        rule_id = "NIST-MANAGE-1";
        severity = "high";
        description = "No AI incident response plan";
        recommendation = "Establish AI risk response and monitoring (MANAGE 1.1-1.4)";
      },
    )
    ∷ []

unfoldable pub nist_ai_rmf_check : Context → ComplianceResult
nist_ai_rmf_check context =
    let findings = reported (nist_ai_rmf_rules context) in
    let score = score_of findings 4 in
    record {
      framework = ComplianceFramework.nist_ai_rmf;
      passed = at_least 5 10 score;
      score = score;
      findings = findings;
      metadata = [];
    }
