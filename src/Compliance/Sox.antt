-- ===== src/Compliance/Sox.antt =====
-- libs/python/odg-core/src/odg_core/compliance/sox.py
use open_data_gov.Prelude.{Bool, not, List, [], ◌∷◌, ◌==◌, nat_eq}
use open_data_gov.Enums.Compliance.{ComplianceFramework, ai_risk_level_eq}
use open_data_gov.Compliance.Protocol.{
  Context, is_truthy, ComplianceFinding, ComplianceResult, reported, critical_count, score_of,
}

-- the tests of `check` in their order, each with the finding that it appends
unfoldable pub sox_rules : Context → List (Bool × ComplianceFinding)
sox_rules context =
    (
      not (is_truthy context "has_audit_trail"),
      record {
        rule_id = "SOX-302";
        severity = "critical";
        description = "No immutable audit trail for financial data changes";
        recommendation = "Implement hash-chained audit log per SOX Section 302";
      },
    )
    ∷ (
      not (is_truthy context "has_access_controls"),
      record {
        rule_id = "SOX-404-ACCESS";
        severity = "critical";
        description = "Inadequate access controls for financial reporting data";
        recommendation = "Enforce RBAC and separation of duties per SOX Section 404";
      },
    )
    ∷ (
      not (is_truthy context "has_change_management"),
      record {
        rule_id = "SOX-404-CHANGE";
        severity = "high";
        description = "No formal change management process for financial data pipelines";
        recommendation = "Implement RACI-based approval for schema and pipeline changes";
      },
    )
    ∷ (
      not (is_truthy context "has_data_retention_policy"),
      record {
        rule_id = "SOX-802";
        severity = "high";
        description = "No data retention policy (SOX requires 7 years)";
        recommendation = "Configure retention policies: audit logs >= 7 years";
      },
    )
    ∷ []

unfoldable pub sox_check : Context → ComplianceResult
sox_check context =
    let findings = reported (sox_rules context) in
    let score = score_of findings 4 in
    record {
      framework = ComplianceFramework.sox;
      passed = critical_count findings == 0;
      score = score;
      findings = findings;
      metadata = [];
    }
