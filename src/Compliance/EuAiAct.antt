-- ===== src/Compliance/EuAiAct.antt =====
-- libs/python/odg-core/src/odg_core/compliance/eu_ai_act.py
use open_data_gov.Prelude.{
  Bool, not, ◌&&◌, ◌||◌, List, [], ◌∷◌, ◌==◌, Option, none, some, if◌then◌else◌, string_eq, nat_eq,
}
use open_data_gov.Prelude.Dict.{get}
use open_data_gov.Prelude.Exec.{Result, ok, err}
use open_data_gov.Enums.Compliance.{
  ComplianceFramework, AiRiskLevel, ai_risk_level_eq, ai_risk_level_value,
}
use open_data_gov.Compliance.Protocol.{
  Context, Value, is_truthy, ComplianceFinding, ComplianceResult, ComplianceError, reported,
  critical_count, score_of,
}

-- the tests of `check` in their order, each with the finding that it appends
unfoldable pub eu_ai_act_rules : AiRiskLevel → Context → List (Bool × ComplianceFinding)
eu_ai_act_rules risk_level context =
    (
      (risk_level == AiRiskLevel.high) && (not (is_truthy context "has_risk_management_system")),
      record {
        rule_id = "AI-ACT-9";
        severity = "critical";
        description = "High-risk AI system lacks risk management system";
        recommendation = "Implement continuous risk management per Art. 9";
      },
    )
    ∷ (
      (risk_level == AiRiskLevel.high) && (not (is_truthy context "has_data_governance")),
      record {
        rule_id = "AI-ACT-10";
        severity = "critical";
        description = "High-risk AI system lacks data governance measures";
        recommendation = "Establish data governance for training/validation data";
      },
    )
    ∷ (
      (risk_level == AiRiskLevel.high) && (not (is_truthy context "has_human_oversight")),
      record {
        rule_id = "AI-ACT-14";
        severity = "high";
        description = "No human oversight mechanism for high-risk AI";
        recommendation = "Implement human-in-the-loop oversight mechanisms";
      },
    )
    ∷ (
      (risk_level == AiRiskLevel.high || risk_level == AiRiskLevel.limited)
          && (not (is_truthy context "has_transparency_info")),
      record {
        rule_id = "AI-ACT-52";
        severity = "medium";
        description = "AI system transparency requirements not met";
        recommendation = "Provide clear information about AI system capabilities and limitations";
      },
    )
    ∷ []

-- AIRiskLevel(context.get("ai_risk_level", "minimal"))
unfoldable pub risk_level_of : Option Value → Result ComplianceError AiRiskLevel
risk_level_of none = ok AiRiskLevel.minimal
risk_level_of (some (Value.texts xs)) = err ComplianceError.value_error
risk_level_of (some (Value.flag b)) = err ComplianceError.value_error
risk_level_of (some (Value.text s)) =
    if s == "high"
    then ok AiRiskLevel.high
    else if s == "limited"
    then ok AiRiskLevel.limited
    else if s == "minimal"
    then ok AiRiskLevel.minimal
    else err ComplianceError.value_error

-- `check` once the risk level is read
unfoldable pub eu_ai_act_result : AiRiskLevel → Context → ComplianceResult
eu_ai_act_result risk_level context =
    let findings = reported (eu_ai_act_rules risk_level context) in
    let total_rules = if risk_level == AiRiskLevel.high then 4 else 1 in
    record {
      framework = ComplianceFramework.eu_ai_act;
      passed = critical_count findings == 0;
      score = score_of findings total_rules;
      findings = findings;
      metadata = ("risk_level", ai_risk_level_value risk_level) ∷ [];
    }

unfoldable pub eu_ai_act_check : Context → Result ComplianceError ComplianceResult
eu_ai_act_check context = elim (risk_level_of (get "ai_risk_level" context)) [
  | err e ↦ err e
  | ok risk_level ↦ ok (eu_ai_act_result risk_level context)
]
