-- ===== src/Compliance/Requirements.antt =====
-- What each framework asks of a context.
use open_data_gov.Prelude.{
  ℕ, ◌≤◌, List, [], ◌∷◌, nat_eq, String, ◌≡◌, ◌↔◌, refl, true, arith, length, select,
}
use open_data_gov.Enums.Compliance.{AiRiskLevel}
use open_data_gov.Compliance.Protocol.{
  Context, is_truthy, reported, critical_count, score_of, at_least,
}
use open_data_gov.Compliance.Lgpd.{lgpd_rules, lgpd_check}
use open_data_gov.Compliance.Gdpr.{gdpr_rules, gdpr_check}
use open_data_gov.Compliance.Sox.{sox_rules, sox_check}
use open_data_gov.Compliance.NistAiRmf.{nist_ai_rmf_rules, nist_ai_rmf_check}
use open_data_gov.Compliance.Iso42001.{iso_42001_rules, iso_42001_check}
use open_data_gov.Compliance.EuAiAct.{eu_ai_act_rules, eu_ai_act_result}

abbrev pub Has : Context → String → Type 0
Has context key = is_truthy context key ≡ true

-- A context passes LGPD exactly when a legal basis is documented.
pub lgpd_check_iff :
    (context : Context) → ((lgpd_check context).passed ≡ true) ↔ Has context "has_legal_basis"
unfolding lgpd_check lgpd_rules reported critical_count select
lgpd_check_iff context = ((λ h. ground (arith, h)), λ h. ground (arith, h))

-- A context passes GDPR exactly when there is a lawful basis, and an adequacy decision if data is
-- transferred outside the EU.
pub gdpr_check_iff :
    (context : Context)
    → ((gdpr_check context).passed ≡ true) ↔ (
        Has context "has_lawful_basis"
        × (Has context "transfers_outside_eu" → Has context "has_adequacy_decision"))
unfolding gdpr_check gdpr_rules reported critical_count select
gdpr_check_iff context = ((λ h. ground (arith, h)), λ h. ground (arith, h))

-- A context passes SOX exactly when it has an audit trail and access controls.
pub sox_check_iff :
    (context : Context)
    → ((sox_check context).passed ≡ true)
      ↔ (Has context "has_audit_trail" × Has context "has_access_controls")
unfolding sox_check sox_rules reported critical_count select
sox_check_iff context = ((λ h. ground (arith, h)), λ h. ground (arith, h))

-- how many of the keys a context has
abbrev pub implemented : Context → List String → ℕ
implemented context keys = length (select (is_truthy context) keys)

abbrev pub nist_ai_rmf_keys : List String
nist_ai_rmf_keys =
    "has_ai_governance_policy" ∷ "has_ai_risk_mapping" ∷ "has_ai_metrics"
    ∷ "has_ai_incident_response" ∷ []

abbrev pub iso_42001_keys : List String
iso_42001_keys =
    "has_ai_scope_definition" ∷ "has_ai_leadership_commitment" ∷ "has_ai_risk_assessment"
    ∷ "has_ai_lifecycle_management" ∷ "has_ai_monitoring" ∷ []

-- A context passes the NIST framework exactly when it has two of the four functions.
pub nist_ai_rmf_check_iff :
    (context : Context)
    → ((nist_ai_rmf_check context).passed ≡ true) ↔ (2 ≤ implemented context nist_ai_rmf_keys)
unfolding nist_ai_rmf_check nist_ai_rmf_rules reported select score_of at_least
nist_ai_rmf_check_iff context = ((λ h. ground (arith, h)), λ h. ground (arith, h))

-- A context passes ISO 42001 exactly when it has three of the five clauses.
pub iso_42001_check_iff :
    (context : Context)
    → ((iso_42001_check context).passed ≡ true) ↔ (3 ≤ implemented context iso_42001_keys)
unfolding iso_42001_check iso_42001_rules reported select score_of at_least
iso_42001_check_iff context = ((λ h. ground (arith, h)), λ h. ground (arith, h))

-- Only a high-risk system can fail the EU AI Act: it passes exactly when it has a risk management
-- system and data governance.
pub eu_ai_act_result_iff :
    (risk_level : AiRiskLevel) (context : Context)
    → ((eu_ai_act_result risk_level context).passed ≡ true) ↔ (
        risk_level ≡ AiRiskLevel.high
        → Has context "has_risk_management_system" × Has context "has_data_governance")
unfolding eu_ai_act_result eu_ai_act_rules reported critical_count select
eu_ai_act_result_iff AiRiskLevel.high context =
    ((λ h _. ground (arith, h)), λ h. let both = h refl in ground (arith, both))
eu_ai_act_result_iff AiRiskLevel.limited context = ((λ h e. absurd (cc)), λ h. ground arith)
eu_ai_act_result_iff AiRiskLevel.minimal context = ((λ h e. absurd (cc)), λ h. ground arith)
