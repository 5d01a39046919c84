-- ===== src/Compliance/AiRisk.antt =====
-- libs/python/odg-core/src/odg_core/compliance/ai_risk.py
use open_data_gov.Prelude.{String, Bool, List, [], ◌∷◌, ◌++◌, any, ◌==◌, string_eq, if◌then◌else◌}
use open_data_gov.Enums.Compliance.{AiRiskLevel, ai_risk_level_eq}

-- DEFAULT_HIGH_RISK_INDICATORS
abbrev pub default_high_risk_indicators : List String
default_high_risk_indicators =
    "biometric_identification" ∷ "critical_infrastructure" ∷ "education_scoring"
    ∷ "employment_decisions" ∷ "essential_services" ∷ "law_enforcement" ∷ "migration_control" ∷ []

-- DEFAULT_LIMITED_RISK_INDICATORS
abbrev pub default_limited_risk_indicators : List String
default_limited_risk_indicators =
    "chatbot" ∷ "emotion_recognition" ∷ "deepfake_generation" ∷ "content_generation" ∷ []

-- bool(set(xs) & ys)
unfoldable pub meets : List String → List String → Bool
meets xs ys = any (λ x. any (λ y. y == x) ys) xs

unfoldable pub classify_ai_risk :
    (capabilities high_risk_indicators limited_risk_indicators : List String) → AiRiskLevel
unfolding meets
classify_ai_risk capabilities high_risk_indicators limited_risk_indicators =
    if meets capabilities high_risk_indicators
    then AiRiskLevel.high
    else if meets capabilities limited_risk_indicators
    then AiRiskLevel.limited
    else AiRiskLevel.minimal

-- the controls of the update for a high risk, in their order
abbrev high_risk_controls : List String
high_risk_controls =
    "risk_management_system" ∷ "data_governance" ∷ "technical_documentation" ∷ "record_keeping"
    ∷ "human_oversight" ∷ "accuracy_robustness" ∷ "conformity_assessment" ∷ []

-- Every control of the dict is True, so its keys are kept.
unfoldable pub get_required_controls : AiRiskLevel → List String
get_required_controls risk_level =
    "transparency_info"
      ∷ (if risk_level == AiRiskLevel.limited then "user_notification" ∷ [] else [])
    ++ (if risk_level == AiRiskLevel.high then high_risk_controls else [])
