-- ===== src/Compliance/RiskLevels.antt =====
-- The risk of an AI system by its capabilities.
use open_data_gov.Prelude.{
  ◌≡◌, ◌↔◌, refl, String, In, Bool, true, false, List, any, ◌==◌, string_eq, Bool-cases, inl, inr,
  ==_refl, ==_sound, subst,
}
use open_data_gov.Prelude.Members.{any-In, In-any}
use open_data_gov.Enums.Compliance.{AiRiskLevel}
use open_data_gov.Compliance.AiRisk.{meets, classify_ai_risk}

-- The lists have a text in common.
abbrev pub Shares : (xs ys : List String) → Type 0
Shares xs ys = (x : String) × In x xs × In x ys

Shares-meets : (xs ys : List String) → Shares xs ys → meets xs ys ≡ true
unfolding meets
Shares-meets xs ys (x, left, right) =
    In-any (λ x. any (λ y. y == x) ys) x xs left (In-any (λ y. y == x) x ys right (==_refl x))

meets-Shares : (xs ys : List String) → meets xs ys ≡ true → Shares xs ys
unfolding meets
meets-Shares xs ys met =
    let (x, left, found) = any-In (λ x. any (λ y. y == x) ys) xs met in
    let (y, right, same) = any-In (λ y. y == x) ys found in
    (x, left, subst (λ z. In z ys) (==_sound y x same) right)

impossible : {b : Bool} → b ≡ true → b ≡ false → ⊥
impossible holds fails = cc

-- A system has a high risk exactly when one of its capabilities indicates it, and a minimal risk
-- exactly when none of them indicates a high or a limited risk.
pub classify_ai_risk_iff :
    (capabilities high_risk limited_risk : List String)
    → ((classify_ai_risk capabilities high_risk limited_risk ≡ AiRiskLevel.high)
        ↔ Shares capabilities high_risk)
      × ((classify_ai_risk capabilities high_risk limited_risk ≡ AiRiskLevel.minimal)
          ↔ (¬ Shares capabilities high_risk × ¬ Shares capabilities limited_risk))
unfolding classify_ai_risk
classify_ai_risk_iff capabilities high_risk limited_risk =
    let high_sound = meets-Shares capabilities high_risk in
    let high_complete = Shares-meets capabilities high_risk in
    let limited_sound = meets-Shares capabilities limited_risk in
    let limited_complete = Shares-meets capabilities limited_risk in
    elim (Bool-cases (meets capabilities high_risk)) [
      | inl is_high ↦ rw is_high (
        ((λ _. high_sound is_high), λ _. refl),
        ((λ h. absurd (cc)), λ h. absurd (h.0 (high_sound is_high))),
      )
      | inr not_high ↦ elim (Bool-cases (meets capabilities limited_risk)) [
        | inl is_limited ↦
            rw (not_high, is_limited)
              (
                ((λ h. absurd (cc)), λ h. absurd (impossible (high_complete h) not_high)),
                ((λ h. absurd (cc)), λ h. absurd (h.1 (limited_sound is_limited))),
              )
        | inr not_limited ↦
            rw (not_high, not_limited)
              (
                ((λ h. absurd (cc)), λ h. absurd (impossible (high_complete h) not_high)),
                (
                  (λ _. (
                    (λ h. impossible (high_complete h) not_high),
                    (λ h. impossible (limited_complete h) not_limited),
                  )),
                  λ _. refl,
                ),
              )
      ]
    ]
