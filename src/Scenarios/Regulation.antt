-- ===== src/Scenarios/Regulation.antt =====
-- The DAMA checker at a concrete context.
use open_data_gov.Prelude.{
  String, Bool, ◌≡◌, ◌↔◌, ◌≤◌, refl, true, List, [], ◌∷◌, any, ◌==◌, string_eq,
}
use open_data_gov.Prelude.Exec.{ok}
use open_data_gov.Prelude.Dict.{get}
use open_data_gov.Compliance.Protocol.{Context, Value, ComplianceResult}
use open_data_gov.Compliance.Dama.{dama_check, members, contains_text}
use open_data_gov.Compliance.DamaPassing.{achieved, dama_check_iff}

abbrev areas : List String
areas = "data_governance" ∷ "data_quality" ∷ "data_storage" ∷ []

abbrev context : Context
context =
    ("implemented_areas", Value.texts areas) ∷ ("quality_dimensions", Value.text "accuracy") ∷ []

abbrev implemented : String → Bool
implemented x = any (λ y. y == x) areas

abbrev measured : String → Bool
measured x = contains_text x "accuracy"

dama_check_iff_example :
    (result : ComplianceResult) × (dama_check context ≡ ok result)
    × ((result.passed ≡ true) ↔ (12 ≤ achieved implemented measured))
    × (result.score.passed_rules ≡ achieved implemented measured)
unfolding members get
dama_check_iff_example = dama_check_iff context implemented measured refl refl
