-- ===== src/Compliance/DamaPassing.antt =====
-- What the DAMA checker asks of a context.
use open_data_gov.Prelude.{
  ℕ, ◌+◌, string_eq, ◌≤◌, ◌≡◌, ◌↔◌, refl, String, Bool, true, length, select, arith, map, not,
}
use open_data_gov.Prelude.Dict.{get}
use open_data_gov.Prelude.Exec.{ok}
use open_data_gov.Enums.Data.{dama_dimension_value}
use open_data_gov.Quality.Dimensions.{all_dimensions}
use open_data_gov.Compliance.Protocol.{Context, ComplianceResult, reported, score_of, at_least}
use open_data_gov.Compliance.Bounds.{reported-++, reported-missing}
use open_data_gov.Compliance.Dama.{
  dama_knowledge_areas, area_finding, dimension_finding, members, dama_rules, dama_result,
  dama_check,
}

module _ (implemented quality_dimensions : String → Bool) where
  -- the knowledge areas that are implemented, and the dimensions that are measured
  abbrev pub achieved : ℕ
  achieved =
      length (select (λ a. implemented a.area) dama_knowledge_areas)
      + length (select (λ d. quality_dimensions (dama_dimension_value d)) all_dimensions)

  findings_achieved : length (reported (dama_rules implemented quality_dimensions)) + achieved ≡ 17
  unfolding dama_rules
  findings_achieved =
      let areas = reported-missing (λ a. implemented a.area) area_finding dama_knowledge_areas in
      let dims =
        reported-missing (λ d. quality_dimensions (dama_dimension_value d)) dimension_finding
          all_dimensions in
      let both =
        reported-++ (map (λ a. (not (implemented a.area), area_finding a)) dama_knowledge_areas) (
          map (λ d. (not (quality_dimensions (dama_dimension_value d)), dimension_finding d))
            all_dimensions) in
      ground (arith, areas, dims, both)

  pub dama_result_iff :
      ((dama_result implemented quality_dimensions).passed ≡ true) ↔ (12 ≤ achieved)
  unfolding dama_result score_of at_least
  dama_result_iff =
      let total = findings_achieved in
      ((λ h. ground (arith, h, total)), λ h. ground (arith, h, total))

-- A context with readable lists passes DAMA exactly when at least twelve of the eleven knowledge
-- areas and six quality dimensions are achieved, and the score counts those that are.
pub dama_check_iff :
    (context : Context) (implemented quality_dimensions : String → Bool)
    → members (get "implemented_areas" context) ≡ ok implemented
    → members (get "quality_dimensions" context) ≡ ok quality_dimensions
    → (result : ComplianceResult) × (dama_check context ≡ ok result)
      × ((result.passed ≡ true) ↔ (12 ≤ achieved implemented quality_dimensions))
      × (result.score.passed_rules ≡ achieved implemented quality_dimensions)
unfolding dama_check dama_result score_of
dama_check_iff context implemented quality_dimensions areas dimensions =
    let total = findings_achieved implemented quality_dimensions in
    (
      dama_result implemented quality_dimensions,
      rw (areas, dimensions, dama_check) refl,
      dama_result_iff implemented quality_dimensions,
      omega (arith, total),
    )
