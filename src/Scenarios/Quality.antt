-- ===== src/Scenarios/Quality.antt =====
-- The scorer and the gate at concrete results and suites.
use open_data_gov.Prelude.{
  String, Bool, ◌==◌, if◌then◌else◌, has_length, f_string, text_length, ◌≡◌, refl, true, false,
  List, [], ◌∷◌, none, some, string_eq,
}
use open_data_gov.Prelude.Dict.{get}
use open_data_gov.Prelude.Exec.{ok}
use open_data_gov.Enums.Data.{DamaDimension}
use open_data_gov.Quality.Fractions.{IsProportion}
use open_data_gov.Quality.Dimensions.{
  ExpectationResult, expectation_dimension_map, score, overall_score,
}
use open_data_gov.Quality.Counting.{tests_of}
use open_data_gov.Quality.Scores.{share, get-score, overall_score-IsProportion}
use open_data_gov.Quality.Engine.{
  Gate, SuiteFile, Expectation, YamlValue, QualityReport, load_suite, first_suite, validate,
  report_fits, report_suite,
}
use open_data_gov.Quality.Reports.{IsReported, validate-IsReported}
use open_data_gov.Scenarios.Toy.{toy}

abbrev outcome : Bool → ExpectationResult
outcome success = record {
  expectation_type = some "expect_column_values_to_not_be_null";
  success = some success;
}

abbrev results : List ExpectationResult
results =
    outcome true ∷ outcome false ∷ record { expectation_type = some "other"; success = none } ∷ []

get-score_example :
    (get "completeness" (score expectation_dimension_map results)
      ≡ some (share (tests_of expectation_dimension_map DamaDimension.completeness results)))
    × IsProportion (share (tests_of expectation_dimension_map DamaDimension.completeness results))
get-score_example = get-score expectation_dimension_map results DamaDimension.completeness

overall_score-IsProportion_example :
    IsProportion (overall_score (score expectation_dimension_map results))
overall_score-IsProportion_example = overall_score-IsProportion expectation_dimension_map results

-- the second entry is marked as failed
abbrev entries : List Expectation
entries =
    Expectation.mapping (("expectation_type", YamlValue.text "expect_column_to_exist") ∷ [])
    ∷ Expectation.mapping (("success", YamlValue.scalar) ∷ [])
    ∷ []

abbrev files : String → SuiteFile
files name = if name == "default_gold.yaml" then SuiteFile.suite entries else SuiteFile.absent

abbrev gate : Gate
gate = record { reports = []; ids = 0; ticks = 0 }

validate-IsReported_example :
    let after = validate files "orders" "sales" "gold" "default" none gate in
    (report : QualityReport) × (after.0 ≡ ok report) × IsReported 2 gate report after.1
unfolding report_fits has_length text_length report_suite f_string load_suite first_suite get
validate-IsReported_example =
    validate-IsReported files "orders" "sales" "gold" "default" none gate entries refl
      ((λ e. cc (e)), ((λ e. cc (e)), tt)) refl
