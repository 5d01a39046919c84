-- ===== src/Quality/Engine.antt =====
-- services/quality-gate/src/quality_gate: engine.py, and the routes and bodies of api.
use open_data_gov.Prelude.{
  ℕ, ◌+◌, ◌-◌, String, Bool, true, not, ◌&&◌, List, [], ◌∷◌, Option, none, some, ◌==◌, nat_eq,
  string_eq, length, select, has_length, leb, text_length, f_string, if◌then◌else◌,
}
use open_data_gov.Prelude.Dict.{get, put}
use open_data_gov.Prelude.Exec.{ok, Exec, pure, gets, modify, require, raise_if, ◌>>=◌, ◌>>◌}
use open_data_gov.Runtime.{Runtime}
use open_data_gov.Quality.Fractions.{Fraction}
use open_data_gov.Quality.Dimensions.{
  ExpectationResult, succeeded, expectation_dimension_map, score, overall_score,
}

pub record QualityReport : Type 0 where
  pub id : ℕ
  pub dataset_id : String
  pub domain_id : String
  pub layer : String
  pub suite_name : String
  pub dq_score : Fraction
  pub dimension_scores : List (String × Fraction)
  pub expectations_passed : ℕ
  pub expectations_failed : ℕ
  pub expectations_total : ℕ
  pub created_at : ℕ
  pub triggered_by : Option ℕ

-- A value of a YAML mapping: a text, another scalar, or a sequence or mapping, which cannot be a
-- key of a dict.
pub data YamlValue : Type 0 where
  text : String → YamlValue
  scalar : YamlValue
  collection : YamlValue

-- An entry of a suite: a mapping, which may hold more than its type, or a value that has no `get`.
pub data Expectation : Type 0 where
  mapping : List (String × YamlValue) → Expectation
  no_mapping : Expectation

-- What a path of the expectations' directory holds: no file, a text that is not YAML, a YAML
-- document that is no mapping, or a mapping with under "expectations" a value that has no length,
-- or entries. The mapping without that key is a suite of no entries; a text there is as many
-- entries without `get` as it has characters, and a mapping there as many as it has keys.
pub data SuiteFile : Type 0 where
  absent no_yaml no_dict no_length : SuiteFile
  suite : List Expectation → SuiteFile

-- The reports of the engine by their identifiers, and the draws made so far.
pub record Gate : Type 0 where
  pub reports : List (ℕ × QualityReport)
  pub ids : ℕ
  pub ticks : ℕ

pub data QualityError : Type 0 where
  validation_error report_not_found suite_error : QualityError

abbrev pub GateAction : Type 0 → Type 0
GateAction A = Exec Gate QualityError A

-- the loop over the candidates; none where loading or counting the entries raises
unfoldable pub first_suite : List SuiteFile → Option (List Expectation)
first_suite [] = some []
first_suite (SuiteFile.absent ∷ rest) = first_suite rest
first_suite (SuiteFile.no_yaml ∷ rest) = none
first_suite (SuiteFile.no_dict ∷ rest) = some []
first_suite (SuiteFile.no_length ∷ rest) = none
first_suite (SuiteFile.suite expectations ∷ rest) = some expectations

-- `_load_suite` and the `len` of what it returns, with the files of the directory by their names
unfoldable pub load_suite :
    (String → SuiteFile) → (suite_name layer : String) → Option (List Expectation)
unfolding first_suite
load_suite files suite_name layer = first_suite (
    files (f_string (suite_name ∷ ".yaml" ∷ []))
    ∷ files (f_string ("default_" ∷ layer ∷ ".yaml" ∷ []))
    ∷ [])

-- exp.get("expectation_type", ""), as the scorer looks it up in its map, in which a scalar that is
-- no text is as little as the empty text is; none where the one or the other raises
unfoldable pub type_of : Expectation → Option String
type_of Expectation.no_mapping = none
type_of (Expectation.mapping entries) = elim (get "expectation_type" entries) [
  | none ↦ some ""
  | some (YamlValue.text t) ↦ some t
  | some YamlValue.scalar ↦ some ""
  | some YamlValue.collection ↦ none
]

-- the simulated results: every expectation succeeds, whatever else its entry holds
unfoldable pub simulated : List Expectation → Option (List ExpectationResult)
unfolding type_of
simulated [] = some []
simulated (e ∷ expectations) = elim (type_of e) [
  | none ↦ none
  | some t ↦ elim (simulated expectations) [
    | none ↦ none
    | some results ↦ some (record { expectation_type = some t; success = some true } ∷ results)
  ]
]

unfoldable pub report_suite : (suite_name layer : String) → String
report_suite suite_name layer =
    if suite_name == "default" then f_string (suite_name ∷ "_" ∷ layer ∷ []) else suite_name

-- the constraints of QualityReport; the score is between 0 and 1 (see Quality/Scores)
unfoldable pub report_fits : (dataset_id domain_id layer suite_name : String) → Bool
unfolding report_suite
report_fits dataset_id domain_id layer suite_name =
    has_length 1 200 dataset_id
    && has_length 1 100 domain_id
    && has_length 1 20 layer
    && has_length 1 200 (report_suite suite_name layer)

module _ ⦃rt : Runtime⦄ (files : String → SuiteFile) where
  -- the identifier of the model's default factory
  unfoldable pub new_report_id : GateAction ℕ
  new_report_id g = (ok (rt.uuid4 g.ids), record g { ids = g.ids + 1 })

  unfoldable pub report_time : GateAction ℕ
  report_time g = (ok (rt.now g.ticks), record g { ticks = g.ticks + 1 })

  -- the report that `validate` makes of its results, with its identifier and time
  unfoldable pub new_report :
      (id created_at : ℕ)
      → List ExpectationResult
      → (dataset_id domain_id layer suite_name : String) → Option ℕ
      → QualityReport
  new_report id created_at results dataset_id domain_id layer suite_name triggered_by =
      let total = length results in
      let passed = length (select succeeded results) in
      let dimension_scores = score expectation_dimension_map results in
      record {
        id = id;
        dataset_id = dataset_id;
        domain_id = domain_id;
        layer = layer;
        suite_name = report_suite suite_name layer;
        dq_score = overall_score dimension_scores;
        dimension_scores = dimension_scores;
        expectations_passed = passed;
        expectations_failed = total - passed;
        expectations_total = total;
        created_at = created_at;
        triggered_by = triggered_by;
      }

  unfoldable pub validate :
      (dataset_id domain_id layer suite_name : String) → Option ℕ → GateAction QualityReport
  validate dataset_id domain_id layer suite_name triggered_by = do
    expectations ← require QualityError.suite_error (load_suite files suite_name layer)
    results ← require QualityError.suite_error (simulated expectations)
    id ← new_report_id
    created_at ← report_time
    raise_if (not (report_fits dataset_id domain_id layer suite_name)) QualityError.validation_error
    let report = new_report id created_at results dataset_id domain_id layer suite_name triggered_by
    modify (λ g. record g { reports = put id report g.reports })
    pure report

unfoldable pub get_report : ℕ → GateAction (Option QualityReport)
get_report report_id = gets (λ g. get report_id g.reports)

-- The reply has the fields of the report.
abbrev pub QualityReportResponse : Type 0
QualityReportResponse = QualityReport

-- the constraints of ValidateRequest
unfoldable pub request_fits : (dataset_id domain_id layer suite_name : String) → Bool
request_fits dataset_id domain_id layer suite_name =
    has_length 1 200 dataset_id
    && has_length 1 100 domain_id
    && has_length 1 20 layer
    && leb (text_length suite_name) 200

unfoldable pub get_report_route : ℕ → GateAction QualityReportResponse
unfolding get_report
get_report_route report_id = do
  found ← get_report report_id
  require QualityError.report_not_found found

module _ ⦃rt : Runtime⦄ (files : String → SuiteFile) where
  -- A body that does not fit is refused before the engine is called.
  unfoldable pub validate_dataset :
      (dataset_id domain_id layer suite_name : String) → Option ℕ → GateAction QualityReportResponse
  validate_dataset dataset_id domain_id layer suite_name triggered_by = do
    raise_if (not (request_fits dataset_id domain_id layer suite_name))
        QualityError.validation_error
    validate files dataset_id domain_id layer suite_name triggered_by
