-- ===== src/Quality/Reports.antt =====
-- The reports of the quality gate.
use open_data_gov.Prelude.{
  ℕ, suc, ◌+◌, ◌≡◌, ◌≢◌, refl, ap, ◌∙◌, String, true, false, List, [], ◌∷◌, Option, some, ◌==◌,
  nat_eq, string_eq, length, All, arith, ==_refl, Option-cases, inl, inr,
}
use open_data_gov.Prelude.Dict.{get, put, get-put}
use open_data_gov.Prelude.Exec.{ok, gets, pure, modify, require, ◌>>=◌}
use open_data_gov.Runtime.{Runtime}
use open_data_gov.Quality.Fractions.{IsProportion}
use open_data_gov.Quality.Dimensions.{ExpectationResult, succeeded, expectation_dimension_map}
use open_data_gov.Quality.Scores.{length-select-le, overall_score-IsProportion}
use open_data_gov.Quality.Engine.{
  SuiteFile, Expectation, YamlValue, QualityReport, Gate, load_suite, type_of, simulated,
  new_report_id, report_time, report_fits, new_report, validate, get_report,
}

-- an entry that the gate can score: a mapping whose type is no sequence or mapping
abbrev pub IsScorable : Expectation → Type 0
IsScorable Expectation.no_mapping = ⊥
IsScorable (Expectation.mapping entries) =
    get "expectation_type" entries ≢ some YamlValue.collection

type_of-IsScorable : (e : Expectation) → IsScorable e → (t : String) × (type_of e ≡ some t)
unfolding type_of
type_of-IsScorable Expectation.no_mapping h = absurd h
type_of-IsScorable (Expectation.mapping entries) h =
    elim (Option-cases (get "expectation_type" entries)) [
      | inl absent ↦ ("", rw (absent, type_of) refl)
      | inr (YamlValue.text t, present) ↦ (t, rw (present, type_of) refl)
      | inr (YamlValue.scalar, present) ↦ ("", rw (present, type_of) refl)
      | inr (YamlValue.collection, present) ↦ absurd (h present)
    ]

simulated-length :
    (expectations : List Expectation)
    → All IsScorable expectations
    → (results : List ExpectationResult) × (simulated expectations ≡ some results)
      × (length results ≡ length expectations)
unfolding simulated
simulated-length [] all = ([], refl, refl)
simulated-length (e ∷ expectations) (scorable, all) =
    let (t, typed) = type_of-IsScorable e scorable in
    let (results, same, size) = simulated-length expectations all in
    (
      record { expectation_type = some t; success = some true } ∷ results,
      rw (typed, same, simulated) refl,
      ap suc size,
    )

-- A report on a suite of so many entries, which is found in a later state beside the reports of an
-- earlier one.
pub record IsReported (total : ℕ) (before : Gate) (report : QualityReport) (after : Gate)
    : Type 0 where
  pub found : (get_report report.id after).0 ≡ ok (some report)
  pub others : (id : ℕ) → (report.id == id) ≡ false → get id after.reports ≡ get id before.reports
  pub all_counted : report.expectations_total ≡ total
  pub balanced : report.expectations_passed + report.expectations_failed ≡ total
  pub proportion : IsProportion report.dq_score

stored :
    (total : ℕ) (g h : Gate) (built : QualityReport)
    → h.reports ≡ put built.id built g.reports
    → built.expectations_total ≡ total
    → built.expectations_passed + built.expectations_failed ≡ total
    → IsProportion built.dq_score
    → IsReported total g built h
unfolding get_report gets
stored total g h built added counted balanced proportion = record {
  found = rw added (ap ok (get-put built.id built.id built g.reports ∙ rw (==_refl built.id) refl));
  others = λ id differ. rw added (get-put id built.id built g.reports ∙ rw differ refl);
  all_counted = counted;
  balanced = balanced;
  proportion = proportion;
}

module _ ⦃rt : Runtime⦄ (files : String → SuiteFile) where
  new_report-IsReported :
      (id created_at total : ℕ) (results : List ExpectationResult)
      (dataset_id domain_id layer suite_name : String) (triggered_by : Option ℕ) (g h : Gate)
      → length results ≡ total
      → let built =
          new_report files id created_at results dataset_id domain_id layer suite_name
            triggered_by in
        h.reports ≡ put id built g.reports → IsReported total g built h
  unfolding new_report
  new_report-IsReported id created_at total results d m l s triggered_by g h size added =
      stored total g h _ added size (omega (arith, size, length-select-le succeeded results))
        (overall_score-IsProportion expectation_dimension_map results)

  -- Where the suite loads, its entries can be scored and the texts fit the report, a validation
  -- returns a report. The gate then finds the report by its identifier and has every other report
  -- that it had. The report counts every entry of the suite, those that passed and those that
  -- failed add up to them, and its score is between 0 and 1.
  pub validate-IsReported :
      (dataset_id domain_id layer suite_name : String) (triggered_by : Option ℕ) (g : Gate)
      (expectations : List Expectation)
      → load_suite files suite_name layer ≡ some expectations
      → All IsScorable expectations
      → report_fits dataset_id domain_id layer suite_name ≡ true
      → let after = validate files dataset_id domain_id layer suite_name triggered_by g in
        (report : QualityReport) × (after.0 ≡ ok report)
        × IsReported (length expectations) g report after.1
  unfolding validate new_report_id report_time pure modify require ◌>>=◌
  validate-IsReported dataset_id domain_id layer suite_name triggered_by g expectations loads all
        fits =
      let (results, same, size) = simulated-length expectations all in
      rw (loads, same, fits)
        (
          new_report files (rt.uuid4 g.ids) (rt.now g.ticks) results dataset_id domain_id layer
              suite_name triggered_by,
          refl,
          new_report-IsReported (rt.uuid4 g.ids) (rt.now g.ticks) (length expectations) results
              dataset_id domain_id layer suite_name triggered_by g _ size refl,
        )
