-- ===== src/Quality/Dimensions.antt =====
-- libs/python/odg-core/src/odg_core/quality/dimensions.py
use open_data_gov.Prelude.{
  ℕ, ◌+◌, String, Bool, false, List, [], ◌∷◌, Option, none, some, map, ◌==◌, nat_eq, string_eq,
  is_empty, length, if◌then◌else◌,
}
use open_data_gov.Prelude.Dict.{get, put}
use open_data_gov.Enums.Data.{DamaDimension, dama_dimension_value}
use open_data_gov.Quality.Fractions.{Fraction, ◌over◌, sum_fractions, divide}

abbrev pub DimensionMap : Type 0
DimensionMap = List (String × DamaDimension)

-- _EXPECTATION_DIMENSION_MAP
unfoldable pub expectation_dimension_map : DimensionMap
expectation_dimension_map =
    ("expect_column_values_to_not_be_null", DamaDimension.completeness)
    ∷ ("expect_table_row_count_to_be_between", DamaDimension.completeness)
    ∷ ("expect_column_values_to_be_between", DamaDimension.accuracy)
    ∷ ("expect_column_mean_to_be_between", DamaDimension.accuracy)
    ∷ ("expect_column_values_to_match_regex", DamaDimension.validity)
    ∷ ("expect_column_values_to_be_in_set", DamaDimension.validity)
    ∷ ("expect_column_values_to_be_of_type", DamaDimension.validity)
    ∷ ("expect_column_values_to_be_unique", DamaDimension.uniqueness)
    ∷ ("expect_compound_columns_to_be_unique", DamaDimension.uniqueness)
    ∷ ("expect_column_pair_values_to_be_equal", DamaDimension.consistency)
    ∷ ("expect_column_values_to_match_strftime_format", DamaDimension.timeliness)
    ∷ []

-- The entries of a result; none where the key is missing.
pub record ExpectationResult : Type 0 where
  pub expectation_type : Option String
  pub success : Option Bool

-- `DAMAScorer(dimension_map)`: `dimension_map or _EXPECTATION_DIMENSION_MAP`
unfoldable pub scorer_map : Option DimensionMap → DimensionMap
scorer_map none = expectation_dimension_map
scorer_map (some dimension_map) =
    if is_empty dimension_map then expectation_dimension_map else dimension_map

unfoldable pub count_of : String → List (String × ℕ) → ℕ
count_of key d = elim (get key d) [ none ↦ 0 | some n ↦ n ]

-- d[key] = d.get(key, 0) + 1
unfoldable pub bump : String → List (String × ℕ) → List (String × ℕ)
unfolding count_of
bump key d = put key (count_of key d + 1) d

-- `dimension_pass` and `dimension_total`
pub record Tally : Type 0 where
  pub dimension_pass : List (String × ℕ)
  pub dimension_total : List (String × ℕ)

unfoldable pub dimension_of : DimensionMap → ExpectationResult → Option DamaDimension
dimension_of dimension_map result =
    get (elim result.expectation_type [ none ↦ "" | some t ↦ t ]) dimension_map

unfoldable pub succeeded : ExpectationResult → Bool
succeeded result = elim result.success [ none ↦ false | some b ↦ b ]

-- the body of the loop over the results: a result with its dimension, and whether it succeeded
unfoldable pub count_dimension : Option DamaDimension → Bool → Tally → Tally
count_dimension none success tally = tally
count_dimension (some dimension) success tally = record {
  dimension_pass =
      if success
      then bump (dama_dimension_value dimension) tally.dimension_pass
      else tally.dimension_pass;
  dimension_total = bump (dama_dimension_value dimension) tally.dimension_total;
}

unfoldable pub count_result : DimensionMap → ExpectationResult → Tally → Tally
unfolding dimension_of succeeded count_dimension
count_result dimension_map result tally =
    count_dimension (dimension_of dimension_map result) (succeeded result) tally

unfoldable pub count_results : DimensionMap → List ExpectationResult → Tally → Tally
count_results dimension_map [] tally = tally
count_results dimension_map (result ∷ results) tally =
    count_results dimension_map results (count_result dimension_map result tally)

abbrev pub all_dimensions : List DamaDimension
all_dimensions =
    DamaDimension.completeness ∷ DamaDimension.accuracy ∷ DamaDimension.consistency
    ∷ DamaDimension.timeliness ∷ DamaDimension.uniqueness ∷ DamaDimension.validity ∷ []

unfoldable pub score_dimension : Tally → DamaDimension → Fraction
score_dimension tally dim =
    let total = count_of (dama_dimension_value dim) tally.dimension_total in
    if total == 0
    then 1 over 1
    else count_of (dama_dimension_value dim) tally.dimension_pass over total

unfoldable pub score : DimensionMap → List ExpectationResult → List (String × Fraction)
score dimension_map results =
    let tally =
      count_results dimension_map results (record { dimension_pass = []; dimension_total = [] }) in
    map (λ dim. (dama_dimension_value dim, score_dimension tally dim)) all_dimensions

unfoldable pub overall_score : List (String × Fraction) → Fraction
overall_score [] = 0 over 1
overall_score (s ∷ scores) =
    divide (sum_fractions (map (λ e. e.1) (s ∷ scores))) (length (s ∷ scores))
