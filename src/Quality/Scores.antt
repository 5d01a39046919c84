-- ===== src/Quality/Scores.antt =====
-- The scores of the dimensions and the overall score of a list of results.
use open_data_gov.Prelude.{
  ◌≤◌, ◌≡◌, refl, ap, ◌∙◌, Bool, List, [], ◌∷◌, some, map, ◌==◌, nat_eq, string_eq, length, select,
  All, arith, if◌then◌else◌,
}
use open_data_gov.Prelude.Dict.{get}
use open_data_gov.Enums.Data.{DamaDimension, dama_dimension_value}
use open_data_gov.Quality.Fractions.{Fraction, ◌over◌, IsProportion, mean-IsProportion}
use open_data_gov.Quality.Dimensions.{
  DimensionMap, ExpectationResult, Tally, count_of, succeeded, count_results, score_dimension,
  score, overall_score, all_dimensions,
}
use open_data_gov.Quality.Counting.{tests_of, counted_results}

-- the share of the tests that succeeded; 1 if there are none
abbrev pub share : List ExpectationResult → Fraction
share tests =
    if length tests == 0 then 1 over 1 else length (select succeeded tests) over length tests

pub length-select-le :
    {A : Type 0} (test : A → Bool) (xs : List A) → length (select test xs) ≤ length xs
unfolding select
length-select-le test [] = omega arith
length-select-le test (x ∷ xs) = ground (arith, length-select-le test xs)

share-IsProportion : (tests : List ExpectationResult) → IsProportion (share tests)
share-IsProportion tests = ground (arith, length-select-le succeeded tests)

get-score_dimension :
    (tally : Tally) (dim : DamaDimension)
    → get
        (dama_dimension_value dim)
        (map (λ d. (dama_dimension_value d, score_dimension tally d)) all_dimensions)
      ≡ some (score_dimension tally dim)
unfolding get
get-score_dimension tally DamaDimension.completeness = refl
get-score_dimension tally _ = refl

module _ (dimension_map : DimensionMap) (results : List ExpectationResult) where
  abbrev empty_tally : Tally
  empty_tally = record { dimension_pass = []; dimension_total = [] }

  score_dimension-share :
      (dim : DamaDimension)
      → score_dimension (count_results dimension_map results empty_tally) dim
        ≡ share (tests_of dimension_map dim results)
  unfolding score_dimension count_of get
  score_dimension-share dim =
      let (totals, passes) = counted_results dim dimension_map results empty_tally in
      ground (arith, totals, passes)

  -- The score of a dimension is the share of the results of its expectations that succeeded, or 1
  -- if it has none, and lies between 0 and 1.
  pub get-score :
      (dim : DamaDimension)
      → (get (dama_dimension_value dim) (score dimension_map results)
          ≡ some (share (tests_of dimension_map dim results)))
        × IsProportion (share (tests_of dimension_map dim results))
  unfolding score
  get-score dim = (
    get-score_dimension (count_results dimension_map results empty_tally) dim
        ∙ ap some (score_dimension-share dim),
    share-IsProportion (tests_of dimension_map dim results),
  )

  -- What holds of every dimension's score makes the overall score that of six such scores.
  dimensions :
      (P : Fraction → Type 0)
      → ((dim : DamaDimension)
          → P (score_dimension (count_results dimension_map results empty_tally) dim))
      → All P (map (λ e. e.1) (score dimension_map results))
  unfolding score
  dimensions P each = (
    each DamaDimension.completeness,
    (
      each DamaDimension.accuracy,
      (
        each DamaDimension.consistency,
        (
          each DamaDimension.timeliness,
          (each DamaDimension.uniqueness, (each DamaDimension.validity, tt)),
        ),
      ),
    ),
  )

  dimension-IsProportion :
      (dim : DamaDimension)
      → IsProportion (score_dimension (count_results dimension_map results empty_tally) dim)
  dimension-IsProportion dim =
      rw (score_dimension-share dim) (share-IsProportion (tests_of dimension_map dim results))

  -- The overall score lies between 0 and 1.
  pub overall_score-IsProportion : IsProportion (overall_score (score dimension_map results))
  unfolding score overall_score
  overall_score-IsProportion =
      mean-IsProportion _ _ (dimensions IsProportion dimension-IsProportion)
