-- ===== src/Quality/Sla.antt =====
-- libs/python/odg-core/src/odg_core/quality/sla.py
use open_data_gov.Prelude.{String, Bool, not, List, [], ◌∷◌, none, some, map, string_eq}
use open_data_gov.Prelude.Dict.{get}
use open_data_gov.Enums.Data.{dama_dimension_value}
use open_data_gov.Lakehouse.Buckets.{Floats}
use open_data_gov.Quality.Dimensions.{all_dimensions}

module _ {Float : Type 0} (floats : Floats Float) where
  -- {dim.value: threshold for dim in DAMADimension}
  unfoldable pub uniform_thresholds : Float → List (String × Float)
  uniform_thresholds threshold = map (λ dim. (dama_dimension_value dim, threshold)) all_dimensions

  -- DEFAULT_THRESHOLDS
  unfoldable pub default_thresholds : List (String × List (String × Float))
  unfolding uniform_thresholds
  default_thresholds =
      ("bronze", uniform_thresholds (floats.literal "0.70"))
      ∷ ("silver", uniform_thresholds (floats.literal "0.85"))
      ∷ ("gold", uniform_thresholds (floats.literal "0.95"))
      ∷ ("platinum", uniform_thresholds (floats.literal "0.98"))
      ∷ []

  unfoldable pub score_of : List (String × Float) → String → Float
  score_of dimension_scores dim = elim (get dim dimension_scores) [
    | none ↦ floats.literal "0.0"
    | some s ↦ s
  ]

  -- `a >= b`; no score is NaN
  abbrev pub ge : Float → Float → Bool
  ge a b = not (floats.lt a b)

  -- The thresholds are a dict, so no dimension comes twice.
  unfoldable pub check_sla : List (String × Float) → List (String × Float) → List (String × Bool)
  unfolding score_of
  check_sla dimension_scores thresholds =
      map (λ e. (e.0, ge (score_of dimension_scores e.0) e.1)) thresholds

  unfoldable pub get_layer_thresholds : String → List (String × Float)
  unfolding default_thresholds uniform_thresholds
  get_layer_thresholds layer = elim (get layer default_thresholds) [
    | none ↦ uniform_thresholds (floats.literal "0.70")
    | some thresholds ↦ thresholds
  ]
