-- ===== src/Lakehouse/Steps.antt =====
-- What a promotion does, for every pair of layers.
use open_data_gov.Prelude.{
  ℕ, String, ◌≡◌, not, Option, none, some, ◌==◌, arith, nat_eq, if◌then◌else◌,
}
use open_data_gov.Prelude.Exec.{Result, ok, err, ◌>>=◌}
use open_data_gov.Enums.Data.{MedallionLayer, bronze, silver, gold, platinum, medallion_layer_eq}
use open_data_gov.Lakehouse.Buckets.{Lake, Floats, BucketManager}
use open_data_gov.Lakehouse.Promotion.{
  PromotionError, Outcome, index, layer_order, validate_transition, strategy_of, dq_threshold,
  below_threshold, execute_auto, execute_governance, promote,
}

-- The layer that data of a layer may be promoted to, and the score that the step asks for.
abbrev pub next_layer : MedallionLayer → Option (MedallionLayer × String)
next_layer MedallionLayer.bronze = some (silver, "0.7")
next_layer MedallionLayer.silver = some (gold, "0.85")
next_layer MedallionLayer.gold = some (platinum, "0.95")
next_layer MedallionLayer.platinum = none

module _ {Store Failure Bytes Float : Type 0} (uuid_text : ℕ → String) (floats : Floats Float)
    (manager : BucketManager Store Failure Bytes) (domain_id : String)
    (source target : MedallionLayer) (dataset_id : String) (dq_score : Float)
    (lake : Lake Store) where
  abbrev pub refused : Result (PromotionError Failure) (Outcome Float) × Lake Store
  refused = (err (PromotionError.invalid_promotion source target), lake)

  -- A promotion that is not one step forward is refused. A score below the step's threshold is
  -- reported as such and nothing is written. Otherwise the step from Bronze copies the data at
  -- once, and every other step asks for a governance decision. No other error is raised by the
  -- promotion itself: no layer is unknown and no table lacks an entry.
  pub promote_lem :
      promote uuid_text floats manager domain_id source target dataset_id dq_score lake
      ≡ elim (next_layer source) [
        | none ↦ refused
        | some (layer, threshold) ↦
            if not (layer == target)
            then refused
            else if floats.lt dq_score (floats.literal threshold)
            then (
              ok (
                  below_threshold uuid_text floats manager domain_id source target dataset_id
                    dq_score
                    (floats.literal threshold)),
              lake,
            )
            else if source == bronze
            then execute_auto uuid_text floats manager domain_id source target dataset_id dq_score
                lake
            else execute_governance uuid_text floats manager domain_id source target dataset_id
                dq_score lake
      ]
  unfolding promote validate_transition index layer_order strategy_of dq_threshold ◌>>=◌
  promote_lem = ground arith
