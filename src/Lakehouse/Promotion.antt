-- ===== src/Lakehouse/Promotion.antt =====
-- services/lakehouse-agent/src/lakehouse_agent/promotion.py
use open_data_gov.Prelude.{
  ℕ, suc, ◌+◌, String, Bool, true, false, not, List, [], ◌∷◌, Option, none, some, ◌==◌, nat_eq,
  f_string, if◌then◌else◌,
}
use open_data_gov.Prelude.Exec.{ok, err, Exec, pure, require, raise_if, ◌>>=◌, ◌>>◌}
use open_data_gov.Enums.Data.{MedallionLayer, medallion_layer_value, medallion_layer_eq}
use open_data_gov.Lakehouse.Buckets.{Lake, Floats, BucketManager, bucket_name}

-- `_LAYER_ORDER.index(layer)`, from an index on; none where it raises `ValueError`
unfoldable pub index : MedallionLayer → List MedallionLayer → ℕ → Option ℕ
index layer [] i = none
index layer (x ∷ xs) i = let rest = index layer xs (suc i) in if x == layer then some i else rest

unfoldable pub layer_order : List MedallionLayer
layer_order =
    MedallionLayer.bronze ∷ MedallionLayer.silver ∷ MedallionLayer.gold ∷ MedallionLayer.platinum
    ∷ []

-- the exceptions: `PromotionError` twice, a missing key, and what the storage raises
pub data PromotionError (Failure : Type 0) : Type 0 where
  unknown_layer : PromotionError Failure
  invalid_promotion : (source target : MedallionLayer) → PromotionError Failure
  key_error : PromotionError Failure
  storage_failure : Failure → PromotionError Failure

pub data Strategy : Type 0 where
  auto_promotion governance_promotion : Strategy

pub record Outcome (Float : Type 0) : Type 0 where
  pub promoted : Bool
  pub auto_approved : Bool
  pub governance_decision_id : Option String
  pub source_layer : String
  pub target_layer : String
  pub dataset_id : String
  pub dq_score : Float
  pub reason : String

-- `_STRATEGIES`
unfoldable pub strategy_of : MedallionLayer → MedallionLayer → Option Strategy
strategy_of MedallionLayer.bronze MedallionLayer.silver = some Strategy.auto_promotion
strategy_of MedallionLayer.silver MedallionLayer.gold = some Strategy.governance_promotion
strategy_of MedallionLayer.gold MedallionLayer.platinum = some Strategy.governance_promotion
strategy_of _ _ = none

unfoldable pub validate_transition :
    {S Failure : Type 0}
    → MedallionLayer
    → MedallionLayer
    → Exec S (PromotionError Failure) (Unit {0})
validate_transition source target = do
  src_idx ← require PromotionError.unknown_layer (index source layer_order 0)
  tgt_idx ← require PromotionError.unknown_layer (index target layer_order 0)
  raise_if (not (tgt_idx == src_idx + 1)) (PromotionError.invalid_promotion source target)

module _ {Store Failure Bytes Float : Type 0} (uuid_text : ℕ → String) (floats : Floats Float)
    (bucket_manager : BucketManager Store Failure Bytes) where
  abbrev pub LakeAction : Type 0 → Type 0
  LakeAction A = Exec (Lake Store) (PromotionError Failure) A

  -- an action of the storage, in the agent
  unfoldable pub on_store : {A : Type 0} → Exec Store Failure A → LakeAction A
  on_store m lake =
      let (r, store) = m lake.store in
      (
        elim r [ ok a ↦ ok a | err e ↦ err (PromotionError.storage_failure e) ],
        record lake { store = store },
      )

  -- str(uuid.uuid4())
  unfoldable pub new_decision_id : LakeAction String
  new_decision_id lake = (ok (uuid_text lake.ids), record lake { ids = suc lake.ids })

  -- `_DQ_THRESHOLDS`
  unfoldable pub dq_threshold : MedallionLayer → MedallionLayer → Option Float
  dq_threshold MedallionLayer.bronze MedallionLayer.silver = some (floats.literal "0.7")
  dq_threshold MedallionLayer.silver MedallionLayer.gold = some (floats.literal "0.85")
  dq_threshold MedallionLayer.gold MedallionLayer.platinum = some (floats.literal "0.95")
  dq_threshold _ _ = none

  module _ (domain_id : String) (source_layer target_layer : MedallionLayer) (dataset_id : String)
      (dq_score : Float) where
    abbrev pub source_value : String
    source_value = medallion_layer_value source_layer

    abbrev pub target_value : String
    target_value = medallion_layer_value target_layer

    unfoldable pub execute_auto : LakeAction (Outcome Float)
    execute_auto = do
      let source_bucket = bucket_name source_layer domain_id
      let target_bucket = bucket_name target_layer domain_id
      data_read ← on_store (bucket_manager.get_object source_bucket dataset_id)
      on_store (bucket_manager.upload_object target_bucket dataset_id data_read)
      pure (record {
        promoted = true;
        auto_approved = true;
        governance_decision_id = none;
        source_layer = source_value;
        target_layer = target_value;
        dataset_id = dataset_id;
        dq_score = dq_score;
        reason = f_string (
            "Automatic promotion: DQ score meets " ∷ source_value ∷ " -> " ∷ target_value
            ∷ " threshold" ∷ []);
      })

    unfoldable pub execute_governance : LakeAction (Outcome Float)
    execute_governance = do
      governance_decision_id ← new_decision_id
      pure (record {
        promoted = false;
        auto_approved = false;
        governance_decision_id = some governance_decision_id;
        source_layer = source_value;
        target_layer = target_value;
        dataset_id = dataset_id;
        dq_score = dq_score;
        reason = f_string (
            "Governance decision required for " ∷ source_value ∷ " -> " ∷ target_value
            ∷ " promotion" ∷ []);
      })

    unfoldable pub below_threshold : Float → Outcome Float
    below_threshold threshold = record {
      promoted = false;
      auto_approved = false;
      governance_decision_id = none;
      source_layer = source_value;
      target_layer = target_value;
      dataset_id = dataset_id;
      dq_score = dq_score;
      reason = f_string (
          "Data quality score "
          ∷ floats.repr dq_score
          ∷ " is below the required threshold "
          ∷ floats.repr threshold
          ∷ " for "
          ∷ source_value
          ∷ " -> "
          ∷ target_value
          ∷ " promotion"
          ∷ []);
    }

    unfoldable pub promote : LakeAction (Outcome Float)
    promote = do
      validate_transition source_layer target_layer
      threshold ← require PromotionError.key_error (dq_threshold source_layer target_layer)
      if floats.lt dq_score threshold then pure (below_threshold threshold) else do
        strategy ← require PromotionError.key_error (strategy_of source_layer target_layer)
        elim strategy [
          | Strategy.auto_promotion ↦ execute_auto
          | Strategy.governance_promotion ↦ execute_governance
        ]
