-- ===== src/Models/Promotion.antt =====
-- GovernanceDecision and its promotion metadata (models.py), the flat row that stores it
-- (db/tables.py), and the validator that folds a row's columns into the nested form.
use open_data_gov.Prelude.{ℕ, String, ◌≡◌, Option, none, some, arith}
use open_data_gov.Enums.Governance.{DecisionType, DecisionStatus}
use open_data_gov.Enums.Data.{MedallionLayer, DataClassification}
use open_data_gov.Runtime.{Details}

pub record PromotionMetadata : Type 0 where
  pub source_layer : MedallionLayer
  pub target_layer : MedallionLayer
  pub data_classification : Option DataClassification

pub record GovernanceDecision : Type 0 where
  pub id : ℕ
  pub decision_type : DecisionType
  pub title : String
  pub description : String
  pub status : DecisionStatus
  pub domain_id : String
  pub created_by : String
  pub created_at : ℕ
  pub updated_at : ℕ
  pub metadata : Details
  pub promotion : Option PromotionMetadata

pub record GovernanceDecisionRow : Type 0 where
  pub id : ℕ
  pub decision_type : DecisionType
  pub title : String
  pub description : String
  pub status : DecisionStatus
  pub domain_id : String
  pub created_by : String
  pub created_at : ℕ
  pub updated_at : ℕ
  pub metadata_json : Details
  pub source_layer : Option MedallionLayer
  pub target_layer : Option MedallionLayer
  pub data_classification : Option DataClassification

-- `if sl is not None and tl is not None` of `_assemble_promotion`
unfoldable pub fold_promotion :
    Option MedallionLayer
    → Option MedallionLayer
    → Option DataClassification
    → Option PromotionMetadata
fold_promotion (some sl) (some tl) dc =
    some (record { source_layer = sl; target_layer = tl; data_classification = dc })
fold_promotion _ _ dc = none

-- `model_validate` of a row, through the branch of `_assemble_promotion` for ORM objects.
unfoldable pub assemble_promotion : GovernanceDecisionRow → GovernanceDecision
unfolding fold_promotion
assemble_promotion row = record {
  id = row.id;
  decision_type = row.decision_type;
  title = row.title;
  description = row.description;
  status = row.status;
  domain_id = row.domain_id;
  created_by = row.created_by;
  created_at = row.created_at;
  updated_at = row.updated_at;
  metadata = row.metadata_json;
  promotion = fold_promotion row.source_layer row.target_layer row.data_classification;
}

-- the row that PgDecisionRepository.create adds
unfoldable pub decision_row : GovernanceDecision → GovernanceDecisionRow
decision_row decision = record {
  id = decision.id;
  decision_type = decision.decision_type;
  title = decision.title;
  description = decision.description;
  status = decision.status;
  domain_id = decision.domain_id;
  created_by = decision.created_by;
  created_at = decision.created_at;
  updated_at = decision.updated_at;
  metadata_json = decision.metadata;
  source_layer = elim decision.promotion [ none ↦ none | some p ↦ some p.source_layer ];
  target_layer = elim decision.promotion [ none ↦ none | some p ↦ some p.target_layer ];
  data_classification = elim decision.promotion [ none ↦ none | some p ↦ p.data_classification ];
}

-- A decision that is stored flat and read back is the decision that was stored, its nested
-- promotion metadata included.
pub assemble_promotion-decision_row :
    (decision : GovernanceDecision) → assemble_promotion (decision_row decision) ≡ decision
unfolding assemble_promotion decision_row
assemble_promotion-decision_row decision = ground arith
