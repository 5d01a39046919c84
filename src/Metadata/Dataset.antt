-- ===== src/Metadata/Dataset.antt =====
-- libs/python/odg-core/src/odg_core/metadata/odg_schema.py
use open_data_gov.Prelude.{ℕ, String, Bool, ◌&&◌, List, Option, has_length}
use open_data_gov.Enums.Data.{MedallionLayer, DataClassification}

pub record DatasetField : Type 0 where
  pub name : String
  pub data_type : String
  pub description : String
  pub is_pii : Bool
  pub is_nullable : Bool

-- The float of a quality score is a parameter.
pub record OdgDatasetMetadata (Float : Type 0) : Type 0 where
  pub id : ℕ
  pub dataset_id : String
  pub name : String
  pub description : String
  pub domain_id : String
  pub owner_id : String
  pub layer : MedallionLayer
  pub classification : DataClassification
  pub tags : List String
  pub schema_fields : List DatasetField
  pub quality_score : Option Float
  pub contract_id : Option ℕ
  pub jurisdiction : Option String
  pub pii_columns : List String
  pub created_at : Option ℕ
  pub updated_at : Option ℕ

-- the constraints of the fields
unfoldable pub metadata_fits : (dataset_id name domain_id owner_id : String) → Bool
metadata_fits dataset_id name domain_id owner_id =
    has_length 1 200 dataset_id
    && has_length 1 200 name
    && has_length 1 100 domain_id
    && has_length 1 200 owner_id
