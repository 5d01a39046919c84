-- ===== src/Contracts/Schema.antt =====
-- The data contract records of models.py. `Float` is the type of Python's floats.
use open_data_gov.Prelude.{ℕ, String, Bool, List, Option}

pub record ColumnDefinition : Type 0 where
  pub name : String
  pub data_type : String
  pub nullable : Bool
  pub description : String
  pub pii : Bool

pub record DataContractSchema : Type 0 where
  pub columns : List ColumnDefinition
  pub primary_key : List String

pub record SlaDefinition (Float : Type 0) : Type 0 where
  pub freshness_hours : Option Float
  pub completeness_threshold : Float
  pub availability_percent : Float

pub record DataContract (Float : Type 0) : Type 0 where
  pub id : ℕ
  pub name : String
  pub dataset_id : String
  pub domain_id : String
  pub owner_id : String
  pub schema_definition : DataContractSchema
  pub sla_definition : SlaDefinition Float
  pub jurisdiction : Option String
  pub version : ℕ
  pub is_active : Bool
  pub created_at : ℕ
  pub updated_at : ℕ
