-- ===== src/Enums/Data.antt =====
-- The enumerations of libs/python/odg-core/src/odg_core/enums.py: DataClassification, MedallionLayer, DAMADimension.
-- A member's value is the text that its StrEnum class gives it; `rank` numbers the members.
use open_data_gov.Prelude.{ℕ, String, ◌≡◌, ◌↔◌, true, arith, Eq, nat_beq}

pub data DataClassification : Type 0 where
  public internal confidential restricted top_secret : DataClassification

abbrev pub data_classification_value : DataClassification → String
data_classification_value DataClassification.public = "public"
data_classification_value DataClassification.internal = "internal"
data_classification_value DataClassification.confidential = "confidential"
data_classification_value DataClassification.restricted = "restricted"
data_classification_value DataClassification.top_secret = "top_secret"

abbrev pub data_classification_rank : DataClassification → ℕ
data_classification_rank DataClassification.public = 0
data_classification_rank DataClassification.internal = 1
data_classification_rank DataClassification.confidential = 2
data_classification_rank DataClassification.restricted = 3
data_classification_rank DataClassification.top_secret = 4

pub data_classification_beq_iff :
    (a b : DataClassification)
    → (nat_beq (data_classification_rank a) (data_classification_rank b) ≡ true) ↔ (a ≡ b)
data_classification_beq_iff a b = ground arith

instance abbrev pub data_classification_eq : Eq DataClassification
data_classification_eq = record {
  beq = λ a b. nat_beq (data_classification_rank a) (data_classification_rank b);
  beq_iff = data_classification_beq_iff;
}

pub data MedallionLayer : Type 0 where
  bronze silver gold platinum : MedallionLayer

abbrev pub medallion_layer_value : MedallionLayer → String
medallion_layer_value MedallionLayer.bronze = "bronze"
medallion_layer_value MedallionLayer.silver = "silver"
medallion_layer_value MedallionLayer.gold = "gold"
medallion_layer_value MedallionLayer.platinum = "platinum"

abbrev pub medallion_layer_rank : MedallionLayer → ℕ
medallion_layer_rank MedallionLayer.bronze = 0
medallion_layer_rank MedallionLayer.silver = 1
medallion_layer_rank MedallionLayer.gold = 2
medallion_layer_rank MedallionLayer.platinum = 3

pub medallion_layer_beq_iff :
    (a b : MedallionLayer)
    → (nat_beq (medallion_layer_rank a) (medallion_layer_rank b) ≡ true) ↔ (a ≡ b)
medallion_layer_beq_iff a b = ground arith

instance abbrev pub medallion_layer_eq : Eq MedallionLayer
medallion_layer_eq = record {
  beq = λ a b. nat_beq (medallion_layer_rank a) (medallion_layer_rank b);
  beq_iff = medallion_layer_beq_iff;
}

pub data DamaDimension : Type 0 where
  completeness accuracy consistency timeliness uniqueness validity : DamaDimension

abbrev pub dama_dimension_value : DamaDimension → String
dama_dimension_value DamaDimension.completeness = "completeness"
dama_dimension_value DamaDimension.accuracy = "accuracy"
dama_dimension_value DamaDimension.consistency = "consistency"
dama_dimension_value DamaDimension.timeliness = "timeliness"
dama_dimension_value DamaDimension.uniqueness = "uniqueness"
dama_dimension_value DamaDimension.validity = "validity"

abbrev pub dama_dimension_rank : DamaDimension → ℕ
dama_dimension_rank DamaDimension.completeness = 0
dama_dimension_rank DamaDimension.accuracy = 1
dama_dimension_rank DamaDimension.consistency = 2
dama_dimension_rank DamaDimension.timeliness = 3
dama_dimension_rank DamaDimension.uniqueness = 4
dama_dimension_rank DamaDimension.validity = 5

pub dama_dimension_beq_iff :
    (a b : DamaDimension)
    → (nat_beq (dama_dimension_rank a) (dama_dimension_rank b) ≡ true) ↔ (a ≡ b)
dama_dimension_beq_iff a b = ground arith

instance abbrev pub dama_dimension_eq : Eq DamaDimension
dama_dimension_eq = record {
  beq = λ a b. nat_beq (dama_dimension_rank a) (dama_dimension_rank b);
  beq_iff = dama_dimension_beq_iff;
}
