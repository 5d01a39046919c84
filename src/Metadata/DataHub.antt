-- ===== src/Metadata/DataHub.antt =====
-- libs/python/odg-core/src/odg_core/metadata/datahub_adapter.py
use open_data_gov.Prelude.{
  ℕ, String, Bool, true, not, List, [], ◌∷◌, Option, none, some, map, is_empty, f_string,
  if◌then◌else◌,
}
use open_data_gov.Prelude.Exec.{Result, ok, err}
use open_data_gov.Enums.Data.{MedallionLayer, DataClassification}
use open_data_gov.Metadata.Split.{split_comma, has_comma}
use open_data_gov.Metadata.Dataset.{DatasetField, OdgDatasetMetadata, metadata_fits}

-- An entry of "fields", by the entries that are read; none where the key is missing. The tags are
-- those of "globalTags".
pub record MceField : Type 0 where
  pub field_path : Option String
  pub native_data_type : Option String
  pub description : Option String
  pub nullable : Option Bool
  pub tags : Option (List String)

pub record MceAspect : Type 0 where
  pub schema_name : Option String
  pub platform : Option String
  pub fields : Option (List MceField)

pub record Mce : Type 0 where
  pub entity_type : String
  pub entity_urn : Option String
  pub aspect_name : String
  pub aspect : Option MceAspect
  pub change_type : String

-- d.get(key, default)
abbrev pub or_default : {A : Type 0} → Option A → A → A
or_default none default = default
or_default (some a) default = a

unfoldable pub field_to_mce : DatasetField → MceField
field_to_mce f = record {
  field_path = some f.name;
  native_data_type = some f.data_type;
  description = some f.description;
  nullable = some f.is_nullable;
  tags = some (if f.is_pii then "urn:li:tag:PII" ∷ [] else []);
}

abbrev pub urn_prefix : String
urn_prefix = "urn:li:dataset:(urn:li:dataPlatform:opendatagov"

unfoldable pub odg_to_datahub_mce : {Float : Type 0} → OdgDatasetMetadata Float → Mce
unfolding field_to_mce
odg_to_datahub_mce metadata = record {
  entity_type = "dataset";
  entity_urn = some (f_string (urn_prefix ∷ "," ∷ metadata.dataset_id ∷ ",PROD)" ∷ []));
  aspect_name = "schemaMetadata";
  aspect = some (record {
    schema_name = some metadata.name;
    platform = some "urn:li:dataPlatform:opendatagov";
    fields = some (map field_to_mce metadata.schema_fields);
  });
  change_type = "UPSERT";
}

-- urn.split(",")[1] if "," in urn else urn
unfoldable pub urn_dataset_id : String → String
unfolding split_comma has_comma
urn_dataset_id urn =
    if has_comma urn then (elim (split_comma urn).1 [ [] ↦ urn | part ∷ parts ↦ part ]) else urn

unfoldable pub mce_to_field : MceField → DatasetField
mce_to_field f = record {
  name = or_default f.field_path "";
  data_type = or_default f.native_data_type "string";
  description = or_default f.description "";
  is_pii = not (is_empty (or_default f.tags []));
  is_nullable = or_default f.nullable true;
}

pub data AdapterError : Type 0 where
  validation_error : AdapterError

abbrev empty_aspect : MceAspect
empty_aspect = record { schema_name = none; platform = none; fields = none }

-- the metadata that is made of what was extracted; `id` is what the default factory draws
unfoldable pub extracted :
    {Float : Type 0}
    → (id : ℕ) (dataset_id name : String) → List DatasetField
    → OdgDatasetMetadata Float
extracted id dataset_id name schema_fields = record {
  id = id;
  dataset_id = dataset_id;
  name = name;
  description = "";
  domain_id = "unknown";
  owner_id = "unknown";
  layer = MedallionLayer.bronze;
  classification = DataClassification.internal;
  tags = [];
  schema_fields = schema_fields;
  quality_score = none;
  contract_id = none;
  jurisdiction = none;
  pii_columns = [];
  created_at = none;
  updated_at = none;
}

unfoldable pub datahub_to_odg :
    {Float : Type 0} → (id : ℕ) → Mce → Result AdapterError (OdgDatasetMetadata Float)
datahub_to_odg id mce =
    let aspect = or_default mce.aspect empty_aspect in
    let dataset_id = urn_dataset_id (or_default mce.entity_urn "") in
    let name = or_default aspect.schema_name dataset_id in
    if metadata_fits dataset_id name "unknown" "unknown"
    then ok (extracted id dataset_id name (map mce_to_field (or_default aspect.fields [])))
    else err AdapterError.validation_error
