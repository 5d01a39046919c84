-- ===== src/Metadata/OpenLineage.antt =====
-- libs/python/odg-core/src/odg_core/metadata/openlineage_adapter.py
use open_data_gov.Prelude.{String, List, [], ◌∷◌, Option, map, f_string}
use open_data_gov.Metadata.Dataset.{OdgDatasetMetadata}

-- an entry of the facet "schema"
pub record SchemaField : Type 0 where
  pub name : String
  pub field_type : String
  pub description : String

-- The dict, by its entries that depend on the metadata: an owner's type is always "DATAOWNER".
pub record OpenLineageDataset (Float : Type 0) : Type 0 where
  pub namespace : String
  pub name : String
  pub fields : List SchemaField
  pub quality_score : Option Float
  pub owners : List String

unfoldable pub odg_to_openlineage_dataset :
    {Float : Type 0} → OdgDatasetMetadata Float → OpenLineageDataset Float
odg_to_openlineage_dataset metadata = record {
  namespace = f_string ("opendatagov://" ∷ metadata.domain_id ∷ []);
  name = metadata.dataset_id;
  fields =
      map (λ f. record { name = f.name; field_type = f.data_type; description = f.description })
        metadata.schema_fields;
  quality_score = metadata.quality_score;
  owners = metadata.owner_id ∷ [];
}
