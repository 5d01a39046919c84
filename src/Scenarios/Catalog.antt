-- ===== src/Scenarios/Catalog.antt =====
-- An emitted event and the metadata of a dataset on their way to DataHub.
use open_data_gov.Prelude.{
  ℕ, ◌*◌, String, ◌≡◌, ◌↔◌, refl, true, false, List, [], ◌∷◌, In, none, map, length, has_length,
  text_length,
}
use open_data_gov.Prelude.Exec.{ok}
use open_data_gov.Enums.Data.{MedallionLayer, DataClassification}
use open_data_gov.Lineage.Emitter.{LineageDataset, LineageRunEvent, emit_lineage_event}
use open_data_gov.Lineage.Consumer.{
  LineageEdge, dataset_dict, model_dump, openlineage_to_datahub_mce,
}
use open_data_gov.Lineage.Edges.{edge, dict_of, emit_lineage_event-edges}
use open_data_gov.Metadata.Split.{has_comma}
use open_data_gov.Metadata.Dataset.{OdgDatasetMetadata, metadata_fits}
use open_data_gov.Metadata.DataHub.{odg_to_datahub_mce, datahub_to_odg}
use open_data_gov.Metadata.RoundTrip.{datahub_to_odg-odg_to_datahub_mce}

abbrev dataset : String → LineageDataset
dataset name = record { namespace = "opendatagov"; name = name }

abbrev ins : List LineageDataset
ins = dataset "orders" ∷ dataset "customers" ∷ []

abbrev outs : List LineageDataset
outs = dataset "sales" ∷ []

emit_lineage_event-edges_example :
    (event : LineageRunEvent) × (emit_lineage_event "7b0f" 0 "join"
        (map dict_of ins)
        (map dict_of outs)
        "COMPLETE"
      ≡ ok event)
    × ((e : LineageEdge)
        → In e (openlineage_to_datahub_mce (model_dump event)).lineage_edges ↔ (
            (i : LineageDataset) × In i ins
            × (o : LineageDataset) × In o outs
            × (edge (dataset_dict i) (dataset_dict o) ≡ e)))
    × (length (openlineage_to_datahub_mce (model_dump event)).lineage_edges
        ≡ length outs * length ins)
emit_lineage_event-edges_example = emit_lineage_event-edges "7b0f" 0 "join" ins outs "COMPLETE"

abbrev orders : OdgDatasetMetadata ℕ
orders = record {
  id = 3;
  dataset_id = "orders";
  name = "Orders";
  description = "All orders";
  domain_id = "sales";
  owner_id = "ann";
  layer = MedallionLayer.gold;
  classification = DataClassification.internal;
  tags = [];
  schema_fields =
      record {
        name = "email";
        data_type = "string";
        description = "";
        is_pii = true;
        is_nullable = false;
      }
      ∷ [];
  quality_score = none;
  contract_id = none;
  jurisdiction = none;
  pii_columns = [];
  created_at = none;
  updated_at = none;
}

datahub_to_odg-odg_to_datahub_mce_example :
    (back : OdgDatasetMetadata ℕ) × (datahub_to_odg 9 (odg_to_datahub_mce orders) ≡ ok back)
    × (back.dataset_id ≡ orders.dataset_id)
    × (back.name ≡ orders.name)
    × (back.schema_fields ≡ orders.schema_fields)
    × (back.domain_id ≡ "unknown")
    × (back.owner_id ≡ "unknown")
unfolding metadata_fits has_length text_length has_comma
datahub_to_odg-odg_to_datahub_mce_example = datahub_to_odg-odg_to_datahub_mce 9 orders refl refl
