-- ===== src/Lineage/Consumer.antt =====
-- libs/python/odg-core/src/odg_core/lineage/consumer.py
use open_data_gov.Prelude.{String, List, [], ◌∷◌, ◌++◌, Option, none, some, map, f_string}
use open_data_gov.Lineage.Emitter.{LineageDataset, LineageRunEvent}

-- The entries of the dicts that are read; none where the key is missing.
pub record DatasetDict : Type 0 where
  pub namespace : Option String
  pub name : Option String

-- The entry "name" of "job", and the lists; none where a key is missing.
pub record EventDict : Type 0 where
  pub job_name : Option String
  pub inputs : Option (List DatasetDict)
  pub outputs : Option (List DatasetDict)

-- `_dataset_to_urn`
unfoldable pub dataset_to_urn : DatasetDict → String
dataset_to_urn dataset = f_string (
    "urn:li:dataset:(urn:li:dataPlatform:"
    ∷ (elim dataset.namespace [ none ↦ "opendatagov" | some n ↦ n ])
    ∷ ","
    ∷ (elim dataset.name [ none ↦ "unknown" | some n ↦ n ])
    ∷ ",PROD)"
    ∷ [])

-- The type of an edge is always "TRANSFORMED".
pub record LineageEdge : Type 0 where
  pub source_urn : String
  pub destination_urn : String

pub record LineageMce : Type 0 where
  pub entity_urn : String
  pub input_datasets : List String
  pub output_datasets : List String
  pub lineage_edges : List LineageEdge

-- the loop over the inputs, for one output
unfoldable pub edges_to : List DatasetDict → DatasetDict → List LineageEdge → List LineageEdge
edges_to [] output edges = edges
edges_to (inp ∷ inputs) output edges = edges_to inputs output (
    edges
    ++ record { source_urn = dataset_to_urn inp; destination_urn = dataset_to_urn output } ∷ [])

-- the loop over the outputs
unfoldable pub all_edges : (inputs outputs : List DatasetDict) → List LineageEdge → List LineageEdge
unfolding edges_to
all_edges inputs [] edges = edges
all_edges inputs (output ∷ outputs) edges = all_edges inputs outputs (edges_to inputs output edges)

abbrev or_empty : Option (List DatasetDict) → List DatasetDict
or_empty none = []
or_empty (some ds) = ds

unfoldable pub openlineage_to_datahub_mce : EventDict → LineageMce
unfolding all_edges dataset_to_urn
openlineage_to_datahub_mce event =
    let job : String = elim event.job_name [ none ↦ "unknown" | some n ↦ n ] in
    record {
      entity_urn =
          f_string (
            "urn:li:dataJob:(urn:li:dataFlow:" ∷ "(opendatagov," ∷ job ∷ ",PROD)," ∷ job ∷ ")"
            ∷ []);
      input_datasets = map dataset_to_urn (or_empty event.inputs);
      output_datasets = map dataset_to_urn (or_empty event.outputs);
      lineage_edges = all_edges (or_empty event.inputs) (or_empty event.outputs) [];
    }

abbrev pub dataset_dict : LineageDataset → DatasetDict
dataset_dict d = record { namespace = some d.namespace; name = some d.name }

-- `event.model_dump()`, in the entries that are read
unfoldable pub model_dump : LineageRunEvent → EventDict
model_dump event = record {
  job_name = some event.job.name;
  inputs = some (map dataset_dict event.inputs);
  outputs = some (map dataset_dict event.outputs);
}
