-- ===== src/Lineage/Emitter.antt =====
-- libs/python/odg-core/src/odg_core/lineage: models.py and emitter.py
use open_data_gov.Prelude.{ℕ, String, List, [], ◌∷◌, none, some, string_eq}
use open_data_gov.Prelude.Dict.{get}
use open_data_gov.Prelude.Exec.{Result, ok, err}

-- The facets of a dataset, which the emitter never gives, are a dict without entries.
pub record LineageDataset : Type 0 where
  pub namespace : String
  pub name : String

pub record LineageJob : Type 0 where
  pub namespace : String
  pub name : String

pub record LineageRunEvent : Type 0 where
  pub event_type : String
  pub event_time : ℕ
  pub run : List (String × String)
  pub job : LineageJob
  pub inputs : List LineageDataset
  pub outputs : List LineageDataset
  pub producer : String
  pub schema_url : String

pub data LineageError : Type 0 where
  validation_error : LineageError

-- LineageDataset(**d), of a dict of texts: a key that the model does not have is ignored, and a
-- text for the facets is refused
unfoldable pub new_dataset : List (String × String) → Result LineageError LineageDataset
new_dataset d = elim (get "facets" d) [
  | some _ ↦ err LineageError.validation_error
  | none ↦ elim (get "namespace" d) [
    | none ↦ err LineageError.validation_error
    | some namespace ↦ elim (get "name" d) [
      | none ↦ err LineageError.validation_error
      | some name ↦ ok (record { namespace = namespace; name = name })
    ]
  ]
]

unfoldable pub new_datasets :
    List (List (String × String)) → Result LineageError (List LineageDataset)
unfolding new_dataset
new_datasets [] = ok []
new_datasets (d ∷ ds) =
    let rest = new_datasets ds in
    elim (new_dataset d) [
      | err e ↦ err e
      | ok dataset ↦ elim rest [ err e ↦ err e | ok datasets ↦ ok (dataset ∷ datasets) ]
    ]

-- `run_id` is the text of the identifier that is drawn, and `now` the clock's reading.
unfoldable pub new_event :
    (run_id : String) (now : ℕ) (job_name : String) (inputs outputs : List LineageDataset)
    (event_type : String)
    → LineageRunEvent
new_event run_id now job_name inputs outputs event_type = record {
  event_type = event_type;
  event_time = now;
  run = ("runId", run_id) ∷ [];
  job = record { namespace = "opendatagov"; name = job_name };
  inputs = inputs;
  outputs = outputs;
  producer = "opendatagov";
  schema_url = "https://openlineage.io/spec/1-0-5/OpenLineage.json#/definitions/RunEvent";
}

-- The event is only logged.
unfoldable pub emit_lineage_event :
    (run_id : String) (now : ℕ) (job_name : String) (inputs outputs : List (List (String × String)))
    (event_type : String)
    → Result LineageError LineageRunEvent
emit_lineage_event run_id now job_name inputs outputs event_type = elim (new_datasets inputs) [
  | err e ↦ err e
  | ok ins ↦ elim (new_datasets outputs) [
    | err e ↦ err e
    | ok outs ↦ ok (new_event run_id now job_name ins outs event_type)
  ]
]
