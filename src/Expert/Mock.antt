-- ===== src/Expert/Mock.antt =====
-- services/data-expert/src/data_expert/expert.py
use open_data_gov.Prelude.{
  String, Bool, true, false, List, [], ◌∷◌, none, some, map, string_eq, f_string, if◌then◌else◌,
}
use open_data_gov.Prelude.Dict.{get}
use open_data_gov.Prelude.Exec.{Result}
use open_data_gov.Lakehouse.Buckets.{Floats}
use open_data_gov.Expert.Capability.{
  ExpertCapability, expert_capability_value, Value, Values, Entries, is_text, ExpertError,
  ExpertRequest, ExpertResponse, new_response,
}

-- _CAPABILITIES
abbrev pub capabilities : List ExpertCapability
capabilities =
    ExpertCapability.sql_generation ∷ ExpertCapability.data_analysis
    ∷ ExpertCapability.data_profiling ∷ ExpertCapability.schema_inference ∷ []

unfoldable pub get_capabilities : List String
get_capabilities = map expert_capability_value capabilities

abbrev pub capability_entry : ExpertCapability → String × Value
capability_entry c = ("capability", Value.text (expert_capability_value c))

-- {"name": …, "type": …, "primary_key": …}
abbrev pub column_entry : (name column_type : String) → Bool → Value
column_entry name column_type primary_key = Value.dict (
    Entries.entry "name" (Value.text name) (
      Entries.entry "type" (Value.text column_type)
        (Entries.entry "primary_key" (Value.bool primary_key) Entries.end)))

-- `str` gives the text of a value in an f-string. The confidence is drawn by the caller.
module _ {Float : Type 0} (str : Value → String) (confidence : Float) where
  unfoldable pub table_of : ExpertRequest → Value
  table_of request = elim (get "table" request.context) [
    | none ↦ Value.text "my_table"
    | some table ↦ table
  ]

  unfoldable pub sql_generation : ExpertRequest → ExpertResponse Float
  unfolding table_of
  sql_generation request = record {
    recommendation = f_string (
        "SELECT * FROM "
        ∷ str (table_of request)
        ∷ " WHERE 1=1 /* generated for: "
        ∷ request.query
        ∷ " */"
        ∷ []);
    confidence = confidence;
    reasoning =
        f_string ("Generated SQL query based on the request: '" ∷ request.query ∷ "'." ∷ []);
    metadata = capability_entry ExpertCapability.sql_generation ∷ ("table", table_of request) ∷ [];
    requires_approval = true;
  }

  unfoldable pub data_analysis : ExpertRequest → ExpertResponse Float
  data_analysis request = record {
    recommendation = f_string (
        "Analysis summary for '" ∷ request.query ∷ "': "
        ∷ "The dataset contains 1 000 rows across 12 columns. "
        ∷ "Key observations: 3 columns have >5% null values, "
        ∷ "distribution is approximately normal for numeric fields." ∷ []);
    confidence = confidence;
    reasoning = "Performed mock statistical analysis on the dataset.";
    metadata =
        capability_entry ExpertCapability.data_analysis
        ∷ ("row_count", Value.int 1000)
        ∷ ("column_count", Value.int 12)
        ∷ ("null_columns", Value.int 3)
        ∷ [];
    requires_approval = true;
  }

  unfoldable pub data_profiling : ExpertRequest → ExpertResponse Float
  data_profiling request = record {
    recommendation = f_string (
        "Profiling stats for '" ∷ request.query
        ∷ "': completeness=0.95, uniqueness=0.87, consistency=0.92." ∷ []);
    confidence = confidence;
    reasoning = "Computed mock data-quality profiling metrics.";
    metadata =
        capability_entry ExpertCapability.data_profiling
        ∷ ("completeness", Value.float "0.95")
        ∷ ("uniqueness", Value.float "0.87")
        ∷ ("consistency", Value.float "0.92")
        ∷ [];
    requires_approval = true;
  }

  unfoldable pub schema_inference : ExpertRequest → ExpertResponse Float
  schema_inference request = record {
    recommendation = f_string (
        "Inferred schema for '" ∷ request.query ∷ "': "
        ∷ "id (INTEGER, PK), name (VARCHAR), created_at (TIMESTAMP), "
        ∷ "value (FLOAT), is_active (BOOLEAN)." ∷ []);
    confidence = confidence;
    reasoning = "Inferred column types from mock sample data.";
    metadata =
        capability_entry ExpertCapability.schema_inference
        ∷ (
          "columns",
          Value.list (
              Values.cons (column_entry "id" "INTEGER" true) (
                Values.cons (column_entry "name" "VARCHAR" false) (
                  Values.cons (column_entry "created_at" "TIMESTAMP" false) (
                    Values.cons (column_entry "value" "FLOAT" false)
                      (Values.cons (column_entry "is_active" "BOOLEAN" false) Values.nil))))),
        )
        ∷ [];
    requires_approval = true;
  }

  unfoldable pub capability_of : ExpertRequest → Value
  capability_of request = elim (get "capability" request.parameters) [
    | none ↦ Value.text ""
    | some capability ↦ capability
  ]

  unfoldable pub generic : ExpertRequest → ExpertResponse Float
  unfolding capability_of
  generic request = record {
    recommendation = f_string ("Processed query: " ∷ request.query ∷ []);
    confidence = confidence;
    reasoning = "No specific capability matched; returning generic response.";
    metadata = ("capability", capability_of request) ∷ [];
    requires_approval = true;
  }

  -- the response that `process` builds
  unfoldable pub respond : ExpertRequest → ExpertResponse Float
  unfolding capability_of is_text sql_generation data_analysis data_profiling schema_inference
      generic
  respond request =
      if is_text (capability_of request) (expert_capability_value ExpertCapability.sql_generation)
      then sql_generation request
      else if is_text (capability_of request)
          (expert_capability_value ExpertCapability.data_analysis)
      then data_analysis request
      else if is_text (capability_of request)
          (expert_capability_value ExpertCapability.data_profiling)
      then data_profiling request
      else if is_text (capability_of request)
          (expert_capability_value ExpertCapability.schema_inference)
      then schema_inference request
      else generic request

  unfoldable pub process : Floats Float → ExpertRequest → Result ExpertError (ExpertResponse Float)
  unfolding new_response
  process floats request = new_response floats (respond request)

unfoldable pub health_check : Bool
health_check = true
