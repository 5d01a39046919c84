-- ===== src/Expert/Capability.antt =====
-- libs/python/odg-core/src/odg_core: ExpertCapability of enums.py, and the records of expert.py.
use open_data_gov.Prelude.{
  ℕ, String, Bool, false, ◌||◌, List, ◌==◌, string_eq, leb, text_length, if◌then◌else◌,
}
use open_data_gov.Prelude.Exec.{Result, ok, err}
use open_data_gov.Lakehouse.Buckets.{Floats}

pub data ExpertCapability : Type 0 where
  sql_generation data_analysis data_profiling schema_inference metadata_discovery : ExpertCapability

abbrev pub expert_capability_value : ExpertCapability → String
expert_capability_value ExpertCapability.sql_generation = "sql_generation"
expert_capability_value ExpertCapability.data_analysis = "data_analysis"
expert_capability_value ExpertCapability.data_profiling = "data_profiling"
expert_capability_value ExpertCapability.schema_inference = "schema_inference"
expert_capability_value ExpertCapability.metadata_discovery = "metadata_discovery"

-- A value of a `dict[str, Any]`; a float is given by its literal.
mutual
  pub data Value : Type 0 where
    text : String → Value
    int : ℕ → Value
    float : String → Value
    bool : Bool → Value
    list : Values → Value
    dict : Entries → Value

  pub data Values : Type 0 where
    nil : Values
    cons : Value → Values → Values

  pub data Entries : Type 0 where
    end : Entries
    entry : String → Value → Entries → Entries

abbrev pub Dict : Type 0
Dict = List (String × Value)

-- `value == s`, for a text s
unfoldable pub is_text : Value → String → Bool
is_text (Value.text t) s = t == s
is_text _ s = false

pub data ExpertError : Type 0 where
  validation_error : ExpertError

pub record ExpertRequest : Type 0 where
  pub query : String
  pub context : Dict
  pub parameters : Dict

pub record ExpertResponse (Float : Type 0) : Type 0 where
  pub recommendation : String
  pub confidence : Float
  pub reasoning : String
  pub metadata : Dict
  pub requires_approval : Bool

-- the constraint of `query`
unfoldable pub new_request : (query : String) → Dict → Dict → Result ExpertError ExpertRequest
new_request query context parameters =
    if leb 1 (text_length query)
    then ok (record { query = query; context = context; parameters = parameters })
    else err ExpertError.validation_error

-- the constraint of `confidence`
unfoldable pub new_response :
    {Float : Type 0}
    → Floats Float
    → ExpertResponse Float
    → Result ExpertError (ExpertResponse Float)
new_response floats response =
    if floats.lt response.confidence (floats.literal "0.0")
      || floats.lt (floats.literal "1.0") response.confidence
    then err ExpertError.validation_error
    else ok response
