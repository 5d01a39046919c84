-- ===== src/Expert/Api.antt =====
-- services/data-expert/src/data_expert/api: the routes and their bodies.
use open_data_gov.Prelude.{String, List, string_eq}
use open_data_gov.Prelude.Dict.{put}
use open_data_gov.Prelude.Exec.{Result, ok, err}
use open_data_gov.Lakehouse.Buckets.{Floats}
use open_data_gov.Expert.Capability.{
  Value, Dict, ExpertError, ExpertRequest, ExpertResponse, new_request,
}
use open_data_gov.Expert.Mock.{process, get_capabilities}

pub record ProcessRequest : Type 0 where
  pub query : String
  pub context : Dict
  pub parameters : Dict
  pub capability : String

-- The reply has the fields of the response.
abbrev pub ProcessResponse : Type 0 → Type 0
ProcessResponse Float = ExpertResponse Float

pub record CapabilitiesResponse : Type 0 where
  pub capabilities : List String
  pub name : String
  pub description : String

-- `{**body.parameters, "capability": body.capability}`
unfoldable pub expert_request : ProcessRequest → Result ExpertError ExpertRequest
unfolding new_request
expert_request body =
    new_request body.query body.context
      (put "capability" (Value.text body.capability) body.parameters)

-- A query that is empty is refused, with the body as well as with the expert's request.
unfoldable pub process_request :
    {Float : Type 0}
    → (Value → String)
    → Float
    → Floats Float
    → ProcessRequest
    → Result ExpertError (ProcessResponse Float)
unfolding expert_request
process_request str confidence floats body = elim (expert_request body) [
  | err e ↦ err e
  | ok request ↦ process str confidence floats request
]

unfoldable pub list_capabilities : CapabilitiesResponse
list_capabilities = record {
  capabilities = get_capabilities;
  name = "MockDataExpert";
  description = "Mock AI data expert for OpenDataGov (development/testing).";
}
