-- ===== src/Expert/Recommending.antt =====
-- What the expert answers.
use open_data_gov.Prelude.{
  ◌≤◌, ◌≡◌, refl, ap, sym, String, Bool, true, false, Option, some, arith, string_eq, text_length,
  leb, if◌then◌else◌, ◌==◌, ==_sound,
}
use open_data_gov.Prelude.Dict.{get, put, get-put}
use open_data_gov.Prelude.Exec.{ok}
use open_data_gov.Lakehouse.Buckets.{Floats}
use open_data_gov.Expert.Capability.{
  Value, is_text, ExpertRequest, ExpertResponse, new_request, new_response,
}
use open_data_gov.Expert.Mock.{
  capability_of, respond, process, sql_generation, data_analysis, data_profiling, schema_inference,
  generic,
}
use open_data_gov.Expert.Api.{ProcessRequest, expert_request, process_request}

-- A response that a human has to approve, and that names the capability it was made with.
pub record IsRecommendation {Float : Type 0} (capability : String) (confidence : Float)
    (r : ExpertResponse Float) : Type 0 where
  pub approval : r.requires_approval ≡ true
  pub labelled : get "capability" r.metadata ≡ some (Value.text capability)
  pub certain : r.confidence ≡ confidence

chosen :
    {A : Type 0} (P : A → Type 0) (test : Bool) (x y : A)
    → (test ≡ true → P x)
    → (test ≡ false → P y)
    → P (if test then x else y)
chosen P true x y hx hy = hx refl
chosen P false x y hx hy = hy refl

named :
    (capability value : String)
    → (capability == value) ≡ true
    → ◌≡◌ {A = Option Value} (some (Value.text value)) (some (Value.text capability))
named capability value same = ap (λ t. some (Value.text t)) (sym (==_sound capability value same))

module _ {Float : Type 0} (str : Value → String) (confidence : Float) where
  respond-IsRecommendation :
      (request : ExpertRequest) (capability : String)
      → capability_of str confidence request ≡ Value.text capability
      → IsRecommendation capability confidence (respond str confidence request)
  unfolding respond is_text get sql_generation data_analysis data_profiling schema_inference generic
  respond-IsRecommendation request capability asked =
      let P = IsRecommendation {Float = Float} capability confidence in
      rw asked (
        chosen P (capability == "sql_generation") _ _
          (λ e. record { approval = refl; labelled = named capability _ e; certain = refl })
          λ _.
            chosen P (capability == "data_analysis") _ _
              (λ e. record { approval = refl; labelled = named capability _ e; certain = refl })
              λ _.
                chosen P (capability == "data_profiling") _ _
                  (λ e. record { approval = refl; labelled = named capability _ e; certain = refl })
                  λ _.
                    chosen P (capability == "schema_inference") _ _
                      (λ e. record {
                        approval = refl;
                        labelled = named capability _ e;
                        certain = refl;
                      })
                      (λ _. record { approval = refl; labelled = refl; certain = refl }))

  -- A query that is not empty, answered with a confidence between 0 and 1, gets a response: it
  -- has to be approved by a human, carries that confidence, and names the capability of the
  -- body, whatever the body's parameters say.
  pub process_request-IsRecommendation :
      (floats : Floats Float) (body : ProcessRequest)
      → 1 ≤ text_length body.query
      → floats.lt confidence (floats.literal "0.0") ≡ false
      → floats.lt (floats.literal "1.0") confidence ≡ false
      → (response : ExpertResponse Float) × (process_request str confidence floats body
          ≡ ok response)
        × IsRecommendation body.capability confidence response
  unfolding process_request expert_request new_request process new_response capability_of
  process_request-IsRecommendation floats body asks low high =
      let request : ExpertRequest = record {
        query = body.query;
        context = body.context;
        parameters = put "capability" (Value.text body.capability) body.parameters;
      } in
      let found = get-put "capability" "capability" (Value.text body.capability) body.parameters in
      let good = respond-IsRecommendation request body.capability (ground (arith, found)) in
      let long : leb 1 (text_length body.query) ≡ true = ground arith in
      (respond str confidence request, ground (arith, long, good.certain, low, high), good)
