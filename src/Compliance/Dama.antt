-- ===== src/Compliance/Dama.antt =====
-- libs/python/odg-core/src/odg_core/compliance/dama.py
use open_data_gov.Prelude.{
  ◌+◌, String, Bool, true, false, not, ◌||◌, List, [], ◌∷◌, ◌++◌, Option, none, some, map, any,
  length, ◌==◌, string_eq, f_string,
}
use open_data_gov.Prelude.Dict.{get}
use open_data_gov.Prelude.Exec.{Result, ok, err}
use open_data_gov.Enums.Data.{DamaDimension, dama_dimension_value}
use open_data_gov.Enums.Compliance.{ComplianceFramework}
use open_data_gov.Quality.Dimensions.{all_dimensions}
use open_data_gov.Expert.Rules.{starts_with}
use open_data_gov.Compliance.Protocol.{
  Context, Value, ComplianceError, ComplianceFinding, ComplianceResult, reported, score_of,
  at_least,
}

-- An entry of DAMA_KNOWLEDGE_AREAS, with the text of `area.upper()`.
pub record KnowledgeArea : Type 0 where
  pub area : String
  pub upper : String
  pub description : String

abbrev knowledge_area : (area upper description : String) → KnowledgeArea
knowledge_area area upper description = record {
  area = area;
  upper = upper;
  description = description;
}

-- DAMA_KNOWLEDGE_AREAS
abbrev pub dama_knowledge_areas : List KnowledgeArea
dama_knowledge_areas =
    knowledge_area "data_governance" "DATA_GOVERNANCE" "Governance Engine (RACI, approvals, audit)"
    ∷ knowledge_area "data_quality" "DATA_QUALITY" "Quality Gate (6 DAMA dimensions, SLAs)"
    ∷ knowledge_area "metadata_management" "METADATA_MANAGEMENT" "DataHub + Metadata Adapter"
    ∷ knowledge_area "data_architecture" "DATA_ARCHITECTURE"
        "Medallion Architecture (Bronze/Silver/Gold/Platinum)"
    ∷ knowledge_area "data_modeling" "DATA_MODELING" "Data Contracts + Schema validation"
    ∷ knowledge_area "data_storage" "DATA_STORAGE" "MinIO + PostgreSQL (cloud-agnostic)"
    ∷ knowledge_area "data_security" "DATA_SECURITY" "Keycloak + OPA + Vault + PII masking"
    ∷ knowledge_area "data_integration" "DATA_INTEGRATION" "NATS JetStream + Kafka + OpenLineage"
    ∷ knowledge_area "reference_data" "REFERENCE_DATA" "DataHub catalog + enriched metadata"
    ∷ knowledge_area "data_warehousing" "DATA_WAREHOUSING" "Lakehouse Agent (promotion pipeline)"
    ∷ knowledge_area "document_management" "DOCUMENT_MANAGEMENT" "Not yet implemented"
    ∷ []

-- dim.value.upper()
abbrev dimension_upper : DamaDimension → String
dimension_upper DamaDimension.completeness = "COMPLETENESS"
dimension_upper DamaDimension.accuracy = "ACCURACY"
dimension_upper DamaDimension.consistency = "CONSISTENCY"
dimension_upper DamaDimension.timeliness = "TIMELINESS"
dimension_upper DamaDimension.uniqueness = "UNIQUENESS"
dimension_upper DamaDimension.validity = "VALIDITY"

-- needle in s, for texts
unfoldable pub contains_text : (needle s : String) → Bool
contains_text needle String.[] = needle == ""
contains_text needle (String.◌∷◌ c s) =
    starts_with needle (String.◌∷◌ c s) || contains_text needle s

-- `x in context.get(key, [])`, of a value that `in` takes
unfoldable pub members : Option Value → Result ComplianceError (String → Bool)
members none = ok (λ x. false)
members (some (Value.text s)) = ok (λ x. contains_text x s)
members (some (Value.texts xs)) = ok (λ x. any (λ y. y == x) xs)
members (some (Value.flag b)) = err ComplianceError.type_error

unfoldable pub area_finding : KnowledgeArea → ComplianceFinding
area_finding a = record {
  rule_id = f_string ("DAMA-" ∷ a.upper ∷ []);
  severity =
      elim (a.area == "data_governance" || a.area == "data_quality" || a.area == "data_security") [
        | true ↦ "high"
        | false ↦ "medium"
      ];
  description = f_string ("DAMA knowledge area not implemented: " ∷ a.area ∷ []);
  recommendation = f_string ("Implement: " ∷ a.description ∷ []);
}

unfoldable pub dimension_finding : DamaDimension → ComplianceFinding
dimension_finding dim = record {
  rule_id = f_string ("DAMA-DQ-" ∷ dimension_upper dim ∷ []);
  severity = "medium";
  description = f_string ("Quality dimension not measured: " ∷ dama_dimension_value dim ∷ []);
  recommendation =
      f_string ("Add " ∷ dama_dimension_value dim ∷ " quality checks to expectation suites" ∷ []);
}

-- the tests of `check` in their order, each with the finding that it appends
unfoldable pub dama_rules :
    (implemented quality_dimensions : String → Bool) → List (Bool × ComplianceFinding)
dama_rules implemented quality_dimensions =
    map (λ a. (not (implemented a.area), area_finding a)) dama_knowledge_areas
    ++ map (λ d. (not (quality_dimensions (dama_dimension_value d)), dimension_finding d))
        all_dimensions

unfoldable pub dama_result : (implemented quality_dimensions : String → Bool) → ComplianceResult
dama_result implemented quality_dimensions =
    let findings = reported (dama_rules implemented quality_dimensions) in
    let score = score_of findings (length dama_knowledge_areas + length all_dimensions) in
    record {
      framework = ComplianceFramework.dama_dmbok;
      passed = at_least 7 10 score;
      score = score;
      findings = findings;
      metadata = [];
    }

unfoldable pub dama_check : Context → Result ComplianceError ComplianceResult
dama_check context = elim (members (get "implemented_areas" context)) [
  | err e ↦ err e
  | ok implemented ↦ elim (members (get "quality_dimensions" context)) [
    | err e ↦ err e
    | ok quality_dimensions ↦ ok (dama_result implemented quality_dimensions)
  ]
]
