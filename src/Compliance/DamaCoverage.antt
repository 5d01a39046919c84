-- ===== src/Compliance/DamaCoverage.antt =====
-- libs/python/odg-core/src/odg_core/compliance/dama_coverage.py
use open_data_gov.Prelude.{
  ℕ, ◌+◌, ◌*◌, String, List, [], ◌∷◌, length, ◌==◌, string_eq, is_empty, if◌then◌else◌,
}
use open_data_gov.Quality.Fractions.{Fraction, ◌over◌}

pub record KnowledgeAreaCoverage : Type 0 where
  pub area : String
  pub description : String
  pub components : List String
  pub adrs : List String
  pub coverage_level : String

pub record DamaCoverageReport : Type 0 where
  pub areas : List KnowledgeAreaCoverage
  pub overall_coverage : Fraction

-- `weights.get(level, 0.0)`, in halves
unfoldable pub weight : String → ℕ
weight level =
    if level == "none"
    then 0
    else if level == "partial"
    then 1
    else if level == "full"
    then 2
    else 0

-- the sum of the weights, in halves
unfoldable pub total_weight : List KnowledgeAreaCoverage → ℕ
unfolding weight
total_weight [] = 0
total_weight (a ∷ areas) = weight a.coverage_level + total_weight areas

-- The new report with its coverage. Where there is no area the old coverage stays.
unfoldable pub compute_coverage : DamaCoverageReport → DamaCoverageReport × Fraction
compute_coverage report =
    if is_empty report.areas
    then (report, 0 over 1)
    else let coverage = total_weight report.areas over (2 * length report.areas) in
      (record report { overall_coverage = coverage }, coverage)

abbrev covered :
    (area description : String) (components adrs : List String) (level : String)
    → KnowledgeAreaCoverage
covered area description components adrs level = record {
  area = area;
  description = description;
  components = components;
  adrs = adrs;
  coverage_level = level;
}

abbrev default_areas : List KnowledgeAreaCoverage
default_areas =
    covered "Data Governance" "Planning, oversight, and control of data management"
      ("governance-engine" ∷ "RACI workflow" ∷ "audit trail" ∷ [])
      ("ADR-010" ∷ "ADR-011" ∷ "ADR-013" ∷ "ADR-014" ∷ []) "full"
    ∷ covered "Data Quality" "Ensuring data fitness for use"
        ("quality-gate" ∷ "Great Expectations" ∷ "DAMA 6 dimensions" ∷ "SLAs" ∷ [])
        ("ADR-050" ∷ "ADR-051" ∷ "ADR-052" ∷ []) "full"
    ∷ covered "Metadata Management" "Managing data about data"
        ("DataHub" ∷ "metadata adapter" ∷ "active metadata" ∷ [])
        ("ADR-040" ∷ "ADR-041" ∷ "ADR-042" ∷ []) "full"
    ∷ covered "Data Architecture" "Data structures and integration blueprint"
        ("Medallion Architecture" ∷ "data contracts" ∷ []) ("ADR-024" ∷ "ADR-051" ∷ []) "full"
    ∷ covered "Data Modeling & Design" "Discovering, analyzing, and representing data requirements"
        ("data contracts" ∷ "schema validation" ∷ "breaking change detection" ∷ []) ("ADR-051" ∷ [])
        "full"
    ∷ covered "Data Storage & Operations" "Managing data storage and data throughout lifecycle"
        ("MinIO (S3)" ∷ "PostgreSQL" ∷ "Redis" ∷ []) ("ADR-024" ∷ []) "full"
    ∷ covered "Data Security" "Ensuring data privacy, confidentiality, and access"
        ("Keycloak" ∷ "OPA" ∷ "Vault" ∷ "PII masking" ∷ "classification" ∷ [])
        ("ADR-070" ∷ "ADR-071" ∷ "ADR-072" ∷ "ADR-073" ∷ "ADR-074" ∷ []) "full"
    ∷ covered "Data Integration & Interoperability" "Managing data movement and consolidation"
        ("NATS JetStream" ∷ "Kafka" ∷ "OpenLineage" ∷ "OTel" ∷ [])
        ("ADR-060" ∷ "ADR-061" ∷ "ADR-062" ∷ []) "full"
    ∷ covered "Reference & Master Data" "Managing shared data to reduce redundancy"
        ("DataHub catalog" ∷ "enriched metadata" ∷ []) ("ADR-040" ∷ []) "partial"
    ∷ covered "Data Warehousing & BI" "Managing analytical data processing"
        ("lakehouse-agent" ∷ "promotion pipeline" ∷ []) ("ADR-024" ∷ []) "full"
    ∷ covered "Document & Content Management" "Managing unstructured data and documents" [] []
        "none"
    ∷ []

unfoldable pub build_default_coverage : DamaCoverageReport
unfolding compute_coverage
build_default_coverage =
    (compute_coverage (record { areas = default_areas; overall_coverage = 0 over 1 })).0
