-- ===== src/Storage/Client.antt =====
-- The methods of the MinIO client that services/lakehouse-agent/src/lakehouse_agent/minio_client.py
-- calls. Each may raise.
use open_data_gov.Prelude.{String, Bool, Option}
use open_data_gov.Prelude.Exec.{Exec}

-- A bucket of a listing; none where it has no date.
pub record Bucket : Type 0 where
  pub name : String
  pub creation_date : Option String

-- what a put returns
pub record PutResult : Type 0 where
  pub bucket_name : String
  pub object_name : String
  pub etag : String
  pub version_id : Option String

pub record MinioClient (Store Failure Bytes Response Listing : Type 0) : Type 0 where
  pub bucket_exists : String → Exec Store Failure Bool
  pub make_bucket : String → Exec Store Failure (Unit {0})
  pub set_bucket_versioning : String → Exec Store Failure (Unit {0})
  pub list_buckets : Exec Store Failure Listing
  pub get_bucket_policy : String → Exec Store Failure String
  pub put_object :
      (bucket key : String) → Bytes → (content_type : String) → Exec Store Failure PutResult
  pub get_object : (bucket key : String) → Exec Store Failure Response
  pub read : Response → Exec Store Failure Bytes
  pub close : Response → Exec Store Failure (Unit {0})
  pub release_conn : Response → Exec Store Failure (Unit {0})
