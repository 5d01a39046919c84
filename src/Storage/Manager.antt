-- ===== src/Storage/Manager.antt =====
-- services/lakehouse-agent/src/lakehouse_agent/minio_client.py
use open_data_gov.Prelude.{String, Bool, true, false, List, [], ◌∷◌, ◌++◌, none, some, map}
use open_data_gov.Prelude.Exec.{ok, err, Exec, pure, ◌>>=◌, ◌>>◌}
use open_data_gov.Enums.Data.{MedallionLayer}
use open_data_gov.Lakehouse.Buckets.{BucketManager, bucket_name}
use open_data_gov.Storage.Client.{Bucket, PutResult, MinioClient}

-- _MEDALLION_LAYERS
abbrev pub medallion_layers : List MedallionLayer
medallion_layers =
    MedallionLayer.bronze ∷ MedallionLayer.silver ∷ MedallionLayer.gold ∷ MedallionLayer.platinum
    ∷ []

-- `try: m finally: cleanup`: an exception of the cleanup takes the place of the result
unfoldable pub finally : {S E A : Type 0} → Exec S E A → Exec S E (Unit {0}) → Exec S E A
finally m cleanup s =
    let (r, s') = m s in
    let (done, s'') = cleanup s' in (elim done [ err e ↦ err e | ok _ ↦ r ], s'')

-- an entry of the reply of `list_buckets`
pub record ListedBucket : Type 0 where
  pub name : String
  pub creation_date : String

unfoldable pub listed_bucket : Bucket → ListedBucket
listed_bucket b = record {
  name = b.name;
  creation_date = elim b.creation_date [ none ↦ "" | some date ↦ date ];
}

module _ {Store Failure Bytes Response : Type 0}
    (client : MinioClient Store Failure Bytes Response (List Bucket)) where
  -- `if not exists: make_bucket`
  unfoldable pub make_missing : Bool → String → Exec Store Failure (Unit {0})
  make_missing true name = pure tt
  make_missing false name = client.make_bucket name

  unfoldable pub ensure_bucket : String → Exec Store Failure (Unit {0})
  ensure_bucket name = do
    exists ← client.bucket_exists name
    make_missing exists name
    client.set_bucket_versioning name

  -- the loop of `ensure_buckets`, from the names appended so far
  unfoldable pub ensure_layers :
      List MedallionLayer → String → List String → Exec Store Failure (List String)
  ensure_layers [] domain_id created = pure created
  ensure_layers (layer ∷ layers) domain_id created =
      let rest = ensure_layers layers domain_id (created ++ bucket_name layer domain_id ∷ []) in
      ensure_bucket (bucket_name layer domain_id) >> rest

  unfoldable pub ensure_buckets : String → Exec Store Failure (List String)
  ensure_buckets domain_id = ensure_layers medallion_layers domain_id []

  unfoldable pub list_buckets : Exec Store Failure (List ListedBucket)
  unfolding listed_bucket
  list_buckets = do buckets ← client.list_buckets; pure (map listed_bucket buckets)

  unfoldable pub get_bucket_policy : String → Exec Store Failure String
  get_bucket_policy name = client.get_bucket_policy name

  -- The reply has the entries of what the put returns.
  unfoldable pub upload_object :
      (bucket key : String) → Bytes → (content_type : String) → Exec Store Failure PutResult
  upload_object bucket key data_bytes content_type =
      client.put_object bucket key data_bytes content_type

  unfoldable pub get_object : (bucket key : String) → Exec Store Failure Bytes
  get_object bucket key = do
    response ← client.get_object bucket key
    finally (client.read response) (client.close response >> client.release_conn response)

  -- `PromotionService(MinIOBucketManager())`, in what promotion uses: the default content type, and
  -- the reply is dropped
  unfoldable pub minio_manager : BucketManager Store Failure Bytes
  unfolding upload_object get_object
  minio_manager = record {
    get_object = get_object;
    upload_object = λ bucket key content. do
      result ← upload_object bucket key content "application/octet-stream"
      pure tt;
  }
