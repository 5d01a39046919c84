-- ===== src/Storage/Api.antt =====
-- services/lakehouse-agent/src/lakehouse_agent/api: routes_buckets.py and routes_promotion.py.
use open_data_gov.Prelude.{ℕ, String, Bool, not, ◌&&◌, List, has_length, if◌then◌else◌}
use open_data_gov.Prelude.Exec.{ok, err, Exec}
use open_data_gov.Enums.Data.{MedallionLayer}
use open_data_gov.Lakehouse.Buckets.{Lake, Floats, BucketManager}
use open_data_gov.Lakehouse.Promotion.{PromotionError, Outcome, promote}
use open_data_gov.Storage.Client.{Bucket, MinioClient}
use open_data_gov.Storage.Manager.{ListedBucket, ensure_buckets, list_buckets}

-- The statuses of the replies that are no success. The one of an exception that no route catches
-- is the server's.
pub data Status : Type 0 where
  bad_request unprocessable server_error : Status

-- `except Exception: raise HTTPException(500)`
unfoldable pub server_errors : {S E A : Type 0} → Exec S E A → Exec S Status A
server_errors m s = (elim (m s).0 [ ok a ↦ ok a | err _ ↦ err Status.server_error ], (m s).1)

module _ {Store Failure Bytes Response : Type 0}
    (client : MinioClient Store Failure Bytes Response (List Bucket)) where
  unfoldable pub create_buckets_for_domain : String → Exec Store Status (List String)
  unfolding server_errors
  create_buckets_for_domain domain_id = server_errors (ensure_buckets client domain_id)

  unfoldable pub list_all_buckets : Exec Store Status (List ListedBucket)
  unfolding server_errors
  list_all_buckets = server_errors (list_buckets client)

pub record PromoteRequest (Float : Type 0) : Type 0 where
  pub domain_id : String
  pub source_layer : MedallionLayer
  pub target_layer : MedallionLayer
  pub dataset_id : String
  pub dq_score : Float

-- the constraints of the body
unfoldable pub promote_fits : {Float : Type 0} → Floats Float → PromoteRequest Float → Bool
promote_fits floats body =
    has_length 1 100 body.domain_id
    && has_length 1 500 body.dataset_id
    && not (floats.lt body.dq_score (floats.literal "0.0"))
    && not (floats.lt (floats.literal "1.0") body.dq_score)

-- Only PromotionError is caught; a missing key and what the storage raises are not.
unfoldable pub promotion_status : {Failure : Type 0} → PromotionError Failure → Status
promotion_status PromotionError.unknown_layer = Status.bad_request
promotion_status (PromotionError.invalid_promotion source target) = Status.bad_request
promotion_status PromotionError.key_error = Status.server_error
promotion_status (PromotionError.storage_failure failure) = Status.server_error

unfoldable pub promote_data :
    {Store Failure Bytes Float : Type 0}
    → (ℕ → String)
    → Floats Float
    → BucketManager Store Failure Bytes
    → PromoteRequest Float
    → Exec (Lake Store) Status (Outcome Float)
unfolding promote_fits promotion_status
promote_data uuid_text floats bucket_manager body lake =
    let (r, after) =
      promote uuid_text floats bucket_manager body.domain_id body.source_layer body.target_layer
        body.dataset_id body.dq_score lake in
    if promote_fits floats body
    then (elim r [ ok outcome ↦ ok outcome | err e ↦ err (promotion_status e) ], after)
    else (err Status.unprocessable, lake)
