-- ===== src/Storage/Documented.antt =====
-- What the MinIO client documents of buckets, objects and responses.
use open_data_gov.Prelude.{String, Bool, true, false, ◌≡◌, ◌⊎◌, List, Option, some}
use open_data_gov.Prelude.Exec.{ok}
use open_data_gov.Storage.Client.{Bucket, PutResult, MinioClient}

-- The contents of a server as the client sees them: which buckets exist, and which of them keep
-- versions. Asking changes nothing; making a bucket and setting its versioning succeed only by
-- doing so, and take nothing from other buckets.
pub record KeepsBuckets {Store Failure Bytes Response : Type 0}
    (client : MinioClient Store Failure Bytes Response (List Bucket))
    (exists versioned : Store → String → Bool) : Type 0 where
  pub asks : (b : String) (s : Store) → (client.bucket_exists b s).1 ≡ s
  pub answers :
      (b : String) (s : Store) (r : Bool) → (client.bucket_exists b s).0 ≡ ok r → r ≡ exists s b
  pub makes :
      (b : String) (s : Store)
      → (client.make_bucket b s).0 ≡ ok tt
      → exists (client.make_bucket b s).1 b ≡ true
  pub make_keeps :
      (b c : String) (s : Store) → exists s c ≡ true → exists (client.make_bucket b s).1 c ≡ true
  pub make_keeps_versions :
      (b c : String) (s : Store)
      → versioned s c ≡ true
      → versioned (client.make_bucket b s).1 c ≡ true
  pub sets :
      (b : String) (s : Store)
      → (client.set_bucket_versioning b s).0 ≡ ok tt
      → versioned (client.set_bucket_versioning b s).1 b ≡ true
  pub set_keeps :
      (b c : String) (s : Store)
      → exists s c ≡ true
      → exists (client.set_bucket_versioning b s).1 c ≡ true
  pub set_keeps_versions :
      (b c : String) (s : Store)
      → versioned s c ≡ true
      → versioned (client.set_bucket_versioning b s).1 c ≡ true

module _ {Store Failure Bytes Response : Type 0}
    (client : MinioClient Store Failure Bytes Response (List Bucket))
    (object : Store → String → String → Option Bytes) (is_open : Store → Response → Bool)
    (content : Response → Bytes) where
  -- The objects are the same, and no response is open that was not open before.
  pub record Keeps (s s' : Store) : Type 0 where
    pub objects : (b k : String) → object s' b k ≡ object s b k
    pub responses : (r : Response) → is_open s' r ≡ true → is_open s r ≡ true

  -- Of a server that answers, with the objects in it and the responses that are open: getting an
  -- object that is there opens a response with its content and no other; an open response reads as
  -- its content and a closed one does not; closing a response closes it. A put that succeeds puts
  -- the object there.
  pub record KeepsObjects : Type 0 where
    pub gets :
        (b k : String) (bytes : Bytes) (s : Store)
        → object s b k ≡ some bytes
        → (r : Response) × ((client.get_object b k s).0 ≡ ok r)
          × (content r ≡ bytes)
          × (is_open (client.get_object b k s).1 r ≡ true)
    pub get_keeps :
        (b k c j : String) (s : Store) → object (client.get_object b k s).1 c j ≡ object s c j
    pub opens :
        (b k : String) (s : Store) (r x : Response)
        → (client.get_object b k s).0 ≡ ok r
        → is_open (client.get_object b k s).1 x ≡ true
        → (x ≡ r) ⊎ (is_open s x ≡ true)
    pub reads :
        (r : Response) (s : Store) → is_open s r ≡ true → (client.read r s).0 ≡ ok (content r)
    pub reads_open :
        (r : Response) (s : Store) (bytes : Bytes)
        → (client.read r s).0 ≡ ok bytes
        → is_open s r ≡ true
    pub read_keeps : (r : Response) (s : Store) → Keeps s (client.read r s).1
    pub closes : (r : Response) (s : Store) → (client.close r s).0 ≡ ok tt
    pub closed : (r : Response) (s : Store) → is_open (client.close r s).1 r ≡ false
    pub close_keeps : (r : Response) (s : Store) → Keeps s (client.close r s).1
    pub releases : (r : Response) (s : Store) → (client.release_conn r s).0 ≡ ok tt
    pub release_keeps : (r : Response) (s : Store) → Keeps s (client.release_conn r s).1
    pub puts :
        (b k : String) (bytes : Bytes) (content_type : String) (s : Store) (result : PutResult)
        → (client.put_object b k bytes content_type s).0 ≡ ok result
        → object (client.put_object b k bytes content_type s).1 b k ≡ some bytes
