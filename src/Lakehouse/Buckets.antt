-- ===== src/Lakehouse/Buckets.antt =====
-- services/lakehouse-agent/src/lakehouse_agent/protocols.py: the storage that promotion works on,
-- and what Python's floats and `uuid` give.
use open_data_gov.Prelude.{ℕ, String, ◌≡◌, ◌≢◌, Bool, [], ◌∷◌, f_string}
use open_data_gov.Prelude.Exec.{ok, Exec}
use open_data_gov.Enums.Data.{MedallionLayer, medallion_layer_value}

unfoldable pub bucket_name : MedallionLayer → String → String
bucket_name layer domain_id = f_string ("odg-" ∷ medallion_layer_value layer ∷ "-" ∷ domain_id ∷ [])

-- The state of the agent: the storage, and how many identifiers have been drawn.
pub record Lake (Store : Type 0) : Type 0 where
  pub store : Store
  pub ids : ℕ

-- The type of floats, with `<`, the value of a literal and the text of a value.
pub record Floats (Float : Type 0) : Type 0 where
  pub lt : Float → Float → Bool
  pub literal : String → Float
  pub repr : Float → String

-- A class that satisfies the protocol: two actions on the storage, which may raise. The reply of
-- an upload and the default content type are not read.
pub record BucketManager (Store Failure Bytes : Type 0) : Type 0 where
  pub get_object : (bucket key : String) → Exec Store Failure Bytes
  pub upload_object : (bucket key : String) → Bytes → Exec Store Failure (Unit {0})

-- What a storage promises: reading changes nothing, an upload that succeeds is what is read
-- next, and it leaves the objects of other buckets alone.
pub record IsStorage {Store Failure Bytes : Type 0} (m : BucketManager Store Failure Bytes)
    : Type 0 where
  pub get_reads : (b k : String) (s : Store) → (m.get_object b k s).1 ≡ s
  pub get_after_upload :
      (b k : String) (content : Bytes) (s : Store)
      → (m.upload_object b k content s).0 ≡ ok tt
      → (m.get_object b k (m.upload_object b k content s).1).0 ≡ ok content
  pub get_elsewhere :
      (b c j k : String) (content : Bytes) (s : Store)
      → b ≢ c
      → (m.get_object c j (m.upload_object b k content s).1).0 ≡ (m.get_object c j s).0
