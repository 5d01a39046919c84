-- ===== src/Scenarios/Storage.antt =====
-- A MinIO server in memory.
use open_data_gov.Prelude.{
  ℕ, suc, nat_eq, true, inl, inr, Option-cases, Bool-cases, String, ◌≡◌, refl, ap, ◌⊎◌, Bool, false,
  ◌||◌, ◌&&◌, List, [], ◌∷◌, map, All, Option, none, some, ◌==◌, string_eq, ==_refl, eq_iff, arith,
  f_string, if◌then◌else◌,
}
use open_data_gov.Prelude.Exec.{ok, err, pure, ◌>>=◌}
use open_data_gov.Lakehouse.Buckets.{bucket_name}
use open_data_gov.Storage.Client.{Bucket, MinioClient}
use open_data_gov.Storage.Manager.{
  minio_manager, upload_object, get_object, ensure_buckets, ensure_layers, ensure_bucket,
  make_missing, medallion_layers,
}
use open_data_gov.Storage.Documented.{KeepsBuckets, Keeps, KeepsObjects}
use open_data_gov.Storage.Reading.{get_object-reads, get_object-upload_object}
use open_data_gov.Storage.Ensured.{IsReady, ensure_buckets-IsReady}

abbrev Objects : Type 0
Objects = String → String → Option String

-- A response is the content of the object, named by the turn at which it was opened.
abbrev Response : Type 0
Response = ℕ × String

record Server : Type 0 where
  objects : Objects
  made : String → Bool
  kept : String → Bool
  turn : ℕ
  reading : Response → Bool

abbrev same : Response → Response → Bool
same x y = x.0 == y.0 && x.1 == y.1

same_sound : (x y : Response) → same x y ≡ true → x ≡ y
same_sound x y h = ground (arith, h, eq_iff x.1 y.1)

same_refl : (x : Response) → same x x ≡ true
same_refl x = ground (arith, ==_refl x.1)

abbrev set : Response → Bool → (Response → Bool) → Response → Bool
set r b test x = if same x r then b else test x

abbrev add : String → (String → Bool) → String → Bool
add b test c = b == c || test c

abbrev server_client : MinioClient Server String String Response (List Bucket)
server_client = record {
  bucket_exists = λ b s. (ok (s.made b), s);
  make_bucket = λ b s. (ok tt, record s { made = add b s.made });
  set_bucket_versioning = λ b s. (ok tt, record s { kept = add b s.kept });
  list_buckets = λ s. (ok [], s);
  get_bucket_policy = λ b s. (err "NoSuchBucketPolicy", s);
  put_object = λ b k content content_type s. (
    ok (record { bucket_name = b; object_name = k; etag = ""; version_id = none }),
    record s { objects = λ c j. if b == c && k == j then some content else s.objects c j },
  );
  get_object = λ b k s. elim (s.objects b k) [
    | none ↦ (err "NoSuchKey", s)
    | some content ↦ (
      ok (s.turn, content),
      record s { turn = suc s.turn; reading = set (s.turn, content) true s.reading },
    )
  ];
  read = λ r s. ((if s.reading r then ok r.1 else err "closed"), s);
  close = λ r s. (ok tt, record s { reading = set r false s.reading });
  release_conn = λ r s. (ok tt, s);
}

abbrev object : Server → String → String → Option String
object s = s.objects

abbrev is_open : Server → Response → Bool
is_open s r = s.reading r

abbrev content : Response → String
content r = r.1

abbrev empty : Server
empty = record {
  objects = λ b k. none;
  made = λ b. false;
  kept = λ b. false;
  turn = 0;
  reading = λ r. false;
}

server-Keeps :
    (s s' : Server)
    → s'.objects ≡ s.objects
    → ((r : Response) → s'.reading r ≡ true → s.reading r ≡ true)
    → Keeps server_client object is_open content s s'
server-Keeps s s' same_objects fewer = record {
  objects = λ b k. ap (λ (o : Objects). o b k) same_objects;
  responses = fewer;
}

server-opens :
    (b k : String) (s : Server) (r x : Response)
    → (server_client.get_object b k s).0 ≡ ok r
    → is_open (server_client.get_object b k s).1 x ≡ true
    → (x ≡ r) ⊎ (is_open s x ≡ true)
server-opens b k s r x = elim (Option-cases (s.objects b k)) [
  | inl absent ↦ rw absent (λ responds opened. absurd (cc (responds)))
  | inr (bytes, there) ↦ rw there (λ responds opened. elim (Bool-cases (same x r)) [
    | inl equal ↦ inl (same_sound x r equal)
    | inr other ↦ inr (ground (arith, responds, opened, other))
  ])
]

server-KeepsObjects : KeepsObjects server_client object is_open content
server-KeepsObjects = record {
  gets = λ b k bytes s there.
      ((s.turn, bytes), rw there refl, refl, rw there (ground (arith, same_refl (s.turn, bytes))));
  get_keeps = λ b k c j s. elim (Option-cases (s.objects b k)) [
    | inl absent ↦ rw absent refl
    | inr (bytes, there) ↦ rw there refl
  ];
  opens = server-opens;
  reads = λ r s opened. rw opened refl;
  reads_open = λ r s bytes done. ground (arith, done);
  read_keeps = λ r s. server-Keeps s s refl (λ x h. h);
  closes = λ r s. refl;
  closed = λ r s. ground (arith, same_refl r);
  close_keeps = λ r s. server-Keeps s _ refl (λ x h. ground (arith, h));
  releases = λ r s. refl;
  release_keeps = λ r s. server-Keeps s s refl (λ x h. h);
  puts = λ b k bytes content_type s result done. ground (arith, ==_refl b, ==_refl k);
}

-- one object, and no response open
abbrev stocked : Server
stocked = record empty { objects = λ b k. some "a,b" }

get_object-reads_example :
    ((get_object server_client "odg-gold-sales" "orders.csv" stocked).0 ≡ ok "a,b")
    × Keeps server_client object is_open content stocked
        (get_object server_client "odg-gold-sales" "orders.csv" stocked).1
get_object-reads_example =
    get_object-reads server_client object is_open content server-KeepsObjects "odg-gold-sales"
      "orders.csv" "a,b" stocked refl

get_object-upload_object_example :
    ((minio_manager server_client).get_object "odg-gold-sales" "orders.csv"
      ((minio_manager server_client).upload_object "odg-gold-sales" "orders.csv" "a,b" empty).1).0
    ≡ ok "a,b"
unfolding minio_manager upload_object pure ◌>>=◌
get_object-upload_object_example =
    get_object-upload_object server_client object is_open content server-KeepsObjects
      "odg-gold-sales" "orders.csv" "a,b" empty refl

server-KeepsBuckets : KeepsBuckets server_client (λ s b. s.made b) (λ s b. s.kept b)
server-KeepsBuckets = record {
  asks = λ b s. refl;
  answers = λ b s r done. ground (arith, done);
  makes = λ b s done. ground (arith, ==_refl b);
  make_keeps = λ b c s there. ground (arith, there);
  make_keeps_versions = λ b c s there. there;
  sets = λ b s done. ground (arith, ==_refl b);
  set_keeps = λ b c s there. there;
  set_keeps_versions = λ b c s there. ground (arith, there);
}

abbrev names : List String
names = "odg-bronze-sales" ∷ "odg-silver-sales" ∷ "odg-gold-sales" ∷ "odg-platinum-sales" ∷ []

ensure_buckets-IsReady_example :
    let after = (ensure_buckets server_client "sales" empty).1 in
    (names ≡ map (λ l. bucket_name l "sales") medallion_layers)
    × All
        (λ l.
          IsReady server_client
            (λ s b. s.made b)
            (λ s b. s.kept b)
            server-KeepsBuckets
            after
            (bucket_name l "sales"))
        medallion_layers
    × ((c : String)
        → IsReady server_client (λ s b. s.made b) (λ s b. s.kept b) server-KeepsBuckets empty c
        → IsReady server_client (λ s b. s.made b) (λ s b. s.kept b) server-KeepsBuckets after c)
unfolding ensure_buckets ensure_layers ensure_bucket make_missing bucket_name f_string pure ◌>>=◌
ensure_buckets-IsReady_example =
    ensure_buckets-IsReady server_client (λ s b. s.made b) (λ s b. s.kept b) server-KeepsBuckets
      "sales" names empty refl
