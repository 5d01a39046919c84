-- ===== src/Storage/Reading.antt =====
-- What the MinIO manager reads.
use open_data_gov.Prelude.{
  String, Bool, true, ◌≡◌, refl, ap, ◌∙◌, sym, subst, List, Option, some, inl, inr,
}
use open_data_gov.Prelude.Exec.{ok, pure, Result-cases, ◌>>=◌, ◌>>◌}
use open_data_gov.Storage.Client.{Bucket, MinioClient}
use open_data_gov.Storage.Manager.{finally, upload_object, get_object, minio_manager}
use open_data_gov.Storage.Documented.{Keeps, KeepsObjects}

module _ {Store Failure Bytes Response : Type 0}
    (client : MinioClient Store Failure Bytes Response (List Bucket))
    (object : Store → String → String → Option Bytes) (is_open : Store → Response → Bool)
    (content : Response → Bytes) (laws : KeepsObjects client object is_open content) where
  then-Keeps :
      (a b c : Store)
      → Keeps client object is_open content a b
      → Keeps client object is_open content b c
      → Keeps client object is_open content a c
  then-Keeps a b c f g = record {
    objects = λ x y. g.objects x y ∙ f.objects x y;
    responses = λ r h. f.responses r (g.responses r h);
  }

  -- the state once a response was read, closed and released
  abbrev settled : Response → Store → Store
  settled r s = (client.release_conn r (client.close r (client.read r s).1).1).1

  settled-Keeps : (r : Response) (s : Store) → Keeps client object is_open content s (settled r s)
  settled-Keeps r s =
      let read = (client.read r s).1 in
      let shut = (client.close r read).1 in
      then-Keeps s read (settled r s) (laws.read_keeps r s)
        (then-Keeps read shut (settled r s) (laws.close_keeps r read) (laws.release_keeps r shut))

  settled_closed : (r : Response) (s : Store) → is_open (settled r s) r ≡ true → ⊥
  settled_closed r s opened =
      let read = (client.read r s).1 in
      let shut = (client.close r read).1 in
      cc (laws.closed r read, (laws.release_keeps r shut).responses r opened)

  finished :
      (r : Response) (s : Store)
      → is_open s r ≡ true
      → finally (client.read r) (client.close r >> client.release_conn r) s
        ≡ (ok (content r), settled r s)
  unfolding finally ◌>>=◌
  finished r s opened =
      let read = (client.read r s).1 in
      rw (laws.closes r read, laws.releases r (client.close r read).1, laws.reads r s opened) refl

  get_object-settled :
      (b k : String) (s : Store) (r : Response)
      → (client.get_object b k s).0 ≡ ok r
      → is_open (client.get_object b k s).1 r ≡ true
      → get_object client b k s ≡ (ok (content r), settled r (client.get_object b k s).1)
  unfolding get_object ◌>>=◌
  get_object-settled b k s r responds opened =
      rw responds (finished r (client.get_object b k s).1 opened)

  -- On a server that answers, the manager returns the content of an object that is there, leaves
  -- every object as it is, and leaves no response open that was not open before.
  pub get_object-reads :
      (b k : String) (bytes : Bytes) (s : Store)
      → object s b k ≡ some bytes
      → ((get_object client b k s).0 ≡ ok bytes)
        × Keeps client object is_open content s (get_object client b k s).1
  get_object-reads b k bytes s there =
      let (r, responds, holds, opened) = laws.gets b k bytes s there in
      let got = (client.get_object b k s).1 in
      let run = get_object-settled b k s r responds opened in
      let kept = settled-Keeps r got in
      (
        ap (λ p. p.0) run ∙ ap ok holds,
        subst (λ p. Keeps client object is_open content s p.1) (sym run)
            (record {
              objects = λ c j. kept.objects c j ∙ laws.get_keeps b k c j s;
              responses = λ x open_x.
                  elim (laws.opens b k s r x responds (kept.responses x open_x)) [
                    | inr before ↦ before
                    | inl same ↦ absurd (
                        settled_closed r got
                          (subst (λ y. is_open (settled r got) y ≡ true) same open_x))
                  ];
            }),
      )

  put_done :
      (b k : String) (bytes : Bytes) (s : Store)
      → ((minio_manager client).upload_object b k bytes s).0 ≡ ok tt
      → object ((minio_manager client).upload_object b k bytes s).1 b k ≡ some bytes
  unfolding minio_manager upload_object pure ◌>>=◌
  put_done b k bytes s done =
      elim (Result-cases (client.put_object b k bytes "application/octet-stream" s).0) [
        | inl (result, kept) ↦
            rw (kept, ◌>>=◌) (laws.puts b k bytes "application/octet-stream" s result kept)
        | inr (e, fails) ↦ absurd (cc (done, fails))
      ]

  -- On a server that answers, what the manager uploaded without an error is what it then reads.
  pub get_object-upload_object :
      (b k : String) (bytes : Bytes) (s : Store)
      → ((minio_manager client).upload_object b k bytes s).0 ≡ ok tt
      → ((minio_manager client).get_object b k
          ((minio_manager client).upload_object b k bytes s).1).0
        ≡ ok bytes
  unfolding minio_manager
  get_object-upload_object b k bytes s done =
      (get_object-reads b k bytes ((minio_manager client).upload_object b k bytes s).1
        (put_done b k bytes s done)).0
