-- ===== src/Storage/Ensured.antt =====
-- The buckets of a domain.
use mathlib.Core.List.{append-nil, append_assoc}
use open_data_gov.Prelude.{
  String, ◌≡◌, ap, ◌∙◌, sym, subst, Bool, true, false, List, [], ◌∷◌, ◌++◌, map, All,
}
use open_data_gov.Prelude.Exec.{ok, pure, ◌>>◌}
use open_data_gov.Prelude.Returns.{bind-ok}
use open_data_gov.Enums.Data.{MedallionLayer}
use open_data_gov.Lakehouse.Buckets.{bucket_name}
use open_data_gov.Storage.Client.{Bucket, MinioClient}
use open_data_gov.Storage.Manager.{
  medallion_layers, make_missing, ensure_bucket, ensure_layers, ensure_buckets,
}
use open_data_gov.Storage.Documented.{KeepsBuckets}

module _ {Store Failure Bytes Response : Type 0}
    (client : MinioClient Store Failure Bytes Response (List Bucket))
    (exists versioned : Store → String → Bool) (keeps : KeepsBuckets client exists versioned) where
  -- The bucket exists and keeps versions.
  abbrev pub IsReady : Store → String → Type 0
  IsReady s b = (exists s b ≡ true) × (versioned s b ≡ true)

  made :
      (there : Bool) (b : String) (s : Store)
      → there ≡ exists s b
      → (make_missing client there b s).0 ≡ ok tt
      → exists (make_missing client there b s).1 b ≡ true
  unfolding make_missing pure
  made true b s is done = sym is
  made false b s is done = keeps.makes b s done

  make_missing_keeps :
      (there : Bool) (b c : String) (s : Store)
      → IsReady s c
      → IsReady (make_missing client there b s).1 c
  unfolding make_missing pure
  make_missing_keeps true b c s ready = ready
  make_missing_keeps false b c s (there, kept) =
      (keeps.make_keeps b c s there, keeps.make_keeps_versions b c s kept)

  -- A bucket that was ensured is ready, and so is every bucket that was.
  ensured :
      (b : String) (s : Store)
      → (ensure_bucket client b s).0 ≡ ok tt
      → IsReady (ensure_bucket client b s).1 b
        × ((c : String) → IsReady s c → IsReady (ensure_bucket client b s).1 c)
  unfolding ensure_bucket
  ensured b s done =
      let s1 = (client.bucket_exists b s).1 in
      let (there, asked, then_make) =
        bind-ok (client.bucket_exists b)
          (λ there. make_missing client there b >> client.set_bucket_versioning b) s tt done in
      let (u, making, then_set) =
        bind-ok (make_missing client there b) (λ _. client.set_bucket_versioning b) s1 tt
          (ap (λ p. p.0) (sym then_make) ∙ done) in
      let s2 = (make_missing client there b s1).1 in
      let all : ensure_bucket client b s ≡ client.set_bucket_versioning b s2 =
        then_make ∙ then_set in
      let is : there ≡ exists s1 b =
        keeps.answers b s there (ap (λ p. p.0) asked)
        ∙ ap (λ t. exists t b) (sym (keeps.asks b s)) in
      let set : (client.set_bucket_versioning b s2).0 ≡ ok tt = ap (λ p. p.0) (sym all) ∙ done in
      let here = made there b s1 is (ap (λ p. p.0) making) in
      subst (λ p. IsReady p.1 b × ((c : String) → IsReady s c → IsReady p.1 c)) (sym all)
        (
          (keeps.set_keeps b b s2 here, keeps.sets b s2 set),
          λ c ready.
              let later =
                make_missing_keeps there b c s1
                  (subst (λ t. IsReady t c) (sym (keeps.asks b s)) ready) in
              (keeps.set_keeps b c s2 later.0, keeps.set_keeps_versions b c s2 later.1),
        )

  -- Each of the layers' buckets is ready, and so is every bucket that was.
  layers_ensured :
      (layers : List MedallionLayer) (domain_id : String) (created names : List String) (s : Store)
      → (ensure_layers client layers domain_id created s).0 ≡ ok names
      → let after = (ensure_layers client layers domain_id created s).1 in
        (names ≡ created ++ map (λ l. bucket_name l domain_id) layers)
        × All (λ l. IsReady after (bucket_name l domain_id)) layers
        × ((c : String) → IsReady s c → IsReady after c)
  unfolding ensure_layers pure
  layers_ensured [] domain_id created names s done =
      let same : created ≡ names = cc (done) in
      (sym same ∙ sym (append-nil created), tt, λ c ready. ready)
  layers_ensured (layer ∷ layers) domain_id created names s done =
      let b = bucket_name layer domain_id in
      let s1 = (ensure_bucket client b s).1 in
      let (u, first, rest) =
        bind-ok (ensure_bucket client b)
          (λ _. ensure_layers client layers domain_id (created ++ b ∷ [])) s names done in
      let (ready, kept) = ensured b s (ap (λ p. p.0) first) in
      let (listed, each, later) =
        layers_ensured layers domain_id (created ++ b ∷ []) names s1
          (ap (λ p. p.0) (sym rest) ∙ done) in
      subst
        (λ p.
          (names ≡ created ++ b ∷ map (λ l. bucket_name l domain_id) layers)
          × (IsReady p.1 b × All (λ l. IsReady p.1 (bucket_name l domain_id)) layers)
          × ((c : String) → IsReady s c → IsReady p.1 c))
        (sym rest)
        (
          listed ∙ append_assoc created _ _,
          (later b ready, each),
          λ c there. later c (kept c there),
        )

  -- Ensuring the buckets of a domain, where it returns, returns the names of the four layers'
  -- buckets in their order. Each of the four exists and keeps versions, as does every bucket that
  -- did before.
  pub ensure_buckets-IsReady :
      (domain_id : String) (names : List String) (s : Store)
      → (ensure_buckets client domain_id s).0 ≡ ok names
      → let after = (ensure_buckets client domain_id s).1 in
        (names ≡ map (λ l. bucket_name l domain_id) medallion_layers)
        × All (λ l. IsReady after (bucket_name l domain_id)) medallion_layers
        × ((c : String) → IsReady s c → IsReady after c)
  unfolding ensure_buckets
  ensure_buckets-IsReady domain_id names s done =
      layers_ensured medallion_layers domain_id [] names s done
