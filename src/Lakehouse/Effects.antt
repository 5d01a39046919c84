-- ===== src/Lakehouse/Effects.antt =====
-- What a promotion does to the storage.
use text.Mathlib.TextLemmas.{append_cancel_left, append_inj}
use open_data_gov.Prelude.{
  ℕ, String, ◌≡◌, ◌≢◌, refl, ap, sym, subst, ◌∙◌, ◌⊎◌, inl, inr, true, false, arith, ◌==◌, nat_eq,
  string_eq, f_string,
}
use open_data_gov.Prelude.Exec.{Result, Result-cases, ok, ◌>>=◌}
use open_data_gov.Enums.Data.{MedallionLayer, bronze, silver, medallion_layer_eq}
use open_data_gov.Lakehouse.Buckets.{Lake, Floats, BucketManager, IsStorage, bucket_name}
use open_data_gov.Lakehouse.Promotion.{
  Outcome, promote, execute_auto, execute_governance, below_threshold, on_store, new_decision_id,
}
use open_data_gov.Lakehouse.Steps.{promote_lem}

buckets_differ : (domain_id : String) → bucket_name silver domain_id ≢ bucket_name bronze domain_id
unfolding bucket_name f_string
buckets_differ domain_id h =
    let named = append_cancel_left "odg-" _ _ h in
    let (layers, _) = append_inj {s₁ = "silver"} {s₂ = "bronze"} named refl in
    cc (ap (λ s. s == "silver") layers)

module _ {Store Failure Bytes Float : Type 0} (uuid_text : ℕ → String) (floats : Floats Float)
    (manager : BucketManager Store Failure Bytes) (domain_id : String)
    (source target : MedallionLayer) (dataset_id : String) (dq_score : Float)
    (lake : Lake Store) where
  -- Data of a higher layer is never written without a governance decision: unless the step is from
  -- Bronze to Silver with a score that is not below 0.7, the storage is left as it was.
  pub promote-store :
      ((promote uuid_text floats manager domain_id source target dataset_id dq_score lake).1.store
        ≡ lake.store)
      ⊎ ((source ≡ bronze)
          × (target ≡ silver)
          × (floats.lt dq_score (floats.literal "0.7") ≡ false))
  unfolding execute_governance new_decision_id ◌>>=◌
  promote-store =
      rw (promote_lem uuid_text floats manager domain_id source target dataset_id dq_score lake)
        (ground arith)

module _ {Store Failure Bytes Float : Type 0} (uuid_text : ℕ → String) (floats : Floats Float)
    (manager : BucketManager Store Failure Bytes) (is_storage : IsStorage manager)
    (domain_id : String) (dataset_id : String) (dq_score : Float) (lake : Lake Store) where
  abbrev pub read : MedallionLayer → Lake Store → Result Failure Bytes
  read layer l = (manager.get_object (bucket_name layer domain_id) dataset_id l.store).0

  copied :
      (o : Outcome Float)
      → (execute_auto uuid_text floats manager domain_id bronze silver dataset_id dq_score lake).0
        ≡ ok o
      → (content : Bytes) × (read bronze lake ≡ ok content)
        × (let after =
              (execute_auto uuid_text floats manager domain_id bronze silver dataset_id dq_score
                lake).1 in
            (read silver after ≡ ok content) × (read bronze after ≡ ok content))
  unfolding execute_auto on_store ◌>>=◌
  copied o done =
      let b = bucket_name bronze domain_id in
      let s = bucket_name silver domain_id in
      let k = dataset_id in
      let got = manager.get_object b k lake.store in
      let reads = is_storage.get_reads b k lake.store in
      elim (Result-cases got.0) [
        | inl (content, found) ↦
            let put = manager.upload_object s k content lake.store in
            elim (Result-cases put.0) [
              | inl (stored, kept) ↦
                  let written : (execute_auto uuid_text floats manager domain_id bronze silver
                        dataset_id dq_score lake).1.store
                      ≡ put.1 =
                    ground (arith, found, reads, kept) in
                  (
                    content,
                    found,
                    (
                      subst (λ st. (manager.get_object s k st).0 ≡ ok content) (sym written)
                          (is_storage.get_after_upload s k content lake.store kept),
                      subst (λ st. (manager.get_object b k st).0 ≡ ok content) (sym written)
                          (is_storage.get_elsewhere s b k k content lake.store
                              (buckets_differ domain_id)
                            ∙ found),
                    ),
                  )
              | inr (e, lost) ↦ absurd (ground (arith, done, found, reads, lost))
            ]
        | inr (e, missing) ↦ absurd (ground (arith, done, missing))
      ]

  promoted_step :
      (source target : MedallionLayer) (o : Outcome Float)
      → (promote uuid_text floats manager domain_id source target dataset_id dq_score lake).0 ≡ ok o
      → o.promoted ≡ true
      → (source ≡ bronze) × (target ≡ silver) × (floats.lt dq_score (floats.literal "0.7") ≡ false)
  unfolding execute_governance new_decision_id below_threshold ◌>>=◌
  promoted_step source target o done promoted =
      let behaviour =
        promote_lem uuid_text floats manager domain_id source target dataset_id dq_score lake in
      ground (arith, behaviour, done, promoted)

  -- Data that is reported as promoted has been copied, on a storage that keeps what is uploaded:
  -- it is read from the bucket of the target layer as it was read from the source's, where it is
  -- still read.
  pub promote-read :
      (source target : MedallionLayer) (o : Outcome Float)
      → (promote uuid_text floats manager domain_id source target dataset_id dq_score lake).0 ≡ ok o
      → o.promoted ≡ true
      → (content : Bytes) × (read source lake ≡ ok content)
        × (let after =
              (promote uuid_text floats manager domain_id source target dataset_id dq_score
                lake).1 in
            (read target after ≡ ok content) × (read source after ≡ ok content))
  promote-read source target o done promoted =
      let (from, to, enough) = promoted_step source target o done promoted in
      let behaviour =
        promote_lem uuid_text floats manager domain_id bronze silver dataset_id dq_score lake in
      let auto : promote uuid_text floats manager domain_id bronze silver dataset_id dq_score lake
          ≡ execute_auto uuid_text floats manager domain_id bronze silver dataset_id dq_score lake =
        ground (arith, behaviour, enough) in
      rw (from, to, auto) (copied o (ground (arith, from, to, auto, done)))
