-- ===== src/Metadata/RoundTrip.antt =====
-- What comes back from DataHub.
use Prim.Native.String.{String, ◌++◌}
use text.Mathlib.TextLemmas.{nil-append, cons-append}
use open_data_gov.Prelude.{
  ℕ, ◌≡◌, refl, true, false, List, [], ◌∷◌, map, f_string, has_length, text_length, arith,
}
use open_data_gov.Prelude.Exec.{ok}
use open_data_gov.Metadata.Split.{has_comma, split_comma-comma, has_comma-comma}
use open_data_gov.Metadata.Dataset.{DatasetField, OdgDatasetMetadata, metadata_fits}
use open_data_gov.Metadata.DataHub.{
  field_to_mce, mce_to_field, urn_prefix, urn_dataset_id, odg_to_datahub_mce, datahub_to_odg,
  extracted,
}

mce_to_field-field_to_mce : (f : DatasetField) → mce_to_field (field_to_mce f) ≡ f
unfolding mce_to_field field_to_mce
mce_to_field-field_to_mce f = ground arith

fields_back : (fs : List DatasetField) → map mce_to_field (map field_to_mce fs) ≡ fs
fields_back [] = refl
fields_back (f ∷ fs) = cc (mce_to_field-field_to_mce f, fields_back fs)

urn_dataset_id-comma :
    (p q s : String)
    → has_comma p ≡ false
    → has_comma q ≡ false
    → urn_dataset_id (p ++ String.◌∷◌ "," (q ++ String.◌∷◌ "," s)) ≡ q
unfolding urn_dataset_id
urn_dataset_id-comma p q s before within =
    rw
      (
        has_comma-comma p (q ++ String.◌∷◌ "," s),
        split_comma-comma p (q ++ String.◌∷◌ "," s) before,
        split_comma-comma q s within,
      )
      refl

urn_back :
    (dataset_id : String)
    → has_comma dataset_id ≡ false
    → urn_dataset_id (f_string (urn_prefix ∷ "," ∷ dataset_id ∷ ",PROD)" ∷ [])) ≡ dataset_id
unfolding f_string has_comma
urn_back dataset_id none_in =
    rw (cons-append "," "" (dataset_id ++ ",PROD)"), nil-append (dataset_id ++ ",PROD)"))
      (urn_dataset_id-comma urn_prefix dataset_id "PROD)" refl none_in)

unknown_fits :
    (dataset_id name domain_id owner_id : String)
    → metadata_fits dataset_id name domain_id owner_id ≡ true
    → metadata_fits dataset_id name "unknown" "unknown" ≡ true
unfolding metadata_fits has_length text_length
unknown_fits dataset_id name domain_id owner_id fits = ground (arith, fits)

-- Metadata that fits its constraints, with a dataset identifier without a comma, comes back from
-- DataHub with its dataset identifier, its name and all its fields. The domain and the owner come
-- back as "unknown".
pub datahub_to_odg-odg_to_datahub_mce :
    {Float : Type 0} (id : ℕ) (metadata : OdgDatasetMetadata Float)
    → metadata_fits metadata.dataset_id metadata.name metadata.domain_id metadata.owner_id ≡ true
    → has_comma metadata.dataset_id ≡ false
    → (back : OdgDatasetMetadata Float) × (datahub_to_odg id (odg_to_datahub_mce metadata)
        ≡ ok back)
      × (back.dataset_id ≡ metadata.dataset_id)
      × (back.name ≡ metadata.name)
      × (back.schema_fields ≡ metadata.schema_fields)
      × (back.domain_id ≡ "unknown")
      × (back.owner_id ≡ "unknown")
unfolding datahub_to_odg odg_to_datahub_mce extracted
datahub_to_odg-odg_to_datahub_mce id metadata fits none_in =
    let fits' =
      unknown_fits metadata.dataset_id metadata.name metadata.domain_id metadata.owner_id fits in
    (
      extracted id metadata.dataset_id metadata.name metadata.schema_fields,
      rw (urn_back metadata.dataset_id none_in, fields_back metadata.schema_fields, fits') refl,
      refl,
      refl,
      refl,
      refl,
      refl,
    )
