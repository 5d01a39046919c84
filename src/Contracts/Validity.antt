-- ===== src/Contracts/Validity.antt =====
-- What it means that the columns of a dataset are valid.
use open_data_gov.Prelude.{
  String, ◌≡◌, refl, ◌↔◌, true, not, ◌&&◌, List, [], ◌∷◌, some, map, select, All, arith, is_empty,
  string_eq, eq_iff, Option-cases, inl, inr,
}
use open_data_gov.Prelude.Dict.{get, has}
use open_data_gov.Contracts.Schema.{DataContract}
use open_data_gov.Contracts.Breaking.{Columns, columns_by_name}
use open_data_gov.Contracts.Validator.{
  ActualColumn, ActualTypes, actual_types, find_mismatches, validate_data,
}

-- The dataset has every expected column, with the type that the contract gives it.
abbrev pub HasColumns : ActualTypes → Columns → Type 0
HasColumns actual_map expected = All (λ e. get e.0 actual_map ≡ some e.1.data_type) expected

-- the names of `missing`
missing_names : ActualTypes → Columns → List String
missing_names actual_map expected =
    select (λ name. not (has name actual_map)) (map (λ e. e.0) expected)

columns_iff :
    (actual_map : ActualTypes) (expected : Columns)
    → ((is_empty (missing_names actual_map expected)
          && is_empty (find_mismatches actual_map expected))
        ≡ true)
      ↔ HasColumns actual_map expected
unfolding missing_names find_mismatches select has
columns_iff actual_map [] = ((λ h. tt), λ h. refl)
columns_iff actual_map ((name, col) ∷ expected) =
    let ih = columns_iff actual_map expected in
    elim (Option-cases (get name actual_map)) [
      | inl missing ↦ ((λ h. ground (arith, h, missing)), λ h. ground (arith, h, missing))
      | inr (actual, present) ↦
          let same = eq_iff actual col.data_type in
          (
            (λ h. ground (arith, h, present, ih.0, same)),
            λ h. ground (arith, h, present, ih.1, same),
          )
    ]

-- A dataset is valid exactly when it has every column of the contract with its type; columns that
-- the contract does not name do no harm.
pub validate_data_iff :
    {Float : Type 0} (contract : DataContract Float) (actual_columns : List ActualColumn)
    → ((validate_data contract actual_columns).valid ≡ true)
      ↔ HasColumns (actual_types actual_columns) (columns_by_name contract.schema_definition)
unfolding validate_data missing_names
validate_data_iff contract actual_columns =
    columns_iff (actual_types actual_columns) (columns_by_name contract.schema_definition)
