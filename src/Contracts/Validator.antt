-- ===== src/Contracts/Validator.antt =====
-- contracts/validator.py: the columns that a dataset has against those of its contract.
use open_data_gov.Prelude.{
  String, Bool, not, ◌&&◌, List, [], ◌∷◌, Option, none, some, map, select, is_empty, ◌==◌,
  string_eq, if◌then◌else◌,
}
use open_data_gov.Prelude.Dict.{get, has, dict_from}
use open_data_gov.Contracts.Schema.{ColumnDefinition, DataContract}
use open_data_gov.Contracts.Breaking.{Columns, columns_by_name}

-- a dict with the keys "name" and, perhaps, "data_type"
pub record ActualColumn : Type 0 where
  pub name : String
  pub data_type : Option String

pub record TypeMismatch : Type 0 where
  pub column : String
  pub expected : String
  pub actual : String

pub record Validation : Type 0 where
  pub valid : Bool
  pub missing_columns : List String
  pub type_mismatches : List TypeMismatch
  pub extra_columns : List String

-- col.get("data_type", "")
unfoldable pub data_type_of : ActualColumn → String
data_type_of col = elim col.data_type [ none ↦ "" | some data_type ↦ data_type ]

abbrev pub ActualTypes : Type 0
ActualTypes = List (String × String)

unfoldable pub actual_types : List ActualColumn → ActualTypes
actual_types actual_columns =
    dict_from (λ (c : ActualColumn). c.name) (λ c. data_type_of c) [] actual_columns

-- the loop over the expected columns
unfoldable pub find_mismatches : ActualTypes → Columns → List TypeMismatch
find_mismatches actual_map [] = []
find_mismatches actual_map ((name, col_def) ∷ expected) =
    let rest = find_mismatches actual_map expected in
    elim (get name actual_map) [
      | none ↦ rest
      | some actual ↦
          if not (actual == col_def.data_type)
          then record { column = name; expected = col_def.data_type; actual = actual } ∷ rest
          else rest
    ]

unfoldable pub validate_data :
    {Float : Type 0} → DataContract Float → List ActualColumn → Validation
validate_data contract actual_columns =
    let expected = columns_by_name contract.schema_definition in
    let actual_map = actual_types actual_columns in
    let missing =
      select (λ name. not (has name actual_map))
        (map (λ (e : String × ColumnDefinition). e.0) expected) in
    let extra =
      select (λ name. not (has name expected)) (map (λ (e : String × String). e.0) actual_map) in
    let type_mismatches = find_mismatches actual_map expected in
    record {
      valid = is_empty missing && is_empty type_mismatches;
      missing_columns = missing;
      type_mismatches = type_mismatches;
      extra_columns = extra;
    }
