-- ===== src/Scenarios/Contracts.antt =====
-- A contract whose schema gets a column.
use open_data_gov.Prelude.{
  String, ◌≡◌, refl, ◌↔◌, Bool, true, false, List, [], ◌∷◌, none, some, ◌==◌, string_eq,
  if◌then◌else◌, Bool-cases, inl, inr,
}
use open_data_gov.Prelude.Dict.{get, has, put, dict_from}
use open_data_gov.Contracts.Schema.{ColumnDefinition, DataContractSchema, DataContract}
use open_data_gov.Contracts.Breaking.{
  columns_by_name, detect_breaking_changes, find_removed, classify_columns, classify_column,
  classify_new_column, classify_modified_column, add_non_breaking,
}
use open_data_gov.Contracts.Validator.{actual_types, validate_data}
use open_data_gov.Contracts.Compatible.{IsCompatible, detect_breaking_changes_iff}
use open_data_gov.Contracts.Readers.{Row, Fits, detect_breaking_changes-Fits}
use open_data_gov.Contracts.Validity.{HasColumns, validate_data_iff}

abbrev column : (name data_type : String) → Bool → ColumnDefinition
column name data_type nullable = record {
  name = name;
  data_type = data_type;
  nullable = nullable;
  description = "";
  pii = false;
}

abbrev schema : List ColumnDefinition → DataContractSchema
schema columns = record { columns = columns; primary_key = [] }

abbrev orders : DataContractSchema
orders = schema (column "id" "int" false ∷ [])

abbrev orders_noted : DataContractSchema
orders_noted = schema (column "id" "int" false ∷ column "note" "text" true ∷ [])

abbrev order_row : Row
order_row name = if "id" == name then some "int" else none

abbrev orders_contract : DataContract Unit
orders_contract = record {
  id = 1;
  name = "orders";
  dataset_id = "sales.orders";
  domain_id = "sales";
  owner_id = "ann";
  schema_definition = orders;
  sla_definition = record {
    freshness_hours = none;
    completeness_threshold = tt;
    availability_percent = tt;
  };
  jurisdiction = none;
  version = 1;
  is_active = true;
  created_at = 0;
  updated_at = 0;
}

order_row-Fits : Fits (columns_by_name orders) order_row
unfolding columns_by_name dict_from put get
order_row-Fits name = elim (Bool-cases ("id" == name)) [
  | inl same ↦ rw same refl
  | inr other ↦ rw other refl
]

detect_breaking_changes_iff_example :
    ((detect_breaking_changes orders orders_noted).has_breaking ≡ false)
    ↔ IsCompatible (columns_by_name orders) (columns_by_name orders_noted)
detect_breaking_changes_iff_example = detect_breaking_changes_iff orders orders_noted

detect_breaking_changes-Fits_example : Fits (columns_by_name orders_noted) order_row
unfolding detect_breaking_changes classify_columns columns_by_name dict_from classify_column get
    classify_new_column add_non_breaking classify_modified_column find_removed has
detect_breaking_changes-Fits_example =
    detect_breaking_changes-Fits orders orders_noted order_row refl order_row-Fits

validate_data_iff_example :
    ((validate_data orders_contract (record { name = "id"; data_type = some "text" } ∷ [])).valid
      ≡ true)
    ↔ HasColumns
        (actual_types (record { name = "id"; data_type = some "text" } ∷ []))
        (columns_by_name orders)
validate_data_iff_example =
    validate_data_iff orders_contract (record { name = "id"; data_type = some "text" } ∷ [])
