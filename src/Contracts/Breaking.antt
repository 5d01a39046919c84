-- ===== src/Contracts/Breaking.antt =====
-- contracts/breaking.py: which changes of a schema break its readers.
use open_data_gov.Prelude.{
  String, Bool, not, ◌&&◌, List, [], ◌∷◌, ◌++◌, none, some, is_empty, ◌==◌, string_eq,
  if◌then◌else◌,
}
use open_data_gov.Prelude.Dict.{get, has, dict_from}
use open_data_gov.Contracts.Schema.{ColumnDefinition, DataContractSchema}

abbrev pub Columns : Type 0
Columns = List (String × ColumnDefinition)

-- an entry of the lists of changes; `change_type` is its "type"
pub data Change : Type 0 where
  column_removed : (column : String) → Change
  non_nullable_column_added : (column : String) → Change
  nullable_column_added : (column : String) → Change
  type_changed : (column old_type new_type : String) → Change
  nullable_to_non_nullable : (column : String) → Change

unfoldable pub change_type : Change → String
change_type (Change.column_removed c) = "column_removed"
change_type (Change.non_nullable_column_added c) = "non_nullable_column_added"
change_type (Change.nullable_column_added c) = "nullable_column_added"
change_type (Change.type_changed c o n) = "type_changed"
change_type (Change.nullable_to_non_nullable c) = "nullable_to_non_nullable"

-- the two lists that the loops append to
pub record Found : Type 0 where
  pub breaking : List Change
  pub non_breaking : List Change

unfoldable pub add_breaking : Change → Found → Found
add_breaking change found = record found { breaking = found.breaking ++ change ∷ [] }

unfoldable pub add_non_breaking : Change → Found → Found
add_non_breaking change found = record found { non_breaking = found.non_breaking ++ change ∷ [] }

unfoldable pub classify_new_column : String → ColumnDefinition → Found → Found
classify_new_column name new_col found =
    if not new_col.nullable
    then add_breaking (Change.non_nullable_column_added name) found
    else add_non_breaking (Change.nullable_column_added name) found

unfoldable pub classify_modified_column :
    String → (old_col new_col : ColumnDefinition) → Found → Found
classify_modified_column name old_col new_col found =
    let typed =
      if not (old_col.data_type == new_col.data_type)
      then add_breaking (Change.type_changed name old_col.data_type new_col.data_type) found
      else found in
    if old_col.nullable && not new_col.nullable
    then add_breaking (Change.nullable_to_non_nullable name) typed
    else typed

unfoldable pub columns_by_name : DataContractSchema → Columns
columns_by_name schema = dict_from (λ (c : ColumnDefinition). c.name) (λ c. c) [] schema.columns

-- `for name in old_cols`
unfoldable pub find_removed : Columns → Columns → Found → Found
find_removed new_cols [] found = found
find_removed new_cols ((name, old_col) ∷ rest) found =
    find_removed new_cols rest
      (if has name new_cols then found else add_breaking (Change.column_removed name) found)

-- the body of `for name, new_col in new_cols.items()`
unfoldable pub classify_column : Columns → String → ColumnDefinition → Found → Found
classify_column old_cols name new_col found = elim (get name old_cols) [
  | none ↦ classify_new_column name new_col found
  | some old_col ↦ classify_modified_column name old_col new_col found
]

unfoldable pub classify_columns : Columns → Columns → Found → Found
classify_columns old_cols [] found = found
classify_columns old_cols ((name, new_col) ∷ rest) found =
    classify_columns old_cols rest (classify_column old_cols name new_col found)

pub record Analysis : Type 0 where
  pub has_breaking : Bool
  pub breaking_changes : List Change
  pub non_breaking_changes : List Change

unfoldable pub detect_breaking_changes : (old_schema new_schema : DataContractSchema) → Analysis
detect_breaking_changes old_schema new_schema =
    let old_cols = columns_by_name old_schema in
    let new_cols = columns_by_name new_schema in
    let removed = find_removed new_cols old_cols (record { breaking = []; non_breaking = [] }) in
    let found = classify_columns old_cols new_cols removed in
    record {
      has_breaking = not (is_empty found.breaking);
      breaking_changes = found.breaking;
      non_breaking_changes = found.non_breaking;
    }
