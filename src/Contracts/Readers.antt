-- ===== src/Contracts/Readers.antt =====
-- Rows of data against the columns of a schema: a change that is not breaking keeps every row valid.
use open_data_gov.Prelude.{
  String, ◌≡◌, refl, true, false, Option, none, some, arith, string_eq, Option-cases, inl, inr,
}
use open_data_gov.Prelude.Dict.{get, has, All-get}
use open_data_gov.Contracts.Schema.{ColumnDefinition, DataContractSchema}
use open_data_gov.Contracts.Breaking.{Columns, columns_by_name, detect_breaking_changes}
use open_data_gov.Contracts.Compatible.{KeepsColumn, IsCompatible, detect_breaking_changes_iff}

-- The type of the value that a row has under a name, or none where it has null or no value.
abbrev pub Row : Type 0
Row = String → Option String

abbrev pub FitsColumn : Option ColumnDefinition → Option String → Type 0
FitsColumn none cell = cell ≡ none
FitsColumn (some col) none = col.nullable ≡ true
FitsColumn (some col) (some data_type) = data_type ≡ col.data_type

-- Every value stands under a column of the schema and has its type, and a column that may not be
-- null has a value.
abbrev pub Fits : Columns → Row → Type 0
Fits cols row = (name : String) → FitsColumn (get name cols) (row name)

widened :
    (old_col new_col : Option ColumnDefinition) (cell : Option String)
    → ((new_col ≡ none) → old_col ≡ none)
    → ((c : ColumnDefinition) → new_col ≡ some c → KeepsColumn old_col c)
    → FitsColumn old_col cell
    → FitsColumn new_col cell
widened none none cell gone keeps fits = fits
widened (some o) none cell gone keeps fits = absurd (cc (gone refl))
widened none (some c) none gone keeps fits = keeps c refl
widened none (some c) (some t) gone keeps fits = absurd (cc)
widened (some o) (some c) none gone keeps fits = (keeps c refl).1 fits
widened (some o) (some c) (some t) gone keeps fits = ground (arith, keeps c refl, fits)

Fits-IsCompatible :
    (old_cols new_cols : Columns) (row : Row)
    → IsCompatible old_cols new_cols
    → Fits old_cols row
    → Fits new_cols row
unfolding has
Fits-IsCompatible old_cols new_cols row compatible fits name =
    widened (get name old_cols) (get name new_cols) (row name)
      (λ gone. elim (Option-cases (get name old_cols)) [
        | inl missing ↦ missing
        | inr (col, present) ↦ absurd (
            cc
              (All-get (λ e. has e.0 new_cols ≡ true) name col old_cols present compatible.0, gone))
      ])
      (λ c present.
        All-get (λ e. KeepsColumn (get e.0 old_cols) e.1) name c new_cols present compatible.1)
      (fits name)

-- Data that fits the old schema fits the new one, if the change is reported as not breaking.
pub detect_breaking_changes-Fits :
    (old_schema new_schema : DataContractSchema) (row : Row)
    → (detect_breaking_changes old_schema new_schema).has_breaking ≡ false
    → Fits (columns_by_name old_schema) row
    → Fits (columns_by_name new_schema) row
detect_breaking_changes-Fits old_schema new_schema row quiet =
    Fits-IsCompatible (columns_by_name old_schema) (columns_by_name new_schema) row
      ((detect_breaking_changes_iff old_schema new_schema).0 quiet)
