-- ===== src/Contracts/Compatible.antt =====
-- What it means that a change of a schema is not breaking.
use open_data_gov.Prelude.{
  String, ◌≡◌, ◌≢◌, refl, ◌↔◌, true, false, not, List, [], ◌∷◌, ◌++◌, Option, none, some, All,
  arith, string_eq, eq_iff, is_empty, Option-cases, Bool-cases, inl, inr,
}
use open_data_gov.Prelude.Dict.{get, has}
use open_data_gov.Contracts.Schema.{ColumnDefinition, DataContractSchema}
use open_data_gov.Contracts.Breaking.{
  Columns, Change, Found, add_breaking, add_non_breaking, classify_new_column,
  classify_modified_column, classify_column, classify_columns, find_removed, columns_by_name,
  detect_breaking_changes,
}

-- A column of the new schema keeps what its old definition promises; a new one may be null.
abbrev pub KeepsColumn : Option ColumnDefinition → ColumnDefinition → Type 0
KeepsColumn none new_col = new_col.nullable ≡ true
KeepsColumn (some old_col) new_col =
    (old_col.data_type ≡ new_col.data_type) × (old_col.nullable ≡ true → new_col.nullable ≡ true)

-- No column is gone, and every column keeps what was promised.
abbrev pub IsCompatible : Columns → Columns → Type 0
IsCompatible old_cols new_cols =
    All (λ e. has e.0 new_cols ≡ true) old_cols
    × All (λ e. KeepsColumn (get e.0 old_cols) e.1) new_cols

append-ne-empty : {A : Type 0} (xs : List A) (x : A) → xs ++ x ∷ [] ≢ []
append-ne-empty [] x h = cc
append-ne-empty (y ∷ xs) x h = cc

not-is_empty_iff : {A : Type 0} (xs : List A) → (not (is_empty xs) ≡ false) ↔ (xs ≡ [])
not-is_empty_iff [] = ((λ h. refl), λ h. refl)
not-is_empty_iff (x ∷ xs) = ((λ h. absurd (cc)), λ h. absurd (cc))

find_removed_iff :
    (new_cols olds : Columns) (found : Found)
    → ((find_removed new_cols olds found).breaking ≡ [])
      ↔ ((found.breaking ≡ []) × All (λ e. has e.0 new_cols ≡ true) olds)
unfolding find_removed add_breaking
find_removed_iff new_cols [] found = ((λ h. (h, tt)), λ h. h.0)
find_removed_iff new_cols ((name, col) ∷ olds) found = elim (Bool-cases (has name new_cols)) [
  | inl kept ↦
      let ih = find_removed_iff new_cols olds found in
      ((λ h. ground (arith, kept, ih.0, h)), λ h. ground (arith, kept, ih.1, h))
  | inr gone ↦
      let ih = find_removed_iff new_cols olds (add_breaking (Change.column_removed name) found) in
      let apart = append-ne-empty found.breaking (Change.column_removed name) in
      ((λ h. ground (arith, gone, ih.0, h, apart)), λ h. ground (arith, gone, h))
]

classify_new_column_iff :
    (name : String) (col : ColumnDefinition) (found : Found)
    → ((classify_new_column name col found).breaking ≡ [])
      ↔ ((found.breaking ≡ []) × (col.nullable ≡ true))
unfolding classify_new_column add_breaking add_non_breaking
classify_new_column_iff name col found =
    let apart = append-ne-empty found.breaking (Change.non_nullable_column_added name) in
    ((λ h. ground (arith, h, apart)), λ h. ground (arith, h))

classify_modified_column_iff :
    (name : String) (old col : ColumnDefinition) (found : Found)
    → ((classify_modified_column name old col found).breaking ≡ [])
      ↔ ((found.breaking ≡ []) × KeepsColumn (some old) col)
unfolding classify_modified_column add_breaking
classify_modified_column_iff name old col found =
    let typed = Change.type_changed name old.data_type col.data_type in
    let nulled = Change.nullable_to_non_nullable name in
    let apart = append-ne-empty found.breaking in
    let apart' = append-ne-empty (found.breaking ++ typed ∷ []) nulled in
    let same_type = eq_iff old.data_type col.data_type in
    (
      (λ h. ground (arith, h, apart typed, apart nulled, apart', same_type)),
      λ h. ground (arith, h, same_type),
    )

classify_column_iff :
    (old_cols : Columns) (name : String) (col : ColumnDefinition) (found : Found)
    → ((classify_column old_cols name col found).breaking ≡ [])
      ↔ ((found.breaking ≡ []) × KeepsColumn (get name old_cols) col)
unfolding classify_column
classify_column_iff old_cols name col found = elim (Option-cases (get name old_cols)) [
  | inl missing ↦ rw (missing, classify_column) (classify_new_column_iff name col found)
  | inr (old, present) ↦
      rw (present, classify_column) (classify_modified_column_iff name old col found)
]

classify_columns_iff :
    (old_cols news : Columns) (found : Found)
    → ((classify_columns old_cols news found).breaking ≡ [])
      ↔ ((found.breaking ≡ []) × All (λ e. KeepsColumn (get e.0 old_cols) e.1) news)
unfolding classify_columns
classify_columns_iff old_cols [] found = ((λ h. (h, tt)), λ h. h.0)
classify_columns_iff old_cols ((name, col) ∷ news) found =
    let ih = classify_columns_iff old_cols news (classify_column old_cols name col found) in
    let here = classify_column_iff old_cols name col found in
    (
      (λ h. let (a, b) = ih.0 h in let (c, d) = here.0 a in (c, (d, b))),
      λ h. ih.1 (here.1 (h.0, h.1.0), h.1.1),
    )

-- A change is reported as not breaking exactly when every old column is still there, the columns
-- that both schemas have keep their type and stay nullable if they were, and every added column
-- is nullable.
pub detect_breaking_changes_iff :
    (old_schema new_schema : DataContractSchema)
    → ((detect_breaking_changes old_schema new_schema).has_breaking ≡ false)
      ↔ IsCompatible (columns_by_name old_schema) (columns_by_name new_schema)
unfolding detect_breaking_changes
detect_breaking_changes_iff old_schema new_schema =
    let olds = columns_by_name old_schema in
    let news = columns_by_name new_schema in
    let start : Found = record { breaking = []; non_breaking = [] } in
    let removed = find_removed_iff news olds start in
    let kept = classify_columns_iff olds news (find_removed news olds start) in
    (
      (λ h. let (a, b) = kept.0 ((not-is_empty_iff _).0 h) in ((removed.0 a).1, b)),
      λ h. (not-is_empty_iff _).1 (kept.1 (removed.1 (refl, h.0), h.1)),
    )
