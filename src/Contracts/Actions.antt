-- ===== src/Contracts/Actions.antt =====
-- Which approval a change of a schema needs.
use open_data_gov.Prelude.{
  String, ◌≡◌, refl, ◌∙◌, ◌↔◌, Bool, true, false, not, ◌||◌, List, [], ◌∷◌, ◌++◌, any, arith,
  string_eq, is_empty, Bool-cases, Option-cases, inl, inr,
}
use open_data_gov.Prelude.Dict.{get, has}
use open_data_gov.Contracts.Schema.{ColumnDefinition, DataContractSchema}
use open_data_gov.Contracts.Breaking.{
  Columns, Change, change_type, Found, add_breaking, add_non_breaking, classify_new_column,
  classify_modified_column, classify_column, classify_columns, find_removed, columns_by_name,
  detect_breaking_changes,
}
use open_data_gov.Contracts.Governance.{GovernanceAction, is_removal, evaluate_contract_change}
use open_data_gov.Contracts.Compatible.{IsCompatible, detect_breaking_changes_iff}

-- a column of the old schema that the new one has not
abbrev pub is_gone : Columns → String × ColumnDefinition → Bool
is_gone new_cols e = not (has e.0 new_cols)

any-append :
    {A : Type 0} (test : A → Bool) (xs : List A) (x : A)
    → any test (xs ++ x ∷ []) ≡ (any test xs || test x)
unfolding any
any-append test [] x = ground arith
any-append test (y ∷ xs) x = ground (arith, any-append test xs x)

find_removed-any :
    (new_cols olds : Columns) (found : Found)
    → any is_removal (find_removed new_cols olds found).breaking
      ≡ (any is_removal found.breaking || any (is_gone new_cols) olds)
unfolding is_removal find_removed any add_breaking change_type
find_removed-any new_cols [] found = ground arith
find_removed-any new_cols ((name, col) ∷ olds) found = elim (Bool-cases (has name new_cols)) [
  | inl kept ↦ ground (arith, kept, find_removed-any new_cols olds found)
  | inr gone ↦
      let removal = Change.column_removed name in
      ground (
        arith,
        gone,
        find_removed-any new_cols olds (add_breaking removal found),
        any-append is_removal found.breaking removal,
      )
]

classify_column-any :
    (old_cols : Columns) (name : String) (col : ColumnDefinition) (found : Found)
    → any is_removal (classify_column old_cols name col found).breaking
      ≡ any is_removal found.breaking
unfolding is_removal classify_column classify_new_column classify_modified_column add_breaking
    add_non_breaking change_type
classify_column-any old_cols name col found = elim (Option-cases (get name old_cols)) [
  | inl missing ↦
      let added = any-append is_removal found.breaking (Change.non_nullable_column_added name) in
      ground (arith, missing, added)
  | inr (old, present) ↦
      let typed = Change.type_changed name old.data_type col.data_type in
      let nulled = Change.nullable_to_non_nullable name in
      ground (
        arith,
        present,
        any-append is_removal found.breaking typed,
        any-append is_removal found.breaking nulled,
        any-append is_removal (found.breaking ++ typed ∷ []) nulled,
      )
]

classify_columns-any :
    (old_cols news : Columns) (found : Found)
    → any is_removal (classify_columns old_cols news found).breaking ≡ any is_removal found.breaking
unfolding classify_columns
classify_columns-any old_cols [] found = refl
classify_columns-any old_cols ((name, col) ∷ news) found =
    classify_columns-any old_cols news (classify_column old_cols name col found)
    ∙ classify_column-any old_cols name col found

any-is_empty : (xs : List Change) → any is_removal xs ≡ true → is_empty xs ≡ false
unfolding any
any-is_empty [] h = cc
any-is_empty (x ∷ xs) h = refl

has_breaking_lem :
    (old_schema new_schema : DataContractSchema)
    → (detect_breaking_changes old_schema new_schema).has_breaking
      ≡ not (is_empty (detect_breaking_changes old_schema new_schema).breaking_changes)
unfolding detect_breaking_changes
has_breaking_lem old_schema new_schema = refl

-- whether the change removes a column
removal_lem :
    (old_schema new_schema : DataContractSchema)
    → any is_removal (detect_breaking_changes old_schema new_schema).breaking_changes
      ≡ any (is_gone (columns_by_name new_schema)) (columns_by_name old_schema)
unfolding detect_breaking_changes any
removal_lem old_schema new_schema =
    let olds = columns_by_name old_schema in
    let news = columns_by_name new_schema in
    let start : Found = record { breaking = []; non_breaking = [] } in
    classify_columns-any olds news (find_removed news olds start) ∙ find_removed-any news olds start

-- A change is up for a veto exactly when a column of the old schema is not in the new one.
pub evaluate_contract_change_veto_iff :
    (old_schema new_schema : DataContractSchema)
    → ((evaluate_contract_change old_schema new_schema).governance_action
        ≡ GovernanceAction.veto_eligible)
      ↔ (any (is_gone (columns_by_name new_schema)) (columns_by_name old_schema) ≡ true)
unfolding evaluate_contract_change
evaluate_contract_change_veto_iff old_schema new_schema =
    let removed = removal_lem old_schema new_schema in
    let found = any-is_empty (detect_breaking_changes old_schema new_schema).breaking_changes in
    let flag = has_breaking_lem old_schema new_schema in
    ((λ h. ground (arith, h, removed)), λ h. ground (arith, h, removed, found, flag))

-- A change needs approval exactly when it is not compatible: when it removes a column, changes a
-- type, forbids nulls that were allowed or adds a column that may not be null.
pub evaluate_contract_change_iff :
    (old_schema new_schema : DataContractSchema)
    → ((evaluate_contract_change old_schema new_schema).requires_approval ≡ false)
      ↔ IsCompatible (columns_by_name old_schema) (columns_by_name new_schema)
unfolding evaluate_contract_change
evaluate_contract_change_iff old_schema new_schema =
    let iff = detect_breaking_changes_iff old_schema new_schema in
    ((λ h. iff.0 (ground (arith, h))), λ h. let quiet = iff.1 h in ground (arith, quiet))
