-- ===== src/Expert/Conditions.antt =====
-- The conditions of the rules, and when one matches a column.
use Prim.Native.String.{◌++◌}
use open_data_gov.Prelude.{
  String, ◌≡◌, ◌≢◌, refl, ap, ◌∙◌, sym, ◌⊎◌, inl, inr, Bool, true, false, Option, none, some,
  Bool-cases, Option-cases, string_eq, ==_sound, ==_refl, text_length,
}
use open_data_gov.Prelude.Dict.{get}
use open_data_gov.Privacy.Masking.{text_take, text_drop}
use open_data_gov.Privacy.Slices.{take-drop, text_take-append, text_drop-append}
use open_data_gov.Expert.Rules.{
  ColumnMetadata, starts_with, condition_prefix, column_name, matches_condition,
}

-- the name of a column, which is empty where the metadata has none
abbrev pub IsNamed : ColumnMetadata → String → Type 0
IsNamed column name = (get "name" column ≡ some name) ⊎ ((get "name" column ≡ none) × (name ≡ ""))

column_name-IsNamed : (column : ColumnMetadata) → IsNamed column (column_name column)
unfolding column_name
column_name-IsNamed column = elim (Option-cases (get "name" column)) [
  | inl absent ↦ inr (absent, rw (absent, column_name) refl)
  | inr (name, present) ↦ inl (rw (present, column_name) refl)
]

pub column_name_lem :
    (column : ColumnMetadata) (name : String) → IsNamed column name → column_name column ≡ name
unfolding column_name
column_name_lem column name (inl present) = rw (present, column_name) refl
column_name_lem column name (inr (absent, empty)) = rw (absent, column_name) (sym empty)

prefix_split :
    (prefix s : String)
    → starts_with prefix s ≡ true
    → s ≡ prefix ++ text_drop (text_length prefix) s
unfolding starts_with
prefix_split prefix s starts =
    sym (take-drop (text_length prefix) s)
    ∙ ap (λ p. p ++ text_drop (text_length prefix) s)
        (==_sound (text_take (text_length prefix) s) prefix starts)

starts_with-append : (prefix s : String) → starts_with prefix (prefix ++ s) ≡ true
unfolding starts_with
starts_with-append prefix s = rw (text_take-append prefix s) (==_refl prefix)

module _ (re_search : String → String → Option Bool) where
  -- The condition is "column matches " and a pattern, of which the search in the name of the column
  -- gives a result.
  abbrev pub Searches : String → ColumnMetadata → (pattern name : String) → Type 0
  Searches condition column pattern name =
      (condition ≡ "column matches " ++ pattern) × IsNamed column name

  matches_condition-prefixed :
      (column : ColumnMetadata) (pattern : String)
      → matches_condition re_search (condition_prefix ++ pattern) column
        ≡ re_search pattern (column_name column)
  unfolding matches_condition
  matches_condition-prefixed column pattern =
      rw (starts_with-append condition_prefix pattern)
        (ap (λ p. re_search p (column_name column)) (text_drop-append condition_prefix pattern))

  pub matches_condition-searched :
      (condition : String) (column : ColumnMetadata) (pattern name : String)
      → Searches condition column pattern name
      → matches_condition re_search condition column ≡ re_search pattern name
  matches_condition-searched condition column pattern name (text, named) =
      ap (λ c. matches_condition re_search c column) text
      ∙ matches_condition-prefixed column pattern
      ∙ ap (re_search pattern) (column_name_lem column name named)

  -- A condition that gives a result other than "no match" is a search.
  pub searched-matches_condition :
      (condition : String) (column : ColumnMetadata) (result : Option Bool)
      → matches_condition re_search condition column ≡ result
      → result ≢ some false
      → (pattern : String) × (name : String) × Searches condition column pattern name
        × (re_search pattern name ≡ result)
  unfolding matches_condition
  searched-matches_condition condition column result given other =
      elim (Bool-cases (starts_with condition_prefix condition)) [
        | inr lacks ↦ absurd (other (sym given ∙ rw lacks refl))
        | inl starts ↦ (
          text_drop (text_length condition_prefix) condition,
          column_name column,
          (prefix_split condition_prefix condition starts, column_name-IsNamed column),
          sym (rw starts refl) ∙ given,
        )
      ]
