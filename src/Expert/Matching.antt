-- ===== src/Expert/Matching.antt =====
-- The actions that the rules call for.
use open_data_gov.Prelude.{
  ◌≡◌, ◌≢◌, refl, ap, ◌∙◌, sym, ◌↔◌, inl, inr, String, Bool, true, false, List, [], ◌∷◌, ◌++◌, In,
  select, map, Bool-cases, Option-cases, subst, Option, none, some, if◌then◌else◌,
}
use mathlib.Core.List.{append-nil, append_assoc}
use open_data_gov.Prelude.Members.{
  In-select, select-In, In-map, map-In, concat_map, In-concat_map, concat_map-In,
}
use open_data_gov.Expert.Rules.{
  MetadataRule, ColumnMetadata, ActionResult, matches_condition, action_result, evaluate_columns,
  evaluate_rules, evaluate,
}
use open_data_gov.Expert.Conditions.{
  IsNamed, Searches, column_name_lem, matches_condition-searched, searched-matches_condition,
}

-- whether a condition was found to match
abbrev found : Option Bool → Bool
found none = false
found (some b) = b

module _ (re_search : String → String → Option Bool) where
  -- No search of a rule's pattern in a column's name raises.
  abbrev pub Compiles : List MetadataRule → List ColumnMetadata → Type 0
  Compiles rules columns =
      (rule : MetadataRule)
      → In rule rules
      → (column : ColumnMetadata) → In column columns
      → (pattern name : String) → Searches re_search rule.condition column pattern name
      → re_search pattern name ≢ none

  -- The action is that of a rule on a column, whose name the pattern of the rule's condition
  -- matches.
  abbrev pub IsCalledFor : List MetadataRule → List ColumnMetadata → ActionResult → Type 0
  IsCalledFor rules columns a =
      (rule : MetadataRule) × In rule rules
      × (column : ColumnMetadata) × In column columns
      × (pattern : String) × (name : String) × Searches re_search rule.condition column pattern name
      × (re_search pattern name ≡ some true)
      × (a ≡ record {
        rule = rule.name;
        column = name;
        action = rule.action;
        auto_approve = if rule.auto_approve then "True" else "False";
      })

  abbrev matching : MetadataRule → ColumnMetadata → Bool
  matching rule column = found (matches_condition re_search rule.condition column)

  -- the actions of one rule, as a comprehension over the columns
  abbrev actions_of : MetadataRule → List ColumnMetadata → List ActionResult
  actions_of rule columns = map (action_result rule) (select (matching rule) columns)

  evaluate_columns_lem :
      (rule : MetadataRule) (columns : List ColumnMetadata) (actions : List ActionResult)
      → ((column : ColumnMetadata)
          → In column columns
          → matches_condition re_search rule.condition column ≢ none)
      → evaluate_columns re_search rule columns actions ≡ some (actions ++ actions_of rule columns)
  unfolding evaluate_columns select
  evaluate_columns_lem rule [] actions fine = ap some (sym (append-nil actions))
  evaluate_columns_lem rule (column ∷ columns) actions fine =
      let rest : (column : ColumnMetadata)
          → In column columns
          → matches_condition re_search rule.condition column ≢ none =
        λ c m. fine c (inr m) in
      elim (Option-cases (matches_condition re_search rule.condition column)) [
        | inl raises ↦ absurd (fine column (inl refl) raises)
        | inr (true, holds) ↦
            rw (holds, evaluate_columns)
              (evaluate_columns_lem rule columns _ rest ∙ ap some (append_assoc actions _ _))
        | inr (false, fails) ↦
            rw (fails, evaluate_columns) (evaluate_columns_lem rule columns actions rest)
      ]

  evaluate_rules_lem :
      (rules : List MetadataRule) (columns : List ColumnMetadata) (actions : List ActionResult)
      → ((rule : MetadataRule)
          → In rule rules
          → (column : ColumnMetadata) → In column columns
          → matches_condition re_search rule.condition column ≢ none)
      → evaluate_rules re_search rules columns actions
        ≡ some (actions ++ concat_map (λ r. actions_of r columns) rules)
  unfolding evaluate_rules concat_map
  evaluate_rules_lem [] columns actions fine = ap some (sym (append-nil actions))
  evaluate_rules_lem (rule ∷ rules) columns actions fine =
      rw (evaluate_columns_lem rule columns actions (fine rule (inl refl)), evaluate_rules)
        (evaluate_rules_lem rules columns _ (λ r m. fine r (inr m))
          ∙ ap some (append_assoc actions _ _))

  matching-Searches :
      (rule : MetadataRule) (column : ColumnMetadata)
      → matching rule column ≡ true
      → matches_condition re_search rule.condition column ≡ some true
  matching-Searches rule column holds =
      elim (Option-cases (matches_condition re_search rule.condition column)) [
        | inl raises ↦ absurd (cc (holds, raises))
        | inr (true, same) ↦ same
        | inr (false, same) ↦ absurd (cc (holds, same))
      ]

  result_lem :
      (rule : MetadataRule) (column : ColumnMetadata) (name : String)
      → IsNamed column name
      → action_result rule column ≡ record {
        rule = rule.name;
        column = name;
        action = rule.action;
        auto_approve = if rule.auto_approve then "True" else "False";
      }
  unfolding action_result
  result_lem rule column name named = elim (Bool-cases rule.auto_approve) [
    | inl on ↦ rw (on, column_name_lem column name named) refl
    | inr off ↦ rw (off, column_name_lem column name named) refl
  ]

  In-actions :
      (rules : List MetadataRule) (columns : List ColumnMetadata) (a : ActionResult)
      → In a (concat_map (λ r. actions_of r columns) rules) ↔ IsCalledFor rules columns a
  In-actions rules columns a = (
    (λ m.
        let (rule, listed, inside) = In-concat_map (λ r. actions_of r columns) a rules m in
        let (column, kept, same) = In-map (action_result rule) a _ inside in
        let (there, holds) = In-select _ column columns kept in
        let (pattern, name, searched, result) =
          searched-matches_condition re_search rule.condition column (some true)
            (matching-Searches rule column holds) (λ e. cc (e)) in
        (
          rule,
          listed,
          column,
          there,
          pattern,
          name,
          searched,
          result,
          sym same ∙ result_lem rule column name searched.1,
        )),
    λ (rule, listed, column, there, pattern, name, searched, result, same).
        let holds : matches_condition re_search rule.condition column ≡ some true =
          matches_condition-searched re_search rule.condition column pattern name searched
          ∙ result in
        concat_map-In (λ r. actions_of r columns) a rule rules listed
          (subst (λ x. In x (actions_of rule columns))
            (result_lem rule column name searched.1 ∙ sym same)
            (map-In (action_result rule) column _
              (select-In _ column columns there (ap found holds)))),
  )

  -- Where no search of a rule's pattern in a column's name raises, the evaluation returns, and an
  -- action is among its results exactly when it is that of a rule on a column whose name the
  -- pattern after "column matches " in the rule's condition matches. A column without a name has
  -- the empty name.
  pub evaluate_iff :
      (rules : List MetadataRule) (columns : List ColumnMetadata)
      → Compiles rules columns
      → (actions : List ActionResult) × (evaluate re_search rules columns ≡ some actions)
        × ((a : ActionResult) → In a actions ↔ IsCalledFor rules columns a)
  unfolding evaluate
  evaluate_iff rules columns compiles = (
    concat_map (λ r. actions_of r columns) rules,
    evaluate_rules_lem rules columns [] (λ rule listed column there raises.
        let (pattern, name, searched, result) =
          searched-matches_condition re_search rule.condition column none raises (λ e. cc (e)) in
        compiles rule listed column there pattern name searched result),
    In-actions rules columns,
  )
