-- ===== src/Expert/Rules.antt =====
-- services/data-expert/src/data_expert/active_metadata: MetadataRule of rules.py, and
-- rule_engine.py.
use open_data_gov.Prelude.{
  String, Bool, true, false, Option, List, [], ◌∷◌, ◌++◌, none, some, ◌==◌, string_eq, text_length,
  if◌then◌else◌,
}
use open_data_gov.Prelude.Dict.{get}
use open_data_gov.Privacy.Masking.{text_take, text_drop}

pub record MetadataRule : Type 0 where
  pub name : String
  pub trigger : String
  pub condition : String
  pub action : String
  pub auto_approve : Bool
  pub description : String

-- the metadata of a column: a dict of texts
abbrev pub ColumnMetadata : Type 0
ColumnMetadata = List (String × String)

pub record ActionResult : Type 0 where
  pub rule : String
  pub column : String
  pub action : String
  pub auto_approve : String

-- s.startswith(prefix)
unfoldable pub starts_with : (prefix s : String) → Bool
starts_with prefix s = text_take (text_length prefix) s == prefix

-- str(b)
abbrev pub bool_text : Bool → String
bool_text true = "True"
bool_text false = "False"

abbrev pub condition_prefix : String
condition_prefix = "column matches "

unfoldable pub column_name : ColumnMetadata → String
column_name column = elim (get "name" column) [ none ↦ "" | some n ↦ n ]

-- `re_search pattern s` is re.search(pattern, s, re.IGNORECASE): whether it finds a match, or none
-- where it raises `re.error`, on a pattern that does not compile.
module _ (re_search : String → String → Option Bool) where
  -- `_matches_condition`; none where it raises
  unfoldable pub matches_condition : String → ColumnMetadata → Option Bool
  unfolding column_name
  matches_condition condition column =
      if starts_with condition_prefix condition
      then re_search (text_drop (text_length condition_prefix) condition) (column_name column)
      else some false

unfoldable pub action_result : MetadataRule → ColumnMetadata → ActionResult
unfolding column_name
action_result rule column = record {
  rule = rule.name;
  column = column_name column;
  action = rule.action;
  auto_approve = bool_text rule.auto_approve;
}

module _ (re_search : String → String → Option Bool) where
  -- the inner loop of `evaluate`, from the actions found so far
  unfoldable pub evaluate_columns :
      MetadataRule → List ColumnMetadata → List ActionResult → Option (List ActionResult)
  unfolding matches_condition action_result
  evaluate_columns rule [] actions = some actions
  evaluate_columns rule (column ∷ columns) actions =
      elim (matches_condition re_search rule.condition column) [
        | none ↦ none
        | some matches ↦
            evaluate_columns rule columns
              (if matches then actions ++ action_result rule column ∷ [] else actions)
      ]

  unfoldable pub evaluate_rules :
      List MetadataRule → List ColumnMetadata → List ActionResult → Option (List ActionResult)
  unfolding evaluate_columns
  evaluate_rules [] columns actions = some actions
  evaluate_rules (rule ∷ rules) columns actions = elim (evaluate_columns rule columns actions) [
    | none ↦ none
    | some found ↦ evaluate_rules rules columns found
  ]

  -- RuleEngine(rules).evaluate(columns); none where it raises
  unfoldable pub evaluate : List MetadataRule → List ColumnMetadata → Option (List ActionResult)
  unfolding evaluate_rules
  evaluate rules columns = evaluate_rules rules columns []
