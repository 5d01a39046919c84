-- ===== src/Scenarios/Expert.antt =====
-- The rule engine at concrete rules and columns.
use open_data_gov.Prelude.{
  String, ◌≡◌, ◌↔◌, In, true, Bool, Option, some, List, [], ◌∷◌, string_eq, ◌==◌,
}
use open_data_gov.Expert.Rules.{MetadataRule, ColumnMetadata, ActionResult, evaluate}
use open_data_gov.Expert.Matching.{IsCalledFor, evaluate_iff}

abbrev rule : MetadataRule
rule = record {
  name = "pii";
  trigger = "column_added";
  condition = "column matches email";
  action = "tag:pii";
  auto_approve = true;
  description = "";
}

abbrev columns : List ColumnMetadata
columns = (("name", "email") ∷ []) ∷ (("name", "total") ∷ []) ∷ []

abbrev equal_text : String → String → Option Bool
equal_text pattern s = some (pattern == s)

evaluate_iff_example :
    (actions : List ActionResult) × (evaluate equal_text (rule ∷ []) columns ≡ some actions)
    × ((a : ActionResult) → In a actions ↔ IsCalledFor equal_text (rule ∷ []) columns a)
evaluate_iff_example =
    evaluate_iff equal_text (rule ∷ []) columns
      (λ r i c j pattern name searched raises. cc (raises))
