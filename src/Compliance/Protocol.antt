-- ===== src/Compliance/Protocol.antt =====
-- compliance/protocols.py, and what the checkers read of their context.
use open_data_gov.Prelude.{
  ℕ, ◌-◌, ◌*◌, String, Bool, false, not, List, [], ◌∷◌, none, some, length, select, leb, ◌==◌,
  string_eq, is_empty, if◌then◌else◌,
}
use open_data_gov.Prelude.Dict.{get}
use open_data_gov.Enums.Compliance.{ComplianceFramework}

-- A value of the context: a text, a list of texts, or any other value by its truth.
pub data Value : Type 0 where
  text : String → Value
  texts : List String → Value
  flag : Bool → Value

abbrev pub Context : Type 0
Context = List (String × Value)

-- bool(context.get(key))
unfoldable pub is_truthy : Context → String → Bool
is_truthy context key = elim (get key context) [
  | none ↦ false
  | some value ↦ elim value [
    | Value.text s ↦ not (s == "")
    | Value.texts xs ↦ not (is_empty xs)
    | Value.flag b ↦ b
  ]
]

pub data ComplianceError : Type 0 where
  value_error type_error : ComplianceError

pub record ComplianceFinding : Type 0 where
  pub rule_id : String
  pub severity : String
  pub description : String
  pub recommendation : String

-- `passed_rules / total_rules`
pub record Score : Type 0 where
  pub passed_rules : ℕ
  pub total_rules : ℕ

pub record ComplianceResult : Type 0 where
  pub framework : ComplianceFramework
  pub passed : Bool
  pub score : Score
  pub findings : List ComplianceFinding
  pub metadata : List (String × String)

-- the findings of the tests that hold
unfoldable pub reported : List (Bool × ComplianceFinding) → List ComplianceFinding
reported [] = []
reported ((test, finding) ∷ rules) =
    let rest = reported rules in if test then finding ∷ rest else rest

-- sum(1 for f in findings if f.severity == "critical")
unfoldable pub critical_count : List ComplianceFinding → ℕ
critical_count findings = length (select (λ f. f.severity == "critical") findings)

-- No checker reports more findings than it has rules (see Compliance/Bounds), so that the
-- subtraction is the source's.
unfoldable pub score_of : List ComplianceFinding → ℕ → Score
score_of findings total_rules = record {
  passed_rules = total_rules - length findings;
  total_rules = total_rules;
}

-- `score >= a / b` for a literal of value a / b. Division and literals round to the nearest float,
-- which keeps the order of quotients with denominators as small as the checkers'.
unfoldable pub at_least : ℕ → ℕ → Score → Bool
at_least a b score = leb (a * score.total_rules) (b * score.passed_rules)
