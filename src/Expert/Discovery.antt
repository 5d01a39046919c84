-- ===== src/Expert/Discovery.antt =====
-- services/data-expert/src/data_expert/active_metadata/discovery.py
use open_data_gov.Prelude.{String, Bool, List, [], ◌∷◌, Option, none, some, map, any, if◌then◌else◌}

-- _PII_PATTERNS, as the texts that are compiled
unfoldable pub pii_patterns : List String
pii_patterns =
    "(?i)(cpf|ssn|social.?security)" ∷ "(?i)(e[-_.]?mail)" ∷ "(?i)(phone|telefone|celular)"
    ∷ "(?i)(address|endereco|cep|zip)" ∷ "(?i)(birth.?date|nascimento|dob)"
    ∷ "(?i)(passport|rg|identity)" ∷ "(?i)(credit.?card|cartao)" ∷ []

pub record Classification : Type 0 where
  pub column : String
  pub is_pii : Bool
  pub suggested_tag : Option String

-- `search pattern s` is whether `re.compile(pattern).search(s)` finds a match.
module _ (search_pattern : String → String → Bool) where
  unfoldable pub classify_column : String → Classification
  classify_column column =
      let is_pii = any (λ p. search_pattern p column) pii_patterns in
      record {
        column = column;
        is_pii = is_pii;
        suggested_tag = if is_pii then some "pii" else none;
      }

  unfoldable pub classify_columns : List String → List Classification
  unfolding classify_column
  classify_columns columns = map classify_column columns
