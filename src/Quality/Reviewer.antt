-- ===== src/Quality/Reviewer.antt =====
-- libs/python/odg-core/src/odg_core/quality/reviewer.py
use open_data_gov.Prelude.{ℕ, ◌+◌, ◌*◌, String, Bool, true, List, Option, none, some, select, leb}

pub record QualitySla (Float : Type 0) : Type 0 where
  pub id : ℕ
  pub dataset_id : String
  pub domain_id : String
  pub dimension : String
  pub threshold : Float
  pub owner_id : String
  pub review_interval_days : ℕ
  pub last_reviewed_at : Option ℕ

-- timedelta(days=n), in microseconds
abbrev pub days : ℕ → ℕ
days n = n * 86400000000

-- `now` is the clock's reading at the call.
unfoldable pub needs_review : {Float : Type 0} → ℕ → QualitySla Float → Bool
needs_review now sla = elim sla.last_reviewed_at [
  | none ↦ true
  | some last ↦ leb (last + days sla.review_interval_days) now
]

-- The clock is read for each SLA; one reading stands for them all.
unfoldable pub filter_due_for_review :
    {Float : Type 0} → ℕ → List (QualitySla Float) → List (QualitySla Float)
unfolding needs_review
filter_due_for_review now slas = select (needs_review now) slas
