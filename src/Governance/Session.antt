-- ===== src/Governance/Session.antt =====
-- The database session of a request (api/deps.py): the tables, what a request may raise, and the
-- draws of identifiers and times that the models' default factories make.
use open_data_gov.Prelude.{
  ℕ, suc, Bool, true, false, List, [], ◌∷◌, ◌++◌, Option, none, some, any, ◌==◌, nat_eq,
  if◌then◌else◌,
}
use open_data_gov.Prelude.Exec.{Result, ok, err, Exec}
use open_data_gov.Runtime.{Runtime}
use open_data_gov.Models.{ApprovalRecord, VetoRecord, RaciAssignment}
use open_data_gov.Models.Promotion.{GovernanceDecisionRow}
use open_data_gov.Audit.{AuditEvent}

-- The rows of each table, in the order of insertion, and how many identifiers and times have been
-- drawn so far.
pub record World : Type 0 where
  pub decisions : List GovernanceDecisionRow
  pub approvals : List ApprovalRecord
  pub vetoes : List VetoRecord
  pub events : List AuditEvent
  pub roles : List RaciAssignment
  pub ids : ℕ
  pub ticks : ℕ

abbrev pub empty_world : World
empty_world = record {
  decisions = [];
  approvals = [];
  vetoes = [];
  events = [];
  roles = [];
  ids = 0;
  ticks = 0;
}

-- The exceptions. The last two are the database's, and the others are a `ValueError`: pydantic's
-- validation error is one too.
pub data Error : Type 0 where
  validation_error decision_not_found not_pending not_awaiting_approval invalid_final_status : Error
  no_raci_role already_voted not_eligible_to_veto veto_not_found veto_not_active : Error
  cannot_override role_already_assigned assignment_not_found : Error
  integrity_error multiple_results_found : Error

abbrev pub is_value_error : Error → Bool
is_value_error integrity_error = false
is_value_error multiple_results_found = false
is_value_error _ = true

abbrev pub Action : Type 0 → Type 0
Action A = Exec World Error A

module _ ⦃rt : Runtime⦄ where
  -- uuid.uuid4()
  unfoldable pub uuid4 : Action ℕ
  uuid4 w = (ok (rt.uuid4 w.ids), record w { ids = suc w.ids })

  -- _utcnow()
  unfoldable pub utcnow : Action ℕ
  utcnow w = (ok (rt.now w.ticks), record w { ticks = suc w.ticks })

-- `session.add` and `flush`: a primary key that the table holds is an integrity error.
unfoldable pub add_row : {A : Type 0} → (A → ℕ) → A → List A → Result Error (List A)
add_row id row rows =
    if any (λ r. id r == id row) rows then err integrity_error else ok (rows ++ row ∷ [])

-- `session.get(Row, key)`
unfoldable pub get_row : {A : Type 0} → (A → ℕ) → ℕ → List A → Option A
get_row id key [] = none
get_row id key (row ∷ rows) = if id row == key then some row else get_row id key rows

-- the columns that a method assigns to the row of a primary key
unfoldable pub set_row : {A : Type 0} → (A → ℕ) → ℕ → (A → A) → List A → List A
set_row id key assign [] = []
set_row id key assign (row ∷ rows) =
    (if id row == key then assign row else row) ∷ set_row id key assign rows

-- `result.scalar_one_or_none()`
unfoldable pub scalar_one_or_none : {A : Type 0} → List A → Result Error (Option A)
scalar_one_or_none [] = ok none
scalar_one_or_none (x ∷ []) = ok (some x)
scalar_one_or_none (x ∷ y ∷ xs) = err multiple_results_found

-- `async with session.begin()`: as SQLAlchemy documents, the writes of the request are committed at
-- its end, and an exception rolls them back. Identifiers and times that were drawn stay drawn.
unfoldable pub transaction : {A : Type 0} → Action A → Action A
transaction m w =
    let (r, w') = m w in
    elim r [ ok a ↦ (ok a, w') | err e ↦ (err e, record w { ids = w'.ids; ticks = w'.ticks }) ]
