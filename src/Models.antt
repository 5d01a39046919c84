-- ===== src/Models.antt =====
-- The records of libs/python/odg-core/src/odg_core/models.py that the governance engine keeps.
-- Identifiers and times are numbers (see Runtime). The constraints of the fields are checked by
-- the constructors of Governance/Session.
pub mod Promotion
use open_data_gov.Prelude.{
  ℕ, ◌+◌, ◌*◌, String, Bool, true, false, Option, none, some, ltb, if◌then◌else◌, ◌==◌, not,
}
use open_data_gov.Enums.Governance.{RaciRole, VoteValue, VetoStatus, veto_status_eq}

pub record ApprovalRecord : Type 0 where
  pub id : ℕ
  pub decision_id : ℕ
  pub voter_id : String
  pub voter_role : RaciRole
  pub vote : VoteValue
  pub comment : String
  pub voted_at : ℕ

pub record VetoRecord : Type 0 where
  pub id : ℕ
  pub decision_id : ℕ
  pub vetoed_by : String
  pub vetoed_by_role : RaciRole
  pub reason : String
  pub status : VetoStatus
  pub vetoed_at : ℕ
  pub expires_at : Option ℕ
  pub overridden_by : Option String
  pub overridden_at : Option ℕ

-- timedelta(hours=n), in microseconds
abbrev pub hours : ℕ → ℕ
hours n = n * 3600000000

unfoldable pub compute_expiry : VetoRecord → Bool → ℕ
compute_expiry veto is_emergency =
    let timeout = if is_emergency then hours 1 else hours 24 in veto.vetoed_at + timeout

-- `now` is the clock's reading at the call.
unfoldable pub is_expired : ℕ → VetoRecord → Bool
is_expired now veto =
    if not (veto.status == VetoStatus.active)
    then false
    else elim veto.expires_at [ none ↦ false | some expires_at ↦ ltb expires_at now ]

pub record RaciAssignment : Type 0 where
  pub id : ℕ
  pub user_id : String
  pub domain_id : String
  pub role : RaciRole
  pub assigned_at : ℕ
  pub assigned_by : String
