-- ===== src/Enums/Governance.antt =====
-- The enumerations of libs/python/odg-core/src/odg_core/enums.py: RACIRole, DecisionType, DecisionStatus, VoteValue, VetoStatus, AuditEventType.
-- A member's value is the text that its StrEnum class gives it; `rank` numbers the members.
use open_data_gov.Prelude.{ℕ, String, ◌≡◌, ◌↔◌, true, arith, Eq, nat_beq}

pub data RaciRole : Type 0 where
  responsible accountable consulted informed : RaciRole

abbrev pub raci_role_value : RaciRole → String
raci_role_value RaciRole.responsible = "responsible"
raci_role_value RaciRole.accountable = "accountable"
raci_role_value RaciRole.consulted = "consulted"
raci_role_value RaciRole.informed = "informed"

abbrev pub raci_role_rank : RaciRole → ℕ
raci_role_rank RaciRole.responsible = 0
raci_role_rank RaciRole.accountable = 1
raci_role_rank RaciRole.consulted = 2
raci_role_rank RaciRole.informed = 3

pub raci_role_beq_iff :
    (a b : RaciRole) → (nat_beq (raci_role_rank a) (raci_role_rank b) ≡ true) ↔ (a ≡ b)
raci_role_beq_iff a b = ground arith

instance abbrev pub raci_role_eq : Eq RaciRole
raci_role_eq = record {
  beq = λ a b. nat_beq (raci_role_rank a) (raci_role_rank b);
  beq_iff = raci_role_beq_iff;
}

pub data DecisionType : Type 0 where
  data_promotion schema_change access_grant expert_registration policy_change emergency :
      DecisionType

abbrev pub decision_type_value : DecisionType → String
decision_type_value DecisionType.data_promotion = "data_promotion"
decision_type_value DecisionType.schema_change = "schema_change"
decision_type_value DecisionType.access_grant = "access_grant"
decision_type_value DecisionType.expert_registration = "expert_registration"
decision_type_value DecisionType.policy_change = "policy_change"
decision_type_value DecisionType.emergency = "emergency"

abbrev pub decision_type_rank : DecisionType → ℕ
decision_type_rank DecisionType.data_promotion = 0
decision_type_rank DecisionType.schema_change = 1
decision_type_rank DecisionType.access_grant = 2
decision_type_rank DecisionType.expert_registration = 3
decision_type_rank DecisionType.policy_change = 4
decision_type_rank DecisionType.emergency = 5

pub decision_type_beq_iff :
    (a b : DecisionType) → (nat_beq (decision_type_rank a) (decision_type_rank b) ≡ true) ↔ (a ≡ b)
decision_type_beq_iff a b = ground arith

instance abbrev pub decision_type_eq : Eq DecisionType
decision_type_eq = record {
  beq = λ a b. nat_beq (decision_type_rank a) (decision_type_rank b);
  beq_iff = decision_type_beq_iff;
}

pub data DecisionStatus : Type 0 where
  pending awaiting_approval approved rejected vetoed escalated : DecisionStatus

abbrev pub decision_status_value : DecisionStatus → String
decision_status_value DecisionStatus.pending = "pending"
decision_status_value DecisionStatus.awaiting_approval = "awaiting_approval"
decision_status_value DecisionStatus.approved = "approved"
decision_status_value DecisionStatus.rejected = "rejected"
decision_status_value DecisionStatus.vetoed = "vetoed"
decision_status_value DecisionStatus.escalated = "escalated"

abbrev pub decision_status_rank : DecisionStatus → ℕ
decision_status_rank DecisionStatus.pending = 0
decision_status_rank DecisionStatus.awaiting_approval = 1
decision_status_rank DecisionStatus.approved = 2
decision_status_rank DecisionStatus.rejected = 3
decision_status_rank DecisionStatus.vetoed = 4
decision_status_rank DecisionStatus.escalated = 5

pub decision_status_beq_iff :
    (a b : DecisionStatus)
    → (nat_beq (decision_status_rank a) (decision_status_rank b) ≡ true) ↔ (a ≡ b)
decision_status_beq_iff a b = ground arith

instance abbrev pub decision_status_eq : Eq DecisionStatus
decision_status_eq = record {
  beq = λ a b. nat_beq (decision_status_rank a) (decision_status_rank b);
  beq_iff = decision_status_beq_iff;
}

pub data VoteValue : Type 0 where
  approve reject abstain : VoteValue

abbrev pub vote_value_value : VoteValue → String
vote_value_value VoteValue.approve = "approve"
vote_value_value VoteValue.reject = "reject"
vote_value_value VoteValue.abstain = "abstain"

abbrev pub vote_value_rank : VoteValue → ℕ
vote_value_rank VoteValue.approve = 0
vote_value_rank VoteValue.reject = 1
vote_value_rank VoteValue.abstain = 2

pub vote_value_beq_iff :
    (a b : VoteValue) → (nat_beq (vote_value_rank a) (vote_value_rank b) ≡ true) ↔ (a ≡ b)
vote_value_beq_iff a b = ground arith

instance abbrev pub vote_value_eq : Eq VoteValue
vote_value_eq = record {
  beq = λ a b. nat_beq (vote_value_rank a) (vote_value_rank b);
  beq_iff = vote_value_beq_iff;
}

pub data VetoStatus : Type 0 where
  active expired overridden : VetoStatus

abbrev pub veto_status_value : VetoStatus → String
veto_status_value VetoStatus.active = "active"
veto_status_value VetoStatus.expired = "expired"
veto_status_value VetoStatus.overridden = "overridden"

abbrev pub veto_status_rank : VetoStatus → ℕ
veto_status_rank VetoStatus.active = 0
veto_status_rank VetoStatus.expired = 1
veto_status_rank VetoStatus.overridden = 2

pub veto_status_beq_iff :
    (a b : VetoStatus) → (nat_beq (veto_status_rank a) (veto_status_rank b) ≡ true) ↔ (a ≡ b)
veto_status_beq_iff a b = ground arith

instance abbrev pub veto_status_eq : Eq VetoStatus
veto_status_eq = record {
  beq = λ a b. nat_beq (veto_status_rank a) (veto_status_rank b);
  beq_iff = veto_status_beq_iff;
}

pub data AuditEventType : Type 0 where
  decision_created decision_submitted approval_cast decision_approved decision_rejected
        veto_exercised veto_overridden veto_expired decision_escalated expert_registered
        expert_deregistered data_promoted role_assigned role_revoked :
      AuditEventType

abbrev pub audit_event_type_value : AuditEventType → String
audit_event_type_value AuditEventType.decision_created = "decision_created"
audit_event_type_value AuditEventType.decision_submitted = "decision_submitted"
audit_event_type_value AuditEventType.approval_cast = "approval_cast"
audit_event_type_value AuditEventType.decision_approved = "decision_approved"
audit_event_type_value AuditEventType.decision_rejected = "decision_rejected"
audit_event_type_value AuditEventType.veto_exercised = "veto_exercised"
audit_event_type_value AuditEventType.veto_overridden = "veto_overridden"
audit_event_type_value AuditEventType.veto_expired = "veto_expired"
audit_event_type_value AuditEventType.decision_escalated = "decision_escalated"
audit_event_type_value AuditEventType.expert_registered = "expert_registered"
audit_event_type_value AuditEventType.expert_deregistered = "expert_deregistered"
audit_event_type_value AuditEventType.data_promoted = "data_promoted"
audit_event_type_value AuditEventType.role_assigned = "role_assigned"
audit_event_type_value AuditEventType.role_revoked = "role_revoked"

abbrev pub audit_event_type_rank : AuditEventType → ℕ
audit_event_type_rank AuditEventType.decision_created = 0
audit_event_type_rank AuditEventType.decision_submitted = 1
audit_event_type_rank AuditEventType.approval_cast = 2
audit_event_type_rank AuditEventType.decision_approved = 3
audit_event_type_rank AuditEventType.decision_rejected = 4
audit_event_type_rank AuditEventType.veto_exercised = 5
audit_event_type_rank AuditEventType.veto_overridden = 6
audit_event_type_rank AuditEventType.veto_expired = 7
audit_event_type_rank AuditEventType.decision_escalated = 8
audit_event_type_rank AuditEventType.expert_registered = 9
audit_event_type_rank AuditEventType.expert_deregistered = 10
audit_event_type_rank AuditEventType.data_promoted = 11
audit_event_type_rank AuditEventType.role_assigned = 12
audit_event_type_rank AuditEventType.role_revoked = 13

pub audit_event_type_beq_iff :
    (a b : AuditEventType)
    → (nat_beq (audit_event_type_rank a) (audit_event_type_rank b) ≡ true) ↔ (a ≡ b)
audit_event_type_beq_iff a b = ground arith

instance abbrev pub audit_event_type_eq : Eq AuditEventType
audit_event_type_eq = record {
  beq = λ a b. nat_beq (audit_event_type_rank a) (audit_event_type_rank b);
  beq_iff = audit_event_type_beq_iff;
}
