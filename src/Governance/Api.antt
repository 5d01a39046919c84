-- ===== src/Governance/Api.antt =====
-- services/governance-engine/src/governance_engine/api: the routes, the bodies that they accept
-- (schemas.py), and the transaction that a request runs in (deps.py).
use open_data_gov.Prelude.{
  ℕ, String, Bool, true, ◌&&◌, not, List, [], ◌∷◌, Option, has_length, text_length, leb,
  if◌then◌else◌,
}
use open_data_gov.Prelude.Exec.{Result, ok, err, pure, require, ◌>>=◌, ◌>>◌}
use open_data_gov.Enums.Governance.{
  DecisionType, DecisionStatus, VoteValue, RaciRole, AuditEventType,
}
use open_data_gov.Runtime.{Runtime, Details}
use open_data_gov.Models.{ApprovalRecord, VetoRecord, RaciAssignment}
use open_data_gov.Models.Promotion.{GovernanceDecision, PromotionMetadata}
use open_data_gov.Audit.{AuditEvent}
use open_data_gov.Governance.Session.{World, Error, Action, is_value_error, transaction}
use open_data_gov.Governance.AuditService
use open_data_gov.Governance.DecisionService
use open_data_gov.Governance.ApprovalService
use open_data_gov.Governance.VetoService
use open_data_gov.Governance.RoleService

-- One constructor for each route, with its path parameters first and then its body or query.
pub data Request : Type 0 where
  create_decision :
      DecisionType
      → (title description domain_id created_by : String) → Option PromotionMetadata
      → Details
      → Request
  list_decisions : Option String → Option DecisionStatus → (limit offset : ℕ) → Request
  get_decision : (decision_id : ℕ) → Request
  submit_decision : (decision_id : ℕ) → (actor_id : String) → Request
  approve_decision : (decision_id : ℕ) → (voter_id : String) → VoteValue → String → Request
  list_approvals : (decision_id : ℕ) → Request
  exercise_veto : (decision_id : ℕ) → (vetoed_by reason : String) → Request
  override_veto : (decision_id veto_id : ℕ) → (overridden_by : String) → Request
  list_vetoes : (decision_id : ℕ) → Request
  assign_role : (user_id domain_id : String) → RaciRole → (assigned_by : String) → Request
  revoke_role : (assignment_id : ℕ) → (revoked_by : String) → Request
  get_domain_roles : (domain_id : String) → Request
  get_user_roles : (user_id : String) → Request
  list_events : Option AuditEventType → (limit offset : ℕ) → Request
  get_events_for_entity : (entity_id : String) → (limit : ℕ) → Request
  verify_audit_integrity : Request

pub data Response : Type 0 where
  decision : GovernanceDecision → Response
  decisions : List GovernanceDecision → Response
  approval : ApprovalRecord → Response
  approvals : List ApprovalRecord → Response
  veto : VetoRecord → Response
  vetoes : List VetoRecord → Response
  role : RaciAssignment → Response
  roles : List RaciAssignment → Response
  events : List AuditEvent → Response
  is_valid : Bool → Response
  no_content : Response

-- The constraints of the body's schema. The other parameters have none.
unfoldable pub body_fits : Request → Bool
body_fits (Request.create_decision t title description domain_id created_by p m) =
    has_length 1 500 title && has_length 1 100 domain_id && has_length 1 200 created_by
body_fits (Request.submit_decision d actor_id) = has_length 1 200 actor_id
body_fits (Request.approve_decision d voter_id vote comment) = has_length 1 200 voter_id
body_fits (Request.exercise_veto d vetoed_by reason) =
    has_length 1 200 vetoed_by && leb 1 (text_length reason)
body_fits (Request.override_veto d v overridden_by) = has_length 1 200 overridden_by
body_fits (Request.assign_role user_id domain_id raci_role assigned_by) =
    has_length 1 200 user_id && has_length 1 100 domain_id && has_length 1 200 assigned_by
body_fits _ = true

-- The status of the reply to an exception: a route that catches `ValueError` gives 400, or 404
-- where it revokes a role; `get_decision` gives 404; all else is an internal error.
unfoldable pub error_status : Request → Error → ℕ
error_status (Request.get_decision d) e = 404
error_status (Request.submit_decision d a) e = if is_value_error e then 400 else 500
error_status (Request.approve_decision d a v c) e = if is_value_error e then 400 else 500
error_status (Request.exercise_veto d a r) e = if is_value_error e then 400 else 500
error_status (Request.override_veto d v a) e = if is_value_error e then 400 else 500
error_status (Request.assign_role u d r a) e = if is_value_error e then 400 else 500
error_status (Request.revoke_role i a) e = if is_value_error e then 404 else 500
error_status _ e = 500

module _ ⦃rt : Runtime⦄ where
  -- the route's call of its service
  unfoldable pub handle : Request → Action Response
  handle (Request.create_decision t title description domain_id created_by p m) = do
    d ← DecisionService.create_decision t title description domain_id created_by p m
    pure (Response.decision d)
  handle (Request.list_decisions domain_id status limit offset) = do
    ds ← DecisionService.list_decisions domain_id status limit offset
    pure (Response.decisions ds)
  handle (Request.get_decision decision_id) = do
    found ← DecisionService.get_decision decision_id
    d ← require Error.decision_not_found found
    pure (Response.decision d)
  handle (Request.submit_decision decision_id actor_id) = do
    d ← DecisionService.submit_for_approval decision_id actor_id
    pure (Response.decision d)
  handle (Request.approve_decision decision_id voter_id vote comment) = do
    a ← ApprovalService.cast_vote decision_id voter_id vote comment
    pure (Response.approval a)
  handle (Request.list_approvals decision_id) = do
    votes ← ApprovalService.list_votes decision_id
    pure (Response.approvals votes)
  handle (Request.exercise_veto decision_id vetoed_by reason) = do
    v ← VetoService.exercise_veto decision_id vetoed_by reason
    pure (Response.veto v)
  handle (Request.override_veto decision_id veto_id overridden_by) = do
    v ← VetoService.override_veto veto_id overridden_by
    pure (Response.veto v)
  handle (Request.list_vetoes decision_id) = do
    vs ← VetoService.list_vetoes decision_id
    pure (Response.vetoes vs)
  handle (Request.assign_role user_id domain_id raci_role assigned_by) = do
    a ← RoleService.assign_role user_id domain_id raci_role assigned_by
    pure (Response.role a)
  handle (Request.revoke_role assignment_id revoked_by) = do
    RoleService.revoke_role assignment_id revoked_by
    pure Response.no_content
  handle (Request.get_domain_roles domain_id) = do
    found ← RoleService.get_assignments_for_domain domain_id
    pure (Response.roles found)
  handle (Request.get_user_roles user_id) = do
    found ← RoleService.get_assignments_for_user user_id
    pure (Response.roles found)
  handle (Request.list_events event_type limit offset) = do
    es ← AuditService.get_events event_type limit offset
    pure (Response.events es)
  handle (Request.get_events_for_entity entity_id limit) = do
    es ← AuditService.get_events_for_entity entity_id limit
    pure (Response.events es)
  handle Request.verify_audit_integrity = do
    valid ← AuditService.verify_integrity 1000
    pure (Response.is_valid valid)

  -- One request: a body that does not fit is refused with 422; the rest runs in a transaction.
  unfoldable pub serve : Request → World → Result ℕ Response × World
  serve request w =
      if not (body_fits request)
      then (err 422, w)
      else let (r, w') = transaction (handle request) w in
        (elim r [ ok response ↦ ok response | err e ↦ err (error_status request e) ], w')

  unfoldable pub run : World → List Request → World
  run w [] = w
  run w (request ∷ requests) = run (serve request w).1 requests
