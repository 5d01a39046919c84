-- ===== src/Audit.antt =====
-- libs/python/odg-core/src/odg_core/audit.py: hash-chained audit events.
pub mod Chain
pub mod Tamper
use open_data_gov.Prelude.{
  ℕ, zero, suc, String, ◌≡◌, Bool, true, false, not, ◌&&◌, List, [], ◌∷◌, if◌then◌else◌, ◌==◌,
  string_eq,
}
use open_data_gov.Enums.Governance.{AuditEventType, audit_event_type_value}
use open_data_gov.Runtime.{Runtime, Details, Scalar, Json}

pub record AuditEvent : Type 0 where
  pub id : ℕ
  pub event_type : AuditEventType
  pub entity_type : String
  pub entity_id : String
  pub actor_id : String
  pub description : String
  pub details : Details
  pub occurred_at : ℕ
  pub previous_hash : String
  pub event_hash : String

-- "0" * 64
abbrev pub genesis_hash : String
genesis_hash = "0000000000000000000000000000000000000000000000000000000000000000"

module _ ⦃rt : Runtime⦄ where
  unfoldable pub payload : AuditEvent → List (String × Json)
  payload e =
      ("event_type", Json.scalar (Scalar.str (audit_event_type_value e.event_type)))
      ∷ ("entity_type", Json.scalar (Scalar.str e.entity_type))
      ∷ ("entity_id", Json.scalar (Scalar.str e.entity_id))
      ∷ ("actor_id", Json.scalar (Scalar.str e.actor_id))
      ∷ ("description", Json.scalar (Scalar.str e.description))
      ∷ ("details", Json.object e.details)
      ∷ ("occurred_at", Json.scalar (Scalar.str (rt.isoformat e.occurred_at)))
      ∷ ("previous_hash", Json.scalar (Scalar.str e.previous_hash))
      ∷ []

  unfoldable pub compute_hash : AuditEvent → String
  compute_hash e = rt.sha256_hexdigest (rt.json_dumps (payload e))

  unfoldable pub seal : AuditEvent → AuditEvent
  seal e = record e { event_hash = compute_hash e }

  unfoldable pub verify : AuditEvent → Bool
  verify e = e.event_hash == compute_hash e

  -- The loop of `verify_chain` past the first event; `prior` is `events[i - 1]`.
  unfoldable pub verify_links : AuditEvent → List AuditEvent → Bool
  verify_links prior [] = true
  verify_links prior (event ∷ events) =
      let rest = verify_links event events in
      if not (verify event)
      then false
      else if not (event.previous_hash == prior.event_hash)
      then false
      else rest

  unfoldable pub verify_chain : List AuditEvent → Bool
  unfolding verify_links
  verify_chain [] = true
  verify_chain (first ∷ events) =
      if not (first.previous_hash == genesis_hash)
      then false
      else if not (verify first)
      then false
      else verify_links first events
