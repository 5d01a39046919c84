-- ===== src/Events/Publisher.antt =====
-- services/governance-engine/src/governance_engine/events/publisher.py
use open_data_gov.Prelude.{
  String, Bool, true, false, not, ◌&&◌, List, [], ◌∷◌, Option, none, some, string_eq, if◌then◌else◌,
}
use open_data_gov.Prelude.Dict.{get}
use open_data_gov.Prelude.Exec.{Exec, pure}
use open_data_gov.Events.Producer.{with_trace, logged}

-- SUBJECTS
unfoldable pub subjects : List (String × String)
subjects =
    ("decision_created", "governance.decisions.created")
    ∷ ("decision_finalized", "governance.decisions.finalized")
    ∷ ("approval_requested", "governance.approvals.requested")
    ∷ ("approval_cast", "governance.approvals.cast")
    ∷ ("veto_exercised", "governance.veto.exercised")
    ∷ ("veto_overridden", "governance.veto.overridden")
    ∷ []

-- the subjects of the stream are those that begin with this: the wildcard "governance.>"
abbrev pub stream_prefix : String
stream_prefix = "governance."

-- Whether `_nc` is not None, whether its connection is closed, and whether `_js` is not None.
pub record NatsPublisher : Type 0 where
  pub has_nc : Bool
  pub is_closed : Bool
  pub has_js : Bool

-- NATSPublisher()
abbrev pub new_publisher : NatsPublisher
new_publisher = record { has_nc = false; is_closed = false; has_js = false }

-- `connect`, with whether every step of it succeeds
abbrev pub connect : Bool → NatsPublisher → NatsPublisher
connect succeeds p = record { has_nc = succeeds; is_closed = false; has_js = succeeds }

abbrev pub disconnect : NatsPublisher → NatsPublisher
disconnect p = if p.has_nc && not p.is_closed then record p { is_closed = true } else p

abbrev pub is_connected : NatsPublisher → Bool
is_connected p = p.has_nc && not p.is_closed

-- `encode` is json.dumps(payload, default=str).encode(), and `send` the stream's `publish`, which
-- raises when the connection is closed.
module _ {Broker Failure V Bytes : Type 0} (trace_headers : Option V)
    (encode : List (String × V) → Bytes)
    (send : String → Bytes → Exec Broker Failure (Unit {0})) where
  unfoldable pub publish :
      NatsPublisher → String → List (String × V) → Exec Broker Failure (Unit {0})
  unfolding subjects logged with_trace pure
  publish p subject_key payload =
      if not p.has_js then pure tt else elim (get subject_key subjects) [
        | none ↦ pure tt
        | some subject ↦ logged (send subject (encode (with_trace trace_headers payload)))
      ]
