-- ===== src/Events/Producer.antt =====
-- services/governance-engine/src/governance_engine/events/kafka_producer.py, and the envelope of
-- libs/python/odg-core/src/odg_core/audit_kafka.py.
use open_data_gov.Prelude.{
  ℕ, String, Bool, false, not, List, [], Option, none, some, string_eq, if◌then◌else◌,
}
use open_data_gov.Prelude.Dict.{put, has}
use open_data_gov.Prelude.Exec.{ok, Exec, pure, ◌>>◌}
use open_data_gov.Runtime.{Details}

-- `connected` says that `_producer` is not None.
pub record KafkaAuditProducer : Type 0 where
  pub connected : Bool
  pub topic : String

-- KafkaAuditProducer()
abbrev pub new_producer : KafkaAuditProducer
new_producer = record { connected = false; topic = "odg.audit.events" }

-- `connect`, with whether the client starts
abbrev pub connect : Bool → KafkaAuditProducer → KafkaAuditProducer
connect starts p = record p { connected = starts }

-- `disconnect`, with the client's `stop`: the producer keeps the client that it stopped
unfoldable pub disconnect :
    {Broker Failure : Type 0}
    → Exec Broker Failure (Unit {0})
    → KafkaAuditProducer
    → Exec Broker Failure KafkaAuditProducer
disconnect stop p = if not p.connected then pure p else (stop >> pure p)

abbrev pub is_connected : KafkaAuditProducer → Bool
is_connected p = p.connected

-- `try: m except Exception: log`
unfoldable pub logged : {S E : Type 0} → Exec S E (Unit {0}) → Exec S E (Unit {0})
logged m s = (ok tt, (m s).1)

module _ {V : Type 0} (trace_headers : Option V) where
  -- `if trace_headers: event.setdefault("_trace", trace_headers)`; none is the empty dict
  unfoldable pub with_trace : List (String × V) → List (String × V)
  with_trace event = elim trace_headers [
    | none ↦ event
    | some headers ↦ if has "_trace" event then event else put "_trace" headers event
  ]

  unfoldable pub publish_audit_event :
      {Broker Failure : Type 0}
      → (String → List (String × V) → Exec Broker Failure (Unit {0}))
      → KafkaAuditProducer
      → List (String × V)
      → Exec Broker Failure (Unit {0})
  unfolding with_trace logged pure
  publish_audit_event send_and_wait p event =
      if not p.connected then pure tt else logged (send_and_wait p.topic (with_trace event))

pub record KafkaAuditEvent : Type 0 where
  pub event_type : String
  pub timestamp : ℕ
  pub actor_id : String
  pub resource_type : String
  pub resource_id : String
  pub action : String
  pub details : Details
  pub trace_id : String
  pub span_id : String

-- `create_audit_event`, with the time of the default factory and the identifiers of the trace;
-- none where the telemetry is not installed
unfoldable pub create_audit_event :
    (now : ℕ)
    → Option (String × String)
    → (event_type actor_id resource_type resource_id action : String) → Option Details
    → KafkaAuditEvent
create_audit_event now trace event_type actor_id resource_type resource_id action details = record {
  event_type = event_type;
  timestamp = now;
  actor_id = actor_id;
  resource_type = resource_type;
  resource_id = resource_id;
  action = action;
  details = elim details [ none ↦ [] | some d ↦ d ];
  trace_id = elim trace [ none ↦ "" | some ids ↦ ids.0 ];
  span_id = elim trace [ none ↦ "" | some ids ↦ ids.1 ];
}
