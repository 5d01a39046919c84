-- ===== src/Events/Consumer.antt =====
-- services/governance-engine/src/governance_engine/events/kafka_consumer.py
use open_data_gov.Prelude.{String, Bool, true, false, not, List, [], ◌∷◌, f_string, if◌then◌else◌}
use open_data_gov.Prelude.Exec.{ok, err, Exec}
use open_data_gov.Runtime.{Runtime}

-- `connected` says that `_consumer` is not None.
pub record KafkaAuditConsumer : Type 0 where
  pub connected : Bool
  pub last_hash : String
  pub running : Bool

-- KafkaAuditConsumer()
abbrev pub new_consumer : KafkaAuditConsumer
new_consumer = record { connected = false; last_hash = "genesis"; running = false }

-- `connect`, with whether the client starts: an exception is logged and leaves no client
abbrev pub connect : Bool → KafkaAuditConsumer → KafkaAuditConsumer
connect starts c = record c { connected = starts }

abbrev pub disconnect : KafkaAuditConsumer → KafkaAuditConsumer
disconnect c = record c { running = false }

-- What the loop over the client meets: a message, an exception of the client, or a `disconnect` by
-- another task between two messages.
pub data Arrival (Event : Type 0) : Type 0 where
  message : Event → Arrival Event
  broken : Arrival Event
  stopped : Arrival Event

module _ ⦃rt : Runtime⦄ where
  unfoldable pub compute_hash_chain : (event_data previous_hash : String) → String
  compute_hash_chain event_data previous_hash =
      rt.sha256_hexdigest (f_string (previous_hash ∷ ":" ∷ event_data ∷ []))

  -- `dumps` is json.dumps(event, default=str, sort_keys=True), and `persist_fn` the caller's.
  module _ {Event Store Failure : Type 0} (dumps : Event → String)
      (persist_fn : Event → String → Exec Store Failure (Unit {0})) where
    -- the loop of `consume`; an exception ends it and is logged
    unfoldable pub consume_arrivals :
        List (Arrival Event) → KafkaAuditConsumer → Store → KafkaAuditConsumer × Store
    consume_arrivals [] c s = (c, s)
    consume_arrivals (broken ∷ rest) c s = (c, s)
    consume_arrivals (stopped ∷ rest) c s = consume_arrivals rest (disconnect c) s
    consume_arrivals (message event ∷ rest) c s =
        let chain_hash = compute_hash_chain (dumps event) c.last_hash in
        let (r, s') = persist_fn event chain_hash s in
        let more = consume_arrivals rest (record c { last_hash = chain_hash }) s' in
        if not c.running then (c, s) else elim r [ ok _ ↦ more | err _ ↦ (c, s') ]

    unfoldable pub consume :
        List (Arrival Event) → KafkaAuditConsumer → Store → KafkaAuditConsumer × Store
    unfolding consume_arrivals
    consume arrivals c s =
        if not c.connected
        then (c, s)
        else consume_arrivals arrivals (record c { running = true }) s
