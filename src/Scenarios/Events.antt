-- ===== src/Scenarios/Events.antt =====
-- A consumer that stores what it reads, at concrete messages.
use open_data_gov.Prelude.{
  String, ◌≡◌, refl, ◌⊎◌, true, List, [], ◌∷◌, ◌++◌, string_eq, ◌==◌, if◌then◌else◌, arith,
}
use open_data_gov.Prelude.Exec.{ok, err, Exec}
use open_data_gov.Events.Consumer.{
  KafkaAuditConsumer, Arrival, compute_hash_chain, new_consumer, connect, consume,
}
use open_data_gov.Events.Chain.{chain_end, Collide, chain_end_determined}
use open_data_gov.Events.Log.{IsLog, messages, Extends, consume-Extends}
use open_data_gov.Scenarios.Toy.{toy, toy-IsRegular}

abbrev json : String → String
json event = event

chain_end_determined_example :
    (◌≡◌ {A = List String} ("created" ∷ []) ("vetoed" ∷ []))
    ⊎ Collide json "genesis" ("created" ∷ []) "genesis" ("vetoed" ∷ [])
unfolding chain_end compute_hash_chain
chain_end_determined_example =
    chain_end_determined toy-IsRegular json ("created" ∷ []) ("vetoed" ∷ []) refl refl

-- a storage that refuses an empty event
abbrev persist : String → String → Exec (List (String × String)) String (Unit {0})
persist event h log = if event == "" then (err "empty", log) else (ok tt, log ++ (event, h) ∷ [])

persist-IsLog : IsLog persist (λ log. log)
persist-IsLog = record {
  persisted = λ e h s kept. ground (arith, kept);
  refused = λ e h s x failed. ground (arith, failed);
}

abbrev arrivals : List (Arrival String)
arrivals =
    Arrival.message "created"
    ∷ Arrival.message "approved"
    ∷ Arrival.stopped
    ∷ Arrival.message "vetoed"
    ∷ []

abbrev consumer : KafkaAuditConsumer
consumer = connect true new_consumer

consume-Extends_example :
    Extends json persist
      (λ log. log)
      persist-IsLog
      (messages arrivals)
      consumer
      []
      (consume json persist arrivals consumer [])
consume-Extends_example =
    consume-Extends json persist (λ log. log) persist-IsLog arrivals consumer []
