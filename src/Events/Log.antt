-- ===== src/Events/Log.antt =====
-- What the consumer has stored, as an append-only log.
use mathlib.Core.List.{append-nil, append_assoc}
use open_data_gov.Prelude.{
  String, ◌≡◌, refl, ap, ◌∙◌, sym, Bool, true, false, List, [], ◌∷◌, ◌++◌, Bool-cases, inl, inr,
  if◌then◌else◌, not,
}
use open_data_gov.Prelude.Exec.{Result-cases, ok, err, Exec}
use open_data_gov.Runtime.{Runtime}
use open_data_gov.Events.Chain.{chained, chain_end}
use open_data_gov.Events.Consumer.{
  KafkaAuditConsumer, Arrival, compute_hash_chain, consume_arrivals, consume,
}

-- A storage of events with their hashes, in the order in which they were stored: what is stored
-- without an exception is appended, and an exception stores nothing.
pub record IsLog {Event Store Failure : Type 0}
    (persist_fn : Event → String → Exec Store Failure (Unit {0}))
    (entries : Store → List (Event × String)) : Type 0 where
  pub persisted :
      (e : Event) (h : String) (s : Store)
      → (persist_fn e h s).0 ≡ ok tt
      → entries (persist_fn e h s).1 ≡ entries s ++ (e, h) ∷ []
  pub refused :
      (e : Event) (h : String) (s : Store) (x : Failure)
      → (persist_fn e h s).0 ≡ err x
      → entries (persist_fn e h s).1 ≡ entries s

-- the events of the messages
unfoldable pub messages : {Event : Type 0} → List (Arrival Event) → List Event
messages [] = []
messages (Arrival.message e ∷ rest) = e ∷ messages rest
messages (_ ∷ rest) = messages rest

-- The first list begins the second.
abbrev pub IsPrefix : {A : Type 0} → List A → List A → Type 0
IsPrefix {A} xs ys = (rest : List A) × (xs ++ rest ≡ ys)

module _ ⦃rt : Runtime⦄ {Event Store Failure : Type 0} (dumps : Event → String)
    (persist_fn : Event → String → Exec Store Failure (Unit {0}))
    (entries : Store → List (Event × String)) (is_log : IsLog persist_fn entries) where
  -- What a run of the consumer has added: the chain of some events, and its end is the hash that
  -- the consumer keeps.
  abbrev pub Extends : List Event → KafkaAuditConsumer → Store → KafkaAuditConsumer × Store → Type 0
  Extends ms c s after =
      (events : List Event) × IsPrefix events ms
      × (entries after.1 ≡ entries s ++ chained dumps c.last_hash events)
      × (after.0.last_hash ≡ chain_end dumps c.last_hash events)

  nothing :
      (ms : List Event) (c c' : KafkaAuditConsumer) (s s' : Store)
      → entries s' ≡ entries s
      → c'.last_hash ≡ c.last_hash
      → Extends ms c s (c', s')
  unfolding chained chain_end
  nothing ms c c' s s' e l = ([], (ms, refl), e ∙ sym (append-nil (entries s)), l)

  extended :
      (m : Event) (ms : List Event) (c : KafkaAuditConsumer) (s : Store)
      (after : KafkaAuditConsumer × Store)
      → let h = compute_hash_chain (dumps m) c.last_hash in
        (persist_fn m h s).0 ≡ ok tt
        → Extends ms (record c { last_hash = h }) (persist_fn m h s).1 after
        → Extends (m ∷ ms) c s after
  unfolding chained chain_end
  extended m ms c s after kept (events, (rest, e), stored, last) = (
    m ∷ events,
    (rest, ap (λ x. m ∷ x) e),
    rw (stored, is_log.persisted m _ s kept) (append_assoc (entries s) _ _),
    last,
  )

  consume_arrivals-Extends :
      (arrivals : List (Arrival Event)) (c : KafkaAuditConsumer) (s : Store)
      → Extends (messages arrivals) c s (consume_arrivals dumps persist_fn arrivals c s)
  unfolding consume_arrivals messages
  consume_arrivals-Extends [] c s = nothing [] c c s s refl refl
  consume_arrivals-Extends (Arrival.broken ∷ rest) c s = nothing _ c c s s refl refl
  consume_arrivals-Extends (Arrival.stopped ∷ rest) c s = consume_arrivals-Extends rest _ s
  consume_arrivals-Extends (Arrival.message m ∷ rest) c s =
      let h = compute_hash_chain (dumps m) c.last_hash in
      elim (Bool-cases c.running) [
        | inr off ↦ rw off (nothing _ c c s s refl refl)
        | inl on ↦ elim (Result-cases (persist_fn m h s).0) [
          | inl (u, kept) ↦
              rw (on, kept)
                (extended m (messages rest) c s
                  (consume_arrivals dumps persist_fn rest (record c { last_hash = h })
                    (persist_fn m h s).1)
                  kept
                  (consume_arrivals-Extends rest (record c { last_hash = h }) (persist_fn m h s).1))
          | inr (x, failed) ↦
              rw (on, failed) (nothing _ c c s _ (is_log.refused m h s x failed) refl)
        ]
      ]

  either :
      (test : Bool) (ms : List Event) (c : KafkaAuditConsumer) (s : Store)
      (x y : KafkaAuditConsumer × Store)
      → Extends ms c s x
      → Extends ms c s y
      → Extends ms c s (if test then x else y)
  either true ms c s x y hx hy = hx
  either false ms c s x y hx hy = hy

  -- Whatever the messages, the exceptions and the moment of a disconnect, a run of the consumer
  -- appends to the log the hash chain of the events of the first messages, from the hash that the
  -- consumer had, and the consumer keeps the hash at the end of it.
  pub consume-Extends :
      (arrivals : List (Arrival Event)) (c : KafkaAuditConsumer) (s : Store)
      → Extends (messages arrivals) c s (consume dumps persist_fn arrivals c s)
  unfolding consume
  consume-Extends arrivals c s =
      either (not c.connected) _ c s (c, s) _ (nothing _ c c s s refl refl)
        (consume_arrivals-Extends arrivals (record c { running = true }) s)
