-- ===== src/Audit/Chain.antt =====
-- What `verify_chain` accepts, stated link by link, and how a chain grows.
use open_data_gov.Prelude.{String, ◌≡◌, refl, ◌↔◌, true, List, [], ◌∷◌, ◌++◌, arith, eq_iff, sym}
use open_data_gov.Runtime.{Runtime}
use open_data_gov.Audit.{
  AuditEvent, genesis_hash, compute_hash, payload, seal, verify, verify_links, verify_chain,
}

-- The hash that the next event must carry: that of the last event, or `h` before any.
abbrev pub last_hash : String → List AuditEvent → String
last_hash h [] = h
last_hash h (e ∷ es) = last_hash e.event_hash es

module _ ⦃rt : Runtime⦄ where
  -- Every event is sealed and carries the hash of the one before it, the first one `h`.
  abbrev pub IsChain : String → List AuditEvent → Type 0
  IsChain h [] = Unit
  IsChain h (e ∷ es) =
      (e.previous_hash ≡ h) × (e.event_hash ≡ compute_hash e) × IsChain e.event_hash es

  verify_links_iff :
      (prior : AuditEvent) (es : List AuditEvent)
      → (verify_links prior es ≡ true) ↔ IsChain prior.event_hash es
  unfolding verify_links verify
  verify_links_iff prior [] = ((λ _. tt), λ _. refl)
  verify_links_iff prior (e ∷ es) = (
    (λ h. ground (
      arith,
      (verify_links_iff e es).0,
      eq_iff e.event_hash (compute_hash e),
      eq_iff e.previous_hash prior.event_hash,
    )),
    λ h. ground (
      arith,
      (verify_links_iff e es).1,
      eq_iff e.event_hash (compute_hash e),
      eq_iff e.previous_hash prior.event_hash,
    ),
  )

  -- `verify_chain` accepts exactly the lists whose first event carries the genesis hash, whose
  -- every event is sealed, and whose every later event carries the hash of the one before it.
  pub verify_chain_iff : (es : List AuditEvent) → (verify_chain es ≡ true) ↔ IsChain genesis_hash es
  unfolding verify_chain verify
  verify_chain_iff [] = ((λ _. tt), λ _. refl)
  verify_chain_iff (e ∷ es) = (
    (λ h. ground (
      arith,
      (verify_links_iff e es).0,
      eq_iff e.event_hash (compute_hash e),
      eq_iff e.previous_hash genesis_hash,
    )),
    λ h. ground (
      arith,
      (verify_links_iff e es).1,
      eq_iff e.event_hash (compute_hash e),
      eq_iff e.previous_hash genesis_hash,
    ),
  )

  compute_hash-seal : (e : AuditEvent) → compute_hash (seal e) ≡ compute_hash e
  unfolding compute_hash payload seal
  compute_hash-seal e = refl

  -- A sealed event that carries the last hash extends the chain.
  pub IsChain-append :
      (h : String) (es : List AuditEvent) (e : AuditEvent)
      → IsChain h es
      → e.previous_hash ≡ last_hash h es
      → IsChain h (es ++ seal e ∷ [])
  unfolding seal
  IsChain-append h [] e c p = (p, sym (compute_hash-seal e), tt)
  IsChain-append h (f ∷ es) e c p = (c.0, c.1, IsChain-append f.event_hash es e c.2 p)

  pub IsChain-prefix : (h : String) (es fs : List AuditEvent) → IsChain h (es ++ fs) → IsChain h es
  IsChain-prefix h [] fs c = tt
  IsChain-prefix h (e ∷ es) fs c = (c.0, c.1, IsChain-prefix e.event_hash es fs c.2)
