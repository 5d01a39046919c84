-- ===== src/Governance/Trail/Append.antt =====
-- `record_event` extends the chain of the stored events.
use open_data_gov.Prelude.{
  ℕ, String, ◌≡◌, ◌≢◌, refl, List, [], ◌∷◌, ◌++◌, none, some, map, take, arith, eq_iff, text_length,
  has_length,
}
use open_data_gov.Prelude.Exec.{ok}
use open_data_gov.Prelude.Sort.{head?, last?, IsIncreasing, order_by_desc, head-order_by_desc}
use open_data_gov.Runtime.{Runtime, IsRegular}
use open_data_gov.Audit.{AuditEvent, genesis_hash, payload, compute_hash}
use open_data_gov.Audit.Chain.{last_hash, IsChain}
use open_data_gov.Governance.Session.{World, scalar_one_or_none}
use open_data_gov.Governance.Repository.Events
use open_data_gov.Governance.Repository.Events.{occurred_at}
use open_data_gov.Governance.AuditService.{or_genesis}

module _ {A : Type 0} (f : A → String) where
  -- the first row of a query, as `limit(1)` and `scalar_one_or_none` give it
  first_row :
      (xs : List A)
      → scalar_one_or_none (take 1 (map f xs))
        ≡ ok (elim (head? xs) [ none ↦ none | some x ↦ some (f x) ])
  unfolding scalar_one_or_none
  first_row [] = refl
  first_row (x ∷ []) = refl
  first_row (x ∷ y ∷ xs) = refl

-- The hash of the latest stored event, or the genesis hash of an empty trail.
abbrev pub stored_hash : List AuditEvent → String
stored_hash es = or_genesis (elim (last? es) [ none ↦ none | some e ↦ some e.event_hash ])

pub get_last_hash-IsIncreasing :
    (w : World)
    → IsIncreasing occurred_at w.events
    → Events.get_last_hash w
      ≡ (ok (elim (last? w.events) [ none ↦ none | some e ↦ some e.event_hash ]), w)
unfolding Events.get_last_hash
get_last_hash-IsIncreasing w h = cc (
  first_row (λ e. e.event_hash) (order_by_desc occurred_at w.events),
  head-order_by_desc occurred_at w.events h,
)

pub IsIncreasing-prefix :
    (key : AuditEvent → ℕ) (es fs : List AuditEvent)
    → IsIncreasing key (es ++ fs)
    → IsIncreasing key es
IsIncreasing-prefix key [] fs h = tt
IsIncreasing-prefix key (x ∷ []) fs h = tt
IsIncreasing-prefix key (x ∷ y ∷ es) fs h = (h.0, IsIncreasing-prefix key (y ∷ es) fs h.1)

module _ ⦃rt : Runtime⦄ (regular : IsRegular rt) where
  digest-ne-empty : (e : AuditEvent) → compute_hash e ≢ ""
  unfolding compute_hash has_length text_length
  digest-ne-empty e h = cc (regular.digest_fits (rt.json_dumps (payload e)))

  last_of_chain :
      (h : String) (e : AuditEvent) (es : List AuditEvent)
      → IsChain h (e ∷ es)
      → (z : AuditEvent) × (last? (e ∷ es) ≡ some z)
        × (z.event_hash ≡ last_hash e.event_hash es)
        × (z.event_hash ≡ compute_hash z)
  last_of_chain h e [] c = (e, refl, refl, c.1)
  last_of_chain h e (f ∷ es) c = last_of_chain e.event_hash f es c.2

  -- In a chain the hash that `record_event` uses is that of the last event.
  pub stored_hash-IsChain :
      (es : List AuditEvent) → IsChain genesis_hash es → stored_hash es ≡ last_hash genesis_hash es
  unfolding or_genesis
  stored_hash-IsChain [] c = refl
  stored_hash-IsChain (e ∷ es) c =
      let (z, latest, linked, sealed) = last_of_chain genesis_hash e es c in
      rw latest (ground (arith, eq_iff z.event_hash "", digest-ne-empty z, linked, sealed))
