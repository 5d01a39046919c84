-- ===== src/Audit/Tamper.antt =====
-- A chain that verifies fixes its content: the last hash commits to every event.
use open_data_gov.Prelude.{
  String, ◌≡◌, ◌≢◌, refl, ap, ◌∙◌, sym, ◌⊎◌, inl, inr, List, [], ◌∷◌, length, Option, none, some,
  true, if◌then◌else◌, ◌==◌, string_eq, arith, Bool-cases, ==_sound, ==_refl,
}
use open_data_gov.Prelude.Dict.{get}
use open_data_gov.Enums.Governance.{AuditEventType, audit_event_type_value}
use open_data_gov.Runtime.{Runtime, IsReadable, Scalar, Json}
use open_data_gov.Audit.{AuditEvent, genesis_hash, payload, compute_hash, verify_chain}
use open_data_gov.Audit.Chain.{last_hash, IsChain, verify_chain_iff}

-- Two events agree in all but their identifiers, which the hash leaves out; their details agree as
-- dicts, at every key.
pub record SameContent (e f : AuditEvent) : Type 0 where
  pub event_type : e.event_type ≡ f.event_type
  pub entity_type : e.entity_type ≡ f.entity_type
  pub entity_id : e.entity_id ≡ f.entity_id
  pub actor_id : e.actor_id ≡ f.actor_id
  pub description : e.description ≡ f.description
  pub details : (key : String) → get key e.details ≡ get key f.details
  pub occurred_at : e.occurred_at ≡ f.occurred_at
  pub previous_hash : e.previous_hash ≡ f.previous_hash
  pub event_hash : e.event_hash ≡ f.event_hash

-- The logs are equally long, and agree place by place.
abbrev pub Agree : List AuditEvent → List AuditEvent → Type 0
Agree [] [] = Unit
Agree [] (f ∷ fs) = ⊥
Agree (e ∷ es) [] = ⊥
Agree (e ∷ es) (f ∷ fs) = SameContent e f × Agree es fs

-- The member of a value, as `AuditEventType(value)` finds it.
audit_event_type_of : String → Option AuditEventType
audit_event_type_of s =
    if s == "decision_created"
    then some AuditEventType.decision_created
    else if s == "decision_submitted"
    then some AuditEventType.decision_submitted
    else if s == "approval_cast"
    then some AuditEventType.approval_cast
    else if s == "decision_approved"
    then some AuditEventType.decision_approved
    else if s == "decision_rejected"
    then some AuditEventType.decision_rejected
    else if s == "veto_exercised"
    then some AuditEventType.veto_exercised
    else if s == "veto_overridden"
    then some AuditEventType.veto_overridden
    else if s == "veto_expired"
    then some AuditEventType.veto_expired
    else if s == "decision_escalated"
    then some AuditEventType.decision_escalated
    else if s == "expert_registered"
    then some AuditEventType.expert_registered
    else if s == "expert_deregistered"
    then some AuditEventType.expert_deregistered
    else if s == "data_promoted"
    then some AuditEventType.data_promoted
    else if s == "role_assigned"
    then some AuditEventType.role_assigned
    else if s == "role_revoked"
    then some AuditEventType.role_revoked
    else none

audit_event_type_of_value :
    (a : AuditEventType) → audit_event_type_of (audit_event_type_value a) ≡ some a
unfolding audit_event_type_of
audit_event_type_of_value AuditEventType.decision_created = refl
audit_event_type_of_value AuditEventType.decision_submitted = refl
audit_event_type_of_value AuditEventType.approval_cast = refl
audit_event_type_of_value AuditEventType.decision_approved = refl
audit_event_type_of_value AuditEventType.decision_rejected = refl
audit_event_type_of_value AuditEventType.veto_exercised = refl
audit_event_type_of_value AuditEventType.veto_overridden = refl
audit_event_type_of_value AuditEventType.veto_expired = refl
audit_event_type_of_value AuditEventType.decision_escalated = refl
audit_event_type_of_value AuditEventType.expert_registered = refl
audit_event_type_of_value AuditEventType.expert_deregistered = refl
audit_event_type_of_value AuditEventType.data_promoted = refl
audit_event_type_of_value AuditEventType.role_assigned = refl
audit_event_type_of_value AuditEventType.role_revoked = refl

audit_event_type_value_inj :
    (a b : AuditEventType) → audit_event_type_value a ≡ audit_event_type_value b → a ≡ b
audit_event_type_value_inj a b h =
    cc (audit_event_type_of_value a, audit_event_type_of_value b, ap audit_event_type_of h)

module _ ⦃rt : Runtime⦄ where
  -- At some place, the events of the two logs have distinct payload texts with one digest.
  abbrev pub Collide : List AuditEvent → List AuditEvent → Type 0
  Collide [] fs = ⊥
  Collide (e ∷ es) [] = ⊥
  Collide (e ∷ es) (f ∷ fs) =
      ((rt.json_dumps (payload e) ≢ rt.json_dumps (payload f)) × (compute_hash e ≡ compute_hash f))
      ⊎ Collide es fs

module _ ⦃rt : Runtime⦄ (readable : IsReadable rt) where
  text_determines :
      (e f : AuditEvent)
      → rt.json_dumps (payload e) ≡ rt.json_dumps (payload f)
      → e.event_hash ≡ f.event_hash
      → SameContent e f
  unfolding payload get
  text_determines e f same hashes =
      let inj : (a b : String) → Scalar.str a ≡ Scalar.str b → a ≡ b = λ a b h. cc (h) in
      let text : (k a b : String)
          → get k (payload e) ≡ some (Json.scalar (Scalar.str a))
          → get k (payload f) ≡ some (Json.scalar (Scalar.str b))
          → a ≡ b =
        λ k a b x y. inj a b (readable.scalars _ _ k (Scalar.str a) (Scalar.str b) same x y) in
      record {
        event_type = audit_event_type_value_inj _ _ (text "event_type" _ _ refl refl);
        entity_type = text "entity_type" _ _ refl refl;
        entity_id = text "entity_id" _ _ refl refl;
        actor_id = text "actor_id" _ _ refl refl;
        description = text "description" _ _ refl refl;
        details = readable.objects _ _ "details" _ _ same refl refl;
        occurred_at = readable.isoformat_inj _ _ (text "occurred_at" _ _ refl refl);
        previous_hash = text "previous_hash" _ _ refl refl;
        event_hash = hashes;
      }

  IsChain-determined :
      (h k : String) (es fs : List AuditEvent)
      → IsChain h es
      → IsChain k fs
      → length es ≡ length fs
      → last_hash h es ≡ last_hash k fs
      → ((h ≡ k) × Agree es fs) ⊎ Collide es fs
  IsChain-determined h k [] [] c d n l = inl (l, tt)
  IsChain-determined h k [] (f ∷ fs) c d n l = absurd (omega arith)
  IsChain-determined h k (e ∷ es) [] c d n l = absurd (omega arith)
  IsChain-determined h k (e ∷ es) (f ∷ fs) c d n l =
      elim (IsChain-determined e.event_hash f.event_hash es fs c.2 d.2 (omega arith) l) [
        | inr later ↦ inr (inr later)
        | inl (linked, rest) ↦
            let s = rt.json_dumps (payload e) in
            let t = rt.json_dumps (payload f) in
            elim (Bool-cases (s == t)) [
              | inr differ ↦
                  inr (inl ((λ same. cc (differ, same, ==_refl t)), sym c.1 ∙ linked ∙ d.1))
              | inl equal ↦
                  let same = text_determines e f (==_sound s t equal) linked in
                  inl (sym c.0 ∙ same.previous_hash ∙ d.0, (same, rest))
            ]
      ]

  -- Two logs of one length that verify and end in the same hash agree, in every field of every
  -- event but the identifiers, or else two events at one place of the two logs have distinct
  -- payload texts with one digest. The texts of `json.dumps` and `isoformat` are taken to determine
  -- the values that they were made from.
  pub verify_chain_tamper_evident :
      (es fs : List AuditEvent)
      → verify_chain es ≡ true
      → verify_chain fs ≡ true
      → length es ≡ length fs
      → last_hash genesis_hash es ≡ last_hash genesis_hash fs
      → Agree es fs ⊎ Collide es fs
  verify_chain_tamper_evident es fs c d n l =
      elim (IsChain-determined genesis_hash genesis_hash es fs ((verify_chain_iff es).0 c)
        ((verify_chain_iff fs).0 d) n l) [ inl (_, same) ↦ inl same | inr found ↦ inr found ]
