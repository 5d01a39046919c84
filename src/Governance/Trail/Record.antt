-- ===== src/Governance/Trail/Record.antt =====
-- The result of `record_event`, in terms of the stored events, and the invariant that it keeps.
use open_data_gov.Prelude.{
  suc, String, ◌≡◌, Bool, ◌&&◌, [], ◌∷◌, ◌++◌, arith, any, has_length, if◌then◌else◌, ◌==◌, nat_eq,
  Bool-cases, inl, inr, not, sym, subst,
}
use open_data_gov.Prelude.Exec.{ok, err, ◌>>=◌}
use open_data_gov.Prelude.Follows.{IsPreorder}
use open_data_gov.Prelude.Sort.{IsIncreasing}
use open_data_gov.Enums.Governance.{AuditEventType}
use open_data_gov.Runtime.{Runtime, Details, IsRegular}
use open_data_gov.Audit.{AuditEvent, genesis_hash, seal}
use open_data_gov.Audit.Chain.{IsChain, IsChain-append}
use open_data_gov.Governance.Session.{
  World, validation_error, integrity_error, add_row, uuid4, utcnow,
}
use open_data_gov.Governance.Construct.{new_audit_event, validate}
use open_data_gov.Governance.Repository.Events
use open_data_gov.Governance.Repository.Events.{occurred_at}
use open_data_gov.Governance.AuditService.{record_event}
use open_data_gov.Governance.Trail.Growth.{record_event-Appends}
use open_data_gov.Governance.Trail.Append.{
  stored_hash, stored_hash-IsChain, get_last_hash-IsIncreasing, IsIncreasing-prefix,
}

module _ ⦃rt : Runtime⦄ where
  -- Where the times of the events grow in the later state, they grew in the earlier one, and an
  -- earlier trail that verifies leads to a later one that does.
  pub record KeepsAudited (w w' : World) : Type 0 where
    pub grew : IsIncreasing occurred_at w'.events → IsIncreasing occurred_at w.events
    pub kept :
        IsIncreasing occurred_at w'.events
        → IsChain genesis_hash w.events
        → IsChain genesis_hash w'.events

  pub KeepsAudited-IsPreorder : IsPreorder KeepsAudited
  KeepsAudited-IsPreorder = record {
    reflexive = λ w. record { grew = λ h. h; kept = λ h c. c };
    transitive = λ a b c f g. record {
      grew = λ h. f.grew (g.grew h);
      kept = λ h chained. g.kept h (f.kept (g.grew h) chained);
    };
  }

  -- An operation that leaves the events alone keeps the trail audited.
  pub silent-KeepsAudited : (w w' : World) → w'.events ≡ w.events → KeepsAudited w w'
  silent-KeepsAudited w w' e = record { grew = λ h. rw (sym e) h; kept = λ h chained. rw e chained }

  module _ (event_type : AuditEventType) (entity_type entity_id actor_id description : String)
      (details : Details) (w : World) where
    -- the fields that the constructor checks before the previous hash
    abbrev pub event_fits : Bool
    event_fits =
        has_length 1 100 entity_type
        && has_length 1 200 entity_id
        && has_length 1 200 actor_id
        && has_length 0 64 (stored_hash w.events)

    -- the event that is stored
    abbrev pub next_event : AuditEvent
    next_event = seal (record {
      id = rt.uuid4 w.ids;
      event_type = event_type;
      entity_type = entity_type;
      entity_id = entity_id;
      actor_id = actor_id;
      description = description;
      details = details;
      occurred_at = rt.now w.ticks;
      previous_hash = stored_hash w.events;
      event_hash = "";
    })

    abbrev pub drawn : World
    drawn = record w { ids = suc w.ids; ticks = suc w.ticks }

    -- Where the times of the stored events grow, `record_event` draws an identifier and a time, and
    -- then: refuses an event whose texts do not fit, refuses an identifier that the table holds,
    -- or stores the sealed event after the others, linked to the hash of the latest one.
    pub record_event_lem :
        IsIncreasing occurred_at w.events
        → record_event event_type entity_type entity_id actor_id description details w ≡ (
            if not event_fits
            then (err validation_error, drawn)
            else if any (λ r. r.id == next_event.id) w.events
            then (err integrity_error, drawn)
            else (ok next_event, record drawn { events = w.events ++ next_event ∷ [] }))
    unfolding record_event new_audit_event validate uuid4 utcnow Events.create add_row ◌>>=◌
    record_event_lem growing = rw (get_last_hash-IsIncreasing w growing, ◌>>=◌) (ground arith)

    record_event-grew :
        IsIncreasing occurred_at
          (record_event event_type entity_type entity_id actor_id description details w).1.events
        → IsIncreasing occurred_at w.events
    record_event-grew later =
        let appends =
          (record_event-Appends event_type entity_type entity_id actor_id description details).at
            w in
        IsIncreasing-prefix occurred_at w.events appends.added
          (subst (IsIncreasing occurred_at) appends.appended later)

    record_event-IsChain :
        IsRegular rt
        → IsIncreasing occurred_at w.events
        → IsChain genesis_hash w.events
        → IsChain genesis_hash
            (record_event event_type entity_type entity_id actor_id description details w).1.events
    record_event-IsChain regular growing chained =
        let written : IsChain genesis_hash (w.events ++ next_event ∷ []) =
          IsChain-append genesis_hash w.events _ chained
            (stored_hash-IsChain regular w.events chained) in
        rw (record_event_lem growing) (elim (Bool-cases event_fits) [
          | inl fits ↦ elim (Bool-cases (any (λ r. r.id == next_event.id) w.events)) [
            | inl taken ↦ rw (fits, taken) chained
            | inr fresh ↦ rw (fits, fresh) written
          ]
          | inr misfits ↦ rw misfits chained
        ])

    pub record_event-KeepsAudited :
        IsRegular rt
        → KeepsAudited w
            (record_event event_type entity_type entity_id actor_id description details w).1
    record_event-KeepsAudited regular = record {
      grew = record_event-grew;
      kept = λ later. record_event-IsChain regular (record_event-grew later);
    }
