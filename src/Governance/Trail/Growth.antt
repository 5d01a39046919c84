-- ===== src/Governance/Trail/Growth.antt =====
-- The stored events are never changed or removed: a run appends.
use mathlib.Core.List.{append-nil, append_assoc}
use open_data_gov.Prelude.{
  ◌≡◌, refl, sym, ◌∙◌, List, [], ◌∷◌, ◌++◌, arith, any, if◌then◌else◌, String, ◌==◌, nat_eq,
}
use open_data_gov.Prelude.Exec.{◌>>=◌}
use open_data_gov.Prelude.Follows.{Follows, IsPreorder, follows_rules}
use open_data_gov.Enums.Governance.{AuditEventType}
use open_data_gov.Runtime.{Runtime, Details}
use open_data_gov.Audit.{AuditEvent}
use open_data_gov.Governance.Session.{World, uuid4, utcnow, add_row}
use open_data_gov.Governance.Construct.{new_audit_event, validate}
use open_data_gov.Governance.Repository.Events
use open_data_gov.Governance.AuditService.{record_event}
use open_data_gov.Governance.Api.{Request, run}
use open_data_gov.Governance.Requests.{rolled_back, run-Follows}
use open_data_gov.Governance.Trail.Services.{silent-Respects}

-- The events of the second state are those of the first, and then some more.
pub record Appends (w w' : World) : Type 0 where
  pub added : List AuditEvent
  pub appended : w'.events ≡ w.events ++ added

silent-Appends : (w w' : World) → w'.events ≡ w.events → Appends w w'
silent-Appends w w' e = record { added = []; appended = e ∙ sym (append-nil w.events) }

Appends-IsPreorder : IsPreorder Appends
Appends-IsPreorder = record {
  reflexive = λ w. silent-Appends w w refl;
  transitive = λ a b c f g. record {
    added = f.added ++ g.added;
    appended = rw (g.appended, f.appended) (append_assoc a.events f.added g.added);
  };
}

create-Appends : (e : AuditEvent) → Follows Appends (Events.create e)
unfolding Events.create add_row ◌>>=◌
create-Appends e = record {
  at = λ w. record {
    added = if any (λ r. r.id == e.id) w.events then [] else e ∷ [];
    appended = ground (arith, append-nil w.events);
  };
}

get_last_hash-Appends : Follows Appends Events.get_last_hash
unfolding Events.get_last_hash
get_last_hash-Appends = record { at = λ w. silent-Appends w w refl }

module _ ⦃rt : Runtime⦄ where
  uuid4-Appends : Follows Appends uuid4
  unfolding uuid4
  uuid4-Appends = record { at = λ w. silent-Appends w _ refl }

  utcnow-Appends : Follows Appends utcnow
  unfolding utcnow
  utcnow-Appends = record { at = λ w. silent-Appends w _ refl }

  pub record_event-Appends :
      (t : AuditEventType) (a b c d : String) (details : Details)
      → Follows Appends (record_event t a b c d details)
  unfolding record_event new_audit_event validate
  record_event-Appends t a b c d details =
      search
        (
          follows_rules, Appends-IsPreorder, get_last_hash-Appends, create-Appends, uuid4-Appends,
          utcnow-Appends,
        )
        depth 30

  -- Whatever the requests, the events stored before them stand unchanged and in order at the head
  -- of the events stored after them.
  pub run-Appends : (w : World) (requests : List Request) → Appends w (run w requests)
  run-Appends =
      run-Follows (silent-Respects Appends-IsPreorder silent-Appends record_event-Appends)
        (λ w w' _. silent-Appends w (rolled_back w w') refl)
