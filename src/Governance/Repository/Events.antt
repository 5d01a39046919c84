-- ===== src/Governance/Repository/Events.antt =====
-- PgAuditRepository
use open_data_gov.Prelude.{
  ℕ, String, Bool, true, List, Option, none, some, map, select, take, drop, ◌==◌, string_eq,
}
use open_data_gov.Prelude.Exec.{pure, lift, gets, modify, ◌>>=◌, ◌>>◌}
use open_data_gov.Prelude.Sort.{order_by, order_by_desc}
use open_data_gov.Enums.Governance.{AuditEventType, audit_event_type_eq}
use open_data_gov.Audit.{AuditEvent}
use open_data_gov.Governance.Session.{Action, add_row, scalar_one_or_none}

abbrev pub occurred_at : AuditEvent → ℕ
occurred_at e = e.occurred_at

unfoldable pub create : AuditEvent → Action AuditEvent
create event = do
  w ← gets (λ w. w)
  rows ← lift (add_row (λ e. e.id) event w.events)
  modify (λ w. record w { events = rows })
  pure event

unfoldable pub get_last_hash : Action (Option String)
get_last_hash w =
    (scalar_one_or_none (take 1 (map (λ e. e.event_hash) (order_by_desc occurred_at w.events))), w)

unfoldable pub get_chain : ℕ → Action (List AuditEvent)
get_chain limit = gets (λ w. take limit (order_by occurred_at w.events))

unfoldable pub list_by_entity : String → ℕ → Action (List AuditEvent)
list_by_entity entity_id limit =
    gets (λ w. take limit (order_by occurred_at (select (λ e. e.entity_id == entity_id) w.events)))

unfoldable pub has_type : Option AuditEventType → AuditEvent → Bool
has_type none e = true
has_type (some event_type) e = e.event_type == event_type

unfoldable pub list_events : Option AuditEventType → ℕ → ℕ → Action (List AuditEvent)
list_events event_type limit offset = gets (λ w.
    take limit (drop offset (order_by_desc occurred_at (select (has_type event_type) w.events))))
