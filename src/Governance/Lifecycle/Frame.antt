-- ===== src/Governance/Lifecycle/Frame.antt =====
-- Recording an event leaves every table but the trail alone.
use open_data_gov.Prelude.{◌≡◌, refl, ◌∙◌, String, List}
use open_data_gov.Prelude.Exec.{modify}
use open_data_gov.Prelude.Follows.{Follows, IsPreorder, follows_rules}
use open_data_gov.Enums.Governance.{AuditEventType}
use open_data_gov.Runtime.{Runtime, Details}
use open_data_gov.Audit.{AuditEvent}
use open_data_gov.Governance.Session.{World, Error, uuid4, utcnow}
use open_data_gov.Governance.Construct.{new_audit_event, validate}
use open_data_gov.Governance.Repository.Events
use open_data_gov.Governance.AuditService.{record_event}

pub record SameTables (w w' : World) : Type 0 where
  pub decisions : w'.decisions ≡ w.decisions
  pub approvals : w'.approvals ≡ w.approvals
  pub vetoes : w'.vetoes ≡ w.vetoes
  pub roles : w'.roles ≡ w.roles

same : (w : World) → SameTables w w
same w = record { decisions = refl; approvals = refl; vetoes = refl; roles = refl }

pub SameTables-IsPreorder : IsPreorder SameTables
SameTables-IsPreorder = record {
  reflexive = same;
  transitive = λ a b c f g. record {
    decisions = g.decisions ∙ f.decisions;
    approvals = g.approvals ∙ f.approvals;
    vetoes = g.vetoes ∙ f.vetoes;
    roles = g.roles ∙ f.roles;
  };
}

get_last_hash-SameTables : Follows SameTables Events.get_last_hash
unfolding Events.get_last_hash
get_last_hash-SameTables = record { at = same }

events-SameTables :
    (f : World → List AuditEvent)
    → Follows {E = Error} SameTables (modify (λ w. record w { events = f w }))
unfolding modify
events-SameTables f = record {
  at = λ w. record { decisions = refl; approvals = refl; vetoes = refl; roles = refl };
}

module _ ⦃rt : Runtime⦄ where
  uuid4-SameTables : Follows SameTables uuid4
  unfolding uuid4
  uuid4-SameTables = record {
    at = λ w. record { decisions = refl; approvals = refl; vetoes = refl; roles = refl };
  }

  utcnow-SameTables : Follows SameTables utcnow
  unfolding utcnow
  utcnow-SameTables = record {
    at = λ w. record { decisions = refl; approvals = refl; vetoes = refl; roles = refl };
  }

  pub record_event-SameTables :
      (t : AuditEventType) (a b c d : String) (details : Details)
      → Follows SameTables (record_event t a b c d details)
  unfolding record_event new_audit_event validate Events.create
  record_event-SameTables t a b c d details =
      search
        (
          follows_rules, SameTables-IsPreorder, get_last_hash-SameTables, events-SameTables,
          uuid4-SameTables, utcnow-SameTables,
        )
        depth 30
