-- ===== src/Governance/Consent/Frame.antt =====
-- Finalizing a decision leaves the roles and the votes alone.
use open_data_gov.Prelude.{◌≡◌, refl, ◌∙◌, ℕ, String, List}
use open_data_gov.Prelude.Exec.{modify}
use open_data_gov.Prelude.Follows.{Follows, IsPreorder, follows_rules}
use open_data_gov.Enums.Governance.{AuditEventType, DecisionStatus}
use open_data_gov.Runtime.{Runtime, Details}
use open_data_gov.Models.Promotion.{GovernanceDecisionRow}
use open_data_gov.Governance.Session.{World, Error, utcnow}
use open_data_gov.Governance.Repository.Decisions
use open_data_gov.Governance.AuditService.{record_event}
use open_data_gov.Governance.DecisionService.{finalize}
use open_data_gov.Governance.Lifecycle.Frame.{record_event-SameTables}

pub record SameVotes (w w' : World) : Type 0 where
  pub same_roles : w'.roles ≡ w.roles
  pub same_approvals : w'.approvals ≡ w.approvals

SameVotes-IsPreorder : IsPreorder SameVotes
SameVotes-IsPreorder = record {
  reflexive = λ w. record { same_roles = refl; same_approvals = refl };
  transitive = λ a b c f g. record {
    same_roles = g.same_roles ∙ f.same_roles;
    same_approvals = g.same_approvals ∙ f.same_approvals;
  };
}

decisions-SameVotes :
    (f : World → List GovernanceDecisionRow)
    → Follows {E = Error} SameVotes (modify (λ w. record w { decisions = f w }))
unfolding modify
decisions-SameVotes f = record { at = λ w. record { same_roles = refl; same_approvals = refl } }

module _ ⦃rt : Runtime⦄ where
  utcnow-SameVotes : Follows SameVotes utcnow
  unfolding utcnow
  utcnow-SameVotes = record { at = λ w. record { same_roles = refl; same_approvals = refl } }

  record_event-SameVotes :
      (t : AuditEventType) (a b c d : String) (details : Details)
      → Follows SameVotes (record_event t a b c d details)
  record_event-SameVotes t a b c d details = record {
    at = λ w.
        let tables = (record_event-SameTables t a b c d details).at w in
        record { same_roles = tables.roles; same_approvals = tables.approvals };
  }

  pub finalize-SameVotes :
      (d : ℕ) (s : DecisionStatus) (a : String) → Follows SameVotes (finalize d s a)
  unfolding finalize Decisions.get_by_id Decisions.update
  finalize-SameVotes d s a =
      search
        (
          follows_rules, SameVotes-IsPreorder, decisions-SameVotes, utcnow-SameVotes,
          record_event-SameVotes,
        )
        depth 30
