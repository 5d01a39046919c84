-- ===== src/Scenarios/Toy.antt =====
-- A runtime whose clock ticks and whose identifiers are numbered, with one digest for everything,
-- and the requests and rows that the scenarios use.
use open_data_gov.Prelude.{ℕ, List, [], ◌∷◌, none, refl, has_length, text_length}
use open_data_gov.Enums.Governance.{
  RaciRole, DecisionType, DecisionStatus, VoteValue, AuditEventType,
}
use open_data_gov.Runtime.{Runtime, IsRegular}
use open_data_gov.Models.Promotion.{GovernanceDecisionRow}
use open_data_gov.Audit.{AuditEvent, genesis_hash}
use open_data_gov.Governance.Session.{World, empty_world}
use open_data_gov.Governance.Api.{Request}

instance abbrev pub toy : Runtime
toy = record {
  uuid4 = λ n. n;
  now = λ n. n;
  uuid_text = λ id. "7b0f";
  time_text = λ t. "2026-01-01 00:00:00+00:00";
  isoformat = λ t. "2026-01-01T00:00:00+00:00";
  json_dumps = λ payload. "{}";
  sha256_hexdigest = λ s. genesis_hash;
}

pub toy-IsRegular : IsRegular toy
unfolding has_length text_length
toy-IsRegular = record { uuid_text_fits = λ id. refl; digest_fits = λ s. refl }

-- Ann is accountable and Bob responsible for the domain; Ann's decision is submitted, and both
-- approve it.
abbrev pub story : List Request
story =
    Request.assign_role "ann" "sales" RaciRole.accountable "root"
    ∷ Request.assign_role "bob" "sales" RaciRole.responsible "ann"
    ∷ Request.create_decision DecisionType.schema_change "Add a column" "" "sales" "ann" none []
    ∷ Request.submit_decision 4 "ann"
    ∷ Request.approve_decision 4 "ann" VoteValue.approve ""
    ∷ Request.approve_decision 4 "bob" VoteValue.approve "fine"
    ∷ Request.exercise_veto 4 "bob" "too late"
    ∷ []

abbrev pub stored_decision : DecisionStatus → GovernanceDecisionRow
stored_decision status = record {
  id = 4;
  decision_type = DecisionType.schema_change;
  title = "Add a column";
  description = "";
  status = status;
  domain_id = "sales";
  created_by = "ann";
  created_at = 3;
  updated_at = 3;
  metadata_json = [];
  source_layer = none;
  target_layer = none;
  data_classification = none;
}

abbrev pub stored_event : (id occurred_at : ℕ) → AuditEvent
stored_event id occurred_at = record {
  id = id;
  event_type = AuditEventType.decision_created;
  entity_type = "decision";
  entity_id = "4";
  actor_id = "ann";
  description = "Decision created: Add a column";
  details = [];
  occurred_at = occurred_at;
  previous_hash = genesis_hash;
  event_hash = genesis_hash;
}

-- one decision of a given status, and two events that a chain with a constant digest accepts
abbrev pub stored : DecisionStatus → World
stored status = record empty_world {
  decisions = stored_decision status ∷ [];
  events = stored_event 1 1 ∷ stored_event 2 2 ∷ [];
  ids = 7;
  ticks = 7;
}
