-- ===== src/Lib.antt =====
-- OpenDataGov is a data governance platform: Python services over a shared core library,
-- libs/python/odg-core. This library models the parts that carry its rules.
--
-- The governance engine (services/governance-engine/src/governance_engine) keeps decisions, the
-- votes on them, vetoes, RACI roles and an audit trail. A request runs in one transaction: a route
-- (api) calls a service (domain), which reads and writes tables through repositories
-- (repository/postgres.py) and records audit events, each hashed together with the hash before it.
--
-- Runtime what comes from outside: uuid4, the clock, str, isoformat, json.dumps, sha256 Enums/*
-- odg_core/enums.py, a data type for each enumeration and the members' values Models,
-- Models/Promotion odg_core/models.py: records, veto expiry, the folding of promotion columns
-- Audit odg_core/audit.py: compute_hash, seal, verify, verify_chain Governance/Session api/deps.py
-- and db/tables.py: `World` is the tables as lists of rows in the order of insertion, with the
-- number of identifiers and times drawn so far; `Error` is what a request may raise
-- Governance/Construct the constructors of the models, with their default factories and
-- constraints Governance/Repository/* one module for each Pg…Repository; a method keeps its name
-- Governance/AuditService, DecisionService, ApprovalService, VetoService, RoleService the services
-- of domain/; a method keeps its name Governance/Api `Request` has a constructor for each route of
-- api/routes_*.py, `handle` is the route's call, `serve` adds the body's validation, the
-- transaction and the status of the reply, and `run` serves a sequence of requests
-- Governance/Trail, Lifecycle, Consent, Vetoing, Uniqueness the theorems on the trail, on the
-- status of decisions, on approvals, on vetoes, and on the numbers of roles and votes
--
-- An action is a function from a state to a result and a state (Prelude/Exec): what was written
-- before an exception stays written until the transaction undoes it. Prelude/Follows says what an
-- action does to the state whatever its outcome, Prelude/Returns what is known when it returns, and
-- Governance/Respects lifts a relation that the basic operations keep to every service.
--
-- Events (services/governance-engine/src/governance_engine/events and odg_core/audit_kafka.py):
-- Events/Consumer is kafka_consumer.py, whose loop runs over a list of arrivals: a message, an
-- exception of the client, or a `disconnect` by another task. Events/Producer is kafka_producer.py
-- with the envelope of audit_kafka.py, and Events/Publisher is publisher.py. What the storage of
-- the consumer documents is `IsLog` (Events/Log).
--
-- Data contracts (odg_core/contracts): Contracts/Schema holds the records, Contracts/Breaking the
-- changes of breaking.py, Contracts/Governance the evaluation of governance.py, and
-- Contracts/Validator validate_data. A dict comprehension over columns is `dict_from`, in which a
-- later column of the same name replaces the value of an earlier one (Prelude/Dict).
--
-- The lakehouse agent (services/lakehouse-agent/src/lakehouse_agent): Lakehouse/Promotion models
-- promote of promotion.py over an abstract storage, the record `BucketManager` of protocols.py,
-- whose documented behaviour is `IsStorage`. Floats are a parameter with `<` and the value of
-- literals. Storage/Manager is minio_client.py over the methods of the MinIO client
-- (Storage/Client), of which Storage/Documented states what they document of buckets, of objects
-- and of responses, which are open until they are closed; Storage/Api holds the routes of api.
-- `minio_manager` has the operations that Lakehouse takes.
--
-- Compliance (odg_core/compliance): one module for each checker, with its rules in their order;
-- Compliance/Registry is registry.py, and Compliance/Default the registry with every checker.
-- Compliance/DamaCoverage and Compliance/AiRisk are dama_coverage.py and ai_risk.py. A score is
-- kept as the quotient that it is, and a comparison with a literal is that of the fractions, which
-- division and rounding do not disturb for the few rules that a checker has. Of a context's value
-- only its truth is read, or its text or list of texts.
--
-- Privacy (odg_core/privacy): Privacy/Classification holds the controls of each classification and
-- the policy of a jurisdiction, Privacy/Masking and Privacy/Maskers the maskers of masking.py,
-- with the slices of a text written out, and Privacy/Detector is detector.py.
--
-- Quality (odg_core/quality and services/quality-gate/src/quality_gate): Quality/Dimensions is the
-- scorer of dimensions.py, Quality/Sla and Quality/Reviewer are sla.py and reviewer.py, and
-- Quality/Engine is engine.py with the routes of api; the files of the suites are a function from
-- their names, and a suite that the engine trips over raises (`suite_error`). Scores are fractions
-- (Quality/Fractions): floats round them, which keeps 0, 1 and the order.
--
-- The data expert (services/data-expert/src/data_expert and odg_core/expert.py): Expert/Capability
-- holds the records, Expert/Mock is expert.py, Expert/Api the routes of api, Expert/Rules and
-- Expert/Discovery are active_metadata. The confidence that is drawn and the search of a regular
-- expression, which may raise in Expert/Rules, are parameters.
--
-- Metadata (odg_core/metadata): Metadata/Dataset is odg_schema.py, Metadata/DataHub and
-- Metadata/OpenLineage are the two adapters. A dict is a record with an option for each entry that
-- is read. Lineage (odg_core/lineage): Lineage/Emitter is models.py and emitter.py, and
-- Lineage/Consumer is consumer.py.
--
-- Auth (odg_core/auth): Auth/Users is models.py, Auth/Clients is keycloak.py and opa.py with the
-- singletons of middleware.py as a state, and Auth/Dependencies is dependencies.py. The reply of
-- the policy engine is a parameter.
--
-- Vault (odg_core/vault): Vault/Client is client.py and Vault/Sse is minio_sse.py, over what they
-- call of the package hvac (Vault/Hvac).
--
-- Observability/Drift is odg_core/observability/schema_drift.py.
--
-- Schema (odg_core/migrations/versions): one module for each migration, with its upgrade and
-- downgrade as lists of operations; what an operation does to a database is a parameter, and
-- `Drops` says that dropping what was just created undoes it.
--
-- Identifiers and times are numbers; times are microseconds. Hypotheses on what is outside are
-- `IsRegular` (texts of identifiers and digests have the lengths that the columns allow) and
-- `IsReadable` (a text of json.dumps or isoformat determines the values that it was made from, up
-- to the order of keys). Nothing is supposed of the clock, nor that digests differ: where a
-- theorem needs times that grow it says so of the stored events, and where digests of two logs may
-- collide it names the two texts that do. A transaction undoes the writes of a request that
-- raises, as SQLAlchemy's session.begin documents. Every function is total: loops are recursion on
-- lists, and no fuel is used.
--
-- Not modelled, since they only call libraries and services or configure them: settings, wiring of
-- the applications, database engine, telemetry, the other modules of observability, the loading of
-- YAML files and the Go gateway. Differential privacy draws random floats, and a model card is a
-- record that is printed.
--
-- Scenarios holds two runtimes and the theorems at concrete inputs.
pub mod Prelude
pub mod Enums
pub mod Runtime
pub mod Models
pub mod Audit
pub mod Governance
pub mod Events
pub mod Contracts
pub mod Lakehouse
pub mod Compliance
pub mod Privacy
pub mod Quality
pub mod Expert
pub mod Lineage
pub mod Metadata
pub mod Auth
pub mod Observability
pub mod Storage
pub mod Schema
pub mod Scenarios
pub mod Vault
