-- ===== src/Lib.antt =====
-- metaframer_kernel: a model of the application kernel in src/application and src/domain, with
-- its correctness theorems. The kernel decides whether a caller may act (policy evaluation), logs
-- its decisions in a chain of hashes, takes an action through its stages to the commit, hands out
-- instants (clock) and runs bodies inside transactions (unit of work), behind a router and the
-- receiving end of a server; each of its objects is built from values that arbitrary JavaScript
-- callers supply, and refuses whatever is not exactly of the expected shape.
--
-- Js models those values: primitives, and references into a heap of objects with a prototype, own
-- properties and descriptors; Js.Shape has the shape tests that the components share. Text models
-- strings as lists of code units, with the anchored regular expressions in Text.Forms and
-- Text.Semver. Base has outcomes (a value or a fault; messages are left out), effects on a world
-- for calls of collaborators, lists and integers.
--
-- - Canonical: canonicalValue and its roots of src/application/action-primitives.mjs, which
--   policy-decision.mjs and policy-statement.mjs repeat. Canonical.Sorting, Canonical.Bounds and
--   Canonical.Walk hold its proofs.
-- - Policy.Types, Policy.Decision: the values of src/application/policy-decision.mjs and the
--   checks of its PolicyDecision constructor.
-- - Policy.Evaluator: src/application/authorization-evaluator.mjs, from the checks of the
--   candidates (check_candidates) to the combination (combine, winner_from for winningPolicyId)
--   and decide.
-- - Policy.Statement, Policy.Resolver: the constructor of src/application/policy-statement.mjs
--   and the matching of src/application/policy-candidate-resolver.mjs.
-- - Policy.Point: src/application/policy-decision-point.mjs and policy-batch-evaluator.mjs, over
--   a collaborator candidatesFor that acts on a world and may throw.
-- - Clock: namesARealInstant, collaboratorOf and Clock.now of src/application/clock.mjs.
-- - DecisionLog: src/application/decision-log-entry.mjs, with SHA-256 of the JSON text of a
--   payload as a parameter; DecisionLog.Point: #logOne, decide and decideAll of
--   src/application/decision-logging-policy-decision-point.mjs. The port of
--   src/application/decision-log-port.mjs hands every genuine entry to its collaborator and is
--   that collaborator here. DecisionLog.Audit records what append took.
-- - Actions: the name and version of a command, and the optional auditor of the pipeline;
--   Actions.Envelopes: the constructors of Command and Query, and Actions.Errors: KernelError and
--   Result, all of src/application/action-primitives.mjs. Actions.Contract:
--   src/application/action-contract.mjs; Actions.Declaration and Actions.UseCase: use-case.mjs and
--   policy.mjs, with what passes the gate in Actions.UseCase.Gate.
-- - Identity: the forms of src/domain/identity-primitives.mjs, the idempotency key's fingerprint
--   with its digest as a parameter, and Identity.current of src/application/identity.mjs.
-- - Pipeline: CreateCustomerPipeline.run of src/application/create-customer-pipeline.mjs, stage
--   by stage; Pipeline.Commit: src/application/create-customer-commit-service.mjs;
--   Pipeline.Audited: the pipeline over the decision point that logs.
-- - Delivery: the loop of callFromReceive in src/delivery/asgi-core-profile.mjs, over the events
--   that a server delivers, the merge of the chunks, and in Delivery.Scope the test of a scope;
--   Delivery.Responses: toResponseEvents, of responses whose properties are data; Router: the
--   table of src/delivery/standard-router.mjs and its handle.
-- - DecisionLog.Row: verifyPersistedDecisionLogRow of
--   src/adapters/postgres-decision-log-adapter.mjs, over rows that hold JSON values or values of
--   other kinds; DecisionLog.Order: descendingKeyOrder, and the values that differ only in the
--   order of members. DecisionLog.Row.Entry writes an entry as its row, and
--   DecisionLog.Row.Binding says what an accepted row binds.
-- - Commit: the constructor of src/application/commit-receipt.mjs; Commit.Envelope:
--   src/application/write-envelope.mjs over a unit of work.
-- - Postgres: the driver's pool and the statements of src/adapters. Postgres.Log has append and
--   chainHead of postgres-decision-log-adapter.mjs, Postgres.Unit the port of
--   postgres-unit-of-work.mjs, Postgres.Intents, Postgres.Rows and Postgres.Write the write of
--   postgres-write-envelope-write.mjs. Postgres.Transaction records what an operation does to its
--   pool: each statement, whether it failed, and when the client was given back. What
--   JSON.stringify, String and toISOString answer is a parameter.
-- - Requests: src/delivery/create-customer-request-handler.mjs with
--   buildCreateCustomerActionSpec of src/sdk/create-customer.mjs; Requests.Http:
--   src/delivery/create-customer-http-message-adapter.mjs. An object that is made on the way is
--   placed at an address of the heap that is given. Requests.Headers follows the headers into the
--   action. Requests.Committed composes them with the commit service and the pipeline.
-- - Composition: createIdentityGuardAuditor of src/delivery/create-customer-composition.mjs, and
--   the pipeline that createAuditedCustomerComposition makes of it and of the logging decision
--   point; the four collaborators of the log are the same for both.
-- - UnitOfWork: UnitOfWork.run of src/application/unit-of-work.mjs over a port of three
--   functions, and in UnitOfWork.Interleaving its concurrent callers as a step relation, one step
--   for each await that settles.
-- - Tests: runs on concrete inputs, and each theorem at an input that meets its hypotheses.
--
-- An object's private fields are its record; whether a foreign value is an instance (its
-- prototype and its brand) is the record Foreign, and genuine is the test. The members of a
-- canonical object are listed in the order of their assignment. Proxies, which can answer a shape
-- test with code of their own, are outside the model of objects.
--
-- Where the source tests a descriptor, so does the model, and an accessor is refused as it is
-- there. Where it reads a property without that test (of the action spec, an HTTP message with
-- its headers, and a prepared change set), these objects are taken to hold data: what an accessor
-- of theirs would run is not modelled, and it reads as undefined. The readings that are made of a
-- value that a collaborator answered, the ok of the invariants and the name and version of an
-- action, are calls of the caller that may throw and change the world.
--
-- The walk of canonicalValue has fuel 17: it goes one container deeper with each unit and refuses
-- the seventeenth. Every other loop is structural.
--
-- Not modelled: the rest of the delivery layer; the constructor of PolicyRequest over options
-- that are not the two literals handed to it here; toJSON and equals of the values; the
-- repository's tools, the consumer application, the hosts and the database package.
pub mod Actions
pub mod Base
pub mod Canonical
pub mod Clock
pub mod Commit
pub mod Composition
pub mod DecisionLog
pub mod Delivery
pub mod Identity
pub mod Js
pub mod Pipeline
pub mod Policy
pub mod Postgres
pub mod Requests
pub mod Router
pub mod Tests
pub mod Text
pub mod UnitOfWork
