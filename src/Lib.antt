-- ===== src/Lib.antt =====
-- Motivra backend: a model of its core domains, translated from the Go sources under backend/.
--
-- The backend is a set of Go services over PostgreSQL. Each domain package has the same shape: plain
-- validated types, status machines held as transition maps, a scope that says which rows a caller may
-- see, a store of SQL transactions, a service that composes them, and HTTP handlers around the
-- service. The parts that are modelled, and the files that model them:
--
-- Vehicles/Vin: backend/vehicles/vin.go (NormalizeVIN, ValidateVIN, vinCheckDigit).
-- Payments/Money: backend/payments/money.go; `int64` is ℤ with its wrap-around written out.
-- Payments/Status: backend/payments/statemachine.go, with the generic walker over a transition map.
-- Prelude/Among: the rows of a list, for statements on which rows there are.
-- Payments/Scope: backend/payments/scope.go, the row predicate of ADR-0004 and the scope of a caller.
-- Payments/Types, Payments/World: backend/payments/models.go and provider.go; the five tables, the
-- published events and the environment as one record that every call reads and writes.
-- Payments/Store: backend/payments/store.go (PostgresStore) with the checks, unique indexes and
-- triggers of backend/migrations/payments.
-- Payments/Service, Payments/Reconcile: backend/payments/service.go (InitiatePayment, HandleWebhook,
-- RefundPayment) and reconcile.go (Reconciler.Run).
-- Jobs/Status, Jobs/World, Jobs/Store, Jobs/Service: backend/jobs (statemachine.go, models.go, scope.go,
-- store.go, service.go): the conversion of a request into a job, its moves, assignments and acceptances.
-- Jobs/Audit: the invariant of the jobs tables.
-- Identity/Roles, Identity/World: backend/identity/models.go, audit.go and events.go; the tables of users,
-- grants, sessions, verification tokens and audit entries, the published events and the environment.
-- Identity/Store: backend/identity/store.go (PostgresStore) with the unique indexes of
-- backend/migrations/identity.
-- Identity/Password, Identity/Issuer, Identity/Email, Identity/Service: backend/identity/password.go,
-- tokens.go, the address pattern, and the service in service.go, sessions.go and verification.go.
-- Identity/Evolution, Identity/Protocol, Identity/Rotation: how the tables may change over any history of
-- calls, the protocol of a session that they refine, and what becomes of tokens that were used.
-- Identity/Directory, Identity/PasswordChange, Identity/Refusals: what single calls give and leave.
-- Inspections/Status: backend/inspections/statemachine.go.
-- Inspections/World, Inspections/Scope, Inspections/Templates: backend/inspections/models.go, scope.go and
-- templates.go; the tables of sessions, findings, evidence, reports and transitions.
-- Inspections/Store: backend/inspections/store.go (PostgresStore) with the checks and triggers of
-- backend/migrations/inspections.
-- Inspections/Report, Inspections/Service: backend/inspections/report.go and service.go, from the opening of
-- a session to the verification of its report.
-- Inspections/Evolution, Inspections/Sealed: how the tables may change over any history of calls.
-- Inspections/Inserted, Inspections/Issued, Inspections/Runs, Inspections/Verified: what the issue of a
-- report leaves, and what a later verification of it finds. Inspections/Selection, Inspections/Readiness and
-- Inspections/Refusals: the latest findings, the tests before a report, and the calls that are refused.
-- Platform/RateLimit: backend/platform/ratelimit.go, the in-process limiter (Allow).
--
-- A call is a function of the world that returns a result or an error together with the world that it
-- leaves, so what was written before an early return stays written (Prelude/Exec). Whether a database
-- call or a publication fails is read from a list in the world: a theorem for every world is one for
-- every pattern of failures. A provider (sandbox, Daraja) is a record of arbitrary answer functions,
-- and so are the hash of a body, the redaction of free text and the parser of identifiers.
--
-- Payments/Calls holds the interfaces that the long-run theorems go through: the laws of the writes
-- (WriteLaws) give those of the store calls (StoreLaws), and these give every history of calls of the
-- service and the reconciler, in any order and with the clock set freely between them (History). The
-- ledger (Ledger), the audit trail (Audit), the coupling of transactions and intents (Settled) and the
-- correlation of provider references (Redelivery/Correlation) are instances of these interfaces.
--
-- The identity service is treated in the same way: Identity/Evolution says what one row may become and
-- what every call keeps, its rules are a ruleset (Identity/Evolution/Rules) that automatic search
-- applies to each call, and the histories of calls follow. The keyed digest of a token, the signature of
-- the claims and argon2 are arbitrary functions.
--
-- A read under a scope renders a condition with placeholders and passes their values. A personal scope
-- renders one placeholder and passes its value twice (payments/scope.go, inspections/scope.go,
-- jobScopePredicate in jobs/store.go), which the driver refuses: such a read fails here as a failing
-- statement (arguments_fit), and the theorems on what a caller is answered say which scopes they are about.
-- Otherwise a statement is modelled by the rows that it asks for. The decoding of rows is left out, so NULL
-- in a text column reads as the empty text, where the scan into a Go string fails, and ListStaleIntents
-- returns rows, where PostgreSQL refuses its ambiguous columns; a failure of these reads is one of the
-- failures that the theorems on histories allow at every call.
--
-- Loops are structural recursion on the lists that they walk. Only the digits of a number in a report take
-- fuel, one more than the number (`decimal`); with fuel above the number the digits do not depend on it
-- (decimal_from-enough in Inspections/Digits). A call is one step: two calls do not interleave inside
-- each other, since each store call is one database transaction with row locks; what interleaves between
-- the store calls of two service calls is not modelled. The clock stands still during one call of the
-- identity and the inspections service.
--
-- The inspections service is treated like the identity service. Its templates have identifiers that a
-- SHA-1 digest makes of their names and versions, an arbitrary function here; that they differ is a
-- hypothesis of the theorems that need it. SHA-256, the encoding as JSON, the printed identifiers and times
-- and what the database gives back for a text in a jsonb column are arbitrary functions.
--
-- Not modelled: the HTTP handlers, the intake of service requests (CreateRequest), metrics, logging,
-- the decoding of rows by the driver, the list reads of payments and jobs, the adapters sandbox.go and
-- daraja.go and the webhook signature (webhook.go), the breach checkers and the audit listing of the
-- identity domain, the scope of a caller in the inspections domain, the other domains (dispatch, garages,
-- the vehicle registry beyond the VIN) and the rest of the platform package.
pub mod Identity
pub mod Inspections
pub mod Jobs
pub mod Payments
pub mod Platform
pub mod Prelude
pub mod Vehicles
