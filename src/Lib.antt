-- ===== src/Lib.antt =====
-- GitHub Webhook Monitor: a service that receives GitHub webhooks, keeps a ledger of their
-- deliveries, finds a delivery again in GitHub's own history and asks GitHub to deliver it again.
--
-- The parts, and the files that model them:
--   * Domain (app/domain): the records with the checks of their constructors (Domain.Deliveries,
--     Domain.Management, Domain.RecoveryActions), JSON values, datetimes and parsed URLs.
--   * Storage (app/storage): the protocols `DeliveryStore` and `RecoveryActionStore` as records of
--     operations on a state, and the in-memory stores, whose state is a bounded deque
--     (Storage.Deque). Storage.Keyset has the list expressions of `list_attempts_page` and
--     `list_recent`, and of `list_attempts` in app/services/delivery_queries.py.
--   * Security (app/security.py): webhook signatures, the shared token, capabilities, and the OIDC
--     authenticator: Security.Oidc has its tests of headers, claims and documents, Oidc.Keys the
--     choice of the key, Oidc.Authenticator the methods that change the cache.
--   * Persistence (app/persistence): the columns and CHECK constraints (Persistence.Schema), and the
--     stores on PostgreSQL (Persistence.Actions, Persistence.Deliveries).
--   * Integrations.GitHub (app/integrations/github): the requests of the clients (GitHub.Requests) and
--     what they make of a reply.
--   * Services (app/services): Cursors (the codecs of the cursors), Webhooks (`ingest`), Queries (pages of the stores), Reconciliation
--     (`reconcile`) and Redelivery (`request_redelivery`). Services.Exec is a method that changes a
--     world and returns or raises; Exec.Yields has its rules under an invariant.
--   * Config (app/config.py): the validation of the settings.
--   * Assembly (app/factory.py, app/runtime.py, app/persistence/database.py): `create_app`, with the
--     connections that it opens as its state, and what the lifespan closes.
--   * Api (app/api): the checks of headers and body, the webhook handler and the access checks of
--     routes.py, the endpoints that read the stores (Api.Queries, with the models of Api.Responses),
--     and those that reach GitHub (Api.Reconciliation, Api.Redelivery).
--   * Prelude and Errors: text, bytes, numbers, lists; one constructor for each exception class.
--
-- How they meet: the webhook handler of Api makes a `WebhookDelivery` that Services.Webhooks turns
-- into an attempt for a `DeliveryStore`. Services.Redelivery asks Services.Reconciliation for the
-- deliveries that match an attempt, writes to a `RecoveryActionStore`, sends the request, and
-- writes the outcome of the client (Integrations.GitHub.Client) there. The authorization that it
-- wants comes from Security.Authorization, under the policy that Config checks.
--
-- How the code is written here: an exception is the `err` of a `Result`; a method that changes
-- state takes the state and returns it; an awaited call may change the whole world, as other tasks
-- run meanwhile. A datetime is compared as a number of microseconds, a UUID as its integer. What
-- `uuid4` and the clock give is an argument. The `while` of `reconcile` counts its page limit
-- down, which ends by itself; `walk` and `follow` have fuel, and their theorems ask for more fuel
-- than records.
--
-- Parameters stand for SHA-256 and HMAC (their values are 64 lower-case hexadecimal digits), the
-- HTTP client, PyJWT, `urljoin`, `urlparse`, `parse_qs`, `UUID` and `datetime.fromisoformat`, for the
-- reading of JSON text; for the cursors these are Cursors.TextLibrary, with what is documented of them
-- in Cursors.RoundTrip.Documented.
-- SQLAlchemy and PostgreSQL are an engine for the statements that the stores build; what is relied on
-- is written as laws (Actions.Documented, Deliveries.Documented): a transaction is committed if it
-- returns and rolled back if it raises, a failed COMMIT may have taken effect, a time keeps its instant
-- but not its offset, and the constraints hold. The laws are of a transaction that runs alone.
--
-- Not modelled: the text of JSON answers, the readiness query of app/runtime.py, a closing of the
-- lifespan that raises, transactions that run at the same time, and the migrations.
mod Prelude
pub mod Errors
pub mod Domain
pub mod Storage
pub mod Persistence
pub mod Security
pub mod Integrations
pub mod Services
pub mod Config
pub mod Assembly
pub mod Api
pub mod Tests
