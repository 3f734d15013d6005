-- ===== src/Lib.antt =====
-- Verification of the backend of AI Try-On (backend/app) and of product-extractor: the life of a
-- try-on job and what surrounds it.
--
-- Prelude holds the shared names and lemmas. Errors has the exceptions (core/errors.py) and the
-- calls that may raise.
--
-- Job has the data of backend/app/services/job_store.py and of the row JobRecord
-- (backend/app/db/models.py); Job/Table has the jobs that a store keeps. JobStore is the
-- interface JobStore and its contract IsJobStore; JobStore/InMemory is InMemoryJobStore,
-- JobStore/Db is DbJobStore (backend/app/services/db_job_store.py) and JobStore/Index the unique
-- constraints of the table. A failed statement leaves the table as it was
-- (backend/app/db/base.py: get_session).
--
-- Storage is LocalStorageService (backend/app/services/storage.py). TryOnService is the class of
-- backend/app/services/tryon_service.py, over any job store: it takes the store, the provider and
-- the image library as arguments, so the theorems about it hold for both stores.
--
-- RateLimiter, BodySizeLimit, PasswordReset and Sweeps are backend/app/services/rate_limiter.py,
-- backend/app/core/body_size_limit.py, backend/app/services/password_reset_service.py, and
-- backend/app/services/job_recovery.py with backend/scripts/cleanup_expired_results.py. Instants
-- are microseconds. The sweeps take which storage calls raise, and the recovery sweep both the
-- rows that its query saw and the table that its flush finds. A BodySizeLimit run takes the
-- messages on the wire and how often the app receives.
--
-- Quota is backend/app/services/quota_service.py with backend/app/services/capacity_service.py,
-- and Submission the handler create_try_on_job of backend/app/api/tryon.py, which joins the
-- limiter, the quota, the capacity and the service over the database store.
--
-- Accounts has the rows of users and the gates of backend/app/auth/dependencies.py; Accounts/Auth
-- the handlers of backend/app/api/auth.py. A session that raises leaves the tables as they were.
--
-- Extraction is product-extractor/src/product_extractor with backend/app/api/extraction.py:
-- Address is _is_disallowed over the networks of Python 3.11's ipaddress, Guard the rest of
-- fetchers/ssrf_guard.py, Images the checks of an image (also backend/app/core/validation.py),
-- Product and Fetcher are fetchers/http_fetcher.py, and Routes the service and the routes. The
-- redirect loop recurs on the number of rounds that the source's range gives.
--
-- Administration is what backend/app/services/admin_service.py, backend/app/api/admin.py and
-- backend/scripts/promote_admin.py change.
--
-- Interleaving makes the calls of backend/app/services/tryon_service.py on the database store,
-- and the query and the flush of the recovery sweep, steps of one relation, so that they mix in
-- any order with deletions of accounts; an id given to a new job was given to none before, as
-- uuid4().hex makes it.
--
-- SelfHosted is backend/app/providers/selfhosted.py: calls of generate by several threads, each a
-- caller and a worker that make moves in any order. Its outcomes are those that TryOnService
-- takes from the provider.
--
-- Configuration is the checks at the end of backend/app/config.py and the choice of the mail
-- service in backend/app/main.py.
--
-- Extraction/Saliency is
-- product-extractor/src/product_extractor/extractors/saliency_extractor.py, and BodyParser
-- ai/preprocessing/src/aitryon_preprocessing/mediapipe_parser.py, both with floats as exact
-- fractions and the vision libraries as arguments. Administration/Listing has the lists and the
-- dashboard of the administration.
--
-- Viewing is the other routes of backend/app/api/tryon.py with backend/app/api/usage.py,
-- Middleware what stands around all routes (backend/app/core/errors.py, security_headers.py, and
-- the order of backend/app/main.py), and Mail backend/app/services/email_service.py.
--
-- Submission/Rush lets submissions, runs, sweeps and deletions of accounts mix around the
-- capacity check.
--
-- An insert of a job is checked against the 32-bit columns and the owner of the row; which
-- accounts exist, and whether the texts fit their columns, are arguments. In SelfHosted a thread
-- that cannot be started is left out; in Interleaving one sweep is under way at a time, and a
-- sweep whose rows are gone ends without its flush.
--
-- Instants, fresh job ids and the outcomes of calls into other packages are arguments of the
-- operations. No fuel is used: each loop is a recursion over a list, or on the rounds that the
-- source's range gives.
--
-- Not modelled: routing and serialisation by FastAPI, logging, SQL and ORM internals beyond the
-- statements above, the image library, the AI pipeline and its vendored packages, the frontend,
-- the extension and deployment.
pub mod Prelude
pub mod Errors
pub mod Job
pub mod JobStore
pub mod Storage
pub mod TryOnService
pub mod RateLimiter
pub mod BodySizeLimit
pub mod PasswordReset
pub mod Sweeps
pub mod Accounts
pub mod Quota
pub mod Submission
pub mod Viewing
pub mod Extraction
pub mod Administration
pub mod Interleaving
pub mod SelfHosted
pub mod Configuration
pub mod BodyParser
pub mod Middleware
pub mod Mail
pub mod Tests
