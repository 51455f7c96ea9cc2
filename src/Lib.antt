-- ===== src/Lib.antt =====
-- EasyFrame: the decisions of its platform kernel, and theorems on them.
--
-- EasyFrame is a base of Python services: a shared kernel (backend/enterprise_platform) that decides
-- who may log in, what an account may do and how notifications leave, and a host (backend/blank_app)
-- that keeps the tables. The kernel's functions are modelled as functions, its transactions as state
-- passing that an exception rolls back, its drivers as the calls that they make on a host whose
-- answers are a parameter.
--
-- Parts and files:
-- * RateLimit models backend/enterprise_platform/rate_limit.py: Counter is
--   `BoundedSlidingWindowCounter` (`record` is record_attempt), Admission is `_admit` with the functions
--   that call it. Sweep, Bounded and History carry the proofs of Refinement, Limits and Memory.
-- * Auth models the error type and the bootstrap secrets of backend/enterprise_platform/auth.py.
-- * Login models backend/enterprise_platform/login_flow.py with the rest of auth.py, over RateLimit: World
--   is what one request changes and whom it calls, Flow the three login requests, with the admissions of
--   backend/enterprise_platform/assembly/dependencies.py. Views and Sessions carry the proofs of Totp and
--   Passkey; Locked composes the flow with the limits.
-- * LocalAccounts models backend/enterprise_platform/local_accounts.py over the unit of work of
--   backend/blank_app/adapter_account.py and the table of backend/blank_app/models.py: Types the
--   records, Grants the grants and the catalog, Store the unit of work, Service and Update the
--   operations of `_LocalAccountService`, Requests a history of requests. Hoare, Admins, Edits and
--   Preservation carry the proof of Survival; SelfProtection and GrantRoundTrip have one theorem each.
-- * Outbox models backend/enterprise_platform/notification_outbox.py and the errors of
--   backend/enterprise_platform/easyauth/errors.py: Status the statuses, Calls the host's answers,
--   Delivery `process_outbox_once`, Reconcile `reconcile_outbox_once`. Handling and Completion carry the
--   proofs of Driver, Written those of Settled, Tallies those of Aggregate; Monotone is on the
--   statuses too.
-- * Authz models backend/enterprise_platform/authz/core.py: Scopes the data scopes and the subjects
--   that they admit, Snapshot the reading of grants against the catalog, with theorems in Subjects and
--   Isolation; and backend/enterprise_platform/authz/snapshot_freshness.py: Freshness
--   `classify_snapshot`, Refresher `BackgroundRefresher` as a step relation.
-- * Notices models backend/enterprise_platform/notification_settings.py over the tables of
--   backend/blank_app/adapter_notification_settings.py: Catalog the notices and the changes admitted, Views
--   what the settings show, Store the tables. Switching carries the proofs of Changes.
-- * TtlCache models backend/enterprise_platform/ttl_cache.py: Box is `TtlBox` with its critical sections,
--   System the threads that load, set and invalidate one box, as a step relation. Invariant,
--   Leaders and SingleFlight are on the states that they reach.
-- * DirectorySync models backend/enterprise_platform/directory_sync.py: Port the snapshot and the host,
--   Sync `run_directory_sync`. References, Loop, Answers, Ends and Projection carry the proofs of Runs.
-- * Manifest models two files of backend/enterprise_platform/easyauth. Scheduler is manifest_scheduler.py:
--   Flags the flags of `ManifestSyncScheduler`, Threads its threads as a step relation, SingleFlight,
--   Carried, Requests and Timer on the states that they reach. The others are manifest_sync.py, with the token and
--   the response of credentials.py: Json the values, Recorded what the stored state says, Exchange the
--   requests, Sync `sync_manifest`. Costs, Posts, Versions, Skips, Attempts and Concluded carry the proofs of
--   Writes.
-- * Prelude has what they share: tests on numbers, lists, equality as an instance, Python's dict and
--   OrderedDict, results, code that calls out, and the text operations.
--
-- The parts meet at values: Login runs on the counter of RateLimit, whose theorem on admissions it uses;
-- RateLimit, Login and LocalAccounts raise the error of Auth, LocalAccounts tests
-- passwords with the bootstrap secrets of Auth. Outbox, DirectorySync and Manifest call their hosts
-- through the same monad, of Prelude/Traced.
--
-- Choices: numbers are natural numbers; an instant is a number of seconds or, in Outbox, of
-- microseconds, and an id of an account is a number. Python's integers have no width, so none is
-- bounded. An admission of RateLimit reads the clock once, where the source reads it for each counter, and
-- a loader of TtlCache fails with an `Exception` only. Every loop is a recursion on a list, so there is no fuel. Python's text operations, the
-- password hash, the reading of a UUID, the jitter, JSON texts with their hashes, and the host's answers
-- are parameters.
--
-- Not modelled: the HTTP routers, the adapters of the host but for the unit of work above, OIDC,
-- passkeys and token verification, which rest on cryptography that is not in the repository, the
-- EasyAuth HTTP clients, the migrations, the frontend and the repository's quality tools. Locks are
-- not modelled: a critical section is one step.
mod Prelude
pub mod Auth
pub mod RateLimit
pub mod LocalAccounts
pub mod Outbox
pub mod Authz
pub mod TtlCache
pub mod DirectorySync
pub mod Manifest
pub mod Login
pub mod Notices
