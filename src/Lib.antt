-- ===== src/Lib.antt =====
-- Verification of TenantVault, a retrieval service that keeps its tenants apart: every request
-- carries a signed token that names its tenant, a control plane holds one reviewed contract per
-- tenant and quarantines a tenant whose isolation attestation fails, and a store gives each tenant
-- its own encrypted documents and its own chain of audit events.
--
-- The parts and their files (paths of the repository on the right):
--   Security.antt, Security/         src/tenantvault/security.py: Principal, TokenAuthority (mint,
--                                    verify), TenantCipher (encrypt, decrypt), digest
--   ControlPlane.antt, ControlPlane/ src/tenantvault/control_plane.py: PolicyCompiler (from_file is
--                                    `compile`, on the contents of the file) in
--                                    ControlPlane/Compiler.antt; IsolationControlPlane (authorize,
--                                    policy_version, status_for), and record_attestation and attest
--                                    in ControlPlane/Ledger.antt
--   Models.antt                      src/tenantvault/models.py
--   Embedding.antt                   src/tenantvault/embeddings.py
--   Store.antt                       src/tenantvault/store.py: the protocol RagStore as a record of
--                                    operations, and sign_receipt; Store/Spec.antt is the abstract
--                                    vault that a store has to behave as
--   Memory.antt, Memory/             src/tenantvault/store.py: MemoryRagStore
--   Postgres.antt, Postgres/         src/tenantvault/store.py: PostgresRagStore; its tables, constraints
--                                    and policies, migrations/001_zero_trust.sql, are in
--                                    Postgres/Tables.antt
--   Engine.antt, Engine/             src/tenantvault/engine.py: TenantVaultEngine over any RagStore;
--                                    what it answers is in Engine/Answer.antt
--   Api.antt, Api/                   src/tenantvault/api.py: the endpoints over one engine;
--                                    build_engine and _seed_demo are in Api/Startup.antt, with
--                                    src/tenantvault/settings.py, the middleware in Api/Service.antt,
--                                    health and isolation_status in Api/Statuses.antt
--   ReleaseGate.antt, ReleaseGate/   src/tenantvault/release_verifier.py
--   Benchmark.antt, Benchmark/       scripts/fault_injection_benchmark.py
--   Measure.antt, Measure/           scripts/measure_live_isolation.py
--   Http.antt, Http/                 what the two scripts that call a service use of httpx
--   Json.antt, Json/, Platform.antt  what Python and its packages provide (below)
--   Result.antt, Exec.antt           exceptions, and methods that change an object: a call maps a
--                                    state to a result and a state, and what was written before an
--                                    exception stays written
--   Base.antt, Base/                 dicts, lists, texts, integers and sorting
--   Examples.antt, Examples/         a toy platform and concrete runs
--
-- How they interact: the engine asks the control plane to authorise a call, calls the store, and
-- signs a receipt over what it did. An attestation is run by the control plane on a probe that the
-- engine supplies, which is itself a query; the model passes the whole engine through the probe.
--
-- What is a parameter: hashes, HMAC, HKDF, AES-GCM, base64, JSON text, UUID and number parsing,
-- dates and floats are fields of the record Platform, which has no laws. A theorem that relies on
-- their documented behaviour names it as a hypothesis. What a call draws from outside (`uuid4()`,
-- `datetime.now`, `os.urandom`, `time.perf_counter`) is an argument of it.
--
-- Bounds: integers are unbounded, as in Python. Every loop is a recursion over a list or a text, so
-- no fuel is needed. Counts and indices that are never negative are natural numbers.
--
-- The database server is a parameter too: how it ranks vectors and for which queries it raises, which
-- of several rows it takes for the newest, and what it accepts as a vector, a text and a JSON
-- document (the record Server in Postgres/Tables.antt). So is the
-- service that the release gate and the measurement call: a client maps a request and a state of the
-- service to a response, and nothing is assumed of it.
--
-- Interleavings: a call of PostgresRagStore is one or two transactions, each of which happens as a
-- whole; append_audit is two, and the steps of Postgres/Fence.antt let other calls come between them.
-- The jobs of the measurement complete in an order that is an argument.
--
-- Not modelled: of src/tenantvault/api.py the static pages; src/tenantvault/migrate.py, and the roles
-- and grants of the migration; a lost database connection; arguments, files and texts of the scripts' reports. A dictionary that the code returns
-- is a record here, with UUIDs as numbers. Two threads in one engine are not modelled: calls follow
-- one another.
pub mod Base
pub mod Result
pub mod Exec
pub mod Json
pub mod Platform
pub mod Security
pub mod ControlPlane
pub mod Models
pub mod Embedding
pub mod Store
pub mod Memory
pub mod Postgres
pub mod Engine
pub mod Benchmark
pub mod Http
pub mod ReleaseGate
pub mod Measure
pub mod Api
pub mod Examples
