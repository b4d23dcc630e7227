-- ===== src/Postgres/Tables.antt =====
-- migrations/001_zero_trust.sql: the tables that `PostgresRagStore` uses, their constraints and their
-- row-level policies, and what a transaction of the API's role does to them. How the server ranks
-- vectors, which rows it takes for the newest and what it accepts as a vector belong to the server,
-- which is a value of the record `Server`.
use tenantvault_zero_trust_r.Base.{
  ℕ, String, Bool, true, false, not, Option, none, some, List, [], ◌∷◌, ◌++◌, ◌==◌, text_eq, leb,
  ◌&&◌, if◌then◌else◌,
}
use tenantvault_zero_trust_r.Base.Lists.{filter}
use tenantvault_zero_trust_r.Result.{database_error, Result, ok, err, raise_if, or_raise, ◌>>◌}
use tenantvault_zero_trust_r.Json.{Fields}
use tenantvault_zero_trust_r.Platform.{Platform, Bytes, Uuid, Time}

-- A row of `rag.documents`. No statement reads its `created_at`. The embedding is the literal that
-- was inserted.
pub record DocumentRow (F : Type 0) : Type 0 where
  pub document_id : Uuid
  pub tenant_id : Uuid
  pub title : String
  pub source_uri : String
  pub content_ciphertext : Bytes
  pub content_nonce : Bytes
  pub content_sha256 : String
  pub metadata : Fields F
  pub embedding : String

-- A row of `audit.events`.
pub record EventRow (F : Type 0) : Type 0 where
  pub event_id : Uuid
  pub tenant_id : Uuid
  pub actor_id : String
  pub action : String
  pub request_id : Uuid
  pub result_count : ℕ
  pub detail : Fields F
  pub previous_hash : Option String
  pub event_hash : String
  pub created_at : Time

-- The tables. Only the owner writes to `app.tenants`.
pub record Database (F : Type 0) : Type 0 where
  pub tenants : List Uuid
  pub documents : List (DocumentRow F)
  pub events : List (EventRow F)

pub record Server (F : Type 0) : Type 0 where
  -- `... WHERE (embedding <=> q) <= 0.82 ORDER BY embedding <=> q LIMIT k` over a table behind a
  -- policy, each row with its score `1 - (embedding <=> q)`. An index may be approximate. Nothing,
  -- where `q` is not a vector or is compared with one of another dimension: the server raises.
  pub nearest :
      String → ℕ → (DocumentRow F → Bool) → List (DocumentRow F) → Option (List (DocumentRow F × F))
  -- `ORDER BY created_at DESC LIMIT 1`; which of several newest rows is not said.
  pub newest : List (EventRow F) → Option (EventRow F)
  -- Does the driver send the text, and the server take it? None with the character NUL.
  pub is_text : String → Bool
  -- The same of a JSON document: no NUL, no number that is not JSON's.
  pub is_jsonb : Fields F → Bool
  -- Is the literal a `vector(96)`?
  pub is_vector : String → Bool

-- What a transaction knows of its caller: `current_setting('app.tenant_id', true)`.
abbrev pub Session : Type 0
Session = Option String

-- `app.require_tenant()`
unfoldable pub require_tenant : {F : Type 0} → Platform F → Session → Result Uuid
require_tenant P none = err (database_error "tenant context is required")
require_tenant P (some setting) =
    if text_eq setting ""
    then err (database_error "tenant context is required")
    else or_raise (P.uuid_parse setting) (database_error "invalid input syntax for type uuid")

-- `REFERENCES app.tenants(tenant_id)`
abbrev pub is_tenant : Uuid → List Uuid → Bool
is_tenant j [] = false
is_tenant j (k ∷ ks) = if k == j then true else is_tenant j ks

module _ {F : Type 0} where
  -- The policies `document_tenant_fence` and `audit_tenant_fence`: `tenant_id = require_tenant()`.
  abbrev pub document_tenant_fence : Uuid → DocumentRow F → Bool
  document_tenant_fence j row = row.tenant_id == j

  abbrev pub audit_tenant_fence : Uuid → EventRow F → Bool
  audit_tenant_fence j row = row.tenant_id == j

  -- The rows that a tenant's transaction sees.
  abbrev pub visible_documents : Uuid → Database F → List (DocumentRow F)
  visible_documents j db = filter (document_tenant_fence j) db.documents

  abbrev pub visible_events : Uuid → Database F → List (EventRow F)
  visible_events j db = filter (audit_tenant_fence j) db.events

  -- `PRIMARY KEY`, `UNIQUE (tenant_id, content_sha256)`
  abbrev pub clashes : DocumentRow F → List (DocumentRow F) → Bool
  clashes row [] = false
  clashes row (r ∷ rs) =
      if r.document_id == row.document_id
      then true
      else if r.tenant_id == row.tenant_id
      then if text_eq r.content_sha256 row.content_sha256 then true else clashes row rs
      else clashes row rs

  abbrev pub is_event_id : Uuid → List (EventRow F) → Bool
  is_event_id id [] = false
  is_event_id id (r ∷ rs) = if r.event_id == id then true else is_event_id id rs

  -- The tests of an `INSERT INTO rag.documents`. The column `tenant_id` has its default, the
  -- transaction's own tenant, so that the policy's check holds.
  unfoldable pub check_document : Server F → DocumentRow F → Database F → Result (Unit {0})
  check_document V row db = do
    raise_if (not (V.is_text row.title && V.is_text row.source_uri && V.is_jsonb row.metadata))
        (database_error "invalid text")
    raise_if (not (V.is_vector row.embedding)) (database_error "expected 96 dimensions")
    raise_if (clashes row db.documents) (database_error "duplicate key value")
    raise_if (not (is_tenant row.tenant_id db.tenants)) (database_error "foreign key violation")

  -- The tests of an `INSERT INTO audit.events`: `result_count` is a 32-bit integer.
  unfoldable pub check_event : Server F → EventRow F → Database F → Result (Unit {0})
  check_event V row db = do
    raise_if (not (V.is_text row.actor_id && V.is_text row.action && V.is_jsonb row.detail))
        (database_error "invalid text")
    raise_if (leb 2147483648 row.result_count) (database_error "integer out of range")
    raise_if (is_event_id row.event_id db.events) (database_error "duplicate key value")
    raise_if (not (is_tenant row.tenant_id db.tenants)) (database_error "foreign key violation")

  abbrev pub add_row : DocumentRow F → Database F → Database F
  add_row row db = record db { documents = db.documents ++ (row ∷ []) }

  abbrev pub add_event_row : EventRow F → Database F → Database F
  add_event_row row db = record db { events = db.events ++ (row ∷ []) }

  -- The end of a transaction: a commit, or a rollback of whatever the body wrote.
  abbrev pub settle : {A : Type 0} → Database F → Result A × Database F → Result A × Database F
  settle before (ok a, db) = (ok a, db)
  settle before (err e, db) = (err e, before)
