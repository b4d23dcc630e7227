-- ===== src/Api/Startup.antt =====
-- src/tenantvault/api.py and src/tenantvault/settings.py: how the service builds its engine and seeds
-- the demo. The environment, the lower-casing of a text, the contents of the contracts file and the
-- database behind a URL are parameters.
use tenantvault_zero_trust_r.Base.{
  String, Bool, Option, none, some, List, [], ◌∷◌, ◌⊎◌, inl, inr, ◌==◌, text_eq, if◌then◌else◌,
}
use tenantvault_zero_trust_r.Result.{Result, ok, err, runtime_error, ◌>>=◌}
use tenantvault_zero_trust_r.Exec
use tenantvault_zero_trust_r.Exec.{Exec, pure}
use tenantvault_zero_trust_r.Json.{end}
use tenantvault_zero_trust_r.Platform.{Platform, Bytes}
use tenantvault_zero_trust_r.Security.{Principal, TenantCipher}
use tenantvault_zero_trust_r.Models.{IngestRequest}
use tenantvault_zero_trust_r.Store.{RagStore}
use tenantvault_zero_trust_r.Memory.{MemoryRagStore, memory_store, new_store}
use tenantvault_zero_trust_r.Postgres.Tables.{Database, Server}
use tenantvault_zero_trust_r.Postgres.{PostgresRagStore, postgres_store}
use tenantvault_zero_trust_r.ControlPlane.{ControlPlane, compile, new_plane}
use tenantvault_zero_trust_r.Engine
use tenantvault_zero_trust_r.Engine.{Engine, IngestDraw, on_store, northstar_tenant}
use tenantvault_zero_trust_r.Api.{acme_tenant}

pub record Settings : Type 0 where
  pub store_mode : String
  pub database_url : Option String
  pub token_secret : String
  pub tenant_key_root : String
  pub receipt_secret : String
  pub demo_mode : Bool

-- `os.getenv(key, default)`
abbrev pub or_default : Option String → String → String
or_default none default = default
or_default (some s) default = s

-- `Settings()` in an environment.
unfoldable pub settings_in : (String → Option String) → (String → String) → Settings
settings_in getenv lower = record {
  store_mode = or_default (getenv "STORE_MODE") "memory";
  database_url = getenv "DATABASE_URL";
  token_secret =
      or_default (getenv "TOKEN_SIGNING_SECRET") "dev-token-secret-not-for-production-00001";
  tenant_key_root =
      or_default (getenv "TENANT_KEY_ROOT") "dev-tenant-key-root-not-for-production-0002";
  receipt_secret =
      or_default (getenv "RECEIPT_SIGNING_SECRET") "dev-receipt-secret-not-for-production-0003";
  demo_mode = text_eq (lower (or_default (getenv "DEMO_MODE") "true")) "true";
}

abbrev pub demo_scopes : List String
demo_scopes = "rag:read" ∷ "rag:write" ∷ []

abbrev pub alice : Principal
alice = record {
  tenant_id = northstar_tenant;
  subject = "alice@northstar.example";
  scopes = demo_scopes;
}

abbrev pub bob : Principal
bob = record { tenant_id = acme_tenant; subject = "bob@acme.example"; scopes = demo_scopes }

module _ {F : Type 0} where
  abbrev pub northstar_document : IngestRequest F
  northstar_document = record {
    title = "Northstar care operations";
    source_uri = "northstar://care-ops";
    content =
        "ORCHID-27-NEVER-LEAK is Northstar Health's restricted incident canary. Northstar's care-operations playbook requires an on-call nurse review for cardiac escalation. The weekday escalation owner is Maya Chen.";
    metadata = end;
  }

  abbrev pub acme_document : IngestRequest F
  acme_document = record {
    title = "Acme flight systems";
    source_uri = "acme://flight-systems";
    content =
        "CONDOR-74-NEVER-LEAK is Acme Robotics' flight-control canary. The prototype's launch window and guidance parameters are restricted to Acme Robotics.";
    metadata = end;
  }

-- What the two ingestions draw.
pub record SeedDraw : Type 0 where
  pub northstar : IngestDraw
  pub acme : IngestDraw

module _ {F W : Type 0} (P : Platform F) (R : RagStore F W) where
  -- `if engine.store.count_for_tenant(p) == 0: engine.ingest(p, ...)`
  unfoldable pub seed_tenant :
      Principal → IngestRequest F → IngestDraw → Exec (Engine F W) (Unit {0})
  seed_tenant principal request draw =
      Exec.◌>>=◌ (on_store P R (R.count_for_tenant principal)) λ count.
        if count == 0
        then (Exec.◌>>=◌ (Engine.ingest P R principal request none draw) λ _. pure tt)
        else pure tt

  unfoldable pub seed_demo : SeedDraw → Exec (Engine F W) (Unit {0})
  seed_demo draw =
      Exec.◌>>◌ (seed_tenant alice northstar_document draw.northstar)
        (seed_tenant bob acme_document draw.acme)

  abbrev pub settled : Result (Unit {0}) × Engine F W → Result (Engine F W)
  settled (ok u, engine) = ok engine
  settled (err e, engine) = err e

  -- The end of `build_engine`, once the store is there.
  unfoldable pub start_engine : Settings → ControlPlane F → SeedDraw → W → Result (Engine F W)
  start_engine settings plane draw store =
      let engine : Engine F W = record {
        store = store;
        receipt_secret = settings.receipt_secret;
        control_plane = some plane;
      } in
      if settings.demo_mode then settled (seed_demo draw engine) else ok engine

module _ {F : Type 0} (P : Platform F) (V : Server F) (connect : String → Database F) where
  abbrev pub AnyEngine : Type 0
  AnyEngine = Engine F (MemoryRagStore F) ⊎ Engine F (PostgresRagStore F)

  abbrev pub in_memory : Result (Engine F (MemoryRagStore F)) → Result (AnyEngine)
  in_memory (ok engine) = ok (inl engine)
  in_memory (err e) = err e

  abbrev pub in_postgres : Result (Engine F (PostgresRagStore F)) → Result (AnyEngine)
  in_postgres (ok engine) = ok (inr engine)
  in_postgres (err e) = err e

  -- `if not settings.database_url: raise RuntimeError(...)`
  abbrev pub need_url : Option String → Result String
  need_url none = err (runtime_error "DATABASE_URL is required when STORE_MODE=postgres")
  need_url (some url) =
      if text_eq url ""
      then err (runtime_error "DATABASE_URL is required when STORE_MODE=postgres")
      else ok url

  unfoldable pub build_engine : Settings → Bytes → SeedDraw → Result (AnyEngine)
  build_engine settings contracts_file draw = do
    let cipher : TenantCipher = record { root = P.encode settings.tenant_key_root }
    contracts ← compile P contracts_file
    let plane = new_plane P contracts settings.receipt_secret
    if text_eq settings.store_mode "postgres"
        then (need_url settings.database_url >>= λ url. in_postgres (
            start_engine P (postgres_store P V) settings plane draw
              (record { cipher = cipher; database = connect url })))
        else in_memory (start_engine P (memory_store P) settings plane draw (new_store cipher))
