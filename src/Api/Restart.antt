-- ===== src/Api/Restart.antt =====
-- A restart of the service against an existing database (src/tenantvault/api.py, `build_engine` and
-- `_seed_demo`).
use tenantvault_zero_trust_r.Base.{
  Bool-cases, inl, arith, ℕ, suc, ◌≡◌, refl, ap, String, false, some, List, ◌∷◌, inr, text_eq, ◌==◌,
}
use tenantvault_zero_trust_r.Base.Lists.{length}
use tenantvault_zero_trust_r.Result.{ok}
use tenantvault_zero_trust_r.Platform.{Platform, Bytes}
use tenantvault_zero_trust_r.Security.{Principal}
use tenantvault_zero_trust_r.Postgres.Tables.{Database, Server, DocumentRow, visible_documents}
use tenantvault_zero_trust_r.Postgres.{PostgresRagStore, postgres_store}
use tenantvault_zero_trust_r.Postgres.Fence.{IsUuidText}
use tenantvault_zero_trust_r.Postgres.Outcomes.{count-returned}
use tenantvault_zero_trust_r.ControlPlane.{ControlPlane, PolicyCompiler, compile, new_plane}
use tenantvault_zero_trust_r.Models.{IngestRequest}
use tenantvault_zero_trust_r.Engine.{Engine, IngestDraw, northstar_tenant}
use tenantvault_zero_trust_r.Api.{acme_tenant}
use tenantvault_zero_trust_r.Api.Startup.{
  Settings, SeedDraw, alice, bob, seed_tenant, seed_demo, start_engine, build_engine, settled,
  northstar_document, acme_document,
}

suc_nonzero : (n : ℕ) → (suc n == 0) ≡ false
suc_nonzero n = ground arith

module _ {F : Type 0} (P : Platform F) (uuids : IsUuidText P) (V : Server F) where
  -- A tenant that has a document is not seeded.
  seed_tenant-kept :
      (p : Principal) (request : IngestRequest F) (draw : IngestDraw)
      (s : Engine F (PostgresRagStore F)) (row : DocumentRow F) (rows : List (DocumentRow F))
      → visible_documents p.tenant_id s.store.database ≡ row ∷ rows
      → seed_tenant P (postgres_store P V) p request draw s ≡ (ok tt, s)
  unfolding seed_tenant
  seed_tenant-kept p request draw s row rows h =
      rw (count-returned P uuids V p s.store, h, suc_nonzero (length rows)) refl

  seed_demo-kept :
      (draw : SeedDraw) (s : Engine F (PostgresRagStore F)) (a b : DocumentRow F)
      (more others : List (DocumentRow F))
      → visible_documents northstar_tenant s.store.database ≡ a ∷ more
      → visible_documents acme_tenant s.store.database ≡ b ∷ others
      → seed_demo P (postgres_store P V) draw s ≡ (ok tt, s)
  unfolding seed_demo
  seed_demo-kept draw s a b more others h k =
      rw
        (
          seed_tenant-kept alice northstar_document draw.northstar s a more h,
          seed_tenant-kept bob acme_document draw.acme s b others k,
        )
        refl

  start_engine-kept :
      (settings : Settings) (plane : ControlPlane F) (draw : SeedDraw) (w : PostgresRagStore F)
      (a b : DocumentRow F) (more others : List (DocumentRow F))
      → visible_documents northstar_tenant w.database ≡ a ∷ more
      → visible_documents acme_tenant w.database ≡ b ∷ others
      → start_engine P (postgres_store P V) settings plane draw w
        ≡ ok (record {
          store = w;
          receipt_secret = settings.receipt_secret;
          control_plane = some plane;
        })
  unfolding start_engine
  start_engine-kept settings plane draw w a b more others h k =
      elim (Bool-cases settings.demo_mode) [
        | inl demo ↦ rw demo (
            ap (settled P (postgres_store P V)) (
              seed_demo-kept draw
                (record {
                  store = w;
                  receipt_secret = settings.receipt_secret;
                  control_plane = some plane;
                })
                a b more others h k))
        | inr plain ↦ rw plain refl
      ]

  -- Where UUIDs are read back from their texts: a service that is started again, in demo mode or
  -- not, with an approved contracts file and the URL of a database in which the policies show both
  -- demo tenants a document, gets an engine over exactly that database, with no fixture added, with
  -- the control plane of the contracts, and with the cipher and the receipt secret of its settings.
  pub restart_adds_nothing :
      (connect : String → Database F) (settings : Settings) (url : String) (file : Bytes)
      (contracts : PolicyCompiler F) (draw : SeedDraw) (a b : DocumentRow F)
      (more others : List (DocumentRow F))
      → settings.store_mode ≡ "postgres"
      → settings.database_url ≡ some url
      → text_eq url "" ≡ false
      → compile P file ≡ ok contracts
      → visible_documents northstar_tenant (connect url) ≡ a ∷ more
      → visible_documents acme_tenant (connect url) ≡ b ∷ others
      → build_engine P V connect settings file draw
        ≡ ok (
            inr (record {
              store = record {
                cipher = record { root = P.encode settings.tenant_key_root };
                database = connect url;
              };
              receipt_secret = settings.receipt_secret;
              control_plane = some (new_plane P contracts settings.receipt_secret);
            }))
  unfolding build_engine start_engine new_plane
  restart_adds_nothing connect settings url file contracts draw a b more others mode given present
        approved northstar acme =
      rw
        (
          approved,
          mode,
          given,
          present,
          start_engine-kept settings (new_plane P contracts settings.receipt_secret) draw
              (record {
                cipher = record { root = P.encode settings.tenant_key_root };
                database = connect url;
              })
              a b more others northstar acme,
        )
        refl
