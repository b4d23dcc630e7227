-- ===== src/Examples/Postgreses.antt =====
-- `PostgresRagStore` over a server that scans its tables in order.
use tenantvault_zero_trust_r.Base.{
  ℕ, ◌≡◌, ◌≢◌, ◌≤◌, ◌<◌, refl, ◌⊎◌, Option, leb, if◌then◌else◌, String, true, not, text_eq, none,
  some, List, [], ◌∷◌, ◌++◌, map, inl, inr, arith,
}
use tenantvault_zero_trust_r.Base.Lists.{All, take, filter}
use tenantvault_zero_trust_r.Result.{Error, ok, err}
use tenantvault_zero_trust_r.Exec.{result, after}
use tenantvault_zero_trust_r.Json.{end}
use tenantvault_zero_trust_r.Platform.{Uuid}
use tenantvault_zero_trust_r.Security.{can}
use tenantvault_zero_trust_r.Models.{AuditEvent}
use tenantvault_zero_trust_r.Store.{Chunk, AuditEntry, AuditDraw}
use tenantvault_zero_trust_r.Memory
use tenantvault_zero_trust_r.Memory.{MemoryRagStore, sealed, genesis}
use tenantvault_zero_trust_r.Postgres.Tables.{
  DocumentRow, EventRow, Database, Server, require_tenant, visible_events,
}
use tenantvault_zero_trust_r.Postgres.{
  PostgresRagStore, hash_or_genesis, ingest, append_after, audit_head, new_event, event_row_of,
  row_of,
}
use tenantvault_zero_trust_r.Postgres.Fence.{SameRows, ingested, Step-SameRows}
use tenantvault_zero_trust_r.Postgres.Acceptance.{IsInsertable, ingest_outcome}
use tenantvault_zero_trust_r.Postgres.Retrieval.{Among}
use tenantvault_zero_trust_r.Postgres.Audit.{Follows}
use tenantvault_zero_trust_r.Postgres.Forks.{both_read, interleaved_appends_fork}
use tenantvault_zero_trust_r.ControlPlane.{
  PolicyCompiler, compile, check_gate, compile_contract, compile_contracts, new_plane,
}
use tenantvault_zero_trust_r.Engine.{northstar_tenant}
use tenantvault_zero_trust_r.Api.{acme_tenant}
use tenantvault_zero_trust_r.Api.Startup.{Settings, SeedDraw, build_engine}
use tenantvault_zero_trust_r.Api.Restart.{restart_adds_nothing}
use tenantvault_zero_trust_r.Json.{get, get_or, subscript, iterate, member, members, set_of}
use tenantvault_zero_trust_r.Security.{to_int, to_uuid, to_str}
use tenantvault_zero_trust_r.Examples.Codec.{codes}
use tenantvault_zero_trust_r.Examples.Toy.{
  reader, cipher, ingest_draw, query_draw, contract, release_gate,
}
use tenantvault_zero_trust_r.Examples.Sound.{sound, sound-IsUuidText}

abbrev score : DocumentRow ℕ → DocumentRow ℕ × ℕ
score row = (row, 1)

abbrev newer : EventRow ℕ → Option (EventRow ℕ) → EventRow ℕ
newer r none = r
newer r (some q) = if leb r.created_at q.created_at then q else r

abbrev latest : List (EventRow ℕ) → Option (EventRow ℕ)
latest [] = none
latest (r ∷ rs) = some (newer r (latest rs))

abbrev scan : Server ℕ
scan = record {
  nearest = λ query limit policy rows. some (take limit (map score (filter policy rows)));
  newest = latest;
  is_text = λ s. true;
  is_jsonb = λ fs. true;
  is_vector = λ s. not (text_eq s "");
}

abbrev NoLater : EventRow ℕ → List (EventRow ℕ) → Type 0
NoLater r rows = All (λ q. q.created_at ≤ r.created_at) rows

abbrev chunk : Chunk ℕ
chunk = record {
  title = "Plan";
  content = "a chunk";
  source_uri = "doc://plan";
  metadata = end;
  embedding = 1 ∷ 2 ∷ [];
}

abbrev fresh : PostgresRagStore ℕ
fresh = record {
  cipher = cipher;
  database = record { tenants = 1 ∷ 2 ∷ []; documents = []; events = [] };
}

abbrev once : PostgresRagStore ℕ
once = after (ingest sound scan reader chunk ingest_draw.chunk) fresh

abbrev own : Uuid
own = 1

abbrev foreign : Uuid
foreign = 2

other_tenant : foreign ≢ own
other_tenant = omega arith

Step-SameRows_example : SameRows 2 fresh.database once.database
Step-SameRows_example =
    Step-SameRows sound scan sound-IsUuidText reader 2 fresh once other_tenant
      (ingested chunk ingest_draw.chunk)

abbrev entry : AuditEntry ℕ
entry = record { action = "retrieval.completed"; request_id = 21; result_count = 1; detail = end }

abbrev later : AuditDraw
later = record { event_id = 31; created_at = 200 }

abbrev event : AuditEvent
event = new_event sound reader entry (hash_or_genesis {F = ℕ} none) query_draw.audit

head_read : result (audit_head sound scan reader) fresh ≡ ok (hash_or_genesis {F = ℕ} none)
unfolding audit_head require_tenant
head_read = refl

head_read_again :
    result (audit_head sound scan reader) (after (audit_head sound scan reader) fresh)
    ≡ ok (hash_or_genesis {F = ℕ} none)
unfolding audit_head require_tenant
head_read_again = refl

tenant_known : Among 1 fresh.database.tenants
tenant_known = inl refl

small_count : entry.result_count < 2147483648
small_count = omega arith

other_event : query_draw.audit.event_id ≢ later.event_id
other_event = omega arith

interleaved_appends_fork_example :
    (e : AuditEvent) × (g : AuditEvent) × (result
        (append_after sound scan reader entry query_draw.audit genesis)
        (both_read sound sound-IsUuidText scan reader fresh)
      ≡ ok e)
    × (result (append_after sound scan reader entry later genesis) (
          after
            (append_after sound scan reader entry query_draw.audit genesis)
            (both_read sound sound-IsUuidText scan reader fresh))
        ≡ ok g)
    × (visible_events 1
          (after (append_after sound scan reader entry later genesis) (
            after
              (append_after sound scan reader entry query_draw.audit genesis)
              (both_read sound sound-IsUuidText scan reader fresh))).database
        ≡ (visible_events 1 fresh.database ++ (event_row_of sound 1 e entry ∷ []))
          ++ (event_row_of sound 1 g entry ∷ []))
    × Follows sound none (event_row_of sound 1 e entry)
    × Follows sound none (event_row_of sound 1 g entry)
interleaved_appends_fork_example =
    interleaved_appends_fork sound sound-IsUuidText scan reader fresh entry entry query_draw.audit
      later genesis genesis tenant_known refl refl small_count small_count tt tt other_event
      head_read head_read_again

ingest_outcome_example :
    ((can reader "rag:write" ≡ true)
      × IsInsertable scan
          (row_of sound 1 (sealed sound cipher reader chunk ingest_draw.chunk))
          fresh.database
      × (ingest sound scan reader chunk ingest_draw.chunk fresh ≡ (
        ok (sealed sound cipher reader chunk ingest_draw.chunk),
        record fresh {
          database = record fresh.database {
            documents =
                fresh.database.documents
                ++ (row_of sound 1 (sealed sound cipher reader chunk ingest_draw.chunk) ∷ []);
          };
        },
      )))
    ⊎ (¬ (
          (can reader "rag:write" ≡ true)
          × IsInsertable scan
              (row_of sound 1 (sealed sound cipher reader chunk ingest_draw.chunk))
              fresh.database)
        × ((e : Error) × (ingest sound scan reader chunk ingest_draw.chunk fresh ≡ (err e, fresh))))
ingest_outcome_example =
    ingest_outcome sound scan reader sound-IsUuidText fresh chunk ingest_draw.chunk

-- A database that holds a document of each demo tenant, behind any URL.
abbrev row_for : Uuid → DocumentRow ℕ
row_for j = record {
  document_id = 12;
  tenant_id = j;
  title = "Plan";
  source_uri = "doc://plan";
  content_ciphertext = [];
  content_nonce = [];
  content_sha256 = "hash";
  metadata = end;
  embedding = "[1]";
}

abbrev connect : String → Database ℕ
connect url = record {
  tenants = northstar_tenant ∷ acme_tenant ∷ [];
  documents = row_for northstar_tenant ∷ row_for acme_tenant ∷ [];
  events = [];
}

abbrev deployed : Settings
deployed = record {
  store_mode = "postgres";
  database_url = some "postgresql://db";
  token_secret = "token";
  tenant_key_root = "root";
  receipt_secret = "key";
  demo_mode = true;
}

abbrev seeds : SeedDraw
seeds = record { northstar = ingest_draw; acme = ingest_draw }

abbrev demo_contracts : PolicyCompiler ℕ
demo_contracts = record {
  contracts = (0, contract 0) ∷ (1, contract 1) ∷ [];
  release_gate = release_gate;
}

approved : compile sound (codes "{}") ≡ ok demo_contracts
unfolding compile check_gate compile_contract compile_contracts get get_or subscript iterate member
    members set_of to_int to_uuid to_str
approved = refl

restart_adds_nothing_example :
    build_engine sound scan connect deployed (codes "{}") seeds
    ≡ ok (
        inr (record {
          store = record {
            cipher = record { root = codes "root" };
            database = connect "postgresql://db";
          };
          receipt_secret = "key";
          control_plane = some (new_plane sound demo_contracts "key");
        }))
restart_adds_nothing_example =
    restart_adds_nothing sound sound-IsUuidText scan connect deployed "postgresql://db" (codes "{}")
      demo_contracts seeds (row_for northstar_tenant) (row_for acme_tenant) [] [] refl refl refl
      approved refl refl
