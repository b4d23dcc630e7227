-- ===== src/Examples/Toy.antt =====
-- A platform to compute with, in which every number stands for a float, hashes and ciphers show
-- their input, and every text of JSON but the empty one is the same file of contracts. The tenants,
-- principals and states are those of the demo, with small UUIDs.
use tenantvault_zero_trust_r.Base.{
  ℕ, ◌+◌, ◌*◌, String, true, Option, none, some, List, [], ◌∷◌, ◌++◌, leb, ltb, ◌==◌,
}
use tenantvault_zero_trust_r.Base.Int.{ℤ, pos, negsuc, leb_ℤ}
use tenantvault_zero_trust_r.Base.Text.{len}
use tenantvault_zero_trust_r.Result.{ok}
use tenantvault_zero_trust_r.Json.{Json, bool, int, str, arr, obj, nil, cons, end, field, text}
use tenantvault_zero_trust_r.Platform.{Platform, Bytes, Uuid}
use tenantvault_zero_trust_r.Security.{Principal, TenantCipher}
use tenantvault_zero_trust_r.Models.{IngestRequest, QueryRequest}
use tenantvault_zero_trust_r.Memory.{MemoryRagStore}
use tenantvault_zero_trust_r.ControlPlane.{
  TenantContract, PolicyCompiler, active, quarantined, ControlPlane, Probe, AttestationDraw,
}
use tenantvault_zero_trust_r.Engine.{Engine, IngestDraw, QueryDraw, AttestDraw}
use tenantvault_zero_trust_r.Examples.Codec.{codes, text_of}

abbrev pub natural : ℤ → ℕ
natural (pos n) = n
natural (negsuc n) = 0

abbrev pub release_gate : Json ℕ
release_gate = obj (
    field "required_controls"
      (arr (
        cons (str "postgres_force_rls") (
          cons (str "signed_isolation_receipt")
            (cons (str "signed_tenant_claim") (cons (str "tenant_bound_aes_gcm") nil)))))
      (field "quarantine_on_failed_attestation" (bool true) end))

abbrev pub contract_source : String → String → Json ℕ
contract_source tenant_id slo = obj (
    field "tenant_id" (str tenant_id) (
      field "policy_version" (str "v1") (
        field "max_results" (int (pos 5)) (
          field "required_scopes" (arr (cons (str "rag:read") nil))
            (field "attestation_slo_seconds" (str slo) end)))))

abbrev pub contracts_source : Json ℕ
contracts_source = obj (
    field "schema_version" (int (pos 1)) (
      field "release_gate" release_gate (
        field "contracts"
          (arr (cons (contract_source "1" "30") (cons (contract_source "22" "30") nil))) end)))

abbrev pub document_of : Bytes → Option (Json ℕ)
document_of [] = none
document_of (b ∷ bs) = some contracts_source

abbrev pub total : List ℕ → ℕ
total [] = 0
total (n ∷ ns) = n + total ns

abbrev pub toy : Platform ℕ
toy = record {
  encode = codes;
  decode = text_of;
  sha256_hex = λ b. "hash";
  hmac_digest = λ k m. k ++ m;
  hmac_hex = λ k m. "mac";
  urlsafe_b64encode = λ b. "base64";
  urlsafe_b64decode = λ s. some (codes s);
  dumps = λ v. "json";
  dumps_sorted = λ v. "json";
  loads = document_of;
  uuid_str = λ n. "uuid";
  uuid_parse = λ s. some (len s);
  isoformat = λ t. "now";
  int_str = λ n. "number";
  int_parse = λ s. some (pos 30);
  int_of_float = λ x. ok (pos x);
  value_str = λ v. "value";
  hkdf = λ root info. root;
  aesgcm_encrypt = λ k n p a. p;
  aesgcm_decrypt = λ k n c a. some c;
  literal = λ m k. 0;
  of_int = natural;
  fsum = total;
  fmul = λ x y. x * y;
  fadd = λ x y. x + y;
  fsub = λ x y. x;
  fdiv = λ x y. x;
  fsqrt = λ x. 1;
  flog = λ n. 0;
  flt = ltb;
  fle = leb;
  is_zero = λ x. x == 0;
  round = λ x k. x;
  fle_int = λ x n. leb_ℤ (pos x) n;
  feq_int = λ x n. x == natural n;
  blake2s = λ b. b;
  tokens = λ s. s ∷ [];
  format_fixed = λ k x. "1";
  padded = λ k n. "02";
  ceil = pos;
  median = total;
}

abbrev pub reader : Principal
reader = record { tenant_id = 1; subject = "analyst"; scopes = "rag:read" ∷ "rag:write" ∷ [] }

abbrev pub neighbour : Principal
neighbour = record { tenant_id = 2; subject = "rival"; scopes = "rag:read" ∷ "rag:write" ∷ [] }

abbrev pub contract : Uuid → TenantContract
contract j = record {
  tenant_id = j;
  policy_version = "v1";
  max_results = pos 5;
  required_scopes = text "rag:read" ∷ [];
  attestation_slo_seconds = pos 30;
  contract_hash = "hash";
}

abbrev pub compiler : PolicyCompiler ℕ
compiler = record {
  contracts = (1, contract 1) ∷ (2, contract 2) ∷ [];
  release_gate = release_gate;
}

-- The first tenant is quarantined, the second is active.
abbrev pub shut_plane : ControlPlane ℕ
shut_plane = record {
  compiler = compiler;
  signing_key = codes "key";
  state = (1, quarantined) ∷ (2, active) ∷ [];
  attestations = (1, []) ∷ (2, []) ∷ [];
}

abbrev pub open_plane : ControlPlane ℕ
open_plane = record shut_plane { state = (1, active) ∷ (2, active) ∷ [] }

abbrev pub passing : Probe
passing = record { status = some "passed"; receipt_signature = some "mac" }

abbrev pub failing : Probe
failing = record { status = some "failed"; receipt_signature = none }

abbrev pub attestation_draw : AttestationDraw
attestation_draw = record { attestation_id = 7; issued_at = 100 }

abbrev pub cipher : TenantCipher
cipher = record { root = codes "root" }

abbrev pub engine : Engine ℕ (MemoryRagStore ℕ)
engine = record {
  store = record { cipher = cipher; documents = []; events = [] };
  receipt_secret = "secret";
  control_plane = some open_plane;
}

abbrev pub upload : IngestRequest ℕ
upload = record { title = "Plan"; content = "a chunk"; source_uri = "doc://plan"; metadata = end }

abbrev pub question : QueryRequest
question = record { question = "which plan?"; top_k = 3 }

abbrev pub ingest_draw : IngestDraw
ingest_draw = record {
  request_id = 11;
  chunk = record { nonce = 1 ∷ 2 ∷ []; document_id = 12; created_at = 101 };
  audit = record { event_id = 13; created_at = 102 };
}

abbrev pub query_draw : QueryDraw
query_draw = record {
  request_id = 21;
  audit = record { event_id = 22; created_at = 103 };
  receipt_id = 23;
  issued_at = 104;
}

abbrev pub attest_draw : AttestDraw ℕ
attest_draw = record {
  probe = query_draw;
  started = 0;
  finished = 5;
  attestation = attestation_draw;
}
