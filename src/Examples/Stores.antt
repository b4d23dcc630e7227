-- ===== src/Examples/Stores.antt =====
-- The theorems about the in-memory store and the tokens at concrete values.
use tenantvault_zero_trust_r.Base.{ℕ, [], ◌∷◌}
use tenantvault_zero_trust_r.Exec.{after}
use tenantvault_zero_trust_r.Json.{end}
use tenantvault_zero_trust_r.Security.Tokens.{IsSigned, verify_sound}
use tenantvault_zero_trust_r.Store.{Chunk}
use tenantvault_zero_trust_r.Store.Spec.{Simulates}
use tenantvault_zero_trust_r.Memory.{MemoryRagStore, new_store, ingest, memory_store}
use tenantvault_zero_trust_r.Memory.Refinement.{view_of, memory_store-Simulates}
use tenantvault_zero_trust_r.Memory.Integrity.{
  Reach, start, then_step, ingested, IsIntact, Reach-IsIntact,
}
use tenantvault_zero_trust_r.Examples.Tokens.{reading, authority, accepted}
use tenantvault_zero_trust_r.Examples.Toy.{toy, reader, cipher, ingest_draw}

verify_sound_example : IsSigned reading authority 100 "h.p.s" reader
verify_sound_example = verify_sound reading authority 100 "h.p.s" reader accepted

memory_store-Simulates_example : Simulates toy (memory_store toy) view_of
memory_store-Simulates_example = memory_store-Simulates toy

abbrev chunk : Chunk ℕ
chunk = record {
  title = "Plan";
  content = "a chunk";
  source_uri = "doc://plan";
  metadata = end;
  embedding = 1 ∷ 2 ∷ [];
}

abbrev filled : MemoryRagStore ℕ
filled = after (ingest toy reader chunk ingest_draw.chunk) (new_store cipher)

filled-Reach : Reach toy cipher filled
filled-Reach = then_step start (ingested reader chunk ingest_draw.chunk)

Reach-IsIntact_example : IsIntact toy filled
Reach-IsIntact_example = Reach-IsIntact toy cipher filled-Reach
