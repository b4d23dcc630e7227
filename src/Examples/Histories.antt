-- ===== src/Examples/Histories.antt =====
-- Two histories of a tenant with the same head, which differ only in the identifiers of the events.
use tenantvault_zero_trust_r.Base.{ℕ, refl, List, [], ◌∷◌, String}
use tenantvault_zero_trust_r.Json.{end}
use tenantvault_zero_trust_r.Platform.{Uuid}
use tenantvault_zero_trust_r.Models.{AuditEvent}
use tenantvault_zero_trust_r.Store.{AuditEntry, AuditDraw}
use tenantvault_zero_trust_r.Memory.{genesis, new_event, audit_json}
use tenantvault_zero_trust_r.Memory.Integrity.{IsChain, IsLink}
use tenantvault_zero_trust_r.Memory.Evidence.{SameEntries, head_pins_history}
use tenantvault_zero_trust_r.Examples.Toy.{reader}
use tenantvault_zero_trust_r.Examples.Canonical.{canonical, canonical-IsCanonical}

abbrev ingest_entry : AuditEntry ℕ
ingest_entry = record { action = "ingest"; request_id = 5; result_count = 1; detail = end }

abbrev query_entry : AuditEntry ℕ
query_entry = record { action = "query"; request_id = 6; result_count = 2; detail = end }

abbrev draw : Uuid → AuditDraw
draw i = record { event_id = i; created_at = 9 }

abbrev event : AuditEntry ℕ → String → Uuid → AuditEvent
event entry prior i = new_event canonical reader entry prior (draw i)

abbrev history : Uuid → Uuid → List AuditEvent
history i j =
    event ingest_entry genesis i
    ∷ event query_entry (event ingest_entry genesis i).event_hash j
    ∷ []

link :
    (entry : AuditEntry ℕ) (prior : String) (i : Uuid)
    → IsLink canonical reader.tenant_id prior (event entry prior i)
link entry prior i = record {
  actor = reader;
  actor_tenant = refl;
  entry = entry;
  draw = draw i;
  made = refl;
}

history-IsChain : (i j : Uuid) → IsChain canonical reader.tenant_id genesis (history i j)
history-IsChain i j = (
  link ingest_entry genesis i,
  (link query_entry (event ingest_entry genesis i).event_hash j, tt),
)

head_pins_history_example : SameEntries (history 1 2) (history 3 4)
unfolding new_event audit_json
head_pins_history_example =
    head_pins_history canonical canonical-IsCanonical reader.tenant_id (history 1 2) (history 3 4)
      (history-IsChain 1 2) (history-IsChain 3 4) refl refl
