-- ===== src/Engine/Framing.antt =====
-- A query, an ingestion and a probe write to the engine through its store only: what every write
-- of the store leaves alone, they leave alone. This holds over any store.
use tenantvault_zero_trust_r.Base.{ℕ, String, Option, none, some, List}
use tenantvault_zero_trust_r.Base.Int.{pos}
use tenantvault_zero_trust_r.Result.{Result, ok}
use tenantvault_zero_trust_r.Exec.{Exec, pure, reads, after, ◌>>=◌}
use tenantvault_zero_trust_r.Exec.Unwinding.{Spares, Spares-bind}
use tenantvault_zero_trust_r.Platform.{Platform, Uuid}
use tenantvault_zero_trust_r.Security.{Principal}
use tenantvault_zero_trust_r.Models.{
  IngestRequest, QueryRequest, StoredDocument, RetrievalHit, AuditEvent,
}
use tenantvault_zero_trust_r.Embedding.{embed}
use tenantvault_zero_trust_r.Store.{RagStore}
use tenantvault_zero_trust_r.Engine.{
  Engine, IngestDraw, QueryDraw, or_drawn, check_plane, current_policy, ingest_entry, ingest_reply,
  query_entry, respond, on_store, ingest, query, isolation_probe, run_probe,
}

module _ {F W : Type 0} (P : Platform F) (R : RagStore F W) (rel : Engine F W → Engine F W → Type 0)
    (same : (s : Engine F W) → rel s s) (trans : (s t u : Engine F W) → rel s t → rel t u → rel s u)
    (stored : (s : Engine F W) (w : W) → rel s (record s { store = w })) where
  abbrev pub Frames : {A : Type 0} → Exec (Engine F W) A → Type 0
  Frames m = Spares rel m

  pub reads-Frames : {A : Type 0} (f : Engine F W → Result A) → Frames (reads f)
  reads-Frames f = record { spares = same }

  pub on_store-Frames : {A : Type 0} (m : Exec W A) → Frames (on_store P R m)
  on_store-Frames m = record { spares = λ s. stored s (after m s.store) }

  pub sequence :
      {A B : Type 0} (m : Exec (Engine F W) A) (f : A → Exec (Engine F W) B)
      → Frames m
      → ((a : A) → Frames (f a))
      → Frames (m >>= f)
  sequence m f h k = Spares-bind trans f k m h

  pub ingest-Frames :
      (p : Principal) (r : IngestRequest F) (id : Option Uuid) (d : IngestDraw)
      → Frames (ingest P R p r id d)
  unfolding ingest
  ingest-Frames p r id d =
      sequence {A = Unit {0}} (reads (λ (s : Engine F W). check_plane s.control_plane p none)) _
        (reads-Frames _)
        λ _.
          sequence {A = StoredDocument F} (on_store P R (R.ingest p _ d.chunk)) _
            (on_store-Frames _)
            λ document.
              sequence {A = AuditEvent}
                (on_store P R
                  (R.append_audit p (ingest_entry P document (or_drawn id d.request_id)) d.audit))
                (λ _. pure (ingest_reply P document)) (on_store-Frames _)
                λ _. reads-Frames (λ s. ok (ingest_reply P document))

  pub query-Frames :
      (p : Principal) (r : QueryRequest) (id : Option Uuid) (d : QueryDraw)
      → Frames (query P R p r id d)
  unfolding query
  query-Frames p r id d =
      sequence {A = Unit {0}}
        (reads (λ (s : Engine F W). check_plane s.control_plane p (some (pos r.top_k)))) _
        (reads-Frames _)
        λ _.
          sequence {A = List (RetrievalHit F)}
            (on_store P R (R.search p (embed P r.question) r.top_k)) _ (on_store-Frames _)
            λ hits.
              sequence {A = AuditEvent}
                (on_store P R
                  (R.append_audit p (query_entry P r hits (or_drawn id d.request_id)) d.audit))
                _ (on_store-Frames _)
                λ event.
                  sequence {A = String}
                    (reads (λ (s : Engine F W). current_policy s.control_plane p)) _
                    (reads-Frames _)
                    λ policy.
                      sequence {A = ℕ} (on_store P R (R.count_for_tenant p))
                        (λ count. reads (λ s. ok (
                          respond P s.receipt_secret p r (or_drawn id d.request_id) policy count
                            hits event d)))
                        (on_store-Frames _) (λ count. reads-Frames _)

  pub run_probe-Frames : (p : Principal) (d : QueryDraw) → Frames (run_probe P R p d)
  unfolding run_probe isolation_probe
  run_probe-Frames p d =
      sequence _ _ (sequence _ _ (query-Frames p _ none d) (λ r. reads-Frames (λ s. ok _)))
        (λ r. reads-Frames (λ s. ok _))
