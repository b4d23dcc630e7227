-- ===== src/Postgres/Forks.antt =====
-- Two appends of `PostgresRagStore` whose transactions interleave fork the audit chain.
use tenantvault_zero_trust_r.Base.{
  ◌≡◌, ◌≢◌, refl, ap, sym, ◌∙◌, ◌<◌, String, true, false, List, [], ◌∷◌, ◌++◌, ◌&&◌, ==_iff, arith,
  inl, inr,
}
use tenantvault_zero_trust_r.Base.Lists.{All, All-append}
use tenantvault_zero_trust_r.Result.{Result, ok}
use tenantvault_zero_trust_r.Exec.{result, after}
use tenantvault_zero_trust_r.Exec.Ensuring.{ok_inj}
use tenantvault_zero_trust_r.Platform.{Platform, Uuid}
use tenantvault_zero_trust_r.Security.{Principal}
use tenantvault_zero_trust_r.Models.{AuditEvent}
use tenantvault_zero_trust_r.Store.{AuditEntry, AuditDraw}
use tenantvault_zero_trust_r.Postgres.Tables.{
  EventRow, Database, Server, visible_events, is_event_id, is_tenant, check_event,
}
use tenantvault_zero_trust_r.Postgres.{
  PostgresRagStore, new_event, event_row_of, append_after, audit_head,
}
use tenantvault_zero_trust_r.Postgres.Fence.{IsUuidText}
use tenantvault_zero_trust_r.Postgres.Outcomes.{
  append_after-appended, appended, audit_head-returned, head_in,
}
use tenantvault_zero_trust_r.Postgres.Retrieval.{Among}
use tenantvault_zero_trust_r.Postgres.Audit.{Follows, new_event-Follows, appended-visible}

-- The server takes the texts and the JSON of an entry by the principal.
abbrev pub IsStorable : {F : Type 0} → Server F → Principal → AuditEntry F → Type 0
IsStorable V p a = V.is_text p.subject && V.is_text a.action && V.is_jsonb a.detail ≡ true

is_event_id-fresh :
    {F : Type 0} (id : Uuid) (rows : List (EventRow F))
    → All (λ r. r.event_id ≢ id) rows
    → is_event_id id rows ≡ false
is_event_id-fresh id [] h = refl
is_event_id-fresh id (r ∷ rs) h =
    ground (arith, h.0, ==_iff r.event_id id, is_event_id-fresh id rs h.1)

is_tenant-Among : (j : Uuid) (ks : List Uuid) → Among j ks → is_tenant j ks ≡ true
is_tenant-Among j [] h = absurd h
is_tenant-Among j (k ∷ ks) (inl same) = rw ((==_iff k j).1 (sym same)) refl
is_tenant-Among j (k ∷ ks) (inr rest) = ground (arith, is_tenant-Among j ks rest)

module _ {F : Type 0} (P : Platform F) where
  check_event-passes :
      (V : Server F) (row : EventRow F) (db : Database F)
      → V.is_text row.actor_id && V.is_text row.action && V.is_jsonb row.detail ≡ true
      → row.result_count < 2147483648
      → All (λ (r : EventRow F). r.event_id ≢ row.event_id) db.events
      → Among row.tenant_id db.tenants
      → check_event V row db ≡ ok tt
  unfolding check_event
  check_event-passes V row db texts small fresh known = ground (
    arith,
    texts,
    is_event_id-fresh row.event_id db.events fresh,
    is_tenant-Among row.tenant_id db.tenants known,
  )

module _ {F : Type 0} (P : Platform F) (uuids : IsUuidText P) (V : Server F) (p : Principal) where
  append_after-done :
      (s : PostgresRagStore F) (a : AuditEntry F) (d : AuditDraw) (head : String)
      → IsStorable V p a
      → a.result_count < 2147483648
      → All (λ (r : EventRow F). r.event_id ≢ d.event_id) s.database.events
      → Among p.tenant_id s.database.tenants
      → append_after P V p a d head s
        ≡ (ok (new_event P p a head d), appended P uuids V p s a d head)
  append_after-done s a d head texts small fresh known =
      append_after-appended P uuids V p s a d head (
        check_event-passes P V (event_row_of P p.tenant_id (new_event P p a head d) a) s.database
          (unfold event_row_of new_event in texts) (unfold event_row_of new_event in small)
          (unfold event_row_of new_event in fresh) (unfold event_row_of new_event in known))

  -- Two appends under the head of the store, one after the other.
  fork_at :
      (s : PostgresRagStore F) (a b : AuditEntry F) (d f : AuditDraw)
      → Among p.tenant_id s.database.tenants
      → IsStorable V p a
      → IsStorable V p b
      → a.result_count < 2147483648
      → b.result_count < 2147483648
      → All (λ (r : EventRow F). r.event_id ≢ d.event_id) s.database.events
      → All (λ (r : EventRow F). r.event_id ≢ f.event_id) s.database.events
      → d.event_id ≢ f.event_id
      → (append_after P V p a d (head_in P uuids V p s) s ≡ (
        ok (new_event P p a (head_in P uuids V p s) d),
        appended P uuids V p s a d (head_in P uuids V p s),
      ))
        × (append_after P V p b f
              (head_in P uuids V p s)
              (appended P uuids V p s a d (head_in P uuids V p s))
            ≡ (
              ok (new_event P p b (head_in P uuids V p s) f),
              appended P uuids V p
                  (appended P uuids V p s a d (head_in P uuids V p s))
                  b
                  f
                  (head_in P uuids V p s),
            ))
  fork_at s a b d f known texts_a texts_b few_a few_b fresh_d fresh_f differ =
      let head = head_in P uuids V p s in
      let row = event_row_of P p.tenant_id (new_event P p a head d) a in
      let own : row.event_id ≢ f.event_id = unfold event_row_of new_event in differ in
      (
        append_after-done s a d head texts_a few_a fresh_d known,
        append_after-done (appended P uuids V p s a d head) b f head texts_b few_b
            (All-append (λ (r : EventRow F). r.event_id ≢ f.event_id) s.database.events (row ∷ [])
              fresh_f (own, tt))
            known,
      )

  -- The store after two reads of the head.
  abbrev pub both_read : PostgresRagStore F → PostgresRagStore F
  both_read s = after (audit_head P V p) (after (audit_head P V p) s)

  -- Where UUIDs are read back from their texts: if two calls of `append_audit` by a principal with
  -- a tenant in the database both read the head before either inserts its event, then both return,
  -- given texts that the server takes, fresh event identifiers and counts of 32 bits. The tenant has two more events, and each of
  -- them follows the same row, the one that was the newest before: it covers the hash of that row
  -- and names it as its predecessor, so that the chain forks.
  pub interleaved_appends_fork :
      (s : PostgresRagStore F) (a b : AuditEntry F) (d f : AuditDraw) (first second : String)
      → Among p.tenant_id s.database.tenants
      → IsStorable V p a
      → IsStorable V p b
      → a.result_count < 2147483648
      → b.result_count < 2147483648
      → All (λ (r : EventRow F). r.event_id ≢ d.event_id) s.database.events
      → All (λ (r : EventRow F). r.event_id ≢ f.event_id) s.database.events
      → d.event_id ≢ f.event_id
      → result (audit_head P V p) s ≡ ok first
      → result (audit_head P V p) (after (audit_head P V p) s) ≡ ok second
      → (e : AuditEvent) × (g : AuditEvent) × (result (append_after P V p a d first) (both_read s)
          ≡ ok e)
        × (result
              (append_after P V p b f second)
              (after (append_after P V p a d first) (both_read s))
            ≡ ok g)
        × (visible_events p.tenant_id
              (after
                (append_after P V p b f second)
                (after (append_after P V p a d first) (both_read s))).database
            ≡ (visible_events p.tenant_id s.database ++ (event_row_of P p.tenant_id e a ∷ []))
              ++ (event_row_of P p.tenant_id g b ∷ []))
        × Follows P
            (V.newest (visible_events p.tenant_id s.database))
            (event_row_of P p.tenant_id e a)
        × Follows P
            (V.newest (visible_events p.tenant_id s.database))
            (event_row_of P p.tenant_id g b)
  interleaved_appends_fork s a b d f first second known texts_a texts_b few_a few_b fresh_d fresh_f
        differ at1 at2 =
      let head = head_in P uuids V p s in
      let read = audit_head-returned P uuids V p s in
      let read1 : audit_head P V p (after (audit_head P V p) s) ≡ (ok head, s) =
        ap (λ (x : Result String × PostgresRagStore F). audit_head P V p x.1) read ∙ read in
      let same : both_read s ≡ s = ap (λ (x : Result String × PostgresRagStore F). x.1) read1 in
      let same1 : first ≡ head =
        ok_inj (sym at1 ∙ ap (λ (x : Result String × PostgresRagStore F). x.0) read) in
      let same2 : second ≡ head =
        ok_inj (sym at2 ∙ ap (λ (x : Result String × PostgresRagStore F). x.0) read1) in
      let (one, two) = fork_at s a b d f known texts_a texts_b few_a few_b fresh_d fresh_f differ in
      let newest = V.newest (visible_events p.tenant_id s.database) in
      (
        new_event P p a head d,
        new_event P p b head f,
        rw (same, same1, result, one) refl,
        rw (same, same1, same2, result, after, one, two) refl,
        rw (same, same1, same2, after, one, after, two)
            (appended-visible P uuids V p (appended P uuids V p s a d head) b f head
              ∙ ap
                  (λ (rows : List (EventRow F)).
                    rows ++ (event_row_of P p.tenant_id (new_event P p b head f) b ∷ []))
                  (appended-visible P uuids V p s a d head)),
        new_event-Follows P newest p a d,
        new_event-Follows P newest p b f,
      )
