-- ===== src/Postgres/Audit.antt =====
-- The audit chain of `PostgresRagStore`: whole appends under an advancing clock extend it.
use tenantvault_zero_trust_r.Base.{
  ◌≡◌, refl, ◌<◌, ◌≤◌, String, Option, none, some, List, [], ◌∷◌, ◌++◌, ◌⊎◌, ==_refl, eq_iff,
  text_eq, inl, inr, Bool-cases,
}
use tenantvault_zero_trust_r.Base.Int.{pos}
use tenantvault_zero_trust_r.Base.Lists.{All, get_last?}
use tenantvault_zero_trust_r.Result.{Result}
use tenantvault_zero_trust_r.Json.{int, str, obj, end, field}
use tenantvault_zero_trust_r.Platform.{Platform}
use tenantvault_zero_trust_r.Security.{Principal}
use tenantvault_zero_trust_r.Store.{AuditEntry, AuditDraw}
use tenantvault_zero_trust_r.Memory.{genesis}
use tenantvault_zero_trust_r.Postgres.Tables.{EventRow, Server, visible_events, audit_tenant_fence}
use tenantvault_zero_trust_r.Postgres.{
  PostgresRagStore, hash_or_genesis, audit_json, new_event, event_row_of,
}
use tenantvault_zero_trust_r.Postgres.Fence.{IsUuidText, filter-append_own}
use tenantvault_zero_trust_r.Postgres.Outcomes.{appended}
use tenantvault_zero_trust_r.Postgres.Retrieval.{Among}

-- `ORDER BY created_at DESC LIMIT 1` finds a row if there is one, and no row is newer than it.
pub record IsNewest {F : Type 0} (V : Server F) : Type 0 where
  pub nothing : V.newest [] ≡ none
  pub something :
      (row : EventRow F) (rows : List (EventRow F))
      → (r : EventRow F) × (V.newest (row ∷ rows) ≡ some r)
  pub is_newest :
      (rows : List (EventRow F)) (r : EventRow F)
      → V.newest rows ≡ some r
      → Among r rows × All (λ q. q.created_at ≤ r.created_at) rows

module _ {F : Type 0} (P : Platform F) where
  -- The hash of the row is that of its fields and of `head`.
  abbrev pub Covers : String → EventRow F → Type 0
  Covers head row =
      row.event_hash
      ≡ P.sha256_hex (
          P.encode (
            P.dumps_sorted (
              obj (
                field "tenant" (str (P.uuid_str row.tenant_id)) (
                  field "actor" (str row.actor_id) (
                    field "action" (str row.action) (
                      field "request" (str (P.uuid_str row.request_id)) (
                        field "results" (int (pos row.result_count)) (
                          field "detail" (obj row.detail) (
                            field "previous" (str head)
                              (field "time" (str (P.isoformat row.created_at)) end)))))))))))

  -- The row covers the hash of the one before it and names it, unless that hash is sixty-four
  -- zeros. The first row covers sixty-four zeros and names none.
  abbrev pub Follows : Option (EventRow F) → EventRow F → Type 0
  Follows none row = (row.previous_hash ≡ none) × Covers genesis row
  Follows (some r) row =
      ((row.previous_hash ≡ some r.event_hash) ⊎ (r.event_hash ≡ genesis)) × Covers r.event_hash row

  pub new_event-Follows :
      (before : Option (EventRow F)) (p : Principal) (a : AuditEntry F) (d : AuditDraw)
      → Follows before (event_row_of P p.tenant_id (new_event P p a (hash_or_genesis before) d) a)
  unfolding new_event event_row_of audit_json
  new_event-Follows none p a d = (rw ((eq_iff genesis genesis).1 refl) refl, refl)
  new_event-Follows (some r) p a d = elim (Bool-cases (text_eq r.event_hash genesis)) [
    | inl zeros ↦ (inr ((eq_iff r.event_hash genesis).0 zeros), refl)
    | inr other ↦ (inl (rw other refl), refl)
  ]

  -- Each row is later than those before it, and follows the last of them.
  pub data IsChained : List (EventRow F) → Type 0 where
    no_rows : IsChained []
    linked :
        (rows : List (EventRow F)) (row : EventRow F)
        → IsChained rows
        → All (λ r. r.created_at < row.created_at) rows
        → Follows (get_last? rows) row
        → IsChained (rows ++ (row ∷ []))

module _ {F : Type 0} (P : Platform F) (uuids : IsUuidText P) (V : Server F) (p : Principal) where
  -- What an appended event shows.
  pub appended-visible :
      (s : PostgresRagStore F) (a : AuditEntry F) (d : AuditDraw) (head : String)
      → visible_events p.tenant_id (appended P uuids V p s a d head).database
        ≡ visible_events p.tenant_id s.database
          ++ (event_row_of P p.tenant_id (new_event P p a head d) a ∷ [])
  appended-visible s a d head =
      filter-append_own (audit_tenant_fence p.tenant_id) s.database.events
        (event_row_of P p.tenant_id (new_event P p a head d) a)
        (unfold event_row_of in ==_refl p.tenant_id)
