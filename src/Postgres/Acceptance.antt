-- ===== src/Postgres/Acceptance.antt =====
-- When `PostgresRagStore` takes what it is given to write, in terms of the scopes, the tables and
-- their constraints (src/tenantvault/store.py, migrations/001_zero_trust.sql).
use tenantvault_zero_trust_r.Base.{
  ◌≡◌, ◌≢◌, ◌↔◌, refl, sym, true, false, List, [], ◌∷◌, ◌++◌, ◌⊎◌, inl, inr, ◌&&◌, ◌==◌, ==_iff,
  eq_iff, arith, Bool-cases,
}
use tenantvault_zero_trust_r.Base.Lists.{All}
use tenantvault_zero_trust_r.Result.{Error, permission_error, ok, err, Result-cases}
use tenantvault_zero_trust_r.Platform.{Platform, Uuid}
use tenantvault_zero_trust_r.Security.{Principal, can}
use tenantvault_zero_trust_r.Store.{Chunk, ChunkDraw}
use tenantvault_zero_trust_r.Memory.{sealed}
use tenantvault_zero_trust_r.Postgres.Tables.{
  DocumentRow, Database, Server, clashes, is_tenant, check_document,
}
use tenantvault_zero_trust_r.Postgres.{PostgresRagStore, row_of, ingest}
use tenantvault_zero_trust_r.Postgres.Fence.{IsUuidText}
use tenantvault_zero_trust_r.Postgres.Outcomes.{ingest-forbidden, ingest-refused, ingest-stored}
use tenantvault_zero_trust_r.Postgres.Retrieval.{Among}

is_tenant_iff : (j : Uuid) (ks : List Uuid) → (is_tenant j ks ≡ true) ↔ Among j ks
is_tenant_iff j [] = (λ h. ground (arith, h), λ h. absurd h)
is_tenant_iff j (k ∷ ks) = elim (Bool-cases (k == j)) [
  | inl same ↦ (λ h. inl (sym ((==_iff k j).0 same)), λ h. rw same refl)
  | inr differ ↦ (
    λ h. inr ((is_tenant_iff j ks).0 (ground (arith, h, differ))),
    λ h. elim h [
      | inl same ↦ absurd (ground (arith, same, differ, ==_iff k j))
      | inr rest ↦ rw differ ((is_tenant_iff j ks).1 rest)
    ],
  )
]

module _ {F : Type 0} where
  -- The row has another identifier, and not both the tenant and the digest.
  pub record IsApart (row r : DocumentRow F) : Type 0 where
    pub identifier : r.document_id ≢ row.document_id
    pub digest : r.tenant_id ≡ row.tenant_id → r.content_sha256 ≢ row.content_sha256

  clashes_iff :
      (row : DocumentRow F) (rs : List (DocumentRow F))
      → (clashes row rs ≡ false) ↔ All (IsApart row) rs
  clashes_iff row [] = (λ _. tt, λ _. refl)
  clashes_iff row (r ∷ rs) = (
    λ h. (
      record {
        identifier = λ same. ground (arith, h, same, ==_iff r.document_id row.document_id);
        digest = λ own same. ground (
          arith,
          h,
          own,
          same,
          ==_iff r.document_id row.document_id,
          ==_iff r.tenant_id row.tenant_id,
          eq_iff r.content_sha256 row.content_sha256,
        );
      },
      (clashes_iff row rs).0 (ground (arith, h)),
    ),
    λ h. ground (
      arith,
      h.0.identifier,
      h.0.digest,
      (clashes_iff row rs).1 h.1,
      ==_iff r.document_id row.document_id,
      ==_iff r.tenant_id row.tenant_id,
      eq_iff r.content_sha256 row.content_sha256,
    ),
  )

  -- The constraints on a row of `rag.documents`.
  pub record IsInsertable (V : Server F) (row : DocumentRow F) (db : Database F) : Type 0 where
    pub storable : V.is_text row.title && V.is_text row.source_uri && V.is_jsonb row.metadata ≡ true
    pub vector : V.is_vector row.embedding ≡ true
    pub apart : All (IsApart row) db.documents
    pub tenant_known : Among row.tenant_id db.tenants

  check_document_iff :
      (V : Server F) (row : DocumentRow F) (db : Database F)
      → (check_document V row db ≡ ok tt) ↔ IsInsertable V row db
  unfolding check_document
  check_document_iff V row db = (
    λ h. record {
      storable = ground arith;
      vector = ground arith;
      apart = (clashes_iff row db.documents).0 (ground arith);
      tenant_known = (is_tenant_iff row.tenant_id db.tenants).0 (ground arith);
    },
    λ h.
        rw
          (
            h.storable,
            h.vector,
            (clashes_iff row db.documents).1 h.apart,
            (is_tenant_iff row.tenant_id db.tenants).1 h.tenant_known,
          )
          refl,
  )

module _ {F : Type 0} (P : Platform F) (V : Server F) (p : Principal) where
  -- Where UUIDs are read back from their texts: an ingestion is accepted exactly when the principal
  -- has the scope "rag:write" and the row keeps to the constraints of the table: a vector of the
  -- column's type, texts and
  -- JSON that the server takes, an identifier that no row has, a digest that no row of the tenant has, and a
  -- known tenant. If it is accepted, it returns the document and appends its row; if not, it raises
  -- and leaves the store exactly as it was.
  pub ingest_outcome :
      IsUuidText P
      → (s : PostgresRagStore F) (c : Chunk F) (d : ChunkDraw)
      → ((can p "rag:write" ≡ true)
          × IsInsertable V (row_of P p.tenant_id (sealed P s.cipher p c d)) s.database
          × (ingest P V p c d s ≡ (
            ok (sealed P s.cipher p c d),
            record s {
              database = record s.database {
                documents =
                    s.database.documents ++ (row_of P p.tenant_id (sealed P s.cipher p c d) ∷ []);
              };
            },
          )))
        ⊎ (¬ (
              (can p "rag:write" ≡ true)
              × IsInsertable V (row_of P p.tenant_id (sealed P s.cipher p c d)) s.database)
            × ((e : Error) × (ingest P V p c d s ≡ (err e, s))))
  ingest_outcome uuids s c d =
      let row = row_of P p.tenant_id (sealed P s.cipher p c d) in
      elim (Bool-cases (can p "rag:write")) [
        | inr may_not ↦ inr (
          λ both. ground (arith, both.0, may_not),
          (
            permission_error "principal lacks rag:write",
            ingest-forbidden P uuids V p s c d may_not,
          ),
        )
        | inl may ↦ elim (Result-cases (check_document V row s.database)) [
          | inl (u, passed) ↦ inl (
            may,
            (check_document_iff V row s.database).0 passed,
            ingest-stored P uuids V p s c d may passed,
          )
          | inr (e, refused) ↦ inr (
            λ both. let fine = (check_document_iff V row s.database).1 both.1 in cc,
            (e, ingest-refused P uuids V p s c d e may refused),
          )
        ]
      ]
