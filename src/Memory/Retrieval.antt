-- ===== src/Memory/Retrieval.antt =====
-- What a search of `MemoryRagStore` returns: it never fails to open what the store holds, and
-- every hit is an excerpt of a text that was stored for the caller's tenant.
use tenantvault_zero_trust_r.Base.{
  ℕ, suc, ◌≡◌, refl, ap, sym, ◌∙◌, ◌≤◌, true, some, List, [], ◌∷◌, String, arith,
}
use tenantvault_zero_trust_r.Base.Lists.{
  All, length, take, filter, length-take, All-take, All-filter,
}
use tenantvault_zero_trust_r.Base.Text
use tenantvault_zero_trust_r.Base.Sorting.{sort-All}
use tenantvault_zero_trust_r.Result.{ok}
use tenantvault_zero_trust_r.Exec.{result}
use tenantvault_zero_trust_r.Platform.{Platform, Bytes, Uuid}
use tenantvault_zero_trust_r.Security.{
  Principal, can, TenantCipher, tenant_key, encrypt, decrypt, digest,
}
use tenantvault_zero_trust_r.Models.{StoredDocument, RetrievalHit}
use tenantvault_zero_trust_r.Store.{Chunk, ChunkDraw}
use tenantvault_zero_trust_r.Memory.{MemoryRagStore, own_documents, sealed, search, hit_of, hits_of}
use tenantvault_zero_trust_r.Memory.Ranking.{is_close, scored, ranked, higher}
use tenantvault_zero_trust_r.Memory.Integrity.{IsSealed, Reach, Reach-IsIntact}

module _ {F : Type 0} (P : Platform F) where
  -- AES-GCM opens what it sealed under the same key, nonce and data, and UTF-8 decodes what it
  -- encoded.
  pub record IsOpening : Type 0 where
    pub opens :
        (key nonce plain extra : Bytes)
        → P.aesgcm_decrypt key nonce (P.aesgcm_encrypt key nonce plain extra) extra ≡ some plain
    pub decodes : (s : String) → P.decode (P.encode s) ≡ some s

  -- A text is read back by the tenant that it was encrypted for.
  pub decrypt-encrypt :
      IsOpening
      → (c : TenantCipher) (j : Uuid) (s : String) (nonce : Bytes)
      → decrypt P c j (encrypt P c j s nonce).0 (encrypt P c j s nonce).1 ≡ ok s
  unfolding decrypt encrypt
  decrypt-encrypt law c j s nonce =
      rw (law.opens (tenant_key P c j) nonce (P.encode s) (P.encode (P.uuid_str j)), law.decodes s)

  pub decrypt-own :
      IsOpening
      → (c : TenantCipher) (j i : Uuid) (s : String) (nonce : Bytes) → j ≡ i
      → decrypt P c i (encrypt P c j s nonce).0 (encrypt P c j s nonce).1 ≡ ok s
  decrypt-own law c j i s nonce same =
      ap (λ (i : Uuid). decrypt P c i (encrypt P c j s nonce).0 (encrypt P c j s nonce).1)
        (sym same)
      ∙ decrypt-encrypt law c j s nonce

  -- The hit tells of the text `chunk` that was stored for the tenant `j`.
  pub record IsHitOf (j : Uuid) (h : RetrievalHit F) : Type 0 where
    pub owner : Principal
    pub owner_tenant : owner.tenant_id ≡ j
    pub chunk : Chunk F
    pub draw : ChunkDraw
    pub document_id : h.document_id ≡ draw.document_id
    pub title : h.title ≡ chunk.title
    pub source_uri : h.source_uri ≡ chunk.source_uri
    pub excerpt : h.excerpt ≡ Text.take 500 chunk.content
    pub content_sha256 : h.content_sha256 ≡ digest P chunk.content

  module _ (law : IsOpening) (c : TenantCipher) (p : Principal) where
    abbrev pub hit : F → Chunk F → ChunkDraw → RetrievalHit F
    hit score chunk draw = record {
      document_id = draw.document_id;
      title = chunk.title;
      source_uri = chunk.source_uri;
      excerpt = Text.take 500 chunk.content;
      score = P.round score 4;
      content_sha256 = digest P chunk.content;
    }

    hit_of-sealed :
        (q : Principal) (chunk : Chunk F) (draw : ChunkDraw) (score : F)
        → q.tenant_id ≡ p.tenant_id
        → hit_of P c p (score, sealed P c q chunk draw) ≡ ok (hit score chunk draw)
    unfolding hit_of sealed
    hit_of-sealed q chunk draw score same =
        rw (decrypt-own law c q.tenant_id p.tenant_id chunk.content draw.nonce same) refl

    hit_of-IsHitOf :
        (r : F × StoredDocument F)
        → IsSealed P c p.tenant_id r.1
        → (h : RetrievalHit F) × (hit_of P c p r ≡ ok h) × IsHitOf p.tenant_id h
    hit_of-IsHitOf r k = (
      hit r.0 k.chunk k.draw,
      ap (λ (d : StoredDocument F). hit_of P c p (r.0, d)) k.made
          ∙ hit_of-sealed k.owner k.chunk k.draw r.0 k.owner_tenant,
      record {
        owner = k.owner;
        owner_tenant = k.owner_tenant;
        chunk = k.chunk;
        draw = k.draw;
        document_id = refl;
        title = refl;
        source_uri = refl;
        excerpt = refl;
        content_sha256 = refl;
      },
    )

    hits_of-IsHitOf :
        (rs : List (F × StoredDocument F))
        → All (λ r. IsSealed P c p.tenant_id r.1) rs
        → (hs : List (RetrievalHit F)) × (hits_of P c p rs ≡ ok hs)
          × (length hs ≡ length rs)
          × All (IsHitOf p.tenant_id) hs
    unfolding hits_of
    hits_of-IsHitOf [] k = ([], refl, refl, tt)
    hits_of-IsHitOf (r ∷ rs) k =
        let (h, found, good) = hit_of-IsHitOf r k.0 in
        let (hs, rest, same, all) = hits_of-IsHitOf rs k.1 in
        (h ∷ hs, rw (found, rest) refl, ap suc same, (good, all))

  scored-IsSealed :
      (c : TenantCipher) (j : Uuid) (e : List F) (ds : List (StoredDocument F))
      → All (IsSealed P c j) ds
      → All (λ r. IsSealed P c j r.1) (scored P e ds)
  unfolding scored
  scored-IsSealed c j e [] h = tt
  scored-IsSealed c j e (d ∷ ds) h = (h.0, scored-IsSealed c j e ds h.1)

  ranked-All :
      (Q : F × StoredDocument F → Type 0) (e : List F) (ds : List (StoredDocument F))
      → All Q (scored P e ds)
      → All Q (ranked P e ds)
  unfolding ranked
  ranked-All Q e ds h =
      sort-All (higher P) Q (filter (is_close P) (scored P e ds))
        (All-filter Q (is_close P) (scored P e ds) h)

  pub search_returns :
      IsOpening
      → (cipher : TenantCipher) (s : MemoryRagStore F) (p : Principal) (e : List F) (k : ℕ)
      → Reach P cipher s
      → can p "rag:read" ≡ true
      → (hs : List (RetrievalHit F)) × (result (search P p e k) s ≡ ok hs)
        × (length hs ≤ k)
        × All (IsHitOf p.tenant_id) hs
  unfolding search
  search_returns law cipher s p e k r may =
      let docs = own_documents s p.tenant_id in
      let kept = (Reach-IsIntact P cipher r).documents p.tenant_id in
      let Q = λ (x : F × StoredDocument F). IsSealed P s.cipher p.tenant_id x.1 in
      let (hs, found, count, good) = hits_of-IsHitOf law s.cipher p (take k (ranked P e docs)) (
        All-take Q k (ranked P e docs)
          (ranked-All Q e docs (scored-IsSealed s.cipher p.tenant_id e docs kept))) in
      (hs, rw may found, omega (arith, count, length-take k (ranked P e docs)), good)
