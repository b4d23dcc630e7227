-- ===== src/Benchmark/Seeding.antt =====
-- The benchmark ingests every document and keeps one canary of each tenant
-- (scripts/fault_injection_benchmark.py, the first loop of `run_benchmark`).
use tenantvault_zero_trust_r.Base.{
  ℕ, zero, suc, ◌+◌, ◌-◌, ◌<◌, ◌≡◌, refl, sym, ap, ◌∙◌, subst, ◌==◌, true, some, List, [], ◌∷◌,
  ◌++◌, Bool-cases, inl, inr, arith, ==_iff,
}
use tenantvault_zero_trust_r.Base.Lists.{All, get_last?, get_last?-concat}
use tenantvault_zero_trust_r.Base.Dict.{Dict, lookup, insert, touch, lookup-insert}
use tenantvault_zero_trust_r.Result.{or_raise, index_error}
use tenantvault_zero_trust_r.Exec.{pure, lift, ◌>>=◌, ◌>>◌}
use tenantvault_zero_trust_r.Platform.{Platform}
use tenantvault_zero_trust_r.Security.{can}
use tenantvault_zero_trust_r.Models.{StoredDocument}
use tenantvault_zero_trust_r.Memory.{MemoryRagStore, own_documents, count_for_tenant}
use tenantvault_zero_trust_r.Memory.Integrity.{IsSealed, Reach, counted, then_step, Reach-IsIntact}
use tenantvault_zero_trust_r.Benchmark.{
  BenchmarkDraw, tenant, benchmark_principal, restricted_brief, operational_note, cipher, range,
  ingest_notes, ingest_tenant, ingest_tenants,
}
use tenantvault_zero_trust_r.Benchmark.Runs.{
  Filled, Returns, Returns-bind, ingest-Returns, insert-filled, Reach-cipher,
}

not_below : (i : ℕ) → ¬ (i < 0)
not_below i = omega arith

All-last : {A : Type 0} (Q : A → Type 0) (xs : List A) (x : A) → All Q (xs ++ (x ∷ [])) → Q x
All-last Q [] x h = h.0
All-last Q (y ∷ xs) x h = All-last Q xs x h.1

module _ {F : Type 0} (P : Platform F) (draw : BenchmarkDraw) where
  pub benchmark_principal-may : (index : ℕ) → can (benchmark_principal P index) "rag:write" ≡ true
  unfolding can benchmark_principal
  benchmark_principal-may index = refl

  pub benchmark_principal-may_read :
      (index : ℕ) → can (benchmark_principal P index) "rag:read" ≡ true
  unfolding can benchmark_principal
  benchmark_principal-may_read index = refl

  ingest_notes-Returns :
      (index : ℕ) (numbers : List ℕ) (w : MemoryRagStore F)
      → Reach P (cipher P) w
      → Filled w.documents
      → Returns P (ingest_notes P draw index numbers) w (λ _ v. Filled v.documents)
  unfolding ingest_notes
  ingest_notes-Returns index [] w r filled = record {
    value = tt;
    next = w;
    ran = refl;
    reach = r;
    holds = filled;
  }
  ingest_notes-Returns index (number ∷ numbers) w r filled =
      Returns-bind P w _ _
        (ingest-Returns P (benchmark_principal P index) (operational_note P index number)
          (draw.document index number) w r (benchmark_principal-may index))
        λ _ v s h. ingest_notes-Returns index numbers v s h.filled

  -- What is known of a canary: it is sealed for its tenant.
  abbrev pub IsCanary : ℕ → StoredDocument F → Type 0
  IsCanary index d = IsSealed P (cipher P) (tenant index) d

  -- What follows the first document of a tenant.
  ingest_rest-Returns :
      (n index : ℕ) (docs : List (StoredDocument F)) (d : StoredDocument F) (w : MemoryRagStore F)
      → get_last? docs ≡ some d
      → Returns P (ingest_notes P draw index (range 1 (n - 1))) w (λ _ v. Filled v.documents)
      → IsCanary index d
      → Returns P
          (do
            canary ← lift (or_raise (get_last? docs) index_error)
            ingest_notes P draw index (range 1 (n - 1))
            pure canary)
          w
          (λ x v. IsCanary index x × Filled v.documents)
  ingest_rest-Returns n index docs d w found notes mine = record {
    value = d;
    next = notes.next;
    ran = rw (found, notes.ran) refl;
    reach = notes.reach;
    holds = (mine, notes.holds);
  }

  ingest_tenant-Returns :
      (documents_per_tenant index : ℕ) (w : MemoryRagStore F)
      → Reach P (cipher P) w
      → Returns P
          (ingest_tenant P draw documents_per_tenant index)
          w
          (λ d v. IsCanary index d × Filled v.documents)
  unfolding ingest_tenant benchmark_principal count_for_tenant
  ingest_tenant-Returns n index w r =
      Returns-bind P w _ _
        (ingest-Returns P (benchmark_principal P index) (restricted_brief P index)
          (draw.document index 0) w r (benchmark_principal-may index))
        λ _ v s h.
          let bucket = own_documents v (tenant index) in
          let mine : IsCanary index h.last =
            subst (λ c. IsSealed P c (tenant index) h.last) (Reach-cipher P (cipher P) s)
              (All-last (IsSealed P v.cipher (tenant index)) h.earlier h.last (
                subst (All (IsSealed P v.cipher (tenant index))) h.bucket_at
                  ((Reach-IsIntact P (cipher P) s).documents (tenant index)))) in
          let found : get_last? bucket ≡ some h.last =
            ap get_last? h.bucket_at ∙ get_last?-concat h.earlier h.last in
          let filled : Filled (touch (tenant index) v.documents) =
            subst (λ (xs : List (StoredDocument F)). Filled (insert (tenant index) xs v.documents))
              (sym h.bucket_at) (insert-filled (tenant index) h.earlier h.last v.documents) in
          let next = record v { documents = touch (tenant index) v.documents } in
          let rest =
            ingest_rest-Returns n index bucket h.last next found
              (ingest_notes-Returns index (range 1 (n - 1)) next
                (then_step s (counted (benchmark_principal P index))) filled)
              mine in
          record {
            value = rest.value;
            next = rest.next;
            ran = rest.ran;
            reach = rest.reach;
            holds = rest.holds;
          }

  -- The dict holds the canary of each of the first tenants.
  abbrev pub Covers : ℕ → Dict (StoredDocument F) → Type 0
  Covers n known =
      (i : ℕ) → i < n → (d : StoredDocument F) × (lookup (tenant i) known ≡ some d) × IsCanary i d

  Covers-insert :
      (n : ℕ) (d : StoredDocument F) (known : Dict (StoredDocument F))
      → Covers n known
      → IsCanary n d
      → Covers (suc n) (insert (tenant n) d known)
  Covers-insert n d known h mine i below = elim (Bool-cases (n == i)) [
    | inl same ↦
        let e : n ≡ i = (==_iff n i).0 same in
        (
          d,
          ground (arith, lookup-insert (tenant n) (tenant i) d known, e),
          subst (λ (k : ℕ). IsCanary k d) e mine,
        )
    | inr differ ↦
        let (x, found, good) = h i (ground (arith, ==_iff n i)) in
        (x, ground (arith, lookup-insert (tenant n) (tenant i) d known, found, ==_iff n i), good)
  ]

  ingest_tenants-Returns :
      (n first count : ℕ) (known : Dict (StoredDocument F)) (w : MemoryRagStore F)
      → Reach P (cipher P) w
      → Covers first known
      → Filled w.documents
      → Returns P
          (ingest_tenants P draw n (range first count) known)
          w
          (λ all v. Covers (first + count) all × Filled v.documents)
  unfolding ingest_tenants
  ingest_tenants-Returns n first zero known w r h filled = record {
    value = known;
    next = w;
    ran = refl;
    reach = r;
    holds = (subst (λ k. Covers k known) (omega arith) h, filled);
  }
  ingest_tenants-Returns n first (suc count) known w r h filled =
      Returns-bind P w _ _ (ingest_tenant-Returns n first w r) λ d v s k.
        subst
          (λ (m : ℕ).
            Returns P
              (ingest_tenants P draw n (range (suc first) count) (insert (tenant first) d known)) v
              (λ all u. Covers m all × Filled u.documents))
          (omega arith)
          (ingest_tenants-Returns n (suc first) count (insert (tenant first) d known) v s
            (Covers-insert first d known h k.0) k.1)

  -- With one tenant at least, every document is ingested, and the canaries of all tenants are
  -- known.
  pub seeding-Returns :
      (n count : ℕ) (w : MemoryRagStore F)
      → Reach P (cipher P) w
      → Returns P
          (ingest_tenants P draw n (range 0 (suc count)) [])
          w
          (λ all v. Covers (suc count) all × Filled v.documents)
  unfolding ingest_tenants
  seeding-Returns n count w r = Returns-bind P w _ _ (ingest_tenant-Returns n 0 w r) λ d v s k.
      subst
        (λ (m : ℕ).
          Returns P (ingest_tenants P draw n (range 1 count) (insert (tenant 0) d [])) v
            (λ all u. Covers m all × Filled u.documents))
        (omega arith)
        (ingest_tenants-Returns n 1 count (insert (tenant 0) d []) v s
          (Covers-insert 0 d [] (λ i below. absurd (not_below i below)) k.0) k.1)
