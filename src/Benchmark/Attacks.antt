-- ===== src/Benchmark/Attacks.antt =====
-- Every attack of the benchmark runs to its end, and no replay of a ciphertext opens
-- (scripts/fault_injection_benchmark.py, the loops over attackers and victims).
use mathlib.Core.List.{append_assoc, append-nil, map-append}
use tenantvault_zero_trust_r.Base.{
  ℕ, zero, suc, ◌+◌, ◌<◌, ◌≤◌, ◌≡◌, ◌≢◌, refl, sym, ap, ◌∙◌, subst, ◌==◌, some, none, List, [], ◌∷◌,
  ◌++◌, Bool-cases, inl, inr, arith, ==_iff,
}
use tenantvault_zero_trust_r.Base.Lists.{length-append}
use tenantvault_zero_trust_r.Base.Dict.{Dict}
use tenantvault_zero_trust_r.Result.{err, invalid_tag}
use tenantvault_zero_trust_r.Platform.{Platform, Bytes, Uuid}
use tenantvault_zero_trust_r.Security.{TenantCipher, decrypt, encrypt, tenant_key}
use tenantvault_zero_trust_r.Models.{StoredDocument}
use tenantvault_zero_trust_r.Memory.{MemoryRagStore, sealed}
use tenantvault_zero_trust_r.Memory.Integrity.{IsSealed, Reach}
use tenantvault_zero_trust_r.Memory.Retrieval.{IsOpening}
use tenantvault_zero_trust_r.Postgres.Fence.{IsUuidText}
use tenantvault_zero_trust_r.Embedding.{embed}
use tenantvault_zero_trust_r.Engine.{Engine}
use tenantvault_zero_trust_r.Benchmark.{
  BenchmarkDraw, Tally, tenant, benchmark_principal, canary_for, canary_request, cipher, range,
  count_if, attack, attack_victims, attack_all, highest,
}
use tenantvault_zero_trust_r.Benchmark.Counting.{
  Attack, selects, leaks, pair_of, IsTally, rivals, all_rivals, rivals-cons, count-append,
}
use tenantvault_zero_trust_r.Benchmark.Runs.{Returns, Returns-bind, query-Returns}
use tenantvault_zero_trust_r.Benchmark.Seeding.{Covers, benchmark_principal-may_read}

module _ {F : Type 0} (P : Platform F) where
  -- AES-GCM refuses a ciphertext under other associated data than it was sealed with.
  pub record IsBinding : Type 0 where
    pub rejects :
        (key other nonce plain extra given : Bytes)
        → extra ≢ given
        → P.aesgcm_decrypt other nonce (P.aesgcm_encrypt key nonce plain extra) given ≡ none

  module _ (opening : IsOpening P) (binding : IsBinding) (texts : IsUuidText P) where
    extra_differs : (i j : Uuid) → i ≢ j → P.encode (P.uuid_str i) ≢ P.encode (P.uuid_str j)
    extra_differs i j differ same =
        let text : some (P.uuid_str i) ≡ some (P.uuid_str j) =
          sym (opening.decodes (P.uuid_str i))
          ∙ ap P.decode same
          ∙ opening.decodes (P.uuid_str j) in
        let parsed : P.uuid_parse (P.uuid_str i) ≡ P.uuid_parse (P.uuid_str j) = cc in
        let number : some i ≡ some j = sym (texts.parses i) ∙ parsed ∙ texts.parses j in differ cc

    -- Another tenant cannot open what was sealed for `j`.
    pub decrypt-foreign :
        (c : TenantCipher) (i j : Uuid) (d : StoredDocument F)
        → j ≢ i
        → IsSealed P c j d
        → decrypt P c i d.nonce d.ciphertext ≡ err invalid_tag
    unfolding decrypt sealed encrypt
    decrypt-foreign c i j d differ h =
        let owner : h.owner.tenant_id ≢ i =
          subst (λ (k : Uuid). k ≢ i) (sym h.owner_tenant) differ in
        ap (λ (x : StoredDocument F). decrypt P c i x.nonce x.ciphertext) h.made
        ∙ rw
            (binding.rejects (tenant_key P c h.owner.tenant_id) (tenant_key P c i) h.draw.nonce
              (P.encode h.chunk.content) (P.encode (P.uuid_str h.owner.tenant_id))
              (P.encode (P.uuid_str i)) (extra_differs h.owner.tenant_id i owner))
            refl

module _ {F : Type 0} (P : Platform F) (draw : BenchmarkDraw) (opening : IsOpening P)
    (binding : IsBinding P) (texts : IsUuidText P) (known : Dict (StoredDocument F))
    (first : StoredDocument F) (others : List (StoredDocument F)) (n : ℕ)
    (covers : Covers P draw n known) where
  abbrev Tallied : List (ℕ × ℕ) → Tally → Type 0
  Tallied ps t = IsTally P draw known (first ∷ others) ps t

  -- The counters after one more attack.
  tally_one :
      (i j : ℕ) (ps : List (ℕ × ℕ)) (t : Tally)
      → Tallied ps t
      → (a : Attack P draw known (first ∷ others)) → pair_of P draw a ≡ (i, j)
      → Tallied (ps ++ ((i, j) ∷ [])) (record {
        attack_pairs = t.attack_pairs + 1;
        baseline_selected_foreign_canaries =
            count_if (selects P draw a) t.baseline_selected_foreign_canaries;
        tenantvault_foreign_sources_returned =
            count_if (leaks P draw a) t.tenantvault_foreign_sources_returned;
        encryption_replays_blocked = t.encryption_replays_blocked + 1;
      })
  tally_one i j ps t h a same = record {
    attacks = h.attacks ++ (a ∷ []);
    pairs =
        map-append (pair_of P draw) h.attacks (a ∷ [])
        ∙ ap (λ (x : List (ℕ × ℕ)). x ++ (pair_of P draw a ∷ [])) h.pairs
        ∙ ap (λ (x : ℕ × ℕ). ps ++ (x ∷ [])) same;
    attempted = omega (arith, h.attempted, length-append h.attacks (a ∷ []));
    blocked = omega (arith, h.blocked, length-append h.attacks (a ∷ []));
    selected =
        ap (count_if (selects P draw a)) h.selected
        ∙ sym (count-append (selects P draw) h.attacks a);
    returned =
        ap (count_if (leaks P draw a)) h.returned ∙ sym (count-append (leaks P draw) h.attacks a);
  }

  attack-Returns :
      (i j : ℕ) (ps : List (ℕ × ℕ)) (t : Tally) (w : MemoryRagStore F)
      → Reach P (cipher P) w
      → j < n
      → Tallied ps t
      → Returns P
          (attack P draw known (first ∷ others) i j t)
          w
          (λ u _. Tallied (ps ++ rivals i (j ∷ [])) u)
  unfolding attack
  attack-Returns i j ps t w r below h = elim (Bool-cases (tenant i == tenant j)) [
    | inl same ↦ rw same (record {
      value = t;
      next = w;
      ran = refl;
      reach = r;
      holds = subst (λ (x : List (ℕ × ℕ)). Tallied x t) (sym (append-nil ps)) h;
    })
    | inr differ ↦
        let (d, found, mine) = covers j below in
        let reply =
          query-Returns P opening (benchmark_principal P i) (canary_request P j) (draw.attack i j) w
            r (benchmark_principal-may_read P draw i) in
        let refused =
          decrypt-foreign P opening binding texts (cipher P) (tenant i) (tenant j) d
            (ground (arith, differ, ==_iff (tenant i) (tenant j))) mine in
        let a : Attack P draw known (first ∷ others) = record {
          attacker = i;
          victim = j;
          baseline = highest P (embed P (canary_for P j)) first others;
          selected = refl;
          store = w;
          store_reach = r;
          reply = reply.value;
          replied = ap (λ (x : _ × Engine F (MemoryRagStore F)). x.0) reply.ran;
          document = d;
          document_at = found;
          refused = refused;
        } in
        rw differ (record {
          value = record {
            attack_pairs = t.attack_pairs + 1;
            baseline_selected_foreign_canaries =
                count_if (selects P draw a) t.baseline_selected_foreign_canaries;
            tenantvault_foreign_sources_returned =
                count_if (leaks P draw a) t.tenantvault_foreign_sources_returned;
            encryption_replays_blocked = t.encryption_replays_blocked + 1;
          };
          next = reply.next;
          ran = rw (reply.ran, found, refused) refl;
          reach = reply.reach;
          holds = tally_one i j ps t h a refl;
        })
  ]

  attack_victims-Returns :
      (i start count : ℕ) (ps : List (ℕ × ℕ)) (t : Tally) (w : MemoryRagStore F)
      → Reach P (cipher P) w
      → start + count ≤ n
      → Tallied ps t
      → Returns P
          (attack_victims P draw known (first ∷ others) i (range start count) t)
          w
          (λ u _. Tallied (ps ++ rivals i (range start count)) u)
  unfolding attack_victims
  attack_victims-Returns i start zero ps t w r below h = record {
    value = t;
    next = w;
    ran = refl;
    reach = r;
    holds = subst (λ (x : List (ℕ × ℕ)). Tallied x t) (sym (append-nil ps)) h;
  }
  attack_victims-Returns i start (suc count) ps t w r below h =
      Returns-bind P w _ _ (attack-Returns i start ps t w r (omega (arith, below)) h) λ u v s k.
        subst
          (λ (x : List (ℕ × ℕ)).
            Returns P (attack_victims P draw known (first ∷ others) i (range (suc start) count) u) v
              (λ a _. Tallied x a))
          (append_assoc ps (rivals i (start ∷ [])) (rivals i (range (suc start) count))
            ∙ ap (λ (x : List (ℕ × ℕ)). ps ++ x) (rivals-cons i start (range (suc start) count)))
          (attack_victims-Returns i (suc start) count (ps ++ rivals i (start ∷ [])) u v s
            (omega (arith, below)) k)

  pub attack_all-Returns :
      (attackers : List ℕ) (ps : List (ℕ × ℕ)) (t : Tally) (w : MemoryRagStore F)
      → Reach P (cipher P) w
      → Tallied ps t
      → Returns P
          (attack_all P draw known (first ∷ others) attackers (range 0 n) t)
          w
          (λ u _. Tallied (ps ++ all_rivals attackers (range 0 n)) u)
  unfolding attack_all
  attack_all-Returns [] ps t w r h = record {
    value = t;
    next = w;
    ran = refl;
    reach = r;
    holds = subst (λ (x : List (ℕ × ℕ)). Tallied x t) (sym (append-nil ps)) h;
  }
  attack_all-Returns (i ∷ is) ps t w r h =
      Returns-bind P w _ _ (attack_victims-Returns i 0 n ps t w r (omega arith) h) λ u v s k.
        subst
          (λ (x : List (ℕ × ℕ)).
            Returns P (attack_all P draw known (first ∷ others) is (range 0 n) u) v
              (λ a _. Tallied x a))
          (append_assoc ps (rivals i (range 0 n)) (all_rivals is (range 0 n)))
          (attack_all-Returns is (ps ++ rivals i (range 0 n)) u v s k)
