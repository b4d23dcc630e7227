-- ===== src/Benchmark/Counting.antt =====
-- What the counters of the benchmark count (scripts/fault_injection_benchmark.py): the attacks, one
-- for each ordered pair of tenants, and the receipts that are tampered with.
use mathlib.Core.List.{}
use tenantvault_zero_trust_r.Base.{
  ℕ, zero, suc, ◌+◌, ◌*◌, ◌-◌, ◌%◌, ◌<◌, ◌≤◌, ◌≡◌, ◌↔◌, refl, ◌==◌, Bool, true, false, not, none,
  some, List, [], ◌∷◌, ◌++◌, map, Bool-cases, inl, inr, arith, text_eq, if◌then◌else◌,
}
use tenantvault_zero_trust_r.Base.Dict.{Dict, lookup}
use tenantvault_zero_trust_r.Base.Lists.{All, length, length-append, filter}
use tenantvault_zero_trust_r.Result.{ok, err, invalid_tag}
use tenantvault_zero_trust_r.Exec.{result}
use tenantvault_zero_trust_r.Platform.{Platform}
use tenantvault_zero_trust_r.Security.{decrypt}
use tenantvault_zero_trust_r.Models.{StoredDocument}
use tenantvault_zero_trust_r.Store.{sign_receipt}
use tenantvault_zero_trust_r.Memory.{MemoryRagStore, memory_store}
use tenantvault_zero_trust_r.Memory.Integrity.{Reach}
use tenantvault_zero_trust_r.Embedding.{embed}
use tenantvault_zero_trust_r.Engine.{QueryReply, query, leaked}
use tenantvault_zero_trust_r.Benchmark.{
  BenchmarkDraw, Tally, tenant, benchmark_principal, canary_for, canary_request, cipher, range,
  count_if, engine_of, naive_top_hit, tampered_payload, receipt_secret,
}

-- The victims that are not the attacker, each with the attacker.
abbrev pub rivals : ℕ → List ℕ → List (ℕ × ℕ)
rivals i [] = []
rivals i (j ∷ js) = if tenant i == tenant j then rivals i js else (i, j) ∷ rivals i js

abbrev pub all_rivals : List ℕ → List ℕ → List (ℕ × ℕ)
all_rivals [] js = []
all_rivals (i ∷ is) js = rivals i js ++ all_rivals is js

pub rivals-cons : (i j : ℕ) (js : List ℕ) → rivals i (j ∷ []) ++ rivals i js ≡ rivals i (j ∷ js)
rivals-cons i j js = elim (Bool-cases (tenant i == tenant j)) [
  | inl same ↦ rw same refl
  | inr differ ↦ rw differ refl
]

-- Each of `count` indices outside the range is a rival; one inside has one rival less.
rivals-outside : (i start count : ℕ) → i < start → length (rivals i (range start count)) ≡ count
rivals-outside i start zero h = refl
rivals-outside i start (suc count) h = ground (arith, rivals-outside i (suc start) count)

rivals-inside :
    (i start count : ℕ)
    → start ≤ i
    → i < start + count
    → length (rivals i (range start count)) + 1 ≡ count
rivals-inside i start zero h k = absurd (omega (arith, h, k))
rivals-inside i start (suc count) h k =
    ground (arith, rivals-inside i (suc start) count, rivals-outside i (suc start) count)

-- A range of attackers among `n` tenants has `n - 1` victims each.
pub length-all_rivals :
    (n start count : ℕ)
    → start + count ≤ n
    → length (all_rivals (range start count) (range 0 n)) ≡ count * (n - 1)
length-all_rivals n start zero h = omega arith
length-all_rivals n start (suc count) h = omega (
  arith,
  length-append (rivals start (range 0 n)) (all_rivals (range (suc start) count) (range 0 n)),
  length-all_rivals n (suc start) count,
  rivals-inside start 0 n,
  h,
)

module _ {A : Type 0} (p : A → Bool) where
  pub count-append :
      (xs : List A) (x : A)
      → length (filter p (xs ++ (x ∷ []))) ≡ count_if (p x) (length (filter p xs))
  count-append [] x = ground arith
  count-append (y ∷ ys) x = ground (arith, count-append ys x)

  count-le : (xs : List A) → length (filter p xs) ≤ length xs
  count-le [] = omega arith
  count-le (x ∷ xs) = ground (arith, count-le xs)

  pub count-all_iff : (xs : List A) → (length (filter p xs) ≡ length xs) ↔ All (λ x. p x ≡ true) xs
  count-all_iff [] = (λ _. tt, λ _. refl)
  count-all_iff (x ∷ xs) = ground (arith, count-all_iff xs, count-le xs)

  pub count-none_iff : (xs : List A) → (length (filter p xs) ≡ 0) ↔ All (λ x. p x ≡ false) xs
  count-none_iff [] = (λ _. tt, λ _. refl)
  count-none_iff (x ∷ xs) = ground (arith, count-none_iff xs)

module _ {F : Type 0} (P : Platform F) (draw : BenchmarkDraw) where
  -- One attack: the document that a search over the whole corpus finds for the victim's canary, the
  -- reply of the engine to the attacker who asks for it, in a state that the benchmark reached, and
  -- the victim's own document, which the attacker's key does not open.
  pub record Attack (known : Dict (StoredDocument F)) (corpus : List (StoredDocument F))
      : Type 0 where
    pub attacker : ℕ
    pub victim : ℕ
    pub baseline : StoredDocument F
    pub selected : naive_top_hit P (embed P (canary_for P victim)) corpus ≡ ok baseline
    pub store : MemoryRagStore F
    pub store_reach : Reach P (cipher P) store
    pub reply : QueryReply F
    pub replied :
        result
          (query P
            (memory_store P)
            (benchmark_principal P attacker)
            (canary_request P victim)
            none
            (draw.attack attacker victim))
          (engine_of P store)
        ≡ ok reply
    pub document : StoredDocument F
    pub document_at : lookup (tenant victim) known ≡ some document
    pub refused :
        decrypt P (cipher P) (tenant attacker) document.nonce document.ciphertext ≡ err invalid_tag

  module _ {known : Dict (StoredDocument F)} {corpus : List (StoredDocument F)} where
    -- The search over the whole corpus found a document of the victim.
    abbrev pub selects : Attack known corpus → Bool
    selects a = a.baseline.tenant_id == tenant a.victim

    -- The victim's canary is in a source of the reply.
    abbrev pub leaks : Attack known corpus → Bool
    leaks a = leaked (canary_for P a.victim) a.reply.sources

    abbrev pub pair_of : Attack known corpus → ℕ × ℕ
    pair_of a = (a.attacker, a.victim)

  -- The counters after the attacks on the pairs `ps`.
  pub record IsTally (known : Dict (StoredDocument F)) (corpus : List (StoredDocument F))
      (ps : List (ℕ × ℕ)) (t : Tally) : Type 0 where
    pub attacks : List (Attack known corpus)
    pub pairs : map pair_of attacks ≡ ps
    pub attempted : t.attack_pairs ≡ length attacks
    pub blocked : t.encryption_replays_blocked ≡ length attacks
    pub selected : t.baseline_selected_foreign_canaries ≡ length (filter selects attacks)
    pub returned : t.tenantvault_foreign_sources_returned ≡ length (filter leaks attacks)

  -- A receipt that is tampered with: that of the reply to a tenant's own query, under the name of
  -- the next tenant.
  pub record Tampering (n : ℕ) : Type 0 where
    pub index : ℕ
    pub store : MemoryRagStore F
    pub store_reach : Reach P (cipher P) store
    pub reply : QueryReply F
    pub replied :
        result
          (query P
            (memory_store P)
            (benchmark_principal P index)
            (canary_request P index)
            none
            (draw.receipt index))
          (engine_of P store)
        ≡ ok reply

  -- The signature is not that of the receipt under the name of the next tenant.
  abbrev pub detects : {n : ℕ} → Tampering n → Bool
  detects {n} t = not (
      text_eq t.reply.isolation_receipt.signature (
        sign_receipt P receipt_secret
          (tampered_payload P t.reply.isolation_receipt (tenant ((t.index + 1) % n)))))
