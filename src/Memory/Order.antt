-- ===== src/Memory/Order.antt =====
-- Which documents `MemoryRagStore.search` takes (src/tenantvault/store.py): those that are nearest to
-- the question.
use Prim.Native.Nat.{min}
use mathlib.Core.List.{Perm}
use tenantvault_zero_trust_r.Base.{
  ℕ, zero, suc, ◌≡◌, refl, ap, sym, subst, ◌∙◌, true, false, List, [], ◌∷◌, ◌++◌, map,
}
use tenantvault_zero_trust_r.Base.Lists.{All, filter, take, length, length-take}
use tenantvault_zero_trust_r.Base.Sorting.{IsSorted, sort-Perm, sort-IsSorted, length-sort}
use tenantvault_zero_trust_r.Exec.{result}
use tenantvault_zero_trust_r.Platform.{Platform}
use tenantvault_zero_trust_r.Security.{Principal, can}
use tenantvault_zero_trust_r.Models.{StoredDocument}
use tenantvault_zero_trust_r.Embedding.{cosine_similarity}
use tenantvault_zero_trust_r.Memory.{MemoryRagStore, own_documents, search, hits_of}
use tenantvault_zero_trust_r.Memory.Ranking.{higher, ranked}

-- `<` on scores is that of a total preorder. NaN, which compares to nothing, is left out.
pub record IsOrdering {F : Type 0} (P : Platform F) : Type 0 where
  pub asymmetric : (x y : F) → P.flt x y ≡ true → P.flt y x ≡ false
  pub transitive : (x y z : F) → P.flt x y ≡ false → P.flt y z ≡ false → P.flt x z ≡ false

-- The documents whose similarity to the question is 0.18 or more, each with its similarity.
abbrev pub close_documents :
    {F : Type 0} → Platform F → List F → List (StoredDocument F) → List (F × StoredDocument F)
close_documents P e ds =
    filter (λ x. P.fle (P.literal 18 2) x.0) (map (λ d. (cosine_similarity P e d.embedding, d)) ds)

module _ {F : Type 0} (P : Platform F) (law : IsOrdering P) where
  -- No document of the list is nearer than `a`.
  abbrev NoneNearer : F × StoredDocument F → List (F × StoredDocument F) → Type 0
  NoneNearer a rest = All (λ (b : F × StoredDocument F). P.flt a.0 b.0 ≡ false) rest

  sorted-NoneNearer :
      (a : F × StoredDocument F) (rest : List (F × StoredDocument F))
      → IsSorted (higher P) (a ∷ rest)
      → NoneNearer a rest
  sorted-NoneNearer a [] h = tt
  sorted-NoneNearer a (b ∷ []) h = (h.0, tt)
  sorted-NoneNearer a (b ∷ c ∷ cs) h =
      let skipped : IsSorted (higher P) (a ∷ c ∷ cs) =
        (law.transitive a.0 b.0 c.0 h.0 h.1.0, h.1.1) in
      (h.0, sorted-NoneNearer a (c ∷ cs) skipped)

  tail-IsSorted :
      (a : F × StoredDocument F) (rest : List (F × StoredDocument F))
      → IsSorted (higher P) (a ∷ rest)
      → IsSorted (higher P) rest
  tail-IsSorted a [] h = tt
  tail-IsSorted a (b ∷ bs) h = h.1

  NoneNearer-append :
      (a : F × StoredDocument F) (xs ys : List (F × StoredDocument F))
      → NoneNearer a (xs ++ ys)
      → NoneNearer a ys
  NoneNearer-append a [] ys h = h
  NoneNearer-append a (x ∷ xs) ys h = NoneNearer-append a xs ys h.1

  -- A sorted list is its first `k` items and a rest in which none is nearer than one of them.
  take-nearest :
      (k : ℕ) (xs : List (F × StoredDocument F))
      → IsSorted (higher P) xs
      → (rest : List (F × StoredDocument F)) × (take k xs ++ rest ≡ xs)
        × All (λ a. NoneNearer a rest) (take k xs)
  take-nearest zero xs h = (xs, refl, tt)
  take-nearest (suc k) [] h = ([], refl, tt)
  take-nearest (suc k) (x ∷ xs) h =
      let (rest, whole, all) = take-nearest k xs (tail-IsSorted x xs h) in
      (
        rest,
        ap (λ (ys : List (F × StoredDocument F)). x ∷ ys) whole,
        (
          NoneNearer-append x (take k xs) rest
              (subst (NoneNearer x) (sym whole) (sorted-NoneNearer x xs h)),
          all,
        ),
      )

  -- Where `<` on scores is that of a total preorder, a search by a principal with the scope
  -- "rag:read" decrypts a list `best` of its tenant's documents, each with its similarity to the
  -- question: with the rest, they are all the documents of similarity 0.18 or more, `best` has
  -- `top_k` of them, or all if they are fewer, and no document of the rest is more similar than one
  -- of `best`.
  pub search_takes_nearest :
      (s : MemoryRagStore F) (p : Principal) (e : List F) (k : ℕ)
      → can p "rag:read" ≡ true
      → (best rest : List (F × StoredDocument F)) × (result (search P p e k) s
          ≡ hits_of P s.cipher p best)
        × Perm (best ++ rest) (close_documents P e (own_documents s p.tenant_id))
        × (length best ≡ min k (length (close_documents P e (own_documents s p.tenant_id))))
        × All (λ a. All (λ b. P.flt a.0 b.0 ≡ false) rest) best
  unfolding search ranked
  search_takes_nearest s p e k may =
      let close = close_documents P e (own_documents s p.tenant_id) in
      let order = ranked P e (own_documents s p.tenant_id) in
      let (rest, whole, all) =
        take-nearest k order (sort-IsSorted (higher P) (λ x y. law.asymmetric y.0 x.0) close) in
      (
        take k order,
        rest,
        rw may refl,
        subst (λ (xs : List (F × StoredDocument F)). Perm xs close) (sym whole)
            (sort-Perm (higher P) close),
        length-take k order ∙ ap (min k) (length-sort (higher P) close),
        all,
      )
