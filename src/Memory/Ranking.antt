-- ===== src/Memory/Ranking.antt =====
-- src/tenantvault/store.py: the ranking in `MemoryRagStore.search`, by similarity from the highest,
-- with the documents below the threshold left out.
use tenantvault_zero_trust_r.Base.{Bool, List, map}
use tenantvault_zero_trust_r.Base.Lists.{filter}
use tenantvault_zero_trust_r.Base.Sorting.{sort}
use tenantvault_zero_trust_r.Platform.{Platform}
use tenantvault_zero_trust_r.Models.{StoredDocument}
use tenantvault_zero_trust_r.Embedding.{cosine_similarity}

module _ {F : Type 0} (P : Platform F) where
  -- `similarity >= 0.18`
  abbrev pub is_close : F × StoredDocument F → Bool
  is_close (score, document) = P.fle (P.literal 18 2) score

  -- `key=lambda item: item[0], reverse=True`
  abbrev pub higher : F × StoredDocument F → F × StoredDocument F → Bool
  higher a b = P.flt b.0 a.0

  unfoldable pub scored : List F → List (StoredDocument F) → List (F × StoredDocument F)
  scored embedding documents = map (λ d. (cosine_similarity P embedding d.embedding, d)) documents

  unfoldable pub ranked : List F → List (StoredDocument F) → List (F × StoredDocument F)
  unfolding scored
  ranked embedding documents = sort higher (filter is_close (scored embedding documents))
