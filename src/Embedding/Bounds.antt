-- ===== src/Embedding/Bounds.antt =====
-- The size of an embedding and of the index of a feature (src/tenantvault/embeddings.py).
use tenantvault_zero_trust_r.Base.{
  ℕ, zero, suc, ◌≡◌, refl, ap, ◌∙◌, ◌<◌, String, List, [], ◌∷◌, ◌++◌, arith,
}
use tenantvault_zero_trust_r.Base.Lists.{length, length-map}
use tenantvault_zero_trust_r.Platform.{Platform, Bytes}
use tenantvault_zero_trust_r.Embedding.{
  dimensions, bigrams, counter, slot_of, zeros, add_at, accumulate, embed,
}

slot_of-bounded : (h : Bytes) → slot_of h < dimensions
unfolding slot_of
slot_of-bounded h = omega arith

module _ {F : Type 0} (P : Platform F) where
  length-zeros : (n : ℕ) → length (zeros P n) ≡ n
  length-zeros zero = refl
  length-zeros (suc n) = ap suc (length-zeros n)

  length-add_at : (xs : List F) (i : ℕ) (x : F) → length (add_at P xs i x) ≡ length xs
  unfolding add_at
  length-add_at [] i x = refl
  length-add_at (v ∷ vs) zero x = refl
  length-add_at (v ∷ vs) (suc i) x = ap suc (length-add_at vs i x)

  length-accumulate :
      (features : List (String × ℕ)) (xs : List F) → length (accumulate P features xs) ≡ length xs
  unfolding accumulate
  length-accumulate [] xs = refl
  length-accumulate ((feature, weight) ∷ features) xs =
      length-accumulate features _ ∙ length-add_at xs _ _

  -- Every text is embedded in a vector of 96 numbers, and the index that a feature's hash selects
  -- lies within such a vector, whatever bytes the hash has.
  pub embed_bounds :
      (content : String) (h : Bytes)
      → (length (embed P content) ≡ dimensions) × (slot_of h < length (embed P content))
  unfolding embed
  embed_bounds content h =
      let size : length (embed P content) ≡ dimensions =
        length-map _ _
        ∙ length-accumulate (counter (P.tokens content ++ bigrams (P.tokens content)) [])
            (zeros P dimensions)
        ∙ length-zeros dimensions in
      (size, rw size (slot_of-bounded h))
