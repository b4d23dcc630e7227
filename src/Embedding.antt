-- ===== src/Embedding.antt =====
-- src/tenantvault/embeddings.py: the hashing embedder and the similarity of two vectors.
-- Floats, the tokeniser's regular expression and BLAKE2s belong to the platform.
pub mod Bounds
use tenantvault_zero_trust_r.Base.{
  ℕ, zero, suc, ◌+◌, ◌*◌, ◌%◌, ◌<>◌, String, List, [], ◌∷◌, ◌++◌, map, ◌==◌, text_eq, if◌then◌else◌,
}
use tenantvault_zero_trust_r.Base.Int.{pos, negsuc}
use tenantvault_zero_trust_r.Platform.{Platform, Bytes}

abbrev pub dimensions : ℕ
dimensions = 96

-- `f"{left}_{right}" for left, right in pairwise(tokens)`
unfoldable pub bigrams : List String → List String
bigrams [] = []
bigrams (t ∷ []) = []
bigrams (t ∷ u ∷ ts) = (t <> ("_" <> u)) ∷ bigrams (u ∷ ts)

-- `Counter(features)`: how often each feature occurs, in the order of first occurrence.
unfoldable pub tally : String → List (String × ℕ) → List (String × ℕ)
tally s [] = (s, 1) ∷ []
tally s ((t, n) ∷ counts) = if text_eq t s then (t, n + 1) ∷ counts else (t, n) ∷ tally s counts

unfoldable pub counter : List String → List (String × ℕ) → List (String × ℕ)
unfolding tally
counter [] counts = counts
counter (s ∷ ss) counts = counter ss (tally s counts)

-- Bytes out of range count as 0; a BLAKE2s digest here has eight.
abbrev pub byte : Bytes → ℕ → ℕ
byte [] i = 0
byte (b ∷ bs) zero = b
byte (b ∷ bs) (suc i) = byte bs i

-- `int.from_bytes(hashed[:4], "big") % dimensions`
unfoldable pub slot_of : Bytes → ℕ
slot_of h = (((byte h 0 * 256 + byte h 1) * 256 + byte h 2) * 256 + byte h 3) % dimensions

module _ {F : Type 0} (P : Platform F) where
  abbrev pub zeros : ℕ → List F
  zeros zero = []
  zeros (suc n) = P.of_int (pos 0) ∷ zeros n

  -- `vector[i] += x`
  unfoldable pub add_at : List F → ℕ → F → List F
  add_at [] i x = []
  add_at (v ∷ vs) zero x = P.fadd v x ∷ vs
  add_at (v ∷ vs) (suc i) x = v ∷ add_at vs i x

  -- `sign * (1.0 + math.log(weight))`, the sign by the lowest bit of the fifth byte
  unfoldable pub contribution : Bytes → ℕ → F
  contribution h weight =
      P.fmul (P.of_int (if byte h 4 % 2 == 1 then pos 1 else negsuc 0))
        (P.fadd (P.of_int (pos 1)) (P.flog weight))

  -- The loop over the features.
  unfoldable pub accumulate : List (String × ℕ) → List F → List F
  unfolding add_at contribution slot_of
  accumulate [] vector = vector
  accumulate ((feature, weight) ∷ features) vector =
      let hashed = P.blake2s (P.encode feature) in
      accumulate features (add_at vector (slot_of hashed) (contribution hashed weight))

  -- `math.sqrt(...) or 1.0`
  unfoldable pub norm : List F → F
  norm vector =
      let root = P.fsqrt (P.fsum (map (λ x. P.fmul x x) vector)) in
      if P.is_zero root then P.of_int (pos 1) else root

  unfoldable pub embed : String → List F
  unfolding bigrams counter accumulate norm
  embed content =
      let tokens = P.tokens content in
      let vector = accumulate (counter (tokens ++ bigrams tokens) []) (zeros dimensions) in
      let n = norm vector in map (λ x. P.fdiv x n) vector

  -- `a * b for a, b in zip(left, right)`
  abbrev pub products : List F → List F → List F
  products [] ys = []
  products (x ∷ xs) [] = []
  products (x ∷ xs) (y ∷ ys) = P.fmul x y ∷ products xs ys

  unfoldable pub cosine_similarity : List F → List F → F
  cosine_similarity left right = P.fsum (products left right)
