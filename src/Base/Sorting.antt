-- ===== src/Base/Sorting.antt =====
-- Python's `sorted`, which is stable: an insertion sort by a test `before`, where `before a b`
-- says that `a` has to stand in front of `b`.
use Prim.Native.Nat.{suc}
use mathlib.Core.Path.{◌≡◌, refl, ap, ◌∙◌, subst}
use mathlib.Core.Logic.{inl, inr}
use mathlib.Core.Bool.{Bool, true, false}
use mathlib.Core.List.{List, [], ◌∷◌}
use mathlib.Core.List.{Perm}
use mathlib.Core.List.Perm
use tenantvault_zero_trust_r.Base.Tests.{if◌then◌else◌, Bool-cases}
use tenantvault_zero_trust_r.Base.Lists.{All, length}

module _ {ℓ} {A : Type ℓ} (before : A → A → Bool) where
  -- An earlier item stays in front of those that do not have to come before it.
  unfoldable pub insert_sorted : A → List A → List A
  insert_sorted x [] = x ∷ []
  insert_sorted x (y ∷ ys) = if before y x then y ∷ insert_sorted x ys else x ∷ y ∷ ys

  unfoldable pub sort : List A → List A
  unfolding insert_sorted
  sort [] = []
  sort (x ∷ xs) = insert_sorted x (sort xs)

  -- Sorting keeps what holds of every element.
  module _ {κ} (P : A → Type κ) where
    insert_sorted-All : (x : A) (xs : List A) → P x → All P xs → All P (insert_sorted x xs)
    unfolding insert_sorted
    insert_sorted-All x [] p h = (p, tt)
    insert_sorted-All x (y ∷ ys) p h =
        let rest = insert_sorted-All x ys p h.1 in
        elim (before y x) as (λ b. All P (if b then y ∷ insert_sorted x ys else x ∷ y ∷ ys)) [
          | true ↦ (h.0, rest)
          | false ↦ (p, h)
        ]

    pub sort-All : (xs : List A) → All P xs → All P (sort xs)
    unfolding sort
    sort-All [] h = tt
    sort-All (x ∷ xs) h = insert_sorted-All x (sort xs) h.0 (sort-All xs h.1)

  -- No item has to stand in front of the one that it follows.
  abbrev pub IsSorted : List A → Type 0
  IsSorted [] = Unit
  IsSorted (x ∷ []) = Unit
  IsSorted (x ∷ y ∷ ys) = (before y x ≡ false) × IsSorted (y ∷ ys)

  tail : (y : A) (ys : List A) → IsSorted (y ∷ ys) → IsSorted ys
  tail y [] h = tt
  tail y (z ∷ zs) h = h.1

  insert_sorted-Perm : (x : A) (xs : List A) → Perm (insert_sorted x xs) (x ∷ xs)
  unfolding insert_sorted
  insert_sorted-Perm x [] = Perm.refl (x ∷ [])
  insert_sorted-Perm x (y ∷ ys) = elim (Bool-cases (before y x)) [
    | inl first ↦ rw first (Perm.trans (Perm.cons y (insert_sorted-Perm x ys)) (Perm.swap x y ys))
    | inr last ↦ rw last (Perm.refl (x ∷ y ∷ ys))
  ]

  pub sort-Perm : (xs : List A) → Perm (sort xs) xs
  unfolding sort
  sort-Perm [] = Perm.refl []
  sort-Perm (x ∷ xs) = Perm.trans (insert_sorted-Perm x (sort xs)) (Perm.cons x (sort-Perm xs))

  insert_sorted-length : (x : A) (xs : List A) → length (insert_sorted x xs) ≡ suc (length xs)
  unfolding insert_sorted
  insert_sorted-length x [] = refl
  insert_sorted-length x (y ∷ ys) = elim (Bool-cases (before y x)) [
    | inl first ↦ rw first (ap suc (insert_sorted-length x ys))
    | inr last ↦ rw last refl
  ]

  pub length-sort : (xs : List A) → length (sort xs) ≡ length xs
  unfolding sort
  length-sort [] = refl
  length-sort (x ∷ xs) = insert_sorted-length x (sort xs) ∙ ap suc (length-sort xs)

  -- The order is asymmetric.
  module _ (asymmetric : (x y : A) → before x y ≡ true → before y x ≡ false) where
    -- An item goes behind `y`, and so does what followed `y`.
    behind :
        (y x : A) (ys : List A)
        → before x y ≡ false
        → IsSorted (y ∷ ys)
        → IsSorted (insert_sorted x ys)
        → IsSorted (y ∷ insert_sorted x ys)
    unfolding insert_sorted
    behind y x [] below h rest = (below, tt)
    behind y x (z ∷ zs) below h rest =
        let Choice = λ (b : Bool). IsSorted (if b then z ∷ insert_sorted x zs else x ∷ z ∷ zs) in
        elim (Bool-cases (before z x)) [
          | inl first ↦ rw first (h.0, subst Choice first rest)
          | inr last ↦ rw last (below, subst Choice last rest)
        ]

    insert_sorted-IsSorted : (x : A) (xs : List A) → IsSorted xs → IsSorted (insert_sorted x xs)
    unfolding insert_sorted
    insert_sorted-IsSorted x [] h = tt
    insert_sorted-IsSorted x (y ∷ ys) h = elim (Bool-cases (before y x)) [
      | inl first ↦
          rw first
            (behind y x ys (asymmetric y x first) h (insert_sorted-IsSorted x ys (tail y ys h)))
      | inr last ↦ rw last (last, h)
    ]

    pub sort-IsSorted : (xs : List A) → IsSorted (sort xs)
    unfolding sort
    sort-IsSorted [] = tt
    sort-IsSorted (x ∷ xs) = insert_sorted-IsSorted x (sort xs) (sort-IsSorted xs)
