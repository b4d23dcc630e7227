-- ===== src/Base/Dict.antt =====
-- Python's `dict` keyed by UUIDs (numbers), in insertion order. `defaultdict` inserts on a read.
use Prim.Native.Nat.{ℕ}
use mathlib.Core.Path.{◌≡◌, refl}
use mathlib.Core.Option.{Option, none, some}
use mathlib.Core.List.{List, [], ◌∷◌}
use native.Mathlib.Omega.{arith}
use tenantvault_zero_trust_r.Base.Tests.{◌==◌, if◌then◌else◌}

abbrev pub Dict {ℓ} : Type ℓ → Type ℓ
Dict V = List (ℕ × V)

module _ {ℓ} {V : Type ℓ} where
  -- `d.get(k)`
  abbrev pub lookup : ℕ → Dict V → Option V
  lookup k [] = none
  lookup k ((j, v) ∷ d) = if j == k then some v else lookup k d

  -- `d[k] = v`
  abbrev pub insert : ℕ → V → Dict V → Dict V
  insert k v [] = (k, v) ∷ []
  insert k v ((j, w) ∷ d) = if j == k then (k, v) ∷ d else (j, w) ∷ insert k v d

  pub lookup-insert :
      (k j : ℕ) (v : V) (d : Dict V)
      → lookup j (insert k v d) ≡ (if k == j then some v else lookup j d)
  lookup-insert k j v [] = refl
  lookup-insert k j v ((i, w) ∷ d) = ground (arith, lookup-insert k j v d)

  pub lookup-insert_self : (k : ℕ) (v : V) (d : Dict V) → lookup k (insert k v d) ≡ some v
  lookup-insert_self k v d = ground (arith, lookup-insert k k v d)

-- `defaultdict(list)`: the bucket of a key.
abbrev pub or_empty {ℓ} : {A : Type ℓ} → Option (List A) → List A
or_empty none = []
or_empty (some l) = l

module _ {ℓ} {A : Type ℓ} where
  abbrev pub bucket : ℕ → Dict (List A) → List A
  bucket k d = or_empty (lookup k d)

  -- The side effect of reading `d[k]` in a `defaultdict`.
  abbrev pub touch : ℕ → Dict (List A) → Dict (List A)
  touch k d = insert k (bucket k d) d

  pub bucket-insert :
      (k j : ℕ) (v : List A) (d : Dict (List A))
      → bucket j (insert k v d) ≡ (if k == j then v else bucket j d)
  bucket-insert k j v d = ground (arith, lookup-insert k j v d)

  -- A read shows nothing different to any later read.
  pub bucket-touch : (k j : ℕ) (d : Dict (List A)) → bucket j (touch k d) ≡ bucket j d
  bucket-touch k j d = ground (arith, lookup-insert k j (bucket k d) d)
