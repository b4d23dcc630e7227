-- ===== src/Measure/Percentile.antt =====
-- The percentile of the latencies (scripts/measure_live_isolation.py, `percentile`).
use mathlib.Core.List.{Mem, mem-cons_self, mem-cons_of_mem}
use mathlib.Core.List.Perm
use tenantvault_zero_trust_r.Base.{ℕ, zero, suc, ◌<◌, ◌≡◌, ◌≢◌, refl, some, List, [], ◌∷◌, arith}
use tenantvault_zero_trust_r.Base.Int.{ℤ, pos, negsuc, ◌≤ℤ◌}
use tenantvault_zero_trust_r.Base.Lists.{length}
use tenantvault_zero_trust_r.Base.Sorting.{sort, sort-Perm, length-sort}
use tenantvault_zero_trust_r.Result.{ok}
use tenantvault_zero_trust_r.Platform.{Platform}
use tenantvault_zero_trust_r.Measure.Report.{get_elem?, rank, percentile}

get_elem?-Mem :
    {A : Type 0} (xs : List A) (i : ℕ)
    → i < length xs
    → (x : A) × (get_elem? xs i ≡ some x) × Mem x xs
get_elem?-Mem [] i h = absurd (omega (arith, h))
get_elem?-Mem (x ∷ xs) zero h = (x, refl, mem-cons_self)
get_elem?-Mem (x ∷ xs) (suc i) h =
    let (y, found, within) = get_elem?-Mem xs i (omega (arith, h)) in
    (y, found, mem-cons_of_mem x within)

rank-below : (n : ℕ) (c : ℤ) → c ≤ℤ pos (suc n) → rank c < suc n
rank-below n (pos c) h = omega (arith, h)
rank-below n (negsuc c) h = omega arith

module _ {F : Type 0} (P : Platform F) where
  -- Of latencies that there are, the percentile is one: the index never leaves the sorted list, where
  -- the length times the fraction, rounded up, is not above the length.
  pub percentile_in_range :
      (values : List F) (fraction : F)
      → values ≢ []
      → P.ceil (P.fmul (P.of_int (pos (length values))) fraction) ≤ℤ pos (length values)
      → (x : F) × (percentile P values fraction ≡ ok x) × Mem x values
  unfolding percentile
  percentile_in_range [] fraction some_value h = absurd (some_value refl)
  percentile_in_range (x ∷ xs) fraction some_value h =
      let size = length-sort P.flt (x ∷ xs) in
      let (y, found, within) =
        get_elem?-Mem (sort P.flt (x ∷ xs))
          (rank (P.ceil (P.fmul (P.of_int (pos (suc (length xs)))) fraction)))
          (rw size (rank-below (length xs) _ h)) in
      (y, rw (size, found) refl, (Perm.mem_iff (sort-Perm P.flt (x ∷ xs))).0 within)
