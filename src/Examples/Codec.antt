-- ===== src/Examples/Codec.antt =====
-- An encoding of texts that can be undone: each character as its code point.
use tenantvault_zero_trust_r.Base.{ℕ, ◌≡◌, refl, String, Option, none, some, [], ◌∷◌}
use tenantvault_zero_trust_r.Platform.{Bytes}
use Prim.Native.Nat.{Ordering, compare}
use Prim.Native.Char.{char, code, IsScalar, IsLt}

-- Code points stand for octets.
abbrev pub codes : String → Bytes
codes String.[] = []
codes (String.◌∷◌ c s) = code c ∷ codes s

-- What `IsScalar` comes to, for each outcome of its comparisons.
abbrev Second : Ordering → Ordering → Type 0
Second Ordering.lt o = IsLt o
Second Ordering.eq _ = ⊥
Second Ordering.gt _ = ⊥

abbrev Outcome : Ordering → Ordering → Ordering → Type 0
Outcome Ordering.lt _ _ = Unit
Outcome Ordering.eq o q = Second o q
Outcome Ordering.gt o q = Second o q

abbrev try_second : (o q : Ordering) → Option (Second o q)
try_second Ordering.lt Ordering.lt = some tt
try_second Ordering.lt Ordering.eq = none
try_second Ordering.lt Ordering.gt = none
try_second Ordering.eq _ = none
try_second Ordering.gt _ = none

abbrev try : (n o q : Ordering) → Option (Outcome n o q)
try Ordering.lt _ _ = some tt
try Ordering.eq o q = try_second o q
try Ordering.gt o q = try_second o q

try_second-some : (o q : Ordering) (h : Second o q) → try_second o q ≡ some h
try_second-some Ordering.lt Ordering.lt h = refl
try_second-some Ordering.lt Ordering.eq h = absurd h
try_second-some Ordering.lt Ordering.gt h = absurd h
try_second-some Ordering.eq _ h = absurd h
try_second-some Ordering.gt _ h = absurd h

try-some : (n o q : Ordering) (h : Outcome n o q) → try n o q ≡ some h
try-some Ordering.lt _ _ h = refl
try-some Ordering.eq o q h = try_second-some o q h
try-some Ordering.gt o q h = try_second-some o q h

abbrev scalar : (n : ℕ) → Option (IsScalar n)
scalar n = try (compare n 55296) (compare 57343 n) (compare n 1114112)

abbrev prepend : (n : ℕ) → Option (IsScalar n) → Option String → Option String
prepend n (some h) (some s) = some (String.◌∷◌ (char n h) s)
prepend n _ _ = none

abbrev pub text_of : Bytes → Option String
text_of [] = some ""
text_of (n ∷ ns) = prepend n (scalar n) (text_of ns)

pub text_of-codes : (s : String) → text_of (codes s) ≡ some s
text_of-codes String.[] = refl
text_of-codes (String.◌∷◌ (char n h) s) =
    rw (try-some (compare n 55296) (compare 57343 n) (compare n 1114112) h, text_of-codes s) refl
