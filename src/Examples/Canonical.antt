-- ===== src/Examples/Canonical.antt =====
-- A canonical text of JSON that can be told apart, and the laws of it.
use tenantvault_zero_trust_r.Base.{
  ℕ, ◌≡◌, refl, ap, sym, ◌∙◌, subst, String, Bool, some, [], ◌∷◌, ◌++◌, text_eq, if◌then◌else◌,
  arith, Bool-cases, inl, inr, ◌-◌,
}
use tenantvault_zero_trust_r.Base.Int.{ℤ, pos, negsuc}
use tenantvault_zero_trust_r.Base.Lists.{length}
use tenantvault_zero_trust_r.Base.Text.{len}
use tenantvault_zero_trust_r.Json.{
  Json, null, bool, int, float, str, arr, obj, Fields, end, field, lookup,
}
use tenantvault_zero_trust_r.Platform.{Platform, Bytes}
use tenantvault_zero_trust_r.Memory.Evidence.{IsCanonical}
use tenantvault_zero_trust_r.Examples.Codec.{codes, text_of, text_of-codes}
use tenantvault_zero_trust_r.Examples.Sound.{sound, ones, len-ones}
use tenantvault_zero_trust_r.Examples.Minting.{body, body-inj}

-- A pair is the length of its first part, and both parts.
abbrev pair : Bytes → Bytes → Bytes
pair xs ys = length xs ∷ (xs ++ ys)

parts : (xs us ys vs : Bytes) → length xs ≡ length us → xs ++ ys ≡ us ++ vs → (xs ≡ us) × (ys ≡ vs)
parts [] [] ys vs size same = (refl, same)
parts (x ∷ xs) (u ∷ us) ys vs size same =
    let rest : xs ++ ys ≡ us ++ vs = cc in
    let first : x ≡ u = cc in
    let (left, right) = parts xs us ys vs (omega (arith, size)) rest in (cc, right)
parts [] (u ∷ us) ys vs size same = absurd (omega (arith, size))
parts (x ∷ xs) [] ys vs size same = absurd (omega (arith, size))

pair-inj : (xs us ys vs : Bytes) → pair xs ys ≡ pair us vs → (xs ≡ us) × (ys ≡ vs)
pair-inj xs us ys vs h =
    let size : length xs ≡ length us = cc in
    let same : xs ++ ys ≡ us ++ vs = cc in parts xs us ys vs size same

codes-inj : (s t : String) → codes s ≡ codes t → s ≡ t
codes-inj s t h =
    let both : some s ≡ some t = sym (text_of-codes s) ∙ ap text_of h ∙ text_of-codes t in cc

-- Only texts and integers are told apart.
abbrev value : Json ℕ → Bytes
value (str s) = 1 ∷ codes s
value (int (pos n)) = 2 ∷ n ∷ []
value (int (negsuc n)) = 3 ∷ n ∷ []
value _ = []

abbrev flat : Fields ℕ → Bytes
flat end = []
flat (field k v fs) = pair (codes k) (pair (value v) (flat fs))

-- The first bytes agree.
first : (x y : ℕ) (xs ys : Bytes) → x ∷ xs ≡ y ∷ ys → x ≡ y
first x y xs ys h = cc

two_one : ¬ (◌≡◌ {A = ℕ} 2 1)
two_one = omega arith

three_one : ¬ (◌≡◌ {A = ℕ} 3 1)
three_one = omega arith

one_two : ¬ (◌≡◌ {A = ℕ} 1 2)
one_two = omega arith

one_three : ¬ (◌≡◌ {A = ℕ} 1 3)
one_three = omega arith

three_two : ¬ (◌≡◌ {A = ℕ} 3 2)
three_two = omega arith

two_three : ¬ (◌≡◌ {A = ℕ} 2 3)
two_three = omega arith

abbrev of_text : String → Json ℕ
of_text s = str s

value-str : (v : Json ℕ) (s : String) → value v ≡ 1 ∷ codes s → v ≡ str s
value-str (str t) s h = let rest : codes t ≡ codes s = cc in ap of_text (codes-inj t s rest)
value-str (int (pos n)) s h = absurd (two_one (first 2 1 (n ∷ []) (codes s) h))
value-str (int (negsuc n)) s h = absurd (three_one (first 3 1 (n ∷ []) (codes s) h))
value-str null s h = cc
value-str (bool b) s h = cc
value-str (float x) s h = cc
value-str (arr vs) s h = cc
value-str (obj fs) s h = cc

value-pos : (v : Json ℕ) (n : ℕ) → value v ≡ 2 ∷ n ∷ [] → v ≡ int (pos n)
value-pos (str t) n h = absurd (one_two (first 1 2 (codes t) (n ∷ []) h))
value-pos (int (pos m)) n h = let same : m ≡ n = cc in cc
value-pos (int (negsuc m)) n h = absurd (three_two (first 3 2 (m ∷ []) (n ∷ []) h))
value-pos null n h = cc
value-pos (bool b) n h = cc
value-pos (float x) n h = cc
value-pos (arr vs) n h = cc
value-pos (obj fs) n h = cc

value-negsuc : (v : Json ℕ) (n : ℕ) → value v ≡ 3 ∷ n ∷ [] → v ≡ int (negsuc n)
value-negsuc (str t) n h = absurd (one_three (first 1 3 (codes t) (n ∷ []) h))
value-negsuc (int (pos m)) n h = absurd (two_three (first 2 3 (m ∷ []) (n ∷ []) h))
value-negsuc (int (negsuc m)) n h = let same : m ≡ n = cc in cc
value-negsuc null n h = cc
value-negsuc (bool b) n h = cc
value-negsuc (float x) n h = cc
value-negsuc (arr vs) n h = cc
value-negsuc (obj fs) n h = cc

-- A value that shows in its bytes is found in both objects.
flat-lookup :
    (fs gs : Fields ℕ) (k : String) (v : Json ℕ)
    → ((w : Json ℕ) → value w ≡ value v → w ≡ v)
    → flat fs ≡ flat gs
    → lookup k fs ≡ some v
    → lookup k gs ≡ some v
flat-lookup end gs k v shows same h = cc
flat-lookup (field i u fs) end k v shows same h = cc
flat-lookup (field i u fs) (field j w gs) k v shows same h =
    let (keys, rest) = pair-inj (codes i) (codes j) _ _ same in
    let (values, tail) = pair-inj (value u) (value w) (flat fs) (flat gs) rest in
    let e : i ≡ j = codes-inj i j keys in
    elim (Bool-cases (text_eq i k)) [
      | inl found ↦
          let here : some u ≡ some v =
            subst (λ (b : Bool). (if b then some u else lookup k fs) ≡ some v) found h in
          let value_at : u ≡ v = cc in
          let other : w ≡ v = shows w (sym values ∙ ap value value_at) in
          rw (← e, found) (ap (λ (x : Json ℕ). some x) other)
      | inr missed ↦
          let there : lookup k fs ≡ some v =
            subst (λ (b : Bool). (if b then some u else lookup k fs) ≡ some v) missed h in
          rw (← e, missed) (flat-lookup fs gs k v shows tail there)
    ]

abbrev dumped : Json ℕ → String
dumped (obj fs) = body (flat fs)
dumped _ = ""

abbrev pub canonical : Platform ℕ
canonical = record sound { sha256_hex = body; dumps_sorted = dumped; isoformat = ones }

ones-inj : (i j : ℕ) → ones i ≡ ones j → i ≡ j
ones-inj i j h = sym (len-ones i) ∙ ap (λ (s : String). len s - 1) h ∙ len-ones j

shows_int : (n : ℤ) (w : Json ℕ) → value w ≡ value (int n) → w ≡ int n
shows_int (pos n) w h = value-pos w n h
shows_int (negsuc n) w h = value-negsuc w n h

pub canonical-IsCanonical : IsCanonical canonical
canonical-IsCanonical = record {
  hashes = body-inj;
  encodes = codes-inj;
  dumps_texts = λ fs gs k s same found.
      flat-lookup fs gs k (str s) (λ w h. value-str w s h) (body-inj _ _ same) found;
  dumps_integers =
      λ fs gs k n same found. flat-lookup fs gs k (int n) (shows_int n) (body-inj _ _ same) found;
  uuids = ones-inj;
  times = ones-inj;
}
