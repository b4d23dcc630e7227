-- ===== src/Examples/Sound.antt =====
-- A platform like the toy one whose UUIDs, base64 and cipher can be undone, with their laws.
use tenantvault_zero_trust_r.Base.{
  ℕ, zero, suc, ◌-◌, ◌≡◌, ◌≢◌, refl, ap, ◌∙◌, sym, String, false, Option, none, some, [], ◌∷◌, ◌++◌,
  ◌==◌, ==_refl, ==_iff, text_eq, eq_iff, if◌then◌else◌, arith, Bool-cases, inl, inr,
}
use tenantvault_zero_trust_r.Base.Lists.{length}
use tenantvault_zero_trust_r.Base.Text.{len}
use tenantvault_zero_trust_r.Platform.{Platform, Bytes}
use tenantvault_zero_trust_r.Memory.Retrieval.{IsOpening}
use tenantvault_zero_trust_r.Postgres.Fence.{IsUuidText}
use tenantvault_zero_trust_r.Benchmark.Attacks.{IsBinding}
use tenantvault_zero_trust_r.Examples.Codec.{text_of-codes}
use tenantvault_zero_trust_r.Examples.Toy.{toy}
use text.Mathlib.TextLemmas.{cons≢nil}
use Prim.Native.Char.{char}

-- A UUID is written in ones, one more than its number.
abbrev pub ones : ℕ → String
ones zero = "1"
ones (suc n) = String.◌∷◌ (char 49 tt) (ones n)

pub len-ones : (n : ℕ) → len (ones n) - 1 ≡ n
len-ones zero = refl
len-ones (suc n) = omega (arith, len-ones n, positive n)
  where
    positive : (n : ℕ) → suc (len (ones n) - 1) ≡ len (ones n)
    positive zero = refl
    positive (suc n) = omega arith

cons_given : (n : ℕ) → text_eq (ones n) "" ≡ false
cons_given zero = refl
cons_given (suc n) = elim (Bool-cases (text_eq (ones (suc n)) "")) [
  | inl same ↦ absurd (cons≢nil ((eq_iff (ones (suc n)) "").0 same))
  | inr differ ↦ differ
]

-- A ciphertext is the length of the associated data, the data and the plaintext.
abbrev pub strip_prefix : Bytes → Bytes → Option Bytes
strip_prefix [] c = some c
strip_prefix (x ∷ xs) [] = none
strip_prefix (x ∷ xs) (y ∷ ys) = if x == y then strip_prefix xs ys else none

abbrev pub unseal : Bytes → Bytes → Option Bytes
unseal given [] = none
unseal given (n ∷ c) = if n == length given then strip_prefix given c else none

strip_prefix-append : (a p : Bytes) → strip_prefix a (a ++ p) ≡ some p
strip_prefix-append [] p = refl
strip_prefix-append (x ∷ xs) p = rw (==_refl x, strip_prefix-append xs p) refl

strip_prefix-other : (a b p : Bytes) → length a ≡ length b → a ≢ b → strip_prefix b (a ++ p) ≡ none
strip_prefix-other [] [] p same differ = absurd (differ refl)
strip_prefix-other [] (y ∷ b) p same differ = absurd (omega (arith, same))
strip_prefix-other (x ∷ a) [] p same differ = absurd (omega (arith, same))
strip_prefix-other (x ∷ a) (y ∷ b) p same differ = elim (Bool-cases (y == x)) [
  | inl equal ↦
      let e : x ≡ y = sym ((==_iff y x).0 equal) in
      rw equal (
        strip_prefix-other a b p (omega (arith, same))
          λ rest. differ (ap (λ (k : ℕ). k ∷ a) e ∙ ap (λ (l : Bytes). y ∷ l) rest))
  | inr other ↦ rw other refl
]

unseal-other : (a b p : Bytes) → a ≢ b → unseal b (length a ∷ (a ++ p)) ≡ none
unseal-other a b p differ = elim (Bool-cases (length a == length b)) [
  | inl same ↦ rw same (strip_prefix-other a b p ((==_iff (length a) (length b)).0 same) differ)
  | inr other ↦ rw other refl
]

abbrev pub sound : Platform ℕ
sound = record toy {
  uuid_str = ones;
  uuid_parse = λ s. some (len s - 1);
  aesgcm_encrypt = λ k n p a. length a ∷ (a ++ p);
  aesgcm_decrypt = λ k n c a. unseal a c;
}

pub sound-IsUuidText : IsUuidText sound
sound-IsUuidText = record { parses = λ j. ap some (len-ones j); present = cons_given }

pub sound-IsOpening : IsOpening sound
sound-IsOpening = record {
  opens = λ k n p a. rw (==_refl (length a), strip_prefix-append a p) refl;
  decodes = text_of-codes;
}

pub sound-IsBinding : IsBinding sound
sound-IsBinding = record { rejects = λ k l n p a b differ. unseal-other a b p differ }
