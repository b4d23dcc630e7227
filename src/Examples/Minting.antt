-- ===== src/Examples/Minting.antt =====
-- A token that is minted and accepted, under a base64 that writes bytes in unary.
use tenantvault_zero_trust_r.Base.{
  ℕ, zero, suc, ◌-◌, ◌%◌, ◌≡◌, refl, ap, sym, ◌∙◌, false, String, ◌<>◌, some, [], ◌∷◌, ◌==◌, arith,
  if◌then◌else◌,
}
use tenantvault_zero_trust_r.Base.Int.{pos}
use tenantvault_zero_trust_r.Base.Text.{replicate, len, Free, is_space}
use tenantvault_zero_trust_r.Base.Splitting.{single-append, IsWord}
use tenantvault_zero_trust_r.Base.Sorting.{sort}
use tenantvault_zero_trust_r.Result.{ok}
use tenantvault_zero_trust_r.Platform.{Platform, Bytes}
use tenantvault_zero_trust_r.Security.{token_claims, mint, verify, text_lt}
use tenantvault_zero_trust_r.Security.RoundTrip.{IsBase64, verify-mint}
use tenantvault_zero_trust_r.Examples.Sound.{sound, sound-IsUuidText}
use tenantvault_zero_trust_r.Examples.Tokens.{authority}
use text.Mathlib.TextLemmas.{nil-append, cons-append}
use Prim.Native.Char.{char, code}

-- A byte is `B` and as many `A`s.
abbrev as_before : ℕ → String → String
as_before zero s = s
as_before (suc n) s = String.◌∷◌ (char 65 tt) (as_before n s)

abbrev pub body : Bytes → String
body [] = ""
body (b ∷ bs) = String.◌∷◌ (char 66 tt) (as_before b (body bs))

-- The `A`s up to the next `B`, and the bytes that follow.
abbrev read_byte : ℕ → ℕ × Bytes → ℕ × Bytes
read_byte c (n, bs) = if c == 65 then (suc n, bs) else if c == 66 then (0, n ∷ bs) else (0, [])

abbrev read : String → ℕ × Bytes
read String.[] = (0, [])
read (String.◌∷◌ c s) = read_byte (code c) (read s)

abbrev pad : String → String
pad s = replicate ((4 - len s % 4) % 4) "="

read-replicate : (k : ℕ) → read (replicate k "=") ≡ (0, [])
unfolding replicate
read-replicate zero = refl
read-replicate (suc k) = rw (single-append (char 61 tt) (replicate k "=")) refl

read-as_before :
    (n : ℕ) (s t : String) (bs : Bytes)
    → read (s <> t) ≡ (0, bs)
    → read (as_before n s <> t) ≡ (n, bs)
read-as_before zero s t bs h = h
read-as_before (suc n) s t bs h =
    rw (cons-append (char 65 tt) (as_before n s) t, read-as_before n s t bs h) refl

read-body : (k : ℕ) (bs : Bytes) → read (body bs <> replicate k "=") ≡ (0, bs)
read-body k [] = rw (nil-append (replicate k "="), read-replicate k) refl
read-body k (b ∷ bs) =
    rw
      (
        cons-append (char 66 tt) (as_before b (body bs)) (replicate k "="),
        read-as_before b (body bs) (replicate k "=") bs (read-body k bs),
      )
      refl

-- Different bytes are written differently.
pub body-inj : (b c : Bytes) → body b ≡ body c → b ≡ c
unfolding replicate
body-inj b c h =
    let left : read (body b <> "") ≡ (0, b) = read-body 0 b in
    let right : read (body c <> "") ≡ (0, c) = read-body 0 c in
    let both : (0, b) ≡ (0, c) = sym left ∙ ap (λ (s : String). read (s <> "")) h ∙ right in
    ap (λ (x : ℕ × Bytes). x.1) both

module _ (c : ℕ) (no_a : (65 == c) ≡ false) (no_b : (66 == c) ≡ false) where
  as_before-Free : (n : ℕ) (s : String) → Free c s → Free c (as_before n s)
  as_before-Free zero s h = h
  as_before-Free (suc n) s h = (no_a, as_before-Free n s h)

  body-Free : (bs : Bytes) → Free c (body bs)
  body-Free [] = tt
  body-Free (b ∷ bs) = (no_b, as_before-Free b (body bs) (body-Free bs))

abbrev minting : Platform ℕ
minting = record sound {
  urlsafe_b64encode = λ b. body b <> pad (body b);
  urlsafe_b64decode = λ s. some (read s).1;
  loads = λ b. some (token_claims sound authority 4 "analyst" ("rag:read" ∷ []) (pos 60) 0);
}

minting-IsBase64 : (value : Bytes) → IsBase64 minting value
minting-IsBase64 value = record {
  body = body value;
  padded = refl;
  unpadded = body-Free 61 refl refl value;
  dotless = body-Free 46 refl refl value;
  decoded = ap (λ (x : ℕ × Bytes). some x.1) (read-body _ value);
}

rag_read-IsWord : IsWord "rag:read"
unfolding is_space
rag_read-IsWord = (refl, (refl, (refl, (refl, (refl, (refl, (refl, (refl, tt))))))))

loaded :
    minting.loads (
      minting.encode
        (minting.dumps (token_claims minting authority 4 "analyst" ("rag:read" ∷ []) (pos 60) 0)))
    ≡ some (token_claims minting authority 4 "analyst" ("rag:read" ∷ []) (pos 60) 0)
unfolding token_claims
loaded = refl

verify-mint_example :
    verify minting authority (mint minting authority 4 "analyst" ("rag:read" ∷ []) (pos 60) 0) 5
    ≡ ok (record { tenant_id = 4; subject = "analyst"; scopes = sort text_lt ("rag:read" ∷ []) })
verify-mint_example =
    verify-mint minting authority 4 "analyst" ("rag:read" ∷ []) 60 0 5 minting-IsBase64
      (sound-IsUuidText.parses 4) loaded (rag_read-IsWord, tt) (omega arith)
