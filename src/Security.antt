-- ===== src/Security.antt =====
-- src/tenantvault/security.py: the principal, the token authority and the tenant-bound cipher.
pub mod Tokens
pub mod RoundTrip
use tenantvault_zero_trust_r.Base.{
  ℕ, ◌/◌, ◌%◌, ◌*◌, ◌-◌, ◌<>◌, String, Bool, true, false, not, Option, some, List, [], ◌∷◌,
  contains, ◌==◌, ◌||◌, text_eq, if◌then◌else◌,
}
use tenantvault_zero_trust_r.Base.Int.{ℤ, pos, negsuc, ◌+ℤ◌, leb_ℤ}
use tenantvault_zero_trust_r.Base.Text.{split_on, split, join, rstrip, replicate, len}
use tenantvault_zero_trust_r.Base.Sorting.{sort}
use tenantvault_zero_trust_r.Result.{
  Error, authentication_error, value_error, key_error, type_error, attribute_error, invalid_tag,
  contract_error, Result, ok, err, raise_if, or_raise, ◌>>=◌, ◌>>◌,
}
use tenantvault_zero_trust_r.Json.{
  Json, null, bool, int, float, str, obj, end, field, get, get_or, subscript,
}
use tenantvault_zero_trust_r.Platform.{Platform, Bytes, Uuid, Time}
use text.Mathlib.Text.{is_lt}
use Prim.Native.String.{compare}

pub record Principal : Type 0 where
  pub tenant_id : Uuid
  pub subject : String
  pub scopes : List String

unfoldable pub can : Principal → String → Bool
can p scope = contains scope p.scopes

-- `hmac.compare_digest`
unfoldable pub bytes_eq : Bytes → Bytes → Bool
bytes_eq [] [] = true
bytes_eq (x ∷ xs) (y ∷ ys) = if x == y then bytes_eq xs ys else false
bytes_eq _ _ = false

-- Texts in the order of `sorted`.
abbrev pub text_lt : String → String → Bool
text_lt s t = is_lt (compare s t)

module _ {F : Type 0} where
  -- `v == s`, where `s` is a text
  abbrev pub is_text : Option (Json F) → String → Bool
  is_text (some (str t)) s = text_eq t s
  is_text _ s = false

  -- `v.split()`: only a text has the method.
  unfoldable pub split_value : Json F → Result (List String)
  split_value (str s) = ok (split s)
  split_value _ = err attribute_error

-- The `except` clause of `verify`.
unfoldable pub as_credential_error : Error → Error
as_credential_error value_error = authentication_error "malformed credential"
as_credential_error key_error = authentication_error "malformed credential"
as_credential_error type_error = authentication_error "malformed credential"
as_credential_error (contract_error _) = authentication_error "malformed credential"
as_credential_error e = e

-- `try`/`except` around a call
abbrev pub rescue : Result Principal → Result Principal
rescue (ok p) = ok p
rescue (err e) = err (as_credential_error e)

abbrev pub nanoseconds : ℕ
nanoseconds = 1000000000

-- `exp <= time.time()`
abbrev pub expired : ℤ → Time → Bool
expired (pos n) now = leb_ℤ (pos (n * nanoseconds)) (pos now)
expired (negsuc n) now = true

module _ {F : Type 0} (P : Platform F) where
  -- `_b64encode`, `_b64decode`: base64 without its padding.
  unfoldable pub b64encode : Bytes → String
  b64encode value = rstrip b'=' (P.urlsafe_b64encode value)

  unfoldable pub b64decode : String → Result Bytes
  b64decode value =
      or_raise (P.urlsafe_b64decode (value <> replicate ((4 - len value % 4) % 4) "=")) value_error

  -- `int(v)`
  unfoldable pub to_int : Json F → Result ℤ
  to_int (int n) = ok n
  to_int (bool true) = ok (pos 1)
  to_int (bool false) = ok (pos 0)
  to_int (float x) = P.int_of_float x
  to_int (str s) = or_raise (P.int_parse s) value_error
  to_int _ = err type_error

  -- `UUID(v)`
  unfoldable pub to_uuid : Json F → Result Uuid
  to_uuid (str s) = or_raise (P.uuid_parse s) value_error
  to_uuid null = err type_error
  to_uuid _ = err attribute_error

  -- `str(v)`
  unfoldable pub to_str : Json F → String
  to_str (str s) = s
  to_str v = P.value_str v

-- `TokenAuthority`: its key and its issuer.
pub record TokenAuthority : Type 0 where
  pub key : Bytes
  pub issuer : String

module _ {F : Type 0} (P : Platform F) where
  unfoldable pub new_authority : String → TokenAuthority
  new_authority secret = record { key = P.encode secret; issuer = "tenantvault-demo" }

  -- The JSON values that `mint` writes.
  unfoldable pub token_header : Json F
  token_header = obj (field "alg" (str "HS256") (field "typ" (str "JWT") end))

  unfoldable pub token_claims : TokenAuthority → Uuid → String → List String → ℤ → Time → Json F
  token_claims a tenant_id subject scopes ttl_seconds now = obj (
      field "iss" (str a.issuer) (
        field "aud" (str "tenantvault-api") (
          field "sub" (str subject) (
            field "tenant_id" (str (P.uuid_str tenant_id)) (
              field "scope" (str (join " " (sort text_lt scopes)))
                (field "exp" (int (pos (now / nanoseconds) +ℤ ttl_seconds)) end))))))

  -- The text that is signed, and the signature of it.
  abbrev pub signing_input : String → String → String
  signing_input header payload = header <> ("." <> payload)

  unfoldable pub token_signature : TokenAuthority → String → String → Bytes
  token_signature a header payload = P.hmac_digest a.key (P.encode (signing_input header payload))

  unfoldable pub mint : TokenAuthority → Uuid → String → List String → ℤ → Time → String
  mint a tenant_id subject scopes ttl_seconds now =
      let header = b64encode P (P.encode (P.dumps token_header)) in
      let payload =
        b64encode P
          (P.encode (P.dumps (token_claims a tenant_id subject scopes ttl_seconds now))) in
      let signature = b64encode P (token_signature a header payload) in
      header <> ("." <> (payload <> ("." <> signature)))

  -- What follows the check of the signature.
  unfoldable pub read_claims : TokenAuthority → Json F → Time → Result Principal
  read_claims a claims now = do
    iss ← get claims "iss"
    aud ← get claims "aud"
    raise_if (not (is_text iss a.issuer) || not (is_text aud "tenantvault-api"))
        (authentication_error "unexpected token issuer or audience")
    exp ← to_int P (← subscript claims "exp")
    raise_if (expired exp now) (authentication_error "token expired")
    tenant_id ← to_uuid P (← subscript claims "tenant_id")
    subject ← subscript claims "sub"
    scopes ← split_value (← get_or claims "scope" (str ""))
    ok (record { tenant_id = tenant_id; subject = to_str P subject; scopes = scopes })

  unfoldable pub verify_pieces : TokenAuthority → List String → Time → Result Principal
  verify_pieces a (header ∷ payload ∷ signature ∷ []) now = do
    given ← b64decode P signature
    raise_if (not (bytes_eq (token_signature a header payload) given))
        (authentication_error "signature mismatch")
    body ← b64decode P payload
    claims ← or_raise (P.loads body) value_error
    read_claims a claims now
  verify_pieces a _ now = err value_error

  unfoldable pub verify : TokenAuthority → String → Time → Result Principal
  verify a token now = rescue (verify_pieces a (split_on b'.' token) now)

-- `TenantCipher`: its root.
pub record TenantCipher : Type 0 where
  pub root : Bytes

module _ {F : Type 0} (P : Platform F) where
  -- `_key`
  unfoldable pub tenant_key : TenantCipher → Uuid → Bytes
  tenant_key c tenant_id = P.hkdf c.root (P.encode ("tenantvault/chunk/" <> P.uuid_str tenant_id))

  -- The nonce is `os.urandom(12)`.
  unfoldable pub encrypt : TenantCipher → Uuid → String → Bytes → Bytes × Bytes
  encrypt c tenant_id plaintext nonce = (
    nonce,
    P.aesgcm_encrypt (tenant_key c tenant_id) nonce (P.encode plaintext)
        (P.encode (P.uuid_str tenant_id)),
  )

  unfoldable pub decrypt : TenantCipher → Uuid → Bytes → Bytes → Result String
  decrypt c tenant_id nonce ciphertext = do
    plain ←
        or_raise
          (P.aesgcm_decrypt (tenant_key c tenant_id) nonce ciphertext
            (P.encode (P.uuid_str tenant_id)))
          invalid_tag
    or_raise (P.decode plain) value_error

  unfoldable pub digest : String → String
  digest value = P.sha256_hex (P.encode value)
