-- ===== src/Security/RoundTrip.antt =====
-- A minted token is accepted (src/tenantvault/security.py, `mint` and `verify`).
use tenantvault_zero_trust_r.Base.{
  ℕ, ◌/◌, ◌%◌, ◌*◌, ◌-◌, ◌+◌, ◌<◌, ◌≡◌, refl, ◌<>◌, String, true, false, some, List, [], ◌∷◌, arith,
  ==_refl, eq_iff, text_eq,
}
use tenantvault_zero_trust_r.Base.Int.{pos, ◌+ℤ◌}
use tenantvault_zero_trust_r.Base.Text.{replicate, len, Free}
use tenantvault_zero_trust_r.Base.Splitting.{split_on-dots, rstrip-append, IsWord, split-join}
use tenantvault_zero_trust_r.Base.Sorting.{sort, sort-All}
use tenantvault_zero_trust_r.Base.Lists.{All}
use tenantvault_zero_trust_r.Result.{ok}
use tenantvault_zero_trust_r.Json.{get, get_or, subscript}
use tenantvault_zero_trust_r.Platform.{Platform, Bytes, Uuid, Time}
use tenantvault_zero_trust_r.Security.{
  TokenAuthority, text_lt, bytes_eq, split_value, nanoseconds, expired, b64encode, b64decode,
  to_int, to_uuid, to_str, token_header, token_claims, token_signature, mint, read_claims,
  verify_pieces, verify,
}

module _ {F : Type 0} (P : Platform F) where
  -- URL-safe base64 as RFC 4648 describes it: padded with `=` to a multiple of four characters,
  -- without `=` or a dot in front of the padding, and decoded to the same bytes.
  pub record IsBase64 (value : Bytes) : Type 0 where
    pub body : String
    pub padded : P.urlsafe_b64encode value ≡ body <> replicate ((4 - len body % 4) % 4) "="
    pub unpadded : Free b'=' body
    pub dotless : Free b'.' body
    pub decoded : P.urlsafe_b64decode (P.urlsafe_b64encode value) ≡ some value

  b64encode-body : (value : Bytes) (h : IsBase64 value) → b64encode P value ≡ h.body
  unfolding b64encode
  b64encode-body value h = rw (h.padded) (rstrip-append h.body _ h.unpadded)

  b64decode-body : (value : Bytes) (h : IsBase64 value) → b64decode P h.body ≡ ok value
  unfolding b64decode
  b64decode-body value h = rw (← h.padded, h.decoded) refl

bytes_eq_refl : (b : Bytes) → bytes_eq b b ≡ true
unfolding bytes_eq
bytes_eq_refl [] = refl
bytes_eq_refl (x ∷ xs) = rw (==_refl x, bytes_eq_refl xs) refl

text_eq_refl : (s : String) → text_eq s s ≡ true
text_eq_refl s = (eq_iff s s).1 refl

not_expired :
    (issued : Time) (ttl : ℕ) (now : Time)
    → now < (issued / nanoseconds + ttl) * nanoseconds
    → expired (pos (issued / nanoseconds) +ℤ pos ttl) now ≡ false
unfolding ◌+ℤ◌
not_expired issued ttl now h = ground arith

module _ {F : Type 0} (P : Platform F) (a : TokenAuthority) (tenant_id : Uuid) (subject : String)
    (scopes : List String) (ttl : ℕ) (issued now : Time) where
  read_claims-minted :
      P.uuid_parse (P.uuid_str tenant_id) ≡ some tenant_id
      → All IsWord scopes
      → now < (issued / nanoseconds + ttl) * nanoseconds
      → read_claims P a (token_claims P a tenant_id subject scopes (pos ttl) issued) now
        ≡ ok (record { tenant_id = tenant_id; subject = subject; scopes = sort text_lt scopes })
  unfolding read_claims token_claims get get_or subscript to_int to_uuid to_str split_value
  read_claims-minted parses words alive =
      rw
        (
          text_eq_refl a.issuer,
          not_expired issued ttl now alive,
          parses,
          split-join (sort text_lt scopes) (sort-All text_lt IsWord scopes words),
        )
        refl

  -- The token that `mint` writes is accepted by the same authority until it expires, as the
  -- principal with the tenant, the subject and the scopes, sorted, that it was minted for. Each
  -- scope is a nonempty word without spaces, the life of the token is a number of seconds that has
  -- not passed, counted from the whole second of the issue, base64 is that of RFC 4648, a UUID
  -- parses back from its text, and the claims of this token do from their JSON.
  pub verify-mint :
      ((value : Bytes) → IsBase64 P value)
      → P.uuid_parse (P.uuid_str tenant_id) ≡ some tenant_id
      → P.loads (P.encode (P.dumps (token_claims P a tenant_id subject scopes (pos ttl) issued)))
        ≡ some (token_claims P a tenant_id subject scopes (pos ttl) issued)
      → All IsWord scopes
      → now < (issued / nanoseconds + ttl) * nanoseconds
      → verify P a (mint P a tenant_id subject scopes (pos ttl) issued) now
        ≡ ok (record { tenant_id = tenant_id; subject = subject; scopes = sort text_lt scopes })
  unfolding verify mint verify_pieces
  verify-mint base64 parses loaded words alive =
      let first = base64 (P.encode (P.dumps (token_header P))) in
      let claims =
        base64 (P.encode (P.dumps (token_claims P a tenant_id subject scopes (pos ttl) issued))) in
      let last = base64 (token_signature P a first.body claims.body) in
      rw
        (
          b64encode-body P _ first,
          b64encode-body P _ claims,
          b64encode-body P _ last,
          split_on-dots first.body claims.body last.body first.dotless claims.dotless last.dotless,
          b64decode-body P _ last,
          bytes_eq_refl (token_signature P a first.body claims.body),
          b64decode-body P _ claims,
          loaded,
          read_claims-minted parses words alive,
        )
        refl
