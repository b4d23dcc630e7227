-- ===== src/Security/Tokens.antt =====
-- What a token that is accepted is known to carry (src/tenantvault/security.py, `verify`).
use tenantvault_zero_trust_r.Base.{
  ◌≡◌, refl, String, true, false, not, ◌||◌, Option, none, some, List, [], ◌∷◌, arith, ==_iff, ap,
  ◌∙◌, sym, eq_iff,
}
use tenantvault_zero_trust_r.Base.Int.{ℤ}
use tenantvault_zero_trust_r.Base.Text.{split_on}
use tenantvault_zero_trust_r.Result.{
  Result, ok, err, value_error, or_raise, >>=-eq-ok, raise_if-eq-ok,
}
use tenantvault_zero_trust_r.Json.{
  Json, null, bool, int, float, arr, obj, str, get, get_or, subscript,
}
use tenantvault_zero_trust_r.Platform.{Platform, Bytes, Time}
use tenantvault_zero_trust_r.Security.{
  Principal, TokenAuthority, bytes_eq, is_text, split_value, expired, rescue, b64decode, to_int,
  to_uuid, to_str, token_signature, read_claims, verify_pieces, verify,
}

bytes_eq-eq : (xs ys : Bytes) → bytes_eq xs ys ≡ true → xs ≡ ys
unfolding bytes_eq
bytes_eq-eq [] [] h = refl
bytes_eq-eq (x ∷ xs) (y ∷ ys) h = ground (arith, ==_iff x y, bytes_eq-eq xs ys)
bytes_eq-eq [] (y ∷ ys) h = cc
bytes_eq-eq (x ∷ xs) [] h = cc

module _ {F : Type 0} where
  pub is_text-eq : (o : Option (Json F)) (s : String) → is_text o s ≡ true → o ≡ some (str s)
  is_text-eq none s h = cc
  is_text-eq (some (str t)) s h = ap (λ (x : String). some (str x)) ((eq_iff t s).0 h)
  is_text-eq (some null) s h = cc
  is_text-eq (some (bool b)) s h = cc
  is_text-eq (some (int n)) s h = cc
  is_text-eq (some (float x)) s h = cc
  is_text-eq (some (arr vs)) s h = cc
  is_text-eq (some (obj fs)) s h = cc

rescue-ok : (r : Result Principal) (p : Principal) → rescue r ≡ ok p → r ≡ ok p
rescue-ok (ok q) p h = h
rescue-ok (err e) p h = cc

module _ {F : Type 0} (P : Platform F) (a : TokenAuthority) (now : Time) where
  -- The claims name this issuer and this audience, have not expired, and say who the caller is.
  pub record IsClaimed (claims : Json F) (p : Principal) : Type 0 where
    pub issuer : get claims "iss" ≡ ok (some (str a.issuer))
    pub audience : get claims "aud" ≡ ok (some (str "tenantvault-api"))
    pub expiry : Json F
    pub expires : subscript claims "exp" ≡ ok expiry
    pub deadline : ℤ
    pub at : to_int P expiry ≡ ok deadline
    pub alive : expired deadline now ≡ false
    pub tenant : Json F
    pub tenant_claim : subscript claims "tenant_id" ≡ ok tenant
    pub tenant_id : to_uuid P tenant ≡ ok p.tenant_id
    pub subject : Json F
    pub subject_claim : subscript claims "sub" ≡ ok subject
    pub subject_text : p.subject ≡ to_str P subject
    pub scope : Json F
    pub scope_claim : get_or claims "scope" (str "") ≡ ok scope
    pub scopes : split_value scope ≡ ok p.scopes

  -- The payload is signed with the authority's key and holds such claims.
  pub record IsSigned (token : String) (p : Principal) : Type 0 where
    pub header : String
    pub payload : String
    pub signature : String
    pub pieces : split_on b'.' token ≡ header ∷ payload ∷ signature ∷ []
    pub authentic : b64decode P signature ≡ ok (token_signature P a header payload)
    pub body : Bytes
    pub decoded : b64decode P payload ≡ ok body
    pub claims : Json F
    pub loaded : P.loads body ≡ some claims
    pub claimed : IsClaimed claims p

  read_claims-IsClaimed :
      (claims : Json F) (p : Principal) → read_claims P a claims now ≡ ok p → IsClaimed claims p
  unfolding read_claims
  read_claims-IsClaimed claims p h =
      let (iss, iss_at, h1) = >>=-eq-ok (get claims "iss") _ h in
      let (aud, aud_at, h2) = >>=-eq-ok (get claims "aud") _ h1 in
      let (named, h3) =
        raise_if-eq-ok (not (is_text iss a.issuer) || not (is_text aud "tenantvault-api")) _ _ h2 in
      let (expiry, expires, h4) = >>=-eq-ok (subscript claims "exp") _ h3 in
      let (deadline, at, h5) = >>=-eq-ok (to_int P expiry) _ h4 in
      let (alive, h6) = raise_if-eq-ok (expired deadline now) _ _ h5 in
      let (tenant, tenant_at, h7) = >>=-eq-ok (subscript claims "tenant_id") _ h6 in
      let (tenant_id, parsed, h8) = >>=-eq-ok (to_uuid P tenant) _ h7 in
      let (subject, subject_at, h9) = >>=-eq-ok (subscript claims "sub") _ h8 in
      let (scope, scope_at, h10) = >>=-eq-ok (get_or claims "scope" (str "")) _ h9 in
      let (scopes, split_at, h11) = >>=-eq-ok (split_value scope) _ h10 in
      record {
        issuer = iss_at ∙ ap ok (is_text-eq iss a.issuer (ground arith));
        audience = aud_at ∙ ap ok (is_text-eq aud "tenantvault-api" (ground arith));
        expiry = expiry;
        expires = expires;
        deadline = deadline;
        at = at;
        alive = alive;
        tenant = tenant;
        tenant_claim = tenant_at;
        tenant_id = ground arith;
        subject = subject;
        subject_claim = subject_at;
        subject_text = ground arith;
        scope = scope;
        scope_claim = scope_at;
        scopes = ground arith;
      }

  verify_pieces-IsSigned :
      (token : String) (ws : List String) (p : Principal)
      → split_on b'.' token ≡ ws
      → verify_pieces P a ws now ≡ ok p
      → IsSigned token p
  unfolding verify_pieces
  verify_pieces-IsSigned token (header ∷ payload ∷ signature ∷ []) p cut h =
      let (given, given_at, h1) = >>=-eq-ok (b64decode P signature) _ h in
      let (same, h2) =
        raise_if-eq-ok (not (bytes_eq (token_signature P a header payload) given)) _ _ h1 in
      let (body, decoded, h3) = >>=-eq-ok (b64decode P payload) _ h2 in
      let (claims, loaded, h4) = >>=-eq-ok (or_raise (P.loads body) value_error) _ h3 in
      record {
        header = header;
        payload = payload;
        signature = signature;
        pieces = cut;
        authentic = given_at ∙ ap ok (sym (bytes_eq-eq _ _ (ground arith)));
        body = body;
        decoded = decoded;
        claims = claims;
        loaded = ground arith;
        claimed = read_claims-IsClaimed claims p h4;
      }
  verify_pieces-IsSigned token [] p cut h = cc
  verify_pieces-IsSigned token (header ∷ []) p cut h = cc
  verify_pieces-IsSigned token (header ∷ payload ∷ []) p cut h = cc
  verify_pieces-IsSigned token (header ∷ payload ∷ signature ∷ w ∷ ws) p cut h = cc

  -- A token that is accepted has three pieces, the third of which decodes from base64 to the
  -- authority's own HMAC over the first two. Its claims name the authority's issuer and the audience
  -- "tenantvault-api" and have not expired, and the principal's tenant, subject and scopes are the
  -- ones that these signed claims state.
  pub verify_sound :
      (token : String) (p : Principal) → verify P a token now ≡ ok p → IsSigned token p
  unfolding verify
  verify_sound token p h =
      verify_pieces-IsSigned token (split_on b'.' token) p refl
        (rescue-ok (verify_pieces P a (split_on b'.' token) now) p h)
