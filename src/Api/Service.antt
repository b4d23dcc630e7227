-- ===== src/Api/Service.antt =====
-- src/tenantvault/api.py: the middleware `security_headers` around every handler. What
-- Starlette keeps of a response's headers is a parameter.
use tenantvault_zero_trust_r.Base.{
  ℕ, ◌+◌, ◌≡◌, refl, String, Bool, true, false, Option, some, List, [], ◌∷◌, ◌==◌, leb,
  if◌then◌else◌, Bool-cases, inl, inr,
}
use tenantvault_zero_trust_r.Base.Text.{is_prefix}
use tenantvault_zero_trust_r.Result.{Result, ok, err}
use tenantvault_zero_trust_r.Exec.{Exec, pure, result, after, continue, ◌>>=◌}
use Prim.Native.Char.{code}

-- The names of headers are compared without regard to the case of their letters.
abbrev lower_code : ℕ → ℕ
lower_code c = if leb 65 c then (if leb c 90 then c + 32 else c) else c

abbrev pub same_name : String → String → Bool
same_name String.[] String.[] = true
same_name String.[] (String.◌∷◌ d t) = false
same_name (String.◌∷◌ c s) String.[] = false
same_name (String.◌∷◌ c s) (String.◌∷◌ d t) =
    if lower_code (code c) == lower_code (code d) then same_name s t else false

-- `headers[name] = value`, and `headers.get(name)`
pub record HeaderMap (H : Type 0) : Type 0 where
  pub set : String → String → H → H
  pub get : String → H → Option String

pub record IsHeaderMap {H : Type 0} (M : HeaderMap H) : Type 0 where
  pub get_set :
      (name other value : String) (h : H)
      → M.get name (M.set other value h)
        ≡ (if same_name name other then some value else M.get name h)

-- `content` is all of a request but its path, and of a response but its headers.
pub record Request (Q : Type 0) : Type 0 where
  pub path : String
  pub content : Q

pub record Response (H B : Type 0) : Type 0 where
  pub headers : H
  pub content : B

abbrev pub content_policy : String
content_policy =
    "default-src 'self'; style-src 'self' https://fonts.googleapis.com 'unsafe-inline'; font-src 'self' https://fonts.gstatic.com; script-src 'self'; connect-src 'self'; img-src 'self' data:"

abbrev pub features : String
features = "camera=(), microphone=(), geolocation=()"

module _ {H : Type 0} (M : HeaderMap H) where
  unfoldable pub secured : H → H
  secured h = M.set "Content-Security-Policy" content_policy (
      M.set "Permissions-Policy" features (
        M.set "Referrer-Policy" "no-referrer"
          (M.set "X-Frame-Options" "DENY" (M.set "X-Content-Type-Options" "nosniff" h))))

  -- `if request.url.path.startswith("/v1/")`
  unfoldable pub uncached : String → H → H
  uncached path h = if is_prefix "/v1/" path then M.set "Cache-Control" "no-store" h else h

  unfoldable pub security_headers :
      {S Q B : Type 0} → (Request Q → Exec S (Response H B)) → Request Q → Exec S (Response H B)
  security_headers call_next request = do
    response ← call_next request
    pure (record response { headers = uncached request.path (secured response.headers) })

-- What the answers promise to browsers.
abbrev pub promises : List (String × String)
promises =
    ("Content-Security-Policy", content_policy)
    ∷ ("Permissions-Policy", features)
    ∷ ("Referrer-Policy", "no-referrer")
    ∷ ("X-Frame-Options", "DENY")
    ∷ ("X-Content-Type-Options", "nosniff")
    ∷ []

abbrev pub promised : String → List (String × String)
promised path = if is_prefix "/v1/" path then ("Cache-Control", "no-store") ∷ promises else promises

-- The value that the list gives to a name, or else the one that it had.
abbrev pub found : String → List (String × String) → Option String → Option String
found name [] before = before
found name ((n, value) ∷ rest) before =
    if same_name name n then some value else found name rest before

module _ {H B : Type 0} (M : HeaderMap H) where
  -- A response goes out with its content and the promised headers, and an exception passes.
  abbrev pub Delivered : String → Result (Response H B) → Result (Response H B) → Type 0
  Delivered path (ok r) (ok out) =
      (out.content ≡ r.content)
      × ((name : String)
          → M.get name out.headers ≡ found name (promised path) (M.get name r.headers))
  Delivered path (err e) (err f) = e ≡ f
  Delivered path _ _ = ⊥

module _ {H : Type 0} (M : HeaderMap H) (law : IsHeaderMap M) where
  get-secured :
      (name : String) (h : H) → M.get name (secured M h) ≡ found name promises (M.get name h)
  unfolding secured
  get-secured name h =
      rw
        (
          law.get_set name "Content-Security-Policy" content_policy _,
          law.get_set name "Permissions-Policy" features _,
          law.get_set name "Referrer-Policy" "no-referrer" _,
          law.get_set name "X-Frame-Options" "DENY" _,
          law.get_set name "X-Content-Type-Options" "nosniff" h,
        )
        refl

  get-uncached :
      (path name : String) (h : H)
      → M.get name (uncached M path (secured M h)) ≡ found name (promised path) (M.get name h)
  unfolding uncached
  get-uncached path name h = elim (Bool-cases (is_prefix "/v1/" path)) [
    | inl inside ↦
        rw (inside, law.get_set name "Cache-Control" "no-store" (secured M h), get-secured name h)
          refl
    | inr outside ↦ rw (outside, get-secured name h) refl
  ]

  module _ {S Q B : Type 0} (call_next : Request Q → Exec S (Response H B))
      (request : Request Q) where
    abbrev treat : Response H B → Exec S (Response H B)
    treat r = pure (record r { headers = uncached M request.path (secured M r.headers) })

    delivered :
        (answer : Result (Response H B)) (t : S)
        → Delivered M request.path answer (result (continue answer treat) t)
          × (after (continue answer treat) t ≡ t)
    delivered (ok r) t = ((refl, λ name. get-uncached request.path name r.headers), refl)
    delivered (err e) t = (refl, refl)

    -- A response goes out with its content and with the headers that are promised for its path, any
    -- other header as it was; an exception passes, and the middleware leaves the state as the handler
    -- did.
    pub security_headers_lem :
        (s : S)
        → Delivered M request.path
            (result (call_next request) s)
            (result (security_headers M call_next request) s)
          × (after (security_headers M call_next request) s ≡ after (call_next request) s)
    unfolding security_headers
    security_headers_lem s = delivered (call_next request s).0 (call_next request s).1
