-- ===== src/Platform.antt =====
-- What the program calls and does not define: Python's standard library (json, base64, hashlib,
-- hmac, uuid, datetime, math), the `cryptography` package and the floats. A platform is a value of
-- this record, an argument of the definitions that call it. It carries no laws: a theorem names
-- the documented behaviour that it relies on among its hypotheses.
use tenantvault_zero_trust_r.Base.{ℕ, String, Bool, Option, List}
use tenantvault_zero_trust_r.Base.Int.{ℤ}
use tenantvault_zero_trust_r.Result.{Result}
use tenantvault_zero_trust_r.Json.{Json}

-- Octets.
abbrev pub Bytes : Type 0
Bytes = List ℕ

-- A `uuid.UUID` is its 128-bit number.
abbrev pub Uuid : Type 0
Uuid = ℕ

-- A `datetime` in UTC, or `time.time()`: nanoseconds since the epoch.
abbrev pub Time : Type 0
Time = ℕ

pub record Platform (F : Type 0) : Type 0 where
  -- `s.encode()`, `b.decode()`
  pub encode : String → Bytes
  pub decode : Bytes → Option String
  -- `hashlib.sha256(b).hexdigest()`
  pub sha256_hex : Bytes → String
  -- `hmac.new(key, message, hashlib.sha256)`: `.digest()`, `.hexdigest()`
  pub hmac_digest : Bytes → Bytes → Bytes
  pub hmac_hex : Bytes → Bytes → String
  -- `base64.urlsafe_b64encode`, as text; `base64.urlsafe_b64decode` of a text
  pub urlsafe_b64encode : Bytes → String
  pub urlsafe_b64decode : String → Option Bytes
  -- `json.dumps(v, separators=(",", ":"))`, the same with `sort_keys=True`, `json.loads`
  pub dumps : Json F → String
  pub dumps_sorted : Json F → String
  pub loads : Bytes → Option (Json F)
  -- `str(uuid)`, `UUID(text)`
  pub uuid_str : Uuid → String
  pub uuid_parse : String → Option Uuid
  -- `moment.isoformat()`
  pub isoformat : Time → String
  -- `str(n)`, `int(text)`, `int(x)` of a float, `str(v)` of another value
  pub int_str : ℤ → String
  pub int_parse : String → Option ℤ
  pub int_of_float : F → Result ℤ
  pub value_str : Json F → String
  -- HKDF-SHA256 with 32 bytes: the root and the info. AESGCM(key): nonce, data, associated data.
  pub hkdf : Bytes → Bytes → Bytes
  pub aesgcm_encrypt : Bytes → Bytes → Bytes → Bytes → Bytes
  pub aesgcm_decrypt : Bytes → Bytes → Bytes → Bytes → Option Bytes
  -- Floats: a decimal literal `m / 10 ^ k`, an int as a float, `sum`, `*`, `+`, `-`, `/`,
  -- `math.sqrt`, `math.log` of an int, `<`, `<=`, `== 0.0`, `round(x, k)`, `x <= n` and `x == n`
  -- at an int.
  pub literal : ℕ → ℕ → F
  pub of_int : ℤ → F
  pub fsum : List F → F
  pub fmul : F → F → F
  pub fadd : F → F → F
  pub fsub : F → F → F
  pub fdiv : F → F → F
  pub fsqrt : F → F
  pub flog : ℕ → F
  pub flt : F → F → Bool
  pub fle : F → F → Bool
  pub is_zero : F → Bool
  pub round : F → ℕ → F
  pub fle_int : F → ℤ → Bool
  pub feq_int : F → ℤ → Bool
  -- `hashlib.blake2s(b, digest_size=8).digest()`
  pub blake2s : Bytes → Bytes
  -- `re.findall(r"[a-z0-9]{2,}", text.lower())`
  pub tokens : String → List String
  -- `f"{x:.kf}"` of a float, `f"{n:0kd}"` of an int
  pub format_fixed : ℕ → F → String
  pub padded : ℕ → ℕ → String
  -- `math.ceil(x)`, `statistics.median(xs)`
  pub ceil : F → ℤ
  pub median : List F → F
