-- ===== src/Http.antt =====
-- What the measuring scripts use of `httpx`: a client is a parameter, a call that takes a request to
-- a response, or raises. `W` is the state of the service on the other side.
pub mod Answers
use tenantvault_zero_trust_r.Base.{
  ℕ, String, Bool, true, false, not, Option, none, some, List, [], ◌∷◌, text_eq, ◌==◌,
  if◌then◌else◌,
}
use tenantvault_zero_trust_r.Base.Int.{pos, negsuc}
use tenantvault_zero_trust_r.Result
use tenantvault_zero_trust_r.Result.{
  Result, ok, err, or_raise, value_error, attribute_error, http_status_error,
}
use tenantvault_zero_trust_r.Exec.{Exec}
use tenantvault_zero_trust_r.Json.{
  Json, null, bool, int, float, str, arr, obj, nil, cons, end, field, Fields, subscript,
}
use tenantvault_zero_trust_r.Platform.{Platform}

pub data Method : Type 0 where
  get post : Method

pub record Request (F : Type 0) : Type 0 where
  pub method : Method
  pub url : String
  pub headers : List (String × String)
  pub body : Option (Json F)

-- `raises` tells whether `response.raise_for_status()` raises, `body` is what `response.json()`
-- returns, where the text is JSON.
pub record Response (F : Type 0) : Type 0 where
  pub status_code : ℕ
  pub raises : Bool
  pub content_type : String
  pub body : Option (Json F)

abbrev pub Client : Type 0 → Type 0 → Type 0
Client F W = Request F → Exec W (Response F)

module _ {F : Type 0} where
  -- `response.raise_for_status()`
  abbrev pub raise_for_status : Response F → Result (Unit {0})
  raise_for_status r = Result.raise_if r.raises (http_status_error r.status_code)

  -- `response.json()`
  abbrev pub json_of : Response F → Result (Json F)
  json_of r = or_raise r.body value_error

  -- `{name: value["token"] for name, value in v.items()}`
  unfoldable pub tokens_of : Fields F → Result (List (String × Json F))
  tokens_of end = ok []
  tokens_of (field name value fs) =
      Result.◌>>=◌ (subscript value "token")
        λ token. Result.◌>>=◌ (tokens_of fs) λ tokens. ok ((name, token) ∷ tokens)

  unfoldable pub read_tokens : Json F → Result (List (String × Json F))
  unfolding tokens_of
  read_tokens (obj fs) = tokens_of fs
  read_tokens _ = err attribute_error

  -- `tokens[name]`
  abbrev pub token_of : String → List (String × Json F) → Option (Json F)
  token_of name [] = none
  token_of name ((n, token) ∷ tokens) = if text_eq n name then some token else token_of name tokens

  -- `bool(v)`, for what `json.loads` returns
  abbrev pub truthy : Platform F → Json F → Bool
  truthy P null = false
  truthy P (bool b) = b
  truthy P (int (pos n)) = not (n == 0)
  truthy P (int (negsuc n)) = true
  truthy P (float x) = not (P.is_zero x)
  truthy P (str s) = not (text_eq s "")
  truthy P (arr nil) = false
  truthy P (arr (cons v vs)) = true
  truthy P (obj end) = false
  truthy P (obj (field k v fs)) = true

  -- The same for `v.get(key)`
  abbrev pub given : Platform F → Option (Json F) → Bool
  given P none = false
  given P (some v) = truthy P v
