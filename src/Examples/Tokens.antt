-- ===== src/Examples/Tokens.antt =====
-- A token that is accepted.
use tenantvault_zero_trust_r.Base.{ℕ, ◌≡◌, refl, some}
use tenantvault_zero_trust_r.Base.Int.{pos}
use tenantvault_zero_trust_r.Base.Text.{split_on, pieces, split, words, is_space, replicate}
use tenantvault_zero_trust_r.Result.{ok}
use tenantvault_zero_trust_r.Json.{Json, int, str, obj, end, field, get, get_or, subscript}
use tenantvault_zero_trust_r.Platform.{Platform}
use tenantvault_zero_trust_r.Security.{
  TokenAuthority, bytes_eq, split_value, b64decode, to_int, to_uuid, to_str, token_signature,
  read_claims, verify_pieces, verify,
}
use tenantvault_zero_trust_r.Examples.Codec.{codes}
use tenantvault_zero_trust_r.Examples.Toy.{toy, reader}

abbrev pub claims : Json ℕ
claims = obj (
    field "iss" (str "tenantvault-demo") (
      field "aud" (str "tenantvault-api") (
        field "sub" (str "analyst") (
          field "tenant_id" (str "1")
            (field "scope" (str "rag:read rag:write") (field "exp" (int (pos 9)) end))))))

-- Tokens are read here as the one token of the demo, whatever their base64 holds.
abbrev pub reading : Platform ℕ
reading = record toy { urlsafe_b64decode = λ s. some (codes "keyh.p"); loads = λ b. some claims }

abbrev pub authority : TokenAuthority
authority = record { key = codes "key"; issuer = "tenantvault-demo" }

pub accepted : verify reading authority "h.p.s" 100 ≡ ok reader
unfolding verify verify_pieces split_on pieces b64decode replicate token_signature bytes_eq
    read_claims get get_or subscript to_int to_uuid to_str split_value split words is_space
accepted = refl
