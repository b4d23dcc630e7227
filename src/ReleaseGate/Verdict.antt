-- ===== src/ReleaseGate/Verdict.antt =====
-- What a report of the release gate stands for (src/tenantvault/release_verifier.py): the requests
-- that it sends, one after the other, and what the service answers to them.
mod Items
pub use Items.{IsPassed, IsActive}
use tenantvault_zero_trust_r.Base.{ap, String, Bool, Option, none, some, List, [], ◌∷◌, ◌<>◌}
use tenantvault_zero_trust_r.Result.{Result, Error, err, raise_if, http_status_error}
use tenantvault_zero_trust_r.Exec.{result, after, pure, ◌>>=◌}
use tenantvault_zero_trust_r.Json.{Json, str, obj, end, field}
use tenantvault_zero_trust_r.Platform.{Platform}
use tenantvault_zero_trust_r.Security.{to_str}
use tenantvault_zero_trust_r.Http.{get, post, Request, Client}
use tenantvault_zero_trust_r.ReleaseGate.{attestation_item}

module _ {F W : Type 0} (P : Platform F) (send : Client F W) where
  -- The requests, as the service sees them.
  abbrev pub tokens_request : String → Request F
  tokens_request url = record {
    method = get;
    url = url <> "/api/demo/tokens";
    headers = [];
    body = none;
  }

  abbrev pub bearer : Json F → String × String
  bearer token = ("Authorization", "Bearer " <> to_str P token)

  abbrev pub header_claim : String → Json F → Request F
  header_claim url token = record {
    method = post;
    url = url <> "/v1/query";
    headers = bearer token ∷ ("X-Tenant-Id", "22222222-2222-2222-2222-222222222222") ∷ [];
    body = some (obj (field "question" (str "Who owns the cardiac escalation review?") end));
  }

  abbrev pub body_claim : String → Json F → Request F
  body_claim url token = record {
    method = post;
    url = url <> "/v1/query";
    headers = bearer token ∷ [];
    body = some (
        obj (
          field "question" (str "Who owns the cardiac escalation review?")
            (field "tenant_id" (str "22222222-2222-2222-2222-222222222222") end)));
  }

  abbrev pub attestation_request : String → Json F → Request F
  attestation_request url token = record {
    method = post;
    url = url <> "/v1/attestations/run";
    headers = bearer token ∷ [];
    body = none;
  }

  abbrev pub status_request : String → Json F → Request F
  status_request url token = record {
    method = get;
    url = url <> "/v1/control-plane/status";
    headers = bearer token ∷ [];
    body = none;
  }

  -- Token by token, starting from the state `s` of the service: the attestation passed and carries
  -- a signature, and the workspace is active under a named policy version.
  abbrev pub AllReleasable : String → List (String × Json F) → W → Type 0
  AllReleasable url [] s = Unit
  AllReleasable url ((tenant, token) ∷ tokens) s =
      let attested = after (send (attestation_request url token)) s in
      IsPassed P (result (send (attestation_request url token)) s)
      × IsActive P (result (send (status_request url token)) attested)
      × AllReleasable url tokens (after (send (status_request url token)) attested)

  -- The states of the service: after the tokens, after the first claim, and after the second.
  abbrev pub told : String → W → W
  told url s = after (send (tokens_request url)) s

  abbrev pub header_tried : String → Json F → W → W
  header_tried url token s = after (send (header_claim url token)) (told url s)

  abbrev pub body_tried : String → Json F → W → W
  body_tried url token s = after (send (body_claim url token)) (header_tried url token s)
