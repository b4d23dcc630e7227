-- ===== src/ControlPlane/Authorization.antt =====
-- When the control plane lets a request through, and what it answers otherwise.
use tenantvault_zero_trust_r.Base.{
  ◌≡◌, refl, ◌↔◌, String, true, Option, none, some, List, [], ◌∷◌, arith, Bool-cases, Option-cases,
  inl, inr,
}
use tenantvault_zero_trust_r.Base.Int.{ℤ, ◌≤ℤ◌}
use tenantvault_zero_trust_r.Base.Lists.{All}
use tenantvault_zero_trust_r.Base.Dict.{lookup}
use tenantvault_zero_trust_r.Result.{
  Error, permission_error, tenant_quarantined_error, contract_error, ok, err,
}
use tenantvault_zero_trust_r.Json.{Member}
use tenantvault_zero_trust_r.Platform.{Uuid}
use tenantvault_zero_trust_r.Security.{Principal}
use tenantvault_zero_trust_r.ControlPlane.{
  TenantContract, contract_for, has_all, in_scope, Workspace, active, quarantined, ControlPlane,
  exceeds, authorize, policy_version, status_for,
}

-- A requested result count, if there is one, is within the cap.
abbrev pub IsWithin : Option ℤ → ℤ → Type 0
IsWithin none most = Unit
IsWithin (some k) most = k ≤ℤ most

-- What the contract `t` demands of the request.
pub record IsAllowed {F : Type 0} (c : ControlPlane F) (p : Principal) (k : Option ℤ)
    (t : TenantContract) : Type 0 where
  pub approved : lookup p.tenant_id c.compiler.contracts ≡ some t
  pub is_active : lookup p.tenant_id c.state ≡ some active
  pub scopes : All (λ m. in_scope m p.scopes ≡ true) t.required_scopes
  pub within : IsWithin k t.max_results

pub has_all_iff :
    (ms : List Member) (scopes : List String)
    → (has_all ms scopes ≡ true) ↔ All (λ m. in_scope m scopes ≡ true) ms
has_all_iff [] scopes = (λ _. tt, λ _. refl)
has_all_iff (m ∷ ms) scopes = ground (arith, has_all_iff ms scopes)

module _ {F : Type 0} (c : ControlPlane F) (p : Principal) (k : Option ℤ) where
  -- A request is authorised, under the contract that is returned, exactly when the tenant has
  -- that contract, its workspace is active, the principal has every required scope and the
  -- requested count, if any, is at most the contract's cap.
  pub authorize_iff : (t : TenantContract) → (authorize c p k ≡ ok t) ↔ IsAllowed c p k t
  unfolding authorize contract_for
  authorize_iff t = (
    λ e. record {
      approved = ground arith;
      is_active = ground arith;
      scopes = (has_all_iff t.required_scopes p.scopes).0 (ground arith);
      within = ground arith;
    },
    λ h. ground (arith, h.approved, h.is_active, has_all_iff t.required_scopes p.scopes),
  )

-- Every contract has a workspace and a ledger.
pub record IsTracked {F : Type 0} (c : ControlPlane F) : Type 0 where
  pub workspace : (j : Uuid) → lookup j c.state ≡ none → lookup j c.compiler.contracts ≡ none
  pub ledger : (j : Uuid) → lookup j c.attestations ≡ none → lookup j c.compiler.contracts ≡ none

-- Why a request is refused, in the order in which the reasons are looked for.
pub data Refusal {F : Type 0} (c : ControlPlane F) (p : Principal) (k : Option ℤ) (e : Error)
    : Type 0 where
  unknown :
      lookup p.tenant_id c.compiler.contracts ≡ none
      → e ≡ contract_error "tenant has no approved policy contract"
      → Refusal c p k e
  locked :
      (t : TenantContract)
      → lookup p.tenant_id c.compiler.contracts ≡ some t
      → lookup p.tenant_id c.state ≡ some quarantined
      → e
        ≡ tenant_quarantined_error
            "tenant workspace is quarantined after a failed isolation attestation"
      → Refusal c p k e
  out_of_scope :
      (t : TenantContract)
      → lookup p.tenant_id c.compiler.contracts ≡ some t
      → lookup p.tenant_id c.state ≡ some active
      → ¬ All (λ m. in_scope m p.scopes ≡ true) t.required_scopes
      → e ≡ permission_error "principal does not satisfy the tenant policy contract"
      → Refusal c p k e
  too_many :
      (t : TenantContract)
      → lookup p.tenant_id c.compiler.contracts ≡ some t
      → lookup p.tenant_id c.state ≡ some active
      → All (λ m. in_scope m p.scopes ≡ true) t.required_scopes
      → ¬ IsWithin k t.max_results
      → e ≡ permission_error "requested result count exceeds the tenant policy contract"
      → Refusal c p k e

exceeds-IsWithin : (k : Option ℤ) (most : ℤ) → exceeds k most ≡ true → ¬ IsWithin k most
exceeds-IsWithin none most h = cc
exceeds-IsWithin (some k) most h = ground arith

-- The tests after the workspace has been found active.
active-Refusal :
    {F : Type 0} (c : ControlPlane F) (p : Principal) (k : Option ℤ) (t : TenantContract)
    (e : Error)
    → lookup p.tenant_id c.compiler.contracts ≡ some t
    → lookup p.tenant_id c.state ≡ some active
    → authorize c p k ≡ err e
    → Refusal c p k e
unfolding authorize contract_for
active-Refusal c p k t e found live h = elim (Bool-cases (has_all t.required_scopes p.scopes)) [
  | inr lacking ↦
      out_of_scope t found live
        (λ scoped. ground (arith, (has_all_iff t.required_scopes p.scopes).1 scoped, lacking))
        (ground arith)
  | inl scoped ↦ elim (Bool-cases (exceeds k t.max_results)) [
    | inr fits ↦ absurd (ground arith)
    | inl more ↦
        too_many t found live ((has_all_iff t.required_scopes p.scopes).0 scoped)
          (exceeds-IsWithin k t.max_results more) (ground arith)
  ]
]

known-Refusal :
    {F : Type 0} (c : ControlPlane F) (p : Principal) (k : Option ℤ) (t : TenantContract)
    (w : Workspace) (e : Error)
    → lookup p.tenant_id c.compiler.contracts ≡ some t
    → lookup p.tenant_id c.state ≡ some w
    → authorize c p k ≡ err e
    → Refusal c p k e
unfolding authorize contract_for
known-Refusal c p k t active e found live h = active-Refusal c p k t e found live h
known-Refusal c p k t quarantined e found shut h = locked t found shut (ground arith)

-- Where every contract has a workspace, an authorisation that raises does so for the first of four
-- reasons that applies (no contract, a quarantined workspace, a required scope that the principal
-- lacks, more results than the cap), the earlier ones not applying, and raises the error that
-- belongs to it.
pub authorize-Refusal :
    {F : Type 0} (c : ControlPlane F) (p : Principal) (k : Option ℤ) (e : Error)
    → IsTracked c
    → authorize c p k ≡ err e
    → Refusal c p k e
unfolding authorize contract_for
authorize-Refusal c p k e tracked h =
    elim (Option-cases (lookup p.tenant_id c.compiler.contracts)) [
      | inl missing ↦ unknown missing (ground arith)
      | inr (t, found) ↦ elim (Option-cases (lookup p.tenant_id c.state)) [
        | inl lost ↦ absurd (ground (arith, tracked.workspace p.tenant_id lost))
        | inr (w, held) ↦ known-Refusal c p k t w e found held h
      ]
    ]

-- Two control planes that agree on what they hold of the tenant `j`.
pub record AgreeOn {F : Type 0} (j : Uuid) (c d : ControlPlane F) : Type 0 where
  pub contract : lookup j c.compiler.contracts ≡ lookup j d.compiler.contracts
  pub state : lookup j c.state ≡ lookup j d.state
  pub ledger : lookup j c.attestations ≡ lookup j d.attestations

-- The answers to a tenant depend on nothing that is held of another.
module _ {F : Type 0} {c d : ControlPlane F} (p : Principal) (same : AgreeOn p.tenant_id c d) where
  pub authorize-local : (k : Option ℤ) → authorize c p k ≡ authorize d p k
  unfolding authorize contract_for
  authorize-local k = rw (same.contract, same.state)

  pub policy_version-local : policy_version c p ≡ policy_version d p
  unfolding policy_version contract_for
  policy_version-local = rw same.contract

  pub status_for-local : status_for c p ≡ status_for d p
  unfolding status_for contract_for
  status_for-local = rw (same.contract, same.state, same.ledger)
