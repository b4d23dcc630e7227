-- ===== src/Engine/Probing.antt =====
-- The isolation probe asks for three results, whatever the tenant's contract allows.
use tenantvault_zero_trust_r.Base.{◌≡◌, refl, false, none, some}
use tenantvault_zero_trust_r.Base.Int.{ℤ, pos, leb_ℤ}
use tenantvault_zero_trust_r.Result.{permission_error, ok, err}
use tenantvault_zero_trust_r.Platform.{Platform}
use tenantvault_zero_trust_r.Security.{Principal}
use tenantvault_zero_trust_r.Store.{RagStore}
use tenantvault_zero_trust_r.ControlPlane.{TenantContract, contract_for, ControlPlane, authorize}
use tenantvault_zero_trust_r.ControlPlane.Authorization.{authorize_iff, has_all_iff}
use tenantvault_zero_trust_r.ControlPlane.Ledger
use tenantvault_zero_trust_r.Engine.{
  Engine, AttestDraw, check_plane, query, isolation_probe, run_probe, attest,
}

module _ {F : Type 0} (c : ControlPlane F) (p : Principal) (t : TenantContract) where
  too_many-authorize :
      (k : ℤ)
      → authorize c p none ≡ ok t
      → leb_ℤ k t.max_results ≡ false
      → authorize c p (some k)
        ≡ err (permission_error "requested result count exceeds the tenant policy contract")
  unfolding authorize contract_for
  too_many-authorize k allowed small =
      let h = (authorize_iff c p none t).0 allowed in
      rw (h.approved, h.is_active, (has_all_iff t.required_scopes p.scopes).1 h.scopes, small) refl

module _ {F W : Type 0} (P : Platform F) (R : RagStore F W) where
  -- A tenant whose contract caps the results below three can never be attested: although the
  -- tenant is allowed to, its attestation raises the `PermissionError` of a query that asks for
  -- too much, records nothing and leaves the engine as it was.
  pub small_cap_blocks_attestation :
      (p : Principal) (d : AttestDraw F) (s : Engine F W) (c : ControlPlane F) (t : TenantContract)
      → s.control_plane ≡ some c
      → authorize c p none ≡ ok t
      → leb_ℤ (pos 3) t.max_results ≡ false
      → attest P R p d s
        ≡ (err (permission_error "requested result count exceeds the tenant policy contract"), s)
  unfolding attest Ledger.attest run_probe isolation_probe query check_plane
  small_cap_blocks_attestation p d s c t present allowed small =
      rw (present, allowed, too_many-authorize c p t (pos 3) allowed small) refl
