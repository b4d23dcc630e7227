-- ===== src/ControlPlane/Boundary.antt =====
-- The boundary that no reviewed contract can weaken, from the file of contracts to a request.
use tenantvault_zero_trust_r.Base.{
  ◌≡◌, refl, String, true, none, some, List, [], ◌∷◌, arith, ◌==◌, eq_iff, contains, ap, sym, subst,
  ◌∙◌, Bool-cases, inl, inr,
}
use tenantvault_zero_trust_r.Base.Int.{ℤ, pos, ◌≤ℤ◌}
use tenantvault_zero_trust_r.Base.Lists.{All}
use tenantvault_zero_trust_r.Base.Dict.{Dict, lookup}
use tenantvault_zero_trust_r.Result.{ok}
use tenantvault_zero_trust_r.Json.{Member, text, other, has}
use tenantvault_zero_trust_r.Platform.{Platform, Bytes, Uuid}
use tenantvault_zero_trust_r.Security.{Principal}
use tenantvault_zero_trust_r.ControlPlane.{
  TenantContract, PolicyCompiler, compile, in_scope, ControlPlane, constant, new_plane, authorize,
}
use tenantvault_zero_trust_r.ControlPlane.Authorization.{IsTracked, authorize_iff}
use tenantvault_zero_trust_r.ControlPlane.Contracts.{IsApproved, AllApproved, compile_sound}
use tenantvault_zero_trust_r.ControlPlane.Quarantine.{
  Reach, here, next_step, attested, compiler-record, record_attestation-IsTracked,
}

lookup-constant {ℓ} :
    {V : Type ℓ} (v : V) (j : Uuid) (d : Dict TenantContract)
    → lookup j (constant v d) ≡ none
    → lookup j d ≡ none
lookup-constant v j [] h = refl
lookup-constant v j ((i, t) ∷ d) h = ground (arith, lookup-constant v j d)

lookup-IsApproved :
    (j : Uuid) (d : Dict TenantContract) (t : TenantContract)
    → AllApproved d
    → lookup j d ≡ some t
    → (j ≡ t.tenant_id) × IsApproved t
lookup-IsApproved j [] t h e = cc
lookup-IsApproved j ((i, u) ∷ d) t h e = elim (Bool-cases (i == j)) [
  | inl same ↦
      let taken : u ≡ t = ground arith in
      subst (λ (x : TenantContract). (j ≡ x.tenant_id) × IsApproved x) taken
        (ground (arith, h.0.0), h.0.1)
  | inr differ ↦ lookup-IsApproved j d t h.1 (ground arith)
]

contains_of_has :
    (s : String) (ms : List Member) (scopes : List String)
    → has s ms ≡ true
    → All (λ m. in_scope m scopes ≡ true) ms
    → contains s scopes ≡ true
contains_of_has s [] scopes h k = cc
contains_of_has s (other ∷ ms) scopes h k = contains_of_has s ms scopes h k.1
contains_of_has s (text t ∷ ms) scopes h k =
    ground (arith, eq_iff s t, contains_of_has s ms scopes, k.0)

module _ {F : Type 0} (P : Platform F) where
  new_plane-IsTracked : (m : PolicyCompiler F) (secret : String) → IsTracked (new_plane P m secret)
  unfolding new_plane
  new_plane-IsTracked m secret = record {
    workspace = λ j h. lookup-constant _ j m.contracts h;
    ledger = λ j h. lookup-constant _ j m.contracts h;
  }

  Reach-compiler : {c d : ControlPlane F} → Reach P c d → d.compiler ≡ c.compiler
  Reach-compiler here = refl
  Reach-compiler (next_step r (attested p probe ms draw c)) =
      compiler-record P p probe ms draw c ∙ Reach-compiler r

  -- Every control plane that a compiled file starts and attestations lead to has a workspace and a
  -- ledger for each of its contracts.
  pub Reach-IsTracked :
      (m : PolicyCompiler F) (secret : String) {d : ControlPlane F}
      → Reach P (new_plane P m secret) d
      → IsTracked d
  Reach-IsTracked m secret here = new_plane-IsTracked m secret
  Reach-IsTracked m secret (next_step r (attested p probe ms draw c)) =
      record_attestation-IsTracked P p probe ms draw c (Reach-IsTracked m secret r)

  -- Whatever file of contracts was compiled and whatever was attested since: a request that is
  -- authorised comes from a principal with the scope "rag:read", asks for at most ten results, and
  -- is authorised under the contract of the principal's own tenant.
  pub authorized_within_boundary :
      (contents : Bytes) (m : PolicyCompiler F) (secret : String) (d : ControlPlane F)
      (p : Principal) (k : ℤ) (t : TenantContract)
      → compile P contents ≡ ok m
      → Reach P (new_plane P m secret) d
      → authorize d p (some k) ≡ ok t
      → (contains "rag:read" p.scopes ≡ true) × (k ≤ℤ pos 10) × (t.tenant_id ≡ p.tenant_id)
  unfolding new_plane
  authorized_within_boundary contents m secret d p k t compiled r h =
      let (_, _, _, approved, _) = compile_sound P contents m compiled in
      let allowed = (authorize_iff d p (some k) t).0 h in
      let same = ap (λ (x : PolicyCompiler F). x.contracts) (Reach-compiler r) in
      let (own, good) =
        lookup-IsApproved p.tenant_id m.contracts t approved
          (ap (lookup p.tenant_id) (sym same) ∙ allowed.approved) in
      (
        contains_of_has "rag:read" t.required_scopes p.scopes good.reads allowed.scopes,
        omega (arith, allowed.within, good.at_most),
        sym own,
      )
