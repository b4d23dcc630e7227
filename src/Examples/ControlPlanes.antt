-- ===== src/Examples/ControlPlanes.antt =====
-- The control plane's theorems at concrete planes.
use tenantvault_zero_trust_r.Base.{
  ℕ, arith, ◌≡◌, refl, ◌≢◌, ◌↔◌, ◌⊎◌, true, none, some, [], ◌∷◌, ◌++◌, contains,
}
use tenantvault_zero_trust_r.Base.Int.{pos, ◌≤ℤ◌}
use tenantvault_zero_trust_r.Base.Dict.{lookup}
use tenantvault_zero_trust_r.Result.{tenant_quarantined_error, permission_error, ok, err}
use tenantvault_zero_trust_r.Exec.{result, after}
use tenantvault_zero_trust_r.Json.{Json, get, get_or, subscript, iterate, member, members, set_of}
use tenantvault_zero_trust_r.Security.{to_int, to_uuid, to_str}
use tenantvault_zero_trust_r.ControlPlane.{
  active, quarantined, is_quarantined, Attestation, ControlPlane, contract_for, authorize,
  status_for, new_plane, check_gate, compile, compile_contract, compile_contracts, thousand,
}
use tenantvault_zero_trust_r.ControlPlane.Ledger.{record_attestation, sign_attestation}
use tenantvault_zero_trust_r.ControlPlane.Authorization.{
  IsAllowed, IsTracked, Refusal, authorize_iff, authorize-Refusal,
}
use tenantvault_zero_trust_r.ControlPlane.Quarantine.{
  Reach, here, next_step, attested, record_attestation_verdict, quarantine_is_final,
  attestation_isolated,
}
use tenantvault_zero_trust_r.ControlPlane.Contracts.{IsGated, AllApproved, compile_sound}
use tenantvault_zero_trust_r.ControlPlane.Boundary.{Reach-IsTracked, authorized_within_boundary}
use tenantvault_zero_trust_r.Examples.Codec.{codes}
use tenantvault_zero_trust_r.Examples.Toy.{
  toy, reader, neighbour, contract, compiler, shut_plane, open_plane, passing, failing,
  attestation_draw,
}

-- A passed attestation after the quarantine.
abbrev later : ControlPlane ℕ
later = after (record_attestation toy reader passing 5 attestation_draw) shut_plane

compiled : compile toy (codes "{}") ≡ ok compiler
unfolding compile check_gate compile_contract compile_contracts get get_or subscript iterate member
    members set_of to_int to_uuid to_str
compiled = refl

authorized : authorize open_plane reader (some (pos 3)) ≡ ok (contract 1)
unfolding authorize contract_for
authorized = refl

refused :
    authorize open_plane reader (some (pos 6))
    ≡ err (permission_error "requested result count exceeds the tenant policy contract")
unfolding authorize contract_for
refused = refl

authorize_iff_example :
    (authorize open_plane reader (some (pos 3)) ≡ ok (contract 1))
    ↔ IsAllowed open_plane reader (some (pos 3)) (contract 1)
authorize_iff_example = authorize_iff open_plane reader (some (pos 3)) (contract 1)

open_plane-Reach : Reach toy (new_plane toy compiler "key") open_plane
unfolding new_plane
open_plane-Reach = Reach.here

Reach-IsTracked_example : IsTracked open_plane
Reach-IsTracked_example = Reach-IsTracked toy compiler "key" open_plane-Reach

open_plane-IsTracked : IsTracked open_plane
open_plane-IsTracked = Reach-IsTracked toy compiler "key" open_plane-Reach

authorize-Refusal_example :
    Refusal open_plane reader
      (some (pos 6))
      (permission_error "requested result count exceeds the tenant policy contract")
authorize-Refusal_example =
    authorize-Refusal open_plane reader (some (pos 6))
      (permission_error "requested result count exceeds the tenant policy contract")
      open_plane-IsTracked refused

record_attestation_verdict_example :
    (r : Attestation ℕ) × (result
        (record_attestation toy reader failing 5 attestation_draw)
        open_plane
      ≡ ok r)
    × ((r.status ≡ "passed")
        ↔ ((failing.status ≡ some "passed") × (toy.fle_int 5 (thousand (pos 30)) ≡ true)))
    × (((r.status ≡ "passed")
          × (lookup 1
                (after (record_attestation toy reader failing 5 attestation_draw) open_plane).state
              ≡ some active)
          × (r.quarantined ≡ is_quarantined active))
        ⊎ ((r.status ≡ "failed")
            × (lookup 1
                  (after
                    (record_attestation toy reader failing 5 attestation_draw)
                    open_plane).state
                ≡ some quarantined)
            × (r.quarantined ≡ true)))
    × (r.signature ≡ sign_attestation toy open_plane.signing_key r)
    × (lookup 1
          (after (record_attestation toy reader failing 5 attestation_draw) open_plane).attestations
        ≡ some ([] ++ (r ∷ [])))
record_attestation_verdict_example =
    record_attestation_verdict toy reader failing 5 attestation_draw open_plane (contract 1) active
      [] refl refl refl

later-Reach : Reach toy shut_plane later
later-Reach = next_step here (attested reader passing 5 attestation_draw shut_plane)

quarantine_is_final_example :
    authorize later reader none
    ≡ err (
        tenant_quarantined_error
          "tenant workspace is quarantined after a failed isolation attestation")
quarantine_is_final_example =
    quarantine_is_final toy shut_plane later reader none (contract 1) later-Reach refl refl

attestation_isolated_example :
    (authorize
        (after (record_attestation toy reader failing 5 attestation_draw) open_plane)
        neighbour
        none
      ≡ authorize open_plane neighbour none)
    × (status_for
          (after (record_attestation toy reader failing 5 attestation_draw) open_plane)
          neighbour
        ≡ status_for open_plane neighbour)
attestation_isolated_example =
    attestation_isolated toy reader neighbour failing 5 attestation_draw open_plane none
      (λ e. ground arith)

compile_sound_example :
    (source : Json ℕ) × (toy.loads (codes "{}") ≡ some source)
    × IsGated toy source
    × AllApproved compiler.contracts
    × (compiler.contracts ≢ [])
compile_sound_example = compile_sound toy (codes "{}") compiler compiled

authorized_within_boundary_example :
    (contains "rag:read" reader.scopes ≡ true) × (pos 3 ≤ℤ pos 10) × ((contract 1).tenant_id ≡ 1)
authorized_within_boundary_example =
    authorized_within_boundary toy (codes "{}") compiler "key" open_plane reader (pos 3)
      (contract 1) compiled open_plane-Reach authorized
