-- ===== src/ControlPlane/Contracts.antt =====
-- What a file of contracts that compiles is known to satisfy.
use tenantvault_zero_trust_r.Base.{
  ◌≡◌, refl, ◌≢◌, String, true, false, not, Option, none, some, List, [], ◌∷◌, arith, ◌==◌,
  Bool-cases, inl, inr, ap, subst,
}
use tenantvault_zero_trust_r.Base.Int.{pos, ◌≤ℤ◌}
use tenantvault_zero_trust_r.Base.Lists.{All}
use tenantvault_zero_trust_r.Base.Dict.{Dict, insert}
use tenantvault_zero_trust_r.Result.{ok, value_error, or_raise, >>=-eq-ok, raise_if-eq-ok}
use tenantvault_zero_trust_r.Json.{
  Json, null, bool, int, float, str, obj, end, Member, has, get, get_or, set_of, iterate, arr, nil,
}
use tenantvault_zero_trust_r.Platform.{Platform, Bytes, Uuid}
use tenantvault_zero_trust_r.ControlPlane.{
  TenantContract, PolicyCompiler, required_controls, is_true, compile, compile_contract,
  compile_contracts, check_gate, has_texts, is_empty, is_one,
}

-- A contract keeps the fixed boundary.
pub record IsApproved (t : TenantContract) : Type 0 where
  pub at_least : pos 1 ≤ℤ t.max_results
  pub at_most : t.max_results ≤ℤ pos 10
  pub reads : has "rag:read" t.required_scopes ≡ true

abbrev pub AllApproved : Dict TenantContract → Type 0
AllApproved d = All (λ (r : Uuid × TenantContract). (r.0 ≡ r.1.tenant_id) × IsApproved r.1) d

insert-AllApproved :
    (t : TenantContract) (d : Dict TenantContract)
    → IsApproved t
    → AllApproved d
    → AllApproved (insert t.tenant_id t d)
insert-AllApproved t [] h k = ((refl, h), tt)
insert-AllApproved t ((j, u) ∷ d) h k = elim (Bool-cases (j == t.tenant_id)) [
  | inl same ↦ rw same ((refl, h), k.1)
  | inr differ ↦ rw differ (k.0, insert-AllApproved t d h k.1)
]

module _ {F : Type 0} (P : Platform F) where
  compile_contract-IsApproved :
      (raw : Json F) (t : TenantContract) → compile_contract P raw ≡ ok t → IsApproved t
  unfolding compile_contract
  compile_contract-IsApproved raw t h = record {
    at_least = ground arith;
    at_most = ground arith;
    reads = ground arith;
  }

  compile_contracts-AllApproved :
      (raws : List (Json F)) (d e : Dict TenantContract)
      → AllApproved d
      → compile_contracts P raws d ≡ ok e
      → AllApproved e
  unfolding compile_contracts
  compile_contracts-AllApproved [] d e h k = let same : d ≡ e = cc in subst AllApproved same h
  compile_contracts-AllApproved (raw ∷ raws) d e h k =
      let (t, compiled, rest) = >>=-eq-ok (compile_contract P raw) _ k in
      compile_contracts-AllApproved raws (insert t.tenant_id t d) e
        (insert-AllApproved t d (compile_contract-IsApproved raw t compiled) h) rest

  -- A text that compiles leaves no required control out of its release gate and asks for
  -- quarantine.
  pub record IsGated (source : Json F) : Type 0 where
    pub gate : Json F
    pub given : get_or source "release_gate" (obj end) ≡ ok gate
    pub controls : Json F
    pub listed : get_or gate "required_controls" (arr nil) ≡ ok controls
    pub configured : List Member
    pub as_set : set_of controls ≡ ok configured
    pub complete : All (λ s. has s configured ≡ true) required_controls
    pub fail_closed : get gate "quarantine_on_failed_attestation" ≡ ok (some (bool true))

  is_true_inv : (o : Option (Json F)) → is_true o ≡ true → o ≡ some (bool true)
  is_true_inv (some (bool true)) h = refl
  is_true_inv none h = cc
  is_true_inv (some (bool false)) h = cc
  is_true_inv (some null) h = cc
  is_true_inv (some (int n)) h = cc
  is_true_inv (some (float x)) h = cc
  is_true_inv (some (str s)) h = cc
  is_true_inv (some (arr vs)) h = cc
  is_true_inv (some (obj fs)) h = cc

  has_texts-All :
      (ss : List String) (ms : List Member) → has_texts ss ms ≡ true → All (λ s. has s ms ≡ true) ss
  has_texts-All [] ms h = tt
  has_texts-All (s ∷ ss) ms h = ground (arith, has_texts-All ss ms)

  check_gate-IsGated : (source gate : Json F) → check_gate P source ≡ ok gate → IsGated source
  unfolding check_gate
  check_gate-IsGated source gate h =
      let (version, _, h1) = >>=-eq-ok (get source "schema_version") _ h in
      let (_, h2) = raise_if-eq-ok (not (is_one P version)) _ _ h1 in
      let (found, given, h3) = >>=-eq-ok (get_or source "release_gate" (obj end)) _ h2 in
      let (controls, listed, h4) = >>=-eq-ok (get_or found "required_controls" (arr nil)) _ h3 in
      let (configured, as_set, h5) = >>=-eq-ok (set_of controls) _ h4 in
      let (complete, h6) = raise_if-eq-ok (not (has_texts required_controls configured)) _ _ h5 in
      let (failure, set, h7) = >>=-eq-ok (get found "quarantine_on_failed_attestation") _ h6 in
      let (closed, _) = raise_if-eq-ok (not (is_true failure)) _ _ h7 in
      record {
        gate = found;
        given = given;
        controls = controls;
        listed = listed;
        configured = configured;
        as_set = as_set;
        complete = has_texts-All required_controls configured (ground arith);
        fail_closed = rw set (ap ok (is_true_inv failure (ground arith)));
      }

  -- A text of contracts compiles only if it is a JSON document whose release gate lists every
  -- required control and sets `quarantine_on_failed_attestation` to `true`. The result then holds
  -- at least one contract, files each under its own tenant, and every contract caps the results
  -- between 1 and 10 and requires the scope "rag:read".
  pub compile_sound :
      (contents : Bytes) (c : PolicyCompiler F)
      → compile P contents ≡ ok c
      → (source : Json F) × (P.loads contents ≡ some source)
        × IsGated source
        × AllApproved c.contracts
        × (c.contracts ≢ [])
  unfolding compile
  compile_sound contents c h =
      let (source, loaded, h1) = >>=-eq-ok (or_raise (P.loads contents) value_error) _ h in
      let (gate, gated, h2) = >>=-eq-ok (check_gate P source) _ h1 in
      let (list, _, h3) = >>=-eq-ok (get_or source "contracts" (arr nil)) _ h2 in
      let (raws, _, h4) = >>=-eq-ok (iterate list) _ h3 in
      let (contracts, compiled, h5) = >>=-eq-ok (compile_contracts P raws []) _ h4 in
      let (present, done) = raise_if-eq-ok (is_empty contracts) _ _ h5 in
      let same : contracts ≡ c.contracts = ground arith in
      (
        source,
        ground arith,
        check_gate-IsGated source gate gated,
        subst AllApproved same (compile_contracts-AllApproved raws [] contracts tt compiled),
        λ none_left. ground (arith, same),
      )
