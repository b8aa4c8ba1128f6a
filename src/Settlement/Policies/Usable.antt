-- ===== src/Settlement/Policies/Usable.antt =====
-- A settlement policy is usable exactly if nothing is reported of it.
use chancery_integration_exa.Common.{
  ℕ, ◌≡◌, ◌↔◌, refl, ◌==◌, Bool, true, false, not, ◌&&◌, List, [], ◌∷◌, ◌++◌, ok, >>=-eq-ok,
  guard-eq-ok, length, public_key_length,
}
use chancery_integration_exa.Base58.{KeyInput, normalize_public_key}
use chancery_integration_exa.Address.{find_program_address}
use chancery_integration_exa.Settlement.{observed}
use chancery_integration_exa.Settlement.Policies.{
  SettlementPolicy, PolicyRequest, PolicyObservation, SettlementPolicyObservation,
  settlement_policy_seed, observe_from, observe_settlement_policy,
}

all_hold :
    (b : Bool) (x : PolicyObservation) (rest : Bool) (xs : List PolicyObservation)
    → ((rest ≡ true) ↔ (xs ≡ []))
    → (((b && rest) ≡ true) ↔ (observed (not b) x ++ xs ≡ []))
unfolding observed
all_hold true x rest xs h = h
all_hold false x rest xs h = (λ e. absurd (cc), λ e. absurd (cc))

one_holds : (b : Bool) (x : PolicyObservation) → ((b ≡ true) ↔ (observed (not b) x ≡ []))
unfolding observed
one_holds true x = (λ e. refl, λ e. refl)
one_holds false x = (λ e. absurd (cc), λ e. absurd (cc))

observe_from_lem :
    (policy : SettlementPolicy) (request : PolicyRequest)
    (derived expected mint a b executor : List ℕ)
    → ((observe_from policy request derived expected mint a b executor).usable ≡ true)
      ↔ ((observe_from policy request derived expected mint a b executor).observations ≡ [])
unfolding observe_from
observe_from_lem policy request derived expected mint a b executor = all_hold _ _ _ _ (
    all_hold _ _ _ _ (
      all_hold _ _ _ _ (
        all_hold _ _ _ _ (
          all_hold _ _ _ _ (
            all_hold _ _ _ _ (
              all_hold _ _ _ _ (
                all_hold _ _ _ _ (
                  all_hold _ _ _ _ (
                    all_hold _ _ _ _ (
                      all_hold _ _ _ _
                        (all_hold _ _ _ _ (all_hold _ _ _ _ (one_holds _ _)))))))))))))

-- Every condition that makes a policy unusable is reported, and nothing is reported of a usable one.
pub settlement_policy_usable :
    (hash : List ℕ → List ℕ) (chancery_program : KeyInput) (policy : SettlementPolicy)
    (request : PolicyRequest) (q : SettlementPolicyObservation)
    → observe_settlement_policy hash chancery_program policy request ≡ ok q
    → (q.usable ≡ true) ↔ (q.observations ≡ [])
unfolding observe_settlement_policy
settlement_policy_usable hash chancery_program policy request q e =
    let (_, m) = guard-eq-ok (length policy.policy_id == 32) public_key_length _ e in
    let (derived, _, m1) =
      >>=-eq-ok
        (find_program_address hash (settlement_policy_seed ∷ (policy.policy_id ∷ []))
          chancery_program)
        _ m in
    let (expected, _, m2) = >>=-eq-ok (normalize_public_key request.expected_address) _ m1 in
    let (mint, _, m3) = >>=-eq-ok (normalize_public_key request.asset_mint) _ m2 in
    let (a, _, m4) = >>=-eq-ok (normalize_public_key request.principal_a) _ m3 in
    let (b, _, m5) = >>=-eq-ok (normalize_public_key request.principal_b) _ m4 in
    let (executor, _, shown) = >>=-eq-ok (normalize_public_key request.executor) _ m5 in
    let same : observe_from policy request derived.0 expected mint a b executor ≡ q = cc shown in
    rw (← same) (observe_from_lem policy request derived.0 expected mint a b executor)
