-- ===== src/Settlement/Policies.antt =====
-- typescript/src/client/ChanceryProtocol.ts: `observeSettlementPolicy`.
pub mod Usable
use chancery_integration_exa.Common.{
  ℕ, ◌+◌, ◌*◌, ◌/◌, ◌%◌, ◌^◌, ◌≡◌, ◌↔◌, ltb, leb, ◌==◌, refl, if◌then◌else◌, Bool, true, false, not,
  ◌&&◌, ◌||◌, Option, none, some, List, [], ◌∷◌, ◌++◌, Result, ok, err, ◌>>=◌, ◌>>◌, >>=-eq-ok,
  guard, guard-eq-ok, length, public_key_length,
}
use chancery_integration_exa.Common.Int.{ℤ, pos, leb_ℤ, ltb_ℤ}
use chancery_integration_exa.Base58.{KeyInput, normalize_public_key, every_zero}
use chancery_integration_exa.Messages.{text_equals}
use chancery_integration_exa.Address.{find_program_address}
use chancery_integration_exa.Settlement.{
  SettlementMode, direct, delegated, trilateral, has_flag, observed, in_force, zero_address,
}

-- The values of a settlement policy's account.
pub record SettlementPolicy : Type 0 where
  pub policy_id : List ℕ
  pub bump : ℕ
  pub policy_flags : ℕ
  pub allowed_settlement_modes : ℕ
  pub allowed_asset_mint : List ℕ
  pub allowed_principal_a : List ℕ
  pub allowed_principal_b : List ℕ
  pub designated_executor : List ℕ
  pub min_notional : ℕ
  pub max_notional : ℕ
  pub valid_after : ℤ
  pub expires_at : ℤ

-- What is asked of the policy.
pub record PolicyRequest : Type 0 where
  pub mode : SettlementMode
  pub asset_mint : KeyInput
  pub principal_a : KeyInput
  pub principal_b : KeyInput
  pub executor : KeyInput
  pub input_notional : ℤ
  pub now : ℤ
  pub expected_address : KeyInput
  pub expected_bump : ℕ

-- The texts that `observeSettlementPolicy` pushes.
pub data PolicyObservation : Type 0 where
  other_identity other_bump zero_id unsupported_flags bad_mode_mask mode_not_permitted :
      PolicyObservation
  asset_not_permitted principal_a_not_permitted principal_b_not_permitted : PolicyObservation
  executor_not_permitted bad_notional_range notional_outside bad_timestamp_range : PolicyObservation
  not_in_effect : PolicyObservation

pub record SettlementPolicyObservation : Type 0 where
  pub usable : Bool
  pub observations : List PolicyObservation

-- `SETTLEMENT_MODE_VALUE`
unfoldable pub mode_value : SettlementMode → ℕ
mode_value direct = 0
mode_value delegated = 1
mode_value trilateral = 2

unfoldable pub is_direct : SettlementMode → Bool
is_direct direct = true
is_direct _ = false

-- `allowed !== 0 && (allowed & ~knownModeMask) === 0`: the known bits are 1 and 2.
unfoldable pub mode_mask_valid : ℕ → Bool
mode_mask_valid allowed = not (allowed == 0) && allowed % 2 + allowed / 8 * 8 == 0

-- `allowed === ZERO_ADDRESS || allowed === requested`
unfoldable pub admits : List ℕ → List ℕ → Bool
admits allowed requested = text_equals allowed zero_address || text_equals allowed requested

unfoldable pub is_zero_ℤ : ℤ → Bool
is_zero_ℤ z = leb_ℤ z (pos 0) && leb_ℤ (pos 0) z

-- `new TextEncoder().encode("settlement-policy")`
abbrev pub settlement_policy_seed : List ℕ
settlement_policy_seed =
    b's'
    ∷ (b'e'
        ∷ (b't'
            ∷ (b't'
                ∷ (b'l'
                    ∷ (b'e'
                        ∷ (b'm'
                            ∷ (b'e'
                                ∷ (b'n'
                                    ∷ (b't'
                                        ∷ (b'-'
                                            ∷ (b'p'
                                                ∷ (b'o'
                                                    ∷ (b'l'
                                                        ∷ (b'i' ∷ (b'c' ∷ (b'y' ∷ []))))))))))))))))

-- The part of `observeSettlementPolicy` behind the addresses: the derived address and the
-- normalised addresses of the request are given.
unfoldable pub observe_from :
    SettlementPolicy
    → PolicyRequest
    → List ℕ
    → List ℕ
    → List ℕ
    → List ℕ
    → List ℕ
    → List ℕ
    → SettlementPolicyObservation
observe_from policy request derived expected mint a b executor =
    let identity_matches = text_equals derived expected in
    let bump_matches = policy.bump == request.expected_bump in
    let policy_id_nonzero = not (every_zero policy.policy_id) in
    let policy_flags_valid = policy.policy_flags == 0 in
    let mask_valid = mode_mask_valid policy.allowed_settlement_modes in
    let mode_allowed =
      not (is_direct request.mode)
      && has_flag policy.allowed_settlement_modes (mode_value request.mode) in
    let asset_allowed = admits policy.allowed_asset_mint mint in
    let principal_a_allowed = admits policy.allowed_principal_a a in
    let principal_b_allowed = admits policy.allowed_principal_b b in
    let executor_allowed = admits policy.designated_executor executor in
    let notional_range_valid =
      policy.max_notional == 0 || leb policy.min_notional policy.max_notional in
    let notional_allowed =
      leb_ℤ (pos policy.min_notional) request.input_notional
      && (policy.max_notional == 0 || leb_ℤ request.input_notional (pos policy.max_notional)) in
    let timestamp_range_valid =
      is_zero_ℤ policy.expires_at || ltb_ℤ policy.valid_after policy.expires_at in
    let temporally_effective = in_force policy.valid_after policy.expires_at request.now in
    record {
      usable =
          identity_matches
          && (bump_matches
              && (policy_id_nonzero
                  && (policy_flags_valid
                      && (mask_valid
                          && (mode_allowed
                              && (asset_allowed
                                  && (principal_a_allowed
                                      && (principal_b_allowed
                                          && (executor_allowed
                                              && (notional_range_valid
                                                  && (notional_allowed
                                                      && (timestamp_range_valid
                                                          && temporally_effective))))))))))));
      observations =
          observed (not identity_matches) other_identity
          ++ (observed (not bump_matches) other_bump
              ++ (observed (not policy_id_nonzero) zero_id
                  ++ (observed (not policy_flags_valid) unsupported_flags
                      ++ (observed (not mask_valid) bad_mode_mask
                          ++ (observed (not mode_allowed) mode_not_permitted
                              ++ (observed (not asset_allowed) asset_not_permitted
                                  ++ (observed (not principal_a_allowed) principal_a_not_permitted
                                      ++ (observed (not principal_b_allowed)
                                            principal_b_not_permitted
                                          ++ (observed (not executor_allowed) executor_not_permitted
                                              ++ (observed (not notional_range_valid)
                                                    bad_notional_range
                                                  ++ (observed (not notional_allowed)
                                                        notional_outside
                                                      ++ (observed (not timestamp_range_valid)
                                                            bad_timestamp_range
                                                          ++ observed (not temporally_effective)
                                                            not_in_effect))))))))))));
    }

-- `observeSettlementPolicy`; `hash` is SHA-256 and `chancery_program` the configured program.
module _ (hash : List ℕ → List ℕ) (chancery_program : KeyInput) where
  unfoldable pub observe_settlement_policy :
      SettlementPolicy → PolicyRequest → Result SettlementPolicyObservation
  observe_settlement_policy policy request = do
    guard (length policy.policy_id == 32) public_key_length
    derived ←
        find_program_address hash (settlement_policy_seed ∷ (policy.policy_id ∷ []))
          chancery_program
    expected ← normalize_public_key request.expected_address
    mint ← normalize_public_key request.asset_mint
    a ← normalize_public_key request.principal_a
    b ← normalize_public_key request.principal_b
    executor ← normalize_public_key request.executor
    ok (observe_from policy request derived.0 expected mint a b executor)
