-- ===== src/Client/Gates.antt =====
-- typescript/src/client/ChanceryClient.ts: `validateCoreSettlementGates`, which returns the issues
-- that the code pushes, in order. An extension mask is a pair of 64-bit words.
use chancery_integration_exa.Common.{
  ℕ, zero, suc, ◌^◌, ◌/◌, ◌%◌, leb, ◌==◌, if◌then◌else◌, Bool, false, not, ◌&&◌, ◌||◌, Option, none,
  some, List, [], ◌∷◌, ◌++◌, get_elem?,
}
use chancery_integration_exa.Base58.{every_zero}
use chancery_integration_exa.Settlement.{SettlementAction, mint, redeem, observed, has_flag}
use chancery_integration_exa.Client.Validation.{Issue, validate_extension_freshness}

-- The texts that the gates push; a freshness issue is told with its label.
pub data GateIssue : Type 0 where
  module_inactive mint_forbidden redeem_forbidden : GateIssue
  asset_freshness token_freshness : Issue → GateIssue
  extension_unapproved extension_forbidden extension_pathway : GateIssue
  token_not_ready token_extension_forbidden : GateIssue
  evidence_missing evidence_unbound evidence_fields evidence_configuration : GateIssue

abbrev pub Mask : Type 0
Mask = ℕ × ℕ

-- `(left & right) !== 0n`, and `(left & ~right) !== 0n`, on the low bits of the words.
unfoldable pub common_bit : ℕ → ℕ → ℕ → Bool
common_bit zero left right = false
common_bit (suc bits) left right =
    (left % 2 == 1 && right % 2 == 1) || common_bit bits (left / 2) (right / 2)

unfoldable pub extra_bit : ℕ → ℕ → ℕ → Bool
extra_bit zero left right = false
extra_bit (suc bits) left right =
    (left % 2 == 1 && not (right % 2 == 1)) || extra_bit bits (left / 2) (right / 2)

-- The fields of AssetConfig, of IssuedTokenControl, of the pathway and of the evidence policy.
pub record AssetGate : Type 0 where
  pub mode : ℕ
  pub observed_at_slot : ℕ
  pub maximum_age_slots : ℕ
  pub observed_mask : Mask
  pub approved_mask : Mask
  pub forbidden_mask : Mask

pub record TokenGate : Type 0 where
  pub control_flags : ℕ
  pub observed_at_slot : ℕ
  pub maximum_age_slots : ℕ
  pub active_mask : Mask

pub record PathwayGate : Type 0 where
  pub forbidden_collateral_mask : Mask
  pub forbidden_token_mask : Mask
  pub evidence_policy_id : List ℕ

pub record EvidenceGate : Type 0 where
  pub required_mask : Mask
  pub schema_hash : List ℕ
  pub allow_freeform : ℕ
  pub maximum_freeform_count : ℕ
  pub maximum_freeform_bytes : ℕ
  pub retention_flags : ℕ

-- `moduleStatuses[SETTLEMENT_MODULE_ID] !== MODULE_STATUS_ACTIVE`
unfoldable pub module_active : List ℕ → Bool
module_active statuses = elim (get_elem? statuses 4) [ none ↦ false | some status ↦ status == 2 ]

unfoldable pub mode_issues : SettlementAction → ℕ → List GateIssue
mode_issues mint mode = observed (not (mode == 0)) mint_forbidden
mode_issues redeem mode = observed (not (mode == 0) && not (mode == 1)) redeem_forbidden

-- One turn of the loop over the words: the first test that fails. `protocol` is the word that the
-- protocol forbids, and `x & (a | b)` is 0 where `x & a` and `x & b` are.
unfoldable pub word_issue : ℕ → ℕ → ℕ → ℕ → ℕ → Option GateIssue
word_issue observed_word approved forbidden protocol pathway =
    if extra_bit 64 observed_word approved
    then some extension_unapproved
    else if common_bit 64 observed_word forbidden || common_bit 64 observed_word protocol
    then some extension_forbidden
    else if common_bit 64 observed_word pathway
    then some extension_pathway
    else none

-- `break` after the first word with an issue; `COLLATERAL_TRANSFER_HOOK_EXTENSION` is 1.
unfoldable pub asset_extension_issues : AssetGate → PathwayGate → List GateIssue
asset_extension_issues asset pathway =
    elim (word_issue asset.observed_mask.0 asset.approved_mask.0 asset.forbidden_mask.0 1
      pathway.forbidden_collateral_mask.0) [
        | some issue ↦ issue ∷ []
        | none ↦
            elim (word_issue asset.observed_mask.1 asset.approved_mask.1 asset.forbidden_mask.1 0
              pathway.forbidden_collateral_mask.1) [ some issue ↦ issue ∷ [] | none ↦ [] ]
      ]

unfoldable pub token_extension_issues : TokenGate → PathwayGate → List GateIssue
token_extension_issues token pathway =
    observed
      (common_bit 64 token.active_mask.0 pathway.forbidden_token_mask.0
        || common_bit 64 token.active_mask.1 pathway.forbidden_token_mask.1)
      token_extension_forbidden

-- `SETTLEMENT_EVIDENCE_SUPPORTED_FIELD_MASK` is the low 19 bits.
unfoldable pub evidence_issues : PathwayGate → Option EvidenceGate → List GateIssue
evidence_issues pathway none =
    observed (not (every_zero pathway.evidence_policy_id)) evidence_missing
evidence_issues pathway (some policy) =
    observed (every_zero pathway.evidence_policy_id) evidence_unbound
    ++ (observed (not (policy.required_mask.1 == 0) || leb (2 ^ 19) policy.required_mask.0)
          evidence_fields
        ++ observed
            (not (policy.allow_freeform == 0)
              || not (every_zero policy.schema_hash)
              || not (policy.maximum_freeform_count == 0)
              || not (policy.maximum_freeform_bytes == 0)
              || not (policy.retention_flags == 0))
            evidence_configuration)

unfoldable pub labelled : (Issue → GateIssue) → List Issue → List GateIssue
labelled label [] = []
labelled label (issue ∷ issues) = label issue ∷ labelled label issues

-- `ISSUED_TOKEN_READY_FOR_SETTLEMENT` is bit 63.
unfoldable pub validate_core_settlement_gates :
    SettlementAction
    → ℕ
    → List ℕ
    → AssetGate
    → TokenGate
    → PathwayGate
    → Option EvidenceGate
    → List GateIssue
validate_core_settlement_gates action current_slot module_statuses asset token pathway evidence =
    observed (not (module_active module_statuses)) module_inactive
    ++ (mode_issues action asset.mode
        ++ (labelled asset_freshness (
              validate_extension_freshness asset.observed_at_slot asset.maximum_age_slots
                current_slot)
            ++ (asset_extension_issues asset pathway
                ++ (observed (not (has_flag token.control_flags 63)) token_not_ready
                    ++ (labelled token_freshness (
                          validate_extension_freshness token.observed_at_slot
                            token.maximum_age_slots current_slot)
                        ++ (token_extension_issues token pathway
                            ++ evidence_issues pathway evidence))))))
