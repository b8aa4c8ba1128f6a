-- ===== src/Client/Validation.antt =====
-- typescript/src/client/ChanceryClient.ts: the validations of an inspected settlement, which return
-- the issues that the code pushes, in order. Amounts are those that `normalizeRequest` accepts; the
-- values of an account are the record of the fields that are read.
use chancery_integration_exa.Common.{
  ℕ, ◌-◌, ltb, ◌==◌, if◌then◌else◌, Bool, true, false, not, ◌&&◌, ◌||◌, Option, none, some, List,
  [], ◌∷◌, ◌++◌, Result, ok, err, no_pathway, many_pathways,
}
use chancery_integration_exa.Common.Int.{ℤ, pos, leb_ℤ, ltb_ℤ}
use chancery_integration_exa.Base58.{Text}
use chancery_integration_exa.Messages.{text_equals}
use chancery_integration_exa.Settlement.{
  SettlementAction, SettlementMode, mint, redeem, observed, has_flag,
}
use chancery_integration_exa.Settlement.Policies.{mode_value}
use chancery_integration_exa.Tokens.{TokenAccount}
use chancery_integration_exa.Client.{for_action}

pub data Issue : Type 0 where
  below_minimum above_maximum minimum_output_exceeded : Issue
  source_missing source_balance destination_missing reserve_missing reserve_balance
        recipient_missing :
      Issue
  future_dated stale : Issue
  intent_mode intent_action intent_asset intent_token intent_pathway intent_status intent_early
        intent_expired :
      Issue
  scope_kind scope_key unenforced_caps daily_maximum : Issue

-- The fields of AssetConfig that `validateAmount` reads.
pub record AmountLimits : Type 0 where
  pub minimum_deposit_amount : ℕ
  pub minimum_redeem_amount : ℕ
  pub maximum_single_settlement_amount : ℕ

unfoldable pub validate_amount : SettlementAction → ℕ → ℕ → AmountLimits → ℕ → List Issue
validate_amount action input_amount minimum_output limits received =
    observed
      (ltb input_amount
        (for_action action limits.minimum_deposit_amount limits.minimum_redeem_amount))
      below_minimum
    ++ (observed
          (not (limits.maximum_single_settlement_amount == 0)
            && ltb limits.maximum_single_settlement_amount input_amount)
          above_maximum
        ++ observed (ltb received minimum_output) minimum_output_exceeded)

-- `TokenAccountSnapshot`
pub record TokenAccountSnapshot : Type 0 where
  pub address : Text
  pub present : Bool
  pub values : Option TokenAccount

-- `!exists || values === null` is the first issue, a balance below the amount the second.
unfoldable pub check_balance : Option TokenAccount → Bool → Bool → ℕ → Issue → Issue → List Issue
check_balance none present needed amount missing low = missing ∷ []
check_balance (some account) present needed amount missing low =
    if present then observed (needed && ltb account.held amount) low else missing ∷ []

unfoldable pub validate_token_accounts :
    SettlementAction
    → ℕ
    → ℕ
    → TokenAccountSnapshot
    → TokenAccountSnapshot
    → TokenAccountSnapshot
    → TokenAccountSnapshot
    → Bool
    → List Issue
validate_token_accounts action input_amount required source destination reserve fee_recipient
      fee_routed =
    check_balance source.values source.present true input_amount source_missing source_balance
    ++ (observed (not destination.present) destination_missing
        ++ (check_balance reserve.values reserve.present (for_action action false true) required
              reserve_missing reserve_balance
            ++ observed (fee_routed && not fee_recipient.present) recipient_missing))

unfoldable pub validate_extension_freshness : ℕ → ℕ → ℕ → List Issue
validate_extension_freshness observed_at_slot maximum_age_slots current_slot =
    if ltb current_slot observed_at_slot
    then future_dated ∷ []
    else observed
        (not (maximum_age_slots == 0) && ltb maximum_age_slots (current_slot - observed_at_slot))
        stale

-- The fields of a settlement intent that are read.
pub record IntentValues : Type 0 where
  pub settlement_mode : ℕ
  pub settlement_action : ℕ
  pub asset_mint : Text
  pub issued_token_mint : Text
  pub pathway_id : List ℕ
  pub status : ℕ
  pub valid_after : ℤ
  pub expires_at : ℤ

-- `SETTLEMENT_ACTION_VALUE`
unfoldable pub action_value : SettlementAction → ℕ
action_value mint = 0
action_value redeem = 1

unfoldable pub is_zero_time : ℤ → Bool
is_zero_time time = leb_ℤ time (pos 0) && leb_ℤ (pos 0) time

-- Without an intent there is nothing to validate. Texts in hexadecimal are equal where the bytes are.
unfoldable pub validate_intent_against_pathway :
    SettlementMode → SettlementAction → Text → Option IntentValues → List ℕ → Text → ℤ → List Issue
validate_intent_against_pathway mode action asset_mint none pathway_id issued_token_mint now = []
validate_intent_against_pathway mode action asset_mint (some intent) pathway_id issued_token_mint
      now =
    observed (not (intent.settlement_mode == mode_value mode)) intent_mode
    ++ (observed (not (intent.settlement_action == action_value action)) intent_action
        ++ (observed (not (text_equals intent.asset_mint asset_mint)) intent_asset
            ++ (observed (not (text_equals intent.issued_token_mint issued_token_mint)) intent_token
                ++ (observed (not (text_equals intent.pathway_id pathway_id)) intent_pathway
                    ++ (observed (not (intent.status == 0)) intent_status
                        ++ (observed
                              (not (is_zero_time intent.valid_after)
                                && ltb_ℤ now intent.valid_after)
                              intent_early
                            ++ observed
                                (not (is_zero_time intent.expires_at)
                                  && leb_ℤ intent.expires_at now)
                                intent_expired))))))

-- The fields of a dimension's limit policy that are read.
pub record DimensionPolicy : Type 0 where
  pub policy_scope_kind : ℕ
  pub policy_scope_key : Text
  pub per_hour_maximum : ℕ
  pub per_day_maximum : ℕ
  pub per_seven_day_maximum : ℕ
  pub per_thirty_day_maximum : ℕ
  pub maximum_actions_per_hour : ℕ
  pub maximum_actions_per_day : ℕ

unfoldable pub dimension_policy_validation_issues : DimensionPolicy → ℕ → Text → Bool → List Issue
dimension_policy_validation_issues policy expected_kind expected_key require_daily_maximum =
    observed (not (policy.policy_scope_kind == expected_kind)) scope_kind
    ++ (observed (not (text_equals policy.policy_scope_key expected_key)) scope_key
        ++ (observed
              (not (policy.per_hour_maximum == 0)
                || not (policy.per_seven_day_maximum == 0)
                || not (policy.per_thirty_day_maximum == 0)
                || not (policy.maximum_actions_per_hour == 0)
                || not (policy.maximum_actions_per_day == 0))
              unenforced_caps
            ++ observed (require_daily_maximum && policy.per_day_maximum == 0) daily_maximum))

-- `SettlementPauseObservation`
pub record PauseObservation : Type 0 where
  pub current_slot : ℕ
  pub global_paused : Bool
  pub asset_paused : Bool
  pub pathway_paused : Bool

-- The fields of a pause state: the bits, and the slot at which they expire, 0 for never.
pub record PauseState : Type 0 where
  pub expires_at_slot : ℕ
  pub pause_bits : ℕ

-- The bit of the action is set and has not expired; bit 0 is `1n`, bit 1 is `2n`.
unfoldable pub is_paused : SettlementAction → ℕ → PauseState → Bool
is_paused action current_slot state =
    (state.expires_at_slot == 0 || ltb current_slot state.expires_at_slot)
    && has_flag state.pause_bits (for_action action 0 1)

-- A missing asset pause state does not pause; `STATUS_FLAG.PATHWAY_PAUSE` is bit 3.
unfoldable pub observe_pauses :
    SettlementAction → ℕ → PauseState → Option PauseState → ℕ → PauseObservation
observe_pauses action current_slot global_state asset_state pathway_status_flags = record {
  current_slot = current_slot;
  global_paused = is_paused action current_slot global_state;
  asset_paused = elim asset_state [
    | none ↦ false
    | some state ↦ is_paused action current_slot state
  ];
  pathway_paused = has_flag pathway_status_flags 3;
}

-- The tests of a `PathwayCandidate` and its address.
pub record PathwayCandidate : Type 0 where
  pub candidate_address : Text
  pub matches_requested_asset : Bool
  pub matches_issued_token : Bool
  pub matches_mode : Bool
  pub matches_requested_pathway_id : Bool
  pub canonical_pda : Bool

unfoldable pub is_match : PathwayCandidate → Bool
is_match candidate =
    candidate.matches_requested_asset && candidate.matches_issued_token && candidate.matches_mode
    && candidate.matches_requested_pathway_id && candidate.canonical_pda

unfoldable pub matching : List PathwayCandidate → List PathwayCandidate
matching [] = []
matching (candidate ∷ candidates) =
    let others = matching candidates in if is_match candidate then candidate ∷ others else others

unfoldable pub only_match : List PathwayCandidate → Result PathwayCandidate
only_match [] = err no_pathway
only_match (selected ∷ []) = ok selected
only_match (selected ∷ (other ∷ more)) = err many_pathways

unfoldable pub select_pathway_candidate : List PathwayCandidate → Result PathwayCandidate
select_pathway_candidate candidates = only_match (matching candidates)
