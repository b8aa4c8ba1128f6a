-- ===== src/Client.antt =====
-- typescript/src/client/ChanceryClient.ts: `computeSettlementEffectiveQuote`, from the fees of the
-- protocol and of the asset's Token-2022 transfers. The values of an account are the record of the
-- fields that are read.
pub mod AllIn
pub mod Validation
pub mod Gates
pub mod Cleared
pub mod Extensions
use chancery_integration_exa.Common.{
  ℕ, ◌-◌, ◌*◌, ◌/◌, ltb, ◌==◌, if◌then◌else◌, Bool, true, false, Option, none, some, List, [], ◌++◌,
  ◌||◌, Result, ok, err, ◌>>=◌, negative_amount,
}
use chancery_integration_exa.Common.Int.{ℤ, pos, negsuc}
use chancery_integration_exa.Settlement.{
  SettlementAction, mint, redeem, AssetRates, compute_settlement_gross_output, FeePolicy, FeeQuote,
  compute_fee_quote, observed,
}
use chancery_integration_exa.Tokens.{
  TransferFeeConfig, FeeCalculation, calculate_token_transfer_fee,
}
use chancery_integration_exa.Tokens.Extensions.{TokenMint}

-- The texts that `computeSettlementEffectiveQuote` pushes.
pub data QuoteObservation : Type 0 where
  mint_unavailable unmodeled_transfer : QuoteObservation

pub record SettlementEffectiveQuote : Type 0 where
  pub action : SettlementAction
  pub current_epoch : ℤ
  pub configured_rate_e9 : ℕ
  pub configured_gross_output : ℕ
  pub rate_input_amount : ℕ
  pub gross_output : ℕ
  pub input_asset_transfer : FeeCalculation
  pub chancery_fee_amount : ℕ
  pub chancery_fee_basis_points : Option ℕ
  pub output_before_principal_transfer : ℕ
  pub principal_asset_transfer : FeeCalculation
  pub principal_received_amount : ℕ
  pub routed_fee_transfer : Option FeeCalculation
  pub fee_recipient_received_amount : ℕ
  pub all_in_output_reduction : ℕ
  pub all_in_fee_basis_points : Option ℕ
  pub effective_output_rate_e9 : Option ℕ
  pub requires_simulation_for_exact_amount : Bool
  pub observations : List QuoteObservation

-- `SettlementEffectiveQuoteResolution`
pub record QuoteResolution : Type 0 where
  pub gross_output : ℕ
  pub fee_quote : FeeQuote
  pub effective_quote : SettlementEffectiveQuote

-- `action === "mint" ? x : y`
unfoldable pub for_action {ℓ} : {A : Type ℓ} → SettlementAction → A → A → A
for_action mint x y = x
for_action redeem x y = y

-- `assetMintValues?.transferFeeConfig ?? null`
unfoldable pub mint_fee_config : Option TokenMint → Option TransferFeeConfig
mint_fee_config none = none
mint_fee_config (some values) = values.scanned.transfer_fee_config

unfoldable pub is_unmodeled : Option TokenMint → Bool
is_unmodeled none = false
is_unmodeled (some values) = values.scanned.has_unmodeled_transfer_behavior

unfoldable pub is_unavailable : Option TokenMint → Bool
is_unavailable none = true
is_unavailable (some values) = false

-- `divisor === 0n ? null : dividend / divisor`
unfoldable pub quotient : ℕ → ℕ → Option ℕ
quotient dividend divisor = if divisor == 0 then none else some (dividend / divisor)

unfoldable pub received_of : Option FeeCalculation → ℕ
received_of none = 0
received_of (some transfer) = transfer.received_amount

-- The transfer of the fee, where it is routed.
unfoldable pub routed_transfer :
    Bool → ℕ → Option TransferFeeConfig → ℤ → Result (Option FeeCalculation)
routed_transfer false net_fee config current_epoch = ok none
routed_transfer true net_fee config current_epoch =
    calculate_token_transfer_fee (pos net_fee) config current_epoch >>= λ transfer.
    ok (some transfer)

-- The object that is returned.
unfoldable pub resolution_of :
    SettlementAction
    → ℕ
    → ℤ
    → AssetRates
    → Option TokenMint
    → ℕ
    → ℕ
    → ℕ
    → FeeQuote
    → FeeCalculation
    → FeeCalculation
    → Option FeeCalculation
    → QuoteResolution
resolution_of action requested current_epoch rates mint_values configured rate_input gross quote
      input_transfer principal_transfer routed_fee =
    let received = principal_transfer.received_amount in
    let reduction = if ltb received configured then configured - received else 0 in
    record {
      gross_output = gross;
      fee_quote = quote;
      effective_quote = record {
        action = action;
        current_epoch = current_epoch;
        configured_rate_e9 = for_action action rates.deposit_rate_e9 rates.redeem_rate_e9;
        configured_gross_output = configured;
        rate_input_amount = rate_input;
        gross_output = gross;
        input_asset_transfer = input_transfer;
        chancery_fee_amount = quote.net_fee;
        chancery_fee_basis_points = quotient (quote.net_fee * 10000) gross;
        output_before_principal_transfer = quote.net_output;
        principal_asset_transfer = principal_transfer;
        principal_received_amount = received;
        routed_fee_transfer = routed_fee;
        fee_recipient_received_amount = received_of routed_fee;
        all_in_output_reduction = reduction;
        all_in_fee_basis_points = quotient (reduction * 10000) configured;
        effective_output_rate_e9 = quotient (received * 1000000000) requested;
        requires_simulation_for_exact_amount =
            is_unavailable mint_values || is_unmodeled mint_values;
        observations =
            observed (is_unavailable mint_values) mint_unavailable
            ++ observed (is_unmodeled mint_values) unmodeled_transfer;
      };
    }

unfoldable pub compute_settlement_effective_quote :
    SettlementAction
    → ℤ
    → AssetRates
    → Option TokenMint
    → Option FeePolicy
    → ℤ
    → ℤ
    → Result QuoteResolution
compute_settlement_effective_quote action (negsuc n) rates mint_values policy now current_epoch =
    err negative_amount
compute_settlement_effective_quote action (pos requested) rates mint_values policy now
      current_epoch =
    do
      configured ← compute_settlement_gross_output action (pos requested) rates
      let config = mint_fee_config mint_values
      input_transfer ←
          calculate_token_transfer_fee (pos (for_action action requested 0))
            (for_action action config none) current_epoch
      let rate_input = for_action action input_transfer.received_amount requested
      gross ← compute_settlement_gross_output action (pos rate_input) rates
      quote ← compute_fee_quote action rate_input gross policy now
      principal_transfer ←
          calculate_token_transfer_fee (pos quote.net_output) (for_action action none config)
            current_epoch
      routed_fee ←
          routed_transfer quote.routed quote.net_fee (for_action action none config) current_epoch
      ok (
          resolution_of action requested current_epoch rates mint_values configured rate_input gross
            quote input_transfer principal_transfer routed_fee)
