-- ===== src/Client/AllIn.antt =====
-- typescript/src/client/ChanceryClient.ts: what a settlement costs in all.
use mathlib.Core.Path.{subst}
use native.Mathlib.Nat.{mul-le-mul_right}
use chancery_integration_exa.Common.{
  ℕ, ◌+◌, ◌-◌, ◌*◌, ◌≤◌, ◌≡◌, arith, ltb, if◌then◌else◌, Option, none, some, ok, >>=-eq-ok,
  ok-injective,
}
use chancery_integration_exa.Common.Int.{ℤ, pos, negsuc}
use chancery_integration_exa.Settlement.{
  SettlementAction, mint, redeem, AssetRates, compute_settlement_gross_output, FeePolicy,
  compute_fee_quote,
}
use chancery_integration_exa.Settlement.Fees.{net_output-le}
use chancery_integration_exa.Tokens.{
  TransferFeeConfig, TransferFee, FeeCalculation, charge, select_active_transfer_fee,
  calculate_token_transfer_fee,
}
use chancery_integration_exa.Tokens.Extensions.{TokenMint}
use chancery_integration_exa.Client.{
  QuoteResolution, for_action, mint_fee_config, routed_transfer, resolution_of,
  compute_settlement_effective_quote,
}

charge_receipt :
    (epoch : ℤ) (amount : ℕ) (fee : TransferFee) (q : FeeCalculation)
    → charge epoch amount fee ≡ ok q
    → q.received_amount ≤ amount
unfolding charge
charge_receipt epoch amount fee q h = ground arith

transfer_receipt :
    (amount : ℕ) (config : Option TransferFeeConfig) (epoch : ℤ) (q : FeeCalculation)
    → calculate_token_transfer_fee (pos amount) config epoch ≡ ok q
    → q.received_amount ≤ amount
unfolding calculate_token_transfer_fee
transfer_receipt amount none epoch q h = ground arith
transfer_receipt amount (some config) epoch q h =
    let (fee, chosen, charged) = >>=-eq-ok (select_active_transfer_fee config epoch) _ h in
    charge_receipt epoch amount fee q charged

gross_output_mono :
    (action : SettlementAction) (a b : ℕ) (rates : AssetRates) (x y : ℕ)
    → a ≤ b
    → compute_settlement_gross_output action (pos a) rates ≡ ok x
    → compute_settlement_gross_output action (pos b) rates ≡ ok y
    → x ≤ y
unfolding compute_settlement_gross_output
gross_output_mono mint a b rates x y low hx hy =
    let product : a * rates.deposit_rate_e9 ≤ b * rates.deposit_rate_e9 =
      mul-le-mul_right rates.deposit_rate_e9 low in
    rw (← ok-injective hx, ← ok-injective hy) (omega (arith, product))
gross_output_mono redeem a b rates x y low hx hy =
    let product : a * rates.redeem_rate_e9 ≤ b * rates.redeem_rate_e9 =
      mul-le-mul_right rates.redeem_rate_e9 low in
    rw (← ok-injective hx, ← ok-injective hy) (omega (arith, product))

rate_input_low :
    (action : SettlementAction) (requested : ℕ) (config : Option TransferFeeConfig) (epoch : ℤ)
    (q : FeeCalculation)
    → calculate_token_transfer_fee
        (pos (for_action action requested 0))
        (for_action action config none)
        epoch
      ≡ ok q
    → for_action action q.received_amount requested ≤ requested
unfolding for_action
rate_input_low mint requested config epoch q h = transfer_receipt requested config epoch q h
rate_input_low redeem requested config epoch q h = omega arith

reduction_lem :
    (received configured : ℕ)
    → received ≤ configured
    → (if ltb received configured then configured - received else 0) + received ≡ configured
reduction_lem received configured low = ground arith

-- The amounts of a resolution, from the receipt up to the configured output.
abbrev pub IsBounded : QuoteResolution → Type 0
IsBounded r =
    (r.effective_quote.principal_received_amount
      ≤ r.effective_quote.output_before_principal_transfer)
    × (r.effective_quote.output_before_principal_transfer ≤ r.gross_output)
    × (r.gross_output ≤ r.effective_quote.configured_gross_output)
    × (r.effective_quote.all_in_output_reduction + r.effective_quote.principal_received_amount
        ≡ r.effective_quote.configured_gross_output)

-- In every effective quote the principal receives no more than the output before the last transfer,
-- which is at most the gross output, which is at most what the requested input would give at the
-- configured rate; and the reduction that is reported makes up the difference to that exactly.
pub effective_quote-IsBounded :
    (action : SettlementAction) (requested : ℤ) (rates : AssetRates)
    (mint_values : Option TokenMint) (policy : Option FeePolicy) (now epoch : ℤ)
    (r : QuoteResolution)
    → compute_settlement_effective_quote action requested rates mint_values policy now epoch ≡ ok r
    → IsBounded r
unfolding compute_settlement_effective_quote resolution_of
effective_quote-IsBounded action (negsuc n) rates mint_values policy now epoch r h = absurd (cc)
effective_quote-IsBounded action (pos requested) rates mint_values policy now epoch r h =
    let (configured, e1, h1) =
      >>=-eq-ok (compute_settlement_gross_output action (pos requested) rates) _ h in
    let (input, e2, h2) = >>=-eq-ok (calculate_token_transfer_fee _ _ epoch) _ h1 in
    let (gross, e3, h3) = >>=-eq-ok (compute_settlement_gross_output action _ rates) _ h2 in
    let (quote, e4, h4) = >>=-eq-ok (compute_fee_quote action _ gross policy now) _ h3 in
    let (principal, e5, h5) =
      >>=-eq-ok (calculate_token_transfer_fee (pos quote.net_output) _ epoch) _ h4 in
    let (routed, e6, h6) = >>=-eq-ok (routed_transfer quote.routed quote.net_fee _ epoch) _ h5 in
    let all = ok-injective h6 in
    let receipt = transfer_receipt quote.net_output _ epoch principal e5 in
    let output_low = net_output-le action _ gross policy now quote e4 in
    let rate_low = rate_input_low action requested (mint_fee_config mint_values) epoch input e2 in
    let gross_low = gross_output_mono action _ requested rates gross configured rate_low e3 e1 in
    let in_all : principal.received_amount ≤ configured =
      omega (arith, receipt, output_low, gross_low) in
    subst IsBounded all
      (receipt, output_low, gross_low, reduction_lem principal.received_amount configured in_all)
