-- ===== src/Tests/Client.antt =====
-- A quote of a redemption, and settlements that raise no issue.
use chancery_integration_exa.Common.{
  ℕ, ◌≡◌, refl, arith, true, false, ◌&&◌, some, none, List, [], ◌∷◌, ok, replicate,
}
use chancery_integration_exa.Common.Int.{pos}
use chancery_integration_exa.Settlement.{
  AssetRates, redeem, asset, compute_settlement_gross_output, compute_fee_quote,
  expected_denomination, observed, has_flag, zero_address,
}
use chancery_integration_exa.Base58.{every_zero}
use chancery_integration_exa.Tokens.{calculate_token_transfer_fee}
use chancery_integration_exa.Client.{
  QuoteResolution, compute_settlement_effective_quote, resolution_of, quotient, for_action,
  mint_fee_config, is_unavailable, is_unmodeled, received_of, routed_transfer, mint_unavailable,
}
use chancery_integration_exa.Client.AllIn.{IsBounded, effective_quote-IsBounded}
use chancery_integration_exa.Client.Validation.{
  AmountLimits, TokenAccountSnapshot, validate_amount, validate_token_accounts, check_balance,
  validate_extension_freshness,
}
use chancery_integration_exa.Client.Cleared.{IsFunded, validate-IsFunded}
use chancery_integration_exa.Client.Gates.{
  AssetGate, TokenGate, PathwayGate, validate_core_settlement_gates, evidence_issues, labelled,
  token_extension_issues, asset_extension_issues, word_issue, mode_issues, module_active, extra_bit,
  common_bit,
}
use chancery_integration_exa.Client.Extensions.{IsAdmitted, gates-IsAdmitted}

abbrev rates : AssetRates
rates = record { deposit_rate_e9 = 1000000000; redeem_rate_e9 = 990000000 }

abbrev redeemed : QuoteResolution
redeemed = record {
  gross_output = 99;
  fee_quote = record {
    gross_input = 100;
    gross_output = 99;
    denomination = asset;
    assessed_fee = 0;
    nominal_rebate = 0;
    effective_rebate = 0;
    net_fee = 0;
    net_output = 99;
    routed = false;
    fee_recipient_owner = zero_address;
    effective = true;
    observations = [];
  };
  effective_quote = record {
    action = redeem;
    current_epoch = pos 3;
    configured_rate_e9 = 990000000;
    configured_gross_output = 99;
    rate_input_amount = 100;
    gross_output = 99;
    input_asset_transfer = record {
      fee_epoch = pos 3;
      amount = 0;
      basis_points = 0;
      maximum = 0;
      fee_amount = 0;
      received_amount = 0;
    };
    chancery_fee_amount = 0;
    chancery_fee_basis_points = some 0;
    output_before_principal_transfer = 99;
    principal_asset_transfer = record {
      fee_epoch = pos 3;
      amount = 99;
      basis_points = 0;
      maximum = 0;
      fee_amount = 0;
      received_amount = 99;
    };
    principal_received_amount = 99;
    routed_fee_transfer = none;
    fee_recipient_received_amount = 0;
    all_in_output_reduction = 0;
    all_in_fee_basis_points = some 0;
    effective_output_rate_e9 = some 990000000;
    requires_simulation_for_exact_amount = true;
    observations = mint_unavailable ∷ [];
  };
}

redeemed_run :
    compute_settlement_effective_quote redeem (pos 100) rates none none (pos 0) (pos 3)
    ≡ ok redeemed
unfolding compute_settlement_effective_quote resolution_of quotient for_action mint_fee_config
    is_unavailable is_unmodeled received_of routed_transfer compute_settlement_gross_output
    compute_fee_quote expected_denomination observed calculate_token_transfer_fee
redeemed_run = refl

effective_quote-IsBounded_example : IsBounded redeemed
effective_quote-IsBounded_example =
    effective_quote-IsBounded redeem (pos 100) rates none none (pos 0) (pos 3) redeemed redeemed_run

abbrev limits : AmountLimits
limits = record {
  minimum_deposit_amount = 1;
  minimum_redeem_amount = 10;
  maximum_single_settlement_amount = 0;
}

abbrev funded : TokenAccountSnapshot
funded = record {
  address = [];
  present = true;
  values = some (record {
    mint = [];
    owner = [];
    held = 200;
    delegate = none;
    state = 1;
    native_reserve = none;
    delegated_amount = 0;
    close_authority = none;
    total_size = 165;
    has_extensions = false;
  });
}

amount_run : validate_amount redeem 100 90 limits 99 ≡ []
unfolding validate_amount for_action observed
amount_run = refl

accounts_run : validate_token_accounts redeem 100 99 funded funded funded funded false ≡ []
unfolding validate_token_accounts check_balance for_action observed
accounts_run = refl

validate-IsFunded_example : IsFunded redeem 100 90 limits 99 99 funded funded funded
validate-IsFunded_example =
    validate-IsFunded redeem 100 90 limits 99 99 funded funded funded funded false amount_run
      accounts_run

abbrev asset_gate : AssetGate
asset_gate = record {
  mode = 1;
  observed_at_slot = 5;
  maximum_age_slots = 10;
  observed_mask = (6, 0);
  approved_mask = (14, 0);
  forbidden_mask = (1, 0);
}

abbrev token_gate : TokenGate
token_gate = record {
  control_flags = 9223372036854775808;
  observed_at_slot = 5;
  maximum_age_slots = 0;
  active_mask = (2, 1);
}

abbrev pathway_gate : PathwayGate
pathway_gate = record {
  forbidden_collateral_mask = (8, 0);
  forbidden_token_mask = (1, 0);
  evidence_policy_id = replicate 32 0;
}

abbrev statuses : List ℕ
statuses = 0 ∷ (0 ∷ (0 ∷ (0 ∷ (2 ∷ []))))

gates_run :
    validate_core_settlement_gates redeem 9 statuses asset_gate token_gate pathway_gate none ≡ []
unfolding validate_core_settlement_gates evidence_issues labelled token_extension_issues
    asset_extension_issues word_issue mode_issues module_active extra_bit common_bit
    validate_extension_freshness observed has_flag every_zero
gates_run = refl

gates-IsAdmitted_example :
    (module_active statuses ≡ true)
    × (has_flag 9223372036854775808 63 ≡ true)
    × IsAdmitted 6 14 1 8 2
    × IsAdmitted 0 0 0 0 2
    × (has_flag 6 0 ≡ false)
    × ((has_flag 2 2 && has_flag 1 2) ≡ false)
    × ((has_flag 1 2 && has_flag 0 2) ≡ false)
gates-IsAdmitted_example =
    gates-IsAdmitted redeem 9 statuses asset_gate token_gate pathway_gate none 2 gates_run
      (omega arith)
