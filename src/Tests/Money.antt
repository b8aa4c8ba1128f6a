-- ===== src/Tests/Money.antt =====
-- Runs of the settlement and token arithmetic, and its theorems at concrete inputs.
use chancery_integration_exa.Common.{
  ℕ, ◌≡◌, ◌≢◌, ◌≤◌, ◌<◌, ◌+◌, ◌*◌, ◌↔◌, ◌⊎◌, refl, arith, List, [], ◌∷◌, ◌++◌, replicate, none,
  some, true, false, ok,
}
use chancery_integration_exa.Common.Int.{pos, negsuc, pos_part, neg_part}
use chancery_integration_exa.Base58.{every_zero}
use chancery_integration_exa.Settlement.{
  mint, FeePolicy, FeeQuote, issued_token, has_flag, rounded_basis_points, expected_denomination,
  policy_denomination, same_denomination, observed, in_force, cap_amount, flat_fee, raw_fee,
  assessed, nominal, effective_of, difference_or_zero, quote_from, compute_fee_quote,
}
use chancery_integration_exa.Settlement.Clean.{IsUnremarked}
use chancery_integration_exa.Settlement.Fees.{
  rounded_basis_points_bounds, fee_quote_limits, fee_quote_amounts, clean_quote, IsLeftOf, IsRebate,
}
use chancery_integration_exa.Settlement.Windows.{
  floor_division, period_seconds, canonical_window_start, UsageWindow, LimitWindowObservation,
  words_to_unsigned128, accumulator, remaining_of, uses_stored, stored_amount, stored_count,
  stored_start, is_rolled, is_regressed, observe_from, observe_window,
}
use chancery_integration_exa.Settlement.Windows.Starts.{canonical_window_start_bounds}
use chancery_integration_exa.Settlement.Windows.Observed.{window_allows, window_rolls, window_clock}
use chancery_integration_exa.Tokens.{
  slice_exact, read_unsigned_little_endian, decode_optional_nonzero_public_key, TransferFee,
  TransferFeeConfig, decode_transfer_fee, decode_transfer_fee_config, FeeCalculation,
  calculate_token_transfer_fee,
}
use chancery_integration_exa.Tokens.Fees.{IsCharged, token_transfer_fee_total}
use chancery_integration_exa.Wire.{decode_unsigned_integer}

-- A quarter of a percent in the issued token, in force at every time, rebated by 10 units.
abbrev quarter_percent : FeePolicy
quarter_percent = record {
  fee_policy_flags = 18;
  effective_from = pos 0;
  effective_until = pos 0;
  flat_fee_in_asset = 0;
  flat_fee_in_issued_token = 0;
  percent_fee_bps = 25;
  rounding = 1;
  fee_cap_amount = 100;
  minimum_fee_amount = 1;
  rebate_flat_amount = 10;
  rebate_bps = 0;
  rebate_cap_amount = 0;
  net_fee_floor_zero = 1;
  fee_recipient_policy = 1;
  fee_recipient_key = [];
}

-- 25 units are assessed, and 15 are kept.
abbrev quarter_quote : FeeQuote
quarter_quote = record {
  gross_input = 10000;
  gross_output = 10000;
  denomination = issued_token;
  assessed_fee = 25;
  nominal_rebate = 10;
  effective_rebate = 10;
  net_fee = 15;
  net_output = 9985;
  routed = true;
  fee_recipient_owner = [];
  effective = true;
  observations = [];
}

quarter_quoted :
    compute_fee_quote mint 10000 10000 (some quarter_percent) (pos 5) ≡ ok quarter_quote
unfolding compute_fee_quote quote_from raw_fee rounded_basis_points flat_fee assessed cap_amount
    nominal effective_of difference_or_zero observed policy_denomination expected_denomination
    same_denomination has_flag in_force
quarter_quoted = refl

clean_quote_example : IsUnremarked mint 10000 quarter_percent (pos 5) quarter_quote
clean_quote_example =
    clean_quote mint 10000 10000 quarter_percent (pos 5) quarter_quote quarter_quoted refl

fee_quote_amounts_example :
    IsLeftOf quarter_quote.net_fee quarter_quote.assessed_fee quarter_quote.effective_rebate
    × IsLeftOf quarter_quote.net_output 10000 quarter_quote.net_fee
    × IsRebate (some quarter_percent) quarter_quote
fee_quote_amounts_example =
    fee_quote_amounts mint 10000 10000 (some quarter_percent) (pos 5) quarter_quote quarter_quoted

fee_quote_limits_example :
    (quarter_percent.minimum_fee_amount ≤ quarter_quote.assessed_fee)
    × ((quarter_percent.fee_cap_amount ≡ 0)
        ⊎ (quarter_quote.assessed_fee ≤ quarter_percent.fee_cap_amount)
        ⊎ (quarter_quote.assessed_fee ≡ quarter_percent.minimum_fee_amount))
    × ((quarter_percent.rebate_cap_amount ≡ 0)
        ⊎ (quarter_quote.nominal_rebate ≤ quarter_percent.rebate_cap_amount))
    × (quarter_percent.net_fee_floor_zero ≢ 0
        → quarter_quote.effective_rebate ≤ quarter_quote.assessed_fee)
fee_quote_limits_example =
    fee_quote_limits mint 10000 10000 quarter_percent (pos 5) quarter_quote quarter_quoted

percent_rounded_up : rounded_basis_points 10001 25 1 ≡ ok 26
unfolding rounded_basis_points
percent_rounded_up = refl

rounded_basis_points_bounds_example :
    (◌≤◌ 1 2)
    × (◌≡◌ {A = ℕ} 1 0 → (26 * 10000 ≤ 10001 * 25) × (10001 * 25 < 26 * 10000 + 10000))
    × (◌≡◌ {A = ℕ} 1 1 → (10001 * 25 ≤ 26 * 10000) × (26 * 10000 < 10001 * 25 + 10000))
    × (◌≡◌ {A = ℕ} 1 2 → (10001 * 25 < 26 * 10000 + 5000) × (26 * 10000 ≤ 10001 * 25 + 5000))
rounded_basis_points_bounds_example = rounded_basis_points_bounds 10001 25 1 26 percent_rounded_up

-- Half an hour before the epoch the hour before it has begun.
hour_before : canonical_window_start 0 (negsuc 1799) ≡ ok (negsuc 3599)
unfolding canonical_window_start period_seconds floor_division
hour_before = refl

hour_period : period_seconds 0 ≡ ok 3600
unfolding period_seconds
hour_period = refl

canonical_window_start_bounds_example :
    (pos_part (negsuc 3599) + neg_part (negsuc 1799)
      ≤ pos_part (negsuc 1799) + neg_part (negsuc 3599))
    × (pos_part (negsuc 1799) + neg_part (negsuc 3599)
        < pos_part (negsuc 3599) + neg_part (negsuc 1799) + 3600)
canonical_window_start_bounds_example =
    canonical_window_start_bounds 0 (negsuc 1799) (negsuc 3599) 3600 hour_period hour_before

abbrev first_hour : UsageWindow
first_hour = record {
  window_start = pos 3600;
  gross_in = (40, 0);
  gross_output_amount = (0, 0);
  action_count = 3;
}

first_hour_start : canonical_window_start 0 (pos 3700) ≡ ok (pos 3600)
unfolding canonical_window_start period_seconds floor_division
first_hour_start = refl

next_hour_start : canonical_window_start 0 (pos 7300) ≡ ok (pos 7200)
unfolding canonical_window_start period_seconds floor_division
next_hour_start = refl

abbrev within : LimitWindowObservation
within = record {
  kind = 0;
  maximum = 100;
  stored_window_start = some (pos 3600);
  canonical_start = pos 3600;
  rolled_before_check = false;
  clock_regression = false;
  current_amount = 40;
  proposed_amount = 25;
  projected_amount = 65;
  remaining_before = some 60;
  remaining_after = some 35;
  allowed = true;
  current_action_count = 3;
  projected_action_count = 4;
  maximum_action_count = 0;
  action_remaining_before = none;
  action_remaining_after = none;
  action_allowed = true;
}

within_observed : observe_window mint 25 (pos 3800) 0 100 0 (some first_hour) ≡ ok within
unfolding observe_window canonical_window_start period_seconds floor_division observe_from
    remaining_of stored_amount stored_count uses_stored accumulator words_to_unsigned128
    stored_start is_rolled is_regressed
within_observed = refl

window_allows_example :
    (before : ℕ) × (after : ℕ) × (within.remaining_before ≡ some before)
    × (within.remaining_after ≡ some after)
    × (before ≡ after + 25)
    × (within.projected_amount + after ≡ 100)
window_allows_example =
    window_allows mint 25 (pos 3800) 0 100 0 (some first_hour) within (omega arith) within_observed
      refl

abbrev rolled : LimitWindowObservation
rolled = record {
  kind = 0;
  maximum = 100;
  stored_window_start = some (pos 3600);
  canonical_start = pos 7200;
  rolled_before_check = true;
  clock_regression = false;
  current_amount = 0;
  proposed_amount = 25;
  projected_amount = 25;
  remaining_before = some 100;
  remaining_after = some 75;
  allowed = true;
  current_action_count = 0;
  projected_action_count = 1;
  maximum_action_count = 0;
  action_remaining_before = none;
  action_remaining_after = none;
  action_allowed = true;
}

rolled_observed : observe_window mint 25 (pos 7300) 0 100 0 (some first_hour) ≡ ok rolled
unfolding observe_window canonical_window_start period_seconds floor_division observe_from
    remaining_of stored_amount stored_count uses_stored accumulator words_to_unsigned128
    stored_start is_rolled is_regressed
rolled_observed = refl

window_rolls_example :
    (rolled.rolled_before_check ≡ true)
    × (rolled.current_amount ≡ 0)
    × (rolled.current_action_count ≡ 0)
    × (rolled.clock_regression ≡ false)
    × ((rolled.allowed ≡ true) ↔ (◌≢◌ {A = ℕ} 100 0 → 25 ≤ 100))
window_rolls_example =
    window_rolls mint 25 (pos 7300) 0 100 0 first_hour (pos 7200) rolled rolled_observed
      next_hour_start refl

window_clock_example : rolled.clock_regression ≡ false
window_clock_example =
    window_clock mint 25 (pos 7300) 0 100 0 first_hour (pos 3700) rolled (omega arith)
      first_hour_start rolled_observed

-- A configuration of 1% up to 7 units, and of 2% up to 9 units from epoch 2 on.
abbrev fee_config_bytes : List ℕ
fee_config_bytes =
    replicate 80 0
    ++ (7 ∷ replicate 7 0)
    ++ (100 ∷ (0 ∷ []))
    ++ (2 ∷ replicate 7 0)
    ++ (9 ∷ replicate 7 0)
    ++ (200 ∷ (0 ∷ []))

abbrev one_percent : TransferFee
one_percent = record { epoch = 0; maximum_fee = 7; transfer_fee_basis_points = 100 }

abbrev two_percent : TransferFee
two_percent = record { epoch = 2; maximum_fee = 9; transfer_fee_basis_points = 200 }

abbrev fee_config : TransferFeeConfig
fee_config = record {
  transfer_fee_config_authority = none;
  withdraw_withheld_authority = none;
  withheld_amount = 0;
  older_transfer_fee = one_percent;
  newer_transfer_fee = two_percent;
}

fee_config_decoded : decode_transfer_fee_config fee_config_bytes ≡ ok fee_config
unfolding decode_transfer_fee_config decode_transfer_fee decode_optional_nonzero_public_key
    read_unsigned_little_endian slice_exact decode_unsigned_integer every_zero
fee_config_decoded = refl

token_transfer_fee_total_example :
    (q : FeeCalculation) × (calculate_token_transfer_fee (pos 450) (some fee_config) (pos 3) ≡ ok q)
    × (3 < 2 → IsCharged one_percent 3 450 q)
    × (2 ≤ 3 → IsCharged two_percent 3 450 q)
token_transfer_fee_total_example =
    token_transfer_fee_total fee_config_bytes fee_config 450 3 fee_config_decoded
